-- ===== src/Planner/Scope/Join.antt =====
-- How references resolve in the scope of a join, by ferrite-planner/src/scope.rs and `scope` of
-- logical.rs.
use ferrite.Prelude.{
  ℕ, zero, suc, ◌+◌, ◌<◌, ◌≡◌, refl, sym, ap, subst, ◌∙◌, Bool, true, false, none, some, List, [],
  ◌∷◌, ◌++◌, map, length, get_elem?, arith, if◌then◌else◌, Bool-cases, inl, inr, ◌==◌,
  get_elem?-append_lt, get_or, get_elem?-get_or,
}
use ferrite.Common.Error.{ok}
use ferrite.Common.Value.{Value, null}
use ferrite.Common.Schema.{ColumnDef}
use ferrite.Planner.Named.{ColumnRef}
use ferrite.Planner.Scope.{
  ScopeColumn, Scope, made_nullable, nullable, names, positions_from, candidates, can_resolve,
  resolve, column_at, the_only, or_out_of_range,
}
use ferrite.Planner.Logical.{JoinType, join_scope, preserves_left, preserves_right}

positions_from-append :
    (f : ScopeColumn → Bool) (n : ℕ) (xs ys : List ScopeColumn)
    → positions_from f n (xs ++ ys) ≡ positions_from f n xs ++ positions_from f (n + length xs) ys
positions_from-append f n [] ys = ap (λ k. positions_from f k ys) (omega arith)
positions_from-append f n (x ∷ xs) ys =
    let later = positions_from-append f (suc n) xs ys in
    let same : suc n + length xs ≡ n + suc (length xs) = omega arith in
    elim (Bool-cases (f x)) [ inl h ↦ rw (h, later, same) refl | inr h ↦ rw (h, later, same) refl ]

positions_from-nullable :
    (r : ColumnRef) (n : ℕ) (xs : List ScopeColumn)
    → positions_from (names r) n (map made_nullable xs) ≡ positions_from (names r) n xs
positions_from-nullable r n [] = refl
positions_from-nullable r n (x ∷ xs) = rw (positions_from-nullable r (suc n) xs) refl

shift :
    (f : ScopeColumn → Bool) (n k : ℕ) (xs : List ScopeColumn)
    → positions_from f (n + k) xs ≡ map (λ i. n + i) (positions_from f k xs)
shift f n k [] = refl
shift f n k (x ∷ xs) =
    let later = shift f n (suc k) xs in
    let same : suc (n + k) ≡ n + suc k = omega arith in
    elim (Bool-cases (f x)) [ inl h ↦ rw (h, same, later) refl | inr h ↦ rw (h, same, later) refl ]

-- What stands at the first position.
position-occupied :
    (f : ScopeColumn → Bool) (n i : ℕ) (is : List ℕ) (xs : List ScopeColumn)
    → positions_from f n xs ≡ i ∷ is
    → (k : ℕ) × (e : ScopeColumn) × (i ≡ n + k) × (get_elem? xs k ≡ some e)
position-occupied f n i is [] h = cc
position-occupied f n i is (x ∷ xs) h = elim (Bool-cases (f x)) [
  | inl t ↦ (0, x, ground (arith), refl)
  | inr t ↦
      let (k, e, at, occupied) = position-occupied f (suc n) i is xs (rw t at h) in
      (suc k, e, omega arith, occupied)
]

positions_from-side :
    (b : Bool) (s : Scope) (c : ColumnRef) (n : ℕ)
    → positions_from (names c) n (if b then nullable s else s).columns
      ≡ positions_from (names c) n s.columns
positions_from-side true s c n = positions_from-nullable c n s.columns
positions_from-side false s c n = refl

length-nullable : (xs : List ScopeColumn) → length (map made_nullable xs) ≡ length xs
length-nullable [] = refl
length-nullable (x ∷ xs) = ap suc (length-nullable xs)

pub length-side :
    (b : Bool) (s : Scope) → length (if b then nullable s else s).columns ≡ length s.columns
length-side true s = length-nullable s.columns
length-side false s = refl

get_elem?-nullable :
    (xs : List ScopeColumn) (i : ℕ) (e : ScopeColumn)
    → get_elem? xs i ≡ some e
    → get_elem? (map made_nullable xs) i ≡ some (made_nullable e)
get_elem?-nullable [] i e h = cc
get_elem?-nullable (x ∷ xs) zero e h =
    ap (λ o. elim o [ none ↦ none | some y ↦ some (made_nullable y) ]) h
get_elem?-nullable (x ∷ xs) (suc i) e h = get_elem?-nullable xs i e h

-- A column of a side, as the join sees it.
get_elem?-side :
    (b : Bool) (s : Scope) (i : ℕ) (e : ScopeColumn)
    → get_elem? s.columns i ≡ some e
    → (d : ScopeColumn) × (get_elem? (if b then nullable s else s).columns i ≡ some d)
      × (d.column.data_type ≡ e.column.data_type)
get_elem?-side true s i e h = (made_nullable e, get_elem?-nullable s.columns i e h, refl)
get_elem?-side false s i e h = (e, h, refl)

get_elem?-append_some :
    {A : Type 0} (xs ys : List A) (i : ℕ) (a : A)
    → get_elem? xs i ≡ some a
    → get_elem? (xs ++ ys) i ≡ some a
get_elem?-append_some [] ys i a h = cc
get_elem?-append_some (x ∷ xs) ys zero a h = h
get_elem?-append_some (x ∷ xs) ys (suc i) a h = get_elem?-append_some xs ys i a h

get_elem?-append_right :
    {A : Type 0} (xs ys : List A) (i : ℕ) → get_elem? (xs ++ ys) (length xs + i) ≡ get_elem? ys i
get_elem?-append_right [] ys i = ap (λ k. get_elem? ys k) (omega arith)
get_elem?-append_right (x ∷ xs) ys i =
    let same : suc (length xs) + i ≡ suc (length xs + i) = omega arith in
    rw same (get_elem?-append_right xs ys i)

get_elem?-in : {A : Type 0} (xs : List A) (i : ℕ) (a : A) → get_elem? xs i ≡ some a → i < length xs
get_elem?-in [] i a h = cc
get_elem?-in (x ∷ xs) zero a h = omega arith
get_elem?-in (x ∷ xs) (suc i) a h = let later = get_elem?-in xs i a h in omega arith

-- The candidates in the two sides of a join, side by side.
candidates-join :
    (j : JoinType) (l r : Scope) (c : ColumnRef)
    → candidates (join_scope j l r) c
      ≡ candidates l c ++ map (λ i. length l.columns + i) (candidates r c)
candidates-join j l r c =
    let first = (if preserves_right j then nullable l else l).columns in
    let second = (if preserves_left j then nullable r else r).columns in
    positions_from-append (names c) 0 first second
    ∙ rw
        (
          positions_from-side (preserves_right j) l c 0,
          length-side (preserves_right j) l,
          positions_from-side (preserves_left j) r c (0 + length l.columns),
        )
        (ap (λ k. candidates l c ++ k)
          (ap (λ n. positions_from (names c) n r.columns) (omega arith)
            ∙ shift (names c) (length l.columns) 0 r.columns))

the_element : (xs : List ℕ) → (length xs == 1) ≡ true → (i : ℕ) × (xs ≡ i ∷ [])
the_element [] h = cc
the_element (i ∷ []) h = (i, refl)
the_element (i ∷ k ∷ is) h = absurd (ground arith)

last_of : (xs : List ℕ) (i a : ℕ) → xs ++ (i ∷ []) ≡ a ∷ [] → a ≡ i
last_of [] i a h = cc
last_of (x ∷ []) i a h = cc
last_of (x ∷ y ∷ xs) i a h = cc

-- A reference names columns of one type and one value in both scopes, of which v and w are rows.
pub record Agrees (s t : Scope) (v w : List Value) (reference : ColumnRef) : Type 0 where
  pub first : ℕ
  pub second : ℕ
  pub first_column : ColumnDef
  pub second_column : ColumnDef
  pub resolve_first : resolve s reference ≡ ok first
  pub resolve_second : resolve t reference ≡ ok second
  pub at_first : column_at s first ≡ ok first_column
  pub at_second : column_at t second ≡ ok second_column
  pub data_type : first_column.data_type ≡ second_column.data_type
  pub value : Value
  pub value_first : get_elem? v first ≡ some value
  pub value_second : get_elem? w second ≡ some value

-- Where a scope resolves a reference, there stands a column.
resolved_column :
    (s : Scope) (c : ColumnRef) (i : ℕ)
    → candidates s c ≡ i ∷ []
    → (e : ScopeColumn) × (get_elem? s.columns i ≡ some e)
resolved_column s c i h =
    let (k, e, at, occupied) = position-occupied (names c) 0 i [] s.columns h in
    let same : i ≡ k = omega arith in
    (e, subst (λ n. get_elem? s.columns n ≡ some e) (sym same) occupied)

column_at-some :
    (s : Scope) (i : ℕ) (e : ScopeColumn)
    → get_elem? s.columns i ≡ some e
    → column_at s i ≡ ok e.column
column_at-some s i e h = ap (or_out_of_range i) h

module _ (j : JoinType) (l r : Scope) (v w : List Value) (wide : length v ≡ length l.columns) where
  abbrev joined : Scope
  joined = join_scope j l r

  -- The left side resolves a reference that the join resolves.
  pub left-Agrees :
      (c : ColumnRef)
      → can_resolve joined c ≡ true
      → can_resolve l c ≡ true
      → Agrees joined l (v ++ w) v c
  left-Agrees c h k =
      let (i, one) = the_element (candidates l c) k in
      let both = candidates-join j l r c in
      let (all, whole) = the_element (candidates joined c) h in
      let found : i ∷ map (λ i. length l.columns + i) (candidates r c) ≡ all ∷ [] =
        ap (λ is. is ++ map (λ i. length l.columns + i) (candidates r c)) (sym one)
        ∙ sym both
        ∙ whole in
      let same : all ≡ i = cc in
      let (e, at) = resolved_column l c i one in
      let (d, seen, infer-Typed) = get_elem?-side (preserves_right j) l i e at in
      let inside = get_elem?-in l.columns i e at in
      let there = get_elem?-get_or v i null (omega arith) in
      record {
        first = i;
        second = i;
        first_column = d.column;
        second_column = e.column;
        resolve_first = ap (the_only c) (whole ∙ ap (λ n. n ∷ []) same);
        resolve_second = ap (the_only c) one;
        at_first = column_at-some joined i d (get_elem?-append_some _ _ i d seen);
        at_second = column_at-some l i e at;
        data_type = infer-Typed;
        value = get_or v i null;
        value_first = get_elem?-append_lt v w i (omega arith) ∙ there;
        value_second = there;
      }

  -- The right side resolves a reference that the join resolves, and the left side does not.
  pub right-Agrees :
      (c : ColumnRef)
      → length w ≡ length r.columns
      → can_resolve joined c ≡ true
      → can_resolve r c ≡ true
      → Agrees joined r (v ++ w) w c
  right-Agrees c deep h k =
      let (i, one) = the_element (candidates r c) k in
      let both = candidates-join j l r c in
      let (all, whole) = the_element (candidates joined c) h in
      let found : candidates l c ++ ((length l.columns + i) ∷ []) ≡ all ∷ [] =
        ap (λ is. candidates l c ++ map (λ i. length l.columns + i) is) (sym one)
        ∙ sym both
        ∙ whole in
      let same : all ≡ length l.columns + i = last_of (candidates l c) _ all found in
      let (e, at) = resolved_column r c i one in
      let inside = get_elem?-in r.columns i e at in
      let there = get_elem?-get_or w i null (omega arith) in
      let (d, seen, infer-Typed) = get_elem?-side (preserves_left j) r i e at in
      let first = (if preserves_right j then nullable l else l).columns in
      let second = (if preserves_left j then nullable r else r).columns in
      let moved : get_elem? (first ++ second) (length l.columns + i) ≡ some d =
        ap (λ n. get_elem? (first ++ second) (n + i)) (sym (length-side (preserves_right j) l))
        ∙ get_elem?-append_right first second i
        ∙ seen in
      record {
        first = length l.columns + i;
        second = i;
        first_column = d.column;
        second_column = e.column;
        resolve_first = ap (the_only c) (whole ∙ ap (λ n. n ∷ []) same);
        resolve_second = ap (the_only c) one;
        at_first = column_at-some joined (length l.columns + i) d moved;
        at_second = column_at-some r i e at;
        data_type = infer-Typed;
        value = get_or w i null;
        value_first =
            ap (λ n. get_elem? (v ++ w) (n + i)) (sym wide) ∙ get_elem?-append_right v w i ∙ there;
        value_second = there;
      }
