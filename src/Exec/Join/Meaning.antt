-- ===== src/Exec/Join/Meaning.antt =====
-- The rows that `nested_loop_join` of ferrite-exec/src/executor.rs gives, against the meaning of a join.
use ferrite.Prelude.{
  ℕ, suc, ◌≡◌, refl, sym, ap, subst, ◌∙◌, Bool, true, false, ◌||◌, List, [], ◌∷◌, ◌++◌, map, length,
  set, get_or, replicate, append-nil, append_assoc, if◌then◌else◌, Bool-cases, inl, inr, arith,
  length-append,
}
use ferrite.Common.Value.{null, Row}
use ferrite.Planner.Logical.{JoinType, preserves_left, preserves_right}
use ferrite.Planner.Rules.Relation.{
  Table, Test, matches, has_match, padded, left_rows, unmatched, join_rows,
}
use ferrite.Planner.Rules.Relation
use ferrite.Exec.Session.{Tuple}
use ferrite.Exec.Join.{concat, made, first_width, Progress, start}
use ferrite.Exec.Join.Loops.{hit, inner_pure, pad_pure, outer_pure, spared, right_pure}

abbrev pub rows_of : List Tuple → Table
rows_of ts = map (λ (t : Tuple). t.row.values) ts

abbrev tuples : Table → List Tuple
tuples [] = []
tuples (v ∷ vs) = made (record { values = v }) ∷ tuples vs

rows_of-append : (ts us : List Tuple) → rows_of (ts ++ us) ≡ rows_of ts ++ rows_of us
rows_of-append [] us = refl
rows_of-append (t ∷ ts) us = ap (λ l. t.row.values ∷ l) (rows_of-append ts us)

found : Table → Bool
found [] = false
found (v ∷ vs) = true

hit-out :
    (b : Bool) (i : ℕ) (row : Row) (p : Progress) (vs : Table)
    → rows_of (hit b i row p).out ++ vs ≡ rows_of p.out ++ (if b then row.values ∷ vs else vs)
hit-out true i row p vs =
    ap (λ l. l ++ vs) (rows_of-append p.out (made row ∷ []))
    ∙ append_assoc (rows_of p.out) (row.values ∷ []) vs
hit-out false i row p vs = refl

hit-any :
    (b : Bool) (i : ℕ) (row : Row) (p : Progress) (vs : Table)
    → (hit b i row p).any || found vs ≡ p.any || found (if b then row.values ∷ vs else vs)
unfolding found
hit-any true i row p vs = ground arith
hit-any false i row p vs = refl

set-middle :
    (done : List Bool) (b c : Bool) (rest : List Bool)
    → set (done ++ b ∷ rest) (length done) c ≡ done ++ c ∷ rest
set-middle [] b c rest = refl
set-middle (d ∷ done) b c rest = ap (λ l. d ∷ l) (set-middle done b c rest)

get_or-middle :
    (done : List Bool) (b : Bool) (rest : List Bool)
    → get_or (done ++ b ∷ rest) (length done) false ≡ b
get_or-middle [] b rest = refl
get_or-middle (d ∷ done) b rest = get_or-middle done b rest

length-snoc : (done : List Bool) (b : Bool) → length (done ++ b ∷ []) ≡ suc (length done)
length-snoc done b = length-append done (b ∷ []) ∙ omega arith

hit-matched :
    (b : Bool) (row : Row) (p : Progress) (done : List Bool) (c : Bool) (rest : List Bool)
    → p.matched ≡ done ++ c ∷ rest
    → (hit b (length done) row p).matched ≡ done ++ (c || b) ∷ rest
hit-matched true row p done c rest h =
    ap (λ ms. set ms (length done) true) h
    ∙ set-middle done c true rest
    ∙ ap (λ x. done ++ x ∷ rest) (ground arith)
hit-matched false row p done c rest h = h ∙ ap (λ x. done ++ x ∷ rest) (ground arith)

spared-out :
    (b : Bool) (width : ℕ) (r : Tuple) (p : Progress) (vs : Table)
    → rows_of (spared b width r p).out ++ vs
      ≡ rows_of p.out ++ (if b then vs else (replicate width null ++ r.row.values) ∷ vs)
spared-out true width r p vs = refl
spared-out false width r p vs =
    ap (λ l. l ++ vs) (rows_of-append p.out _) ∙ append_assoc (rows_of p.out) _ vs

spared-matched :
    (b : Bool) (width : ℕ) (r : Tuple) (p : Progress) → (spared b width r p).matched ≡ p.matched
spared-matched true width r p = refl
spared-matched false width r p = refl

module _ (on : Test) where
  inner-out :
      (l : Tuple) (i : ℕ) (rs : List Tuple) (p : Progress)
      → rows_of (inner_pure on l i rs p).out ≡ rows_of p.out ++ matches on l.row.values (rows_of rs)
  unfolding inner_pure
  inner-out l i [] p = sym (append-nil _)
  inner-out l i (r ∷ rs) p =
      inner-out l (suc i) rs _
      ∙ hit-out (on (l.row.values ++ r.row.values)) i (concat l.row.values r.row.values) p
          (matches on l.row.values (rows_of rs))

  inner-any :
      (l : Tuple) (i : ℕ) (rs : List Tuple) (p : Progress)
      → (inner_pure on l i rs p).any ≡ p.any || found (matches on l.row.values (rows_of rs))
  unfolding inner_pure found
  inner-any l i [] p = ground arith
  inner-any l i (r ∷ rs) p =
      inner-any l (suc i) rs _
      ∙ hit-any (on (l.row.values ++ r.row.values)) i (concat l.row.values r.row.values) p
          (matches on l.row.values (rows_of rs))

  flags : Table → List Tuple → List Bool
  flags ls [] = []
  flags ls (r ∷ rs) = has_match on r.row.values ls ∷ flags ls rs

  has_match-snoc :
      (r l : Relation.Tuple) (ls : Table)
      → has_match on r (ls ++ l ∷ []) ≡ has_match on r ls || on (l ++ r)
  has_match-snoc r l [] = ground arith
  has_match-snoc r l (k ∷ ls) = ground (arith, has_match-snoc r l ls)

  inner-matched :
      (seen : Table) (l : Tuple) (done : List Bool) (rs : List Tuple) (p : Progress)
      → p.matched ≡ done ++ flags seen rs
      → (inner_pure on l (length done) rs p).matched ≡ done ++ flags (seen ++ l.row.values ∷ []) rs
  unfolding inner_pure flags
  inner-matched seen l done [] p h = h
  inner-matched seen l done (r ∷ rs) p h =
      let step = on (l.row.values ++ r.row.values) in
      let old = has_match on r.row.values seen in
      let joined = concat l.row.values r.row.values in
      let later = flags (seen ++ l.row.values ∷ []) rs in
      let marked = hit-matched step joined p done old (flags seen rs) h in
      let q = hit step (length done) joined p in
      let next =
        inner-matched seen l (done ++ (old || step) ∷ []) rs q
          (marked ∙ sym (append_assoc done ((old || step) ∷ []) (flags seen rs))) in
      subst (λ n. (inner_pure on l n rs q).matched ≡ (done ++ (old || step) ∷ []) ++ later)
        (length-snoc done (old || step)) next
      ∙ append_assoc done ((old || step) ∷ []) later
      ∙ ap (λ b. done ++ b ∷ later) (sym (has_match-snoc r.row.values l.row.values seen))

  pad-out :
      (keep : Bool) (width : ℕ) (l : Tuple) (p : Progress) (vs ws : Table)
      → p.any ≡ found ws
      → rows_of p.out ≡ vs ++ ws
      → rows_of (pad_pure keep width l p).out ≡ vs ++ padded keep width l.row.values ws
  unfolding found
  pad-out true width l p vs [] a h = rw a (
      let row = concat l.row.values (replicate width null) in
      rows_of-append p.out (made row ∷ []) ∙ ap (λ v. v ++ row.values ∷ []) (h ∙ append-nil vs))
  pad-out true width l p vs (w ∷ ws) a h = rw a h
  pad-out false width l p vs ws a h = ground (arith, h)

  pad-matched :
      (keep : Bool) (width : ℕ) (l : Tuple) (p : Progress)
      → (pad_pure keep width l p).matched ≡ p.matched
  pad-matched keep width l p = ground arith

  outer-matched :
      (j : JoinType) (width : ℕ) (inner ls : List Tuple) (seen : Table) (p : Progress)
      → p.matched ≡ flags seen inner
      → (outer_pure on j width inner ls p).matched ≡ flags (seen ++ rows_of ls) inner
  unfolding outer_pure
  outer-matched j width inner [] seen p h = h ∙ ap (λ v. flags v inner) (sym (append-nil seen))
  outer-matched j width inner (l ∷ ls) seen p h =
      outer-matched j width inner ls (seen ++ l.row.values ∷ []) _ (
        pad-matched (preserves_left j) width l _
        ∙ inner-matched seen l [] inner (record p { any = false }) h)
      ∙ ap (λ v. flags v inner) (append_assoc seen (l.row.values ∷ []) (rows_of ls))

  outer-out :
      (j : JoinType) (width : ℕ) (inner ls : List Tuple) (p : Progress)
      → rows_of (outer_pure on j width inner ls p).out
        ≡ rows_of p.out ++ left_rows (preserves_left j) width on (rows_of ls) (rows_of inner)
  unfolding outer_pure
  outer-out j width inner [] p = sym (append-nil _)
  outer-out j width inner (l ∷ ls) p =
      let q = record p { any = false } in
      outer-out j width inner ls _
      ∙ ap (λ v. v ++ left_rows (preserves_left j) width on (rows_of ls) (rows_of inner))
          (pad-out (preserves_left j) width l (inner_pure on l 0 inner q) (rows_of p.out)
            (matches on l.row.values (rows_of inner)) (inner-any l 0 inner q)
            (inner-out l 0 inner q))
      ∙ append_assoc (rows_of p.out) _ _

  right-out :
      (width : ℕ) (ls : Table) (done : List Bool) (rs : List Tuple) (p : Progress)
      → p.matched ≡ done ++ flags ls rs
      → rows_of (right_pure width (length done) rs p).out
        ≡ rows_of p.out ++ unmatched width on ls (rows_of rs)
  unfolding right_pure flags
  right-out width ls done [] p h = sym (append-nil _)
  right-out width ls done (r ∷ rs) p h =
      let b = has_match on r.row.values ls in
      let read : get_or p.matched (length done) false ≡ b =
        ap (λ ms. get_or ms (length done) false) h ∙ get_or-middle done b (flags ls rs) in
      let q = spared (get_or p.matched (length done) false) width r p in
      let next = right-out width ls (done ++ b ∷ []) rs q (
        spared-matched (get_or p.matched (length done) false) width r p
        ∙ h
        ∙ sym (append_assoc done (b ∷ []) (flags ls rs))) in
      let others = unmatched width on ls (rows_of rs) in
      subst (λ n. rows_of (right_pure width n rs q).out ≡ rows_of q.out ++ others)
        (length-snoc done b) next
      ∙ ap (λ c. rows_of (spared c width r p).out ++ others) read
      ∙ spared-out b width r p others

  flags-start : (rs : List Tuple) → replicate (length rs) false ≡ flags [] rs
  unfolding flags
  flags-start [] = refl
  flags-start (r ∷ rs) = ap (λ l. false ∷ l) (flags-start rs)

  -- The rows of the two loops are those of the join, padded as wide as the first rows.
  pub loops-join_rows :
      (outer inner : List Tuple) (j : JoinType)
      → rows_of (
          let p = outer_pure on j (first_width inner) inner outer (start inner) in
          (if preserves_right j then right_pure (first_width outer) 0 inner p else p).out)
        ≡ join_rows j (first_width outer) (first_width inner) on (rows_of outer) (rows_of inner)
  loops-join_rows outer inner j =
      let p = outer_pure on j (first_width inner) inner outer (start inner) in
      let out = outer-out j (first_width inner) inner outer (start inner) in
      let marked =
        outer-matched j (first_width inner) inner outer [] (start inner) (flags-start inner) in
      elim (Bool-cases (preserves_right j)) [
        | inl e ↦ rw e (
            right-out (first_width outer) (rows_of outer) [] inner p marked
            ∙ ap (λ v. v ++ unmatched (first_width outer) on (rows_of outer) (rows_of inner)) out)
        | inr e ↦ rw e (out ∙ sym (append-nil _))
      ]
