-- ===== src/Exec/Eval/Pushdown/Settled.antt =====
-- What `push_join` of ferrite-planner/src/rules.rs puts on a side, and the scope of that side.
use ferrite.Prelude.{
  ◌≡◌, refl, Bool, true, false, not, Option, none, some, List, [], ◌∷◌, All, if◌then◌else◌,
}
use ferrite.Planner.Named.{Expr}
use ferrite.Planner.Scope.{Scope}
use ferrite.Planner.Logical.{JoinType, preserves_left, preserves_right}
use ferrite.Planner.Rules.{
  Side, left, right, side, Parts, add_left, add_right, add_above, add_condition, is_inner,
  place_pending, place_condition, distribute, distribute_condition,
}
use ferrite.Exec.Eval.Locality.{Slotless}
use ferrite.Exec.Eval.Pushdown.{Resolves, left_Resolves, right_Resolves}

-- An expression that a scope makes sense of, without positions.
abbrev pub Placed : Scope → Expr → Type 0
Placed s e = Slotless e × Resolves s e

pub All-map :
    {A : Type 0} (P Q : A → Type 0) (xs : List A) → ((a : A) → P a → Q a) → All P xs → All Q xs
All-map P Q [] f h = tt
All-map P Q (x ∷ xs) f h = (f x h.0, All-map P Q xs f h.1)

-- What goes to a side makes sense there.
pub record Settled (a b : Scope) (parts : Parts) : Type 0 where
  pub on_left : All (Placed a) parts.to_left
  pub on_right : All (Placed b) parts.to_right

by_choice : {P : Type 0} (F : P → Type 0) (t : Bool) (x y : P) → F x → F y → F (if t then x else y)
by_choice F true x y h k = h
by_choice F false x y h k = k

module _ (j : JoinType) (a b : Scope) where
  settle_left :
      (e : Expr) (parts : Parts)
      → side e a b ≡ some left
      → Slotless e
      → Settled a b parts
      → Settled a b (add_left e parts)
  settle_left e parts h k s = record {
    on_left = ((k, left_Resolves e a b h), s.on_left);
    on_right = s.on_right;
  }

  settle_right :
      (e : Expr) (parts : Parts)
      → side e a b ≡ some right
      → Slotless e
      → Settled a b parts
      → Settled a b (add_right e parts)
  settle_right e parts h k s = record {
    on_left = s.on_left;
    on_right = ((k, right_Resolves e a b h), s.on_right);
  }

  settle_above : (e : Expr) (parts : Parts) → Settled a b parts → Settled a b (add_above e parts)
  settle_above e parts s = record { on_left = s.on_left; on_right = s.on_right }

  settle_condition :
      (e : Expr) (parts : Parts) → Settled a b parts → Settled a b (add_condition e parts)
  settle_condition e parts s = record { on_left = s.on_left; on_right = s.on_right }

  settle_free :
      (e : Expr) (parts : Parts)
      → Settled a b parts
      → Settled a b (if is_inner j then add_condition e parts else add_above e parts)
  settle_free e parts s =
      by_choice (Settled a b) (is_inner j) _ _ (settle_condition e parts s) (settle_above e parts s)

  place_condition-Settled :
      (e : Expr) (parts : Parts) (o : Option Side)
      → side e a b ≡ o
      → Slotless e
      → Settled a b parts
      → Settled a b (place_condition j o e parts)
  place_condition-Settled e parts none h k s = settle_condition e parts s
  place_condition-Settled e parts (some left) h k s =
      by_choice (Settled a b) (not (preserves_left j)) _ _ (settle_left e parts h k s)
        (settle_condition e parts s)
  place_condition-Settled e parts (some right) h k s =
      by_choice (Settled a b) (not (preserves_right j)) _ _ (settle_right e parts h k s)
        (settle_condition e parts s)

  place_pending-Settled :
      (e : Expr) (parts : Parts) (o : Option Side)
      → side e a b ≡ o
      → Slotless e
      → Settled a b parts
      → Settled a b (place_pending j o e parts)
  place_pending-Settled e parts none h k s = settle_free e parts s
  place_pending-Settled e parts (some left) h k s =
      by_choice (Settled a b) (not (preserves_right j)) _ _ (settle_left e parts h k s)
        (settle_free e parts s)
  place_pending-Settled e parts (some right) h k s =
      by_choice (Settled a b) (not (preserves_left j)) _ _ (settle_right e parts h k s)
        (settle_free e parts s)

  distribute_condition-Settled :
      (es : List Expr) → All Slotless es → Settled a b (distribute_condition j a b es)
  distribute_condition-Settled [] h = record { on_left = tt; on_right = tt }
  distribute_condition-Settled (e ∷ es) h =
      place_condition-Settled e _ (side e a b) refl h.0 (distribute_condition-Settled es h.1)

  pub distribute-Settled :
      (es on : List Expr) → All Slotless es → All Slotless on → Settled a b (distribute j a b es on)
  distribute-Settled [] on h k = distribute_condition-Settled on k
  distribute-Settled (e ∷ es) on h k =
      place_pending-Settled e _ (side e a b) refl h.0 (distribute-Settled es on h.1 k)
