-- ===== src/Exec/Conform/Accepted.antt =====
-- What `conform_row` of ferrite-exec/src/executor.rs accepts.
use ferrite.Prelude.{
  ℕ, ◌≡◌, refl, true, Option, none, some, List, [], ◌∷◌, length, arith, ◌==◌, ==_iff, Bool-cases,
  inl, inr, subst,
}
use ferrite.Common.Error.{ok, >>=-eq-ok, ok-injective, err-ne-ok}
use ferrite.Common.Value.{Value, DataType, Row, data_type}
use ferrite.Common.Schema.{ColumnDef, Schema, same_type}
use ferrite.Exec.Compare.{Machine}
use ferrite.Exec.Conform.{widen, widened, typed_value, conform_values, conform_row}

-- A value of the type of its column, or a null where the column may hold one.
abbrev FitsType : ColumnDef → Option DataType → Type 0
FitsType column none = column.nullable ≡ true
FitsType column (some actual) = actual ≡ column.data_type

abbrev FitsColumns : List ColumnDef → List Value → Type 0
FitsColumns [] [] = Unit
FitsColumns (c ∷ cs) (v ∷ vs) = FitsType c (data_type v) × FitsColumns cs vs
FitsColumns _ _ = ⊥

-- A value for every column, of its type or null where that is allowed.
abbrev pub Conforms : Schema → Row → Type 0
Conforms schema row = FitsColumns schema.columns row.values

same_type-eq : (a b : DataType) → same_type a b ≡ true → a ≡ b
unfolding same_type
same_type-eq a b h = ground arith

module _ (m : Machine) where
  widen-type : (v w : Value) (t : DataType) → widen m v t ≡ some w → data_type w ≡ some t
  unfolding widen
  widen-type v w t h = ground arith

  widened-some :
      (o : Option Value) (expected actual : DataType) (w : Value)
      → widened m o expected actual ≡ ok w
      → o ≡ some w
  unfolding widened
  widened-some (some v) expected actual w h = cc
  widened-some none expected actual w h = cc

  typed_value-Fits :
      (c : ColumnDef) (v w : Value) (t : Option DataType)
      → data_type v ≡ t
      → typed_value m c v t ≡ ok w
      → FitsType c (data_type w)
  unfolding typed_value
  typed_value-Fits c v w none e k = elim (Bool-cases c.nullable) [
    | inl y ↦
        let same : v ≡ w = ok-injective (rw y at k) in
        subst (λ x. FitsType c (data_type x)) same (rw e y)
    | inr n ↦ absurd (err-ne-ok (rw n at k))
  ]
  typed_value-Fits c v w (some actual) e k = elim (Bool-cases (same_type actual c.data_type)) [
    | inl y ↦
        let same : v ≡ w = ok-injective (rw y at k) in
        subst (λ x. FitsType c (data_type x)) same (rw e (same_type-eq actual c.data_type y))
    | inr n ↦
        let wide : widen m v c.data_type ≡ some w =
          widened-some (widen m v c.data_type) c.data_type actual w (rw n at k) in
        rw (widen-type v w c.data_type wide) refl
  ]

  conform_values-Fits :
      (cs : List ColumnDef) (vs ws : List Value)
      → length vs ≡ length cs
      → conform_values m cs vs ≡ ok ws
      → FitsColumns cs ws
  unfolding conform_values
  conform_values-Fits [] [] ws n h = ground arith
  conform_values-Fits [] (v ∷ vs) ws n h = absurd (omega arith)
  conform_values-Fits (c ∷ cs) [] ws n h = absurd (omega arith)
  conform_values-Fits (c ∷ cs) (v ∷ vs) ws n h =
      let (w, first, rest) = >>=-eq-ok (typed_value m c v (data_type v)) _ h in
      let (more, second, last) = >>=-eq-ok (conform_values m cs vs) _ rest in
      subst (FitsColumns (c ∷ cs)) (ok-injective last) (
        typed_value-Fits c v w (data_type v) refl first,
        conform_values-Fits cs vs more (omega arith) second,
      )

  pub conform_row-Conforms :
      (schema : Schema) (row given : Row) (table : List ℕ)
      → conform_row m schema given table ≡ ok row
      → Conforms schema row
  unfolding conform_row
  conform_row-Conforms schema row given table h =
      elim (Bool-cases (length given.values == length schema.columns)) [
        | inr e ↦ absurd (err-ne-ok (rw e at h))
        | inl e ↦
            let (vs, found, same) =
              >>=-eq-ok (conform_values m schema.columns given.values) _ (rw e at h) in
            subst (Conforms schema) (ok-injective same) (
              conform_values-Fits schema.columns given.values vs
                ((==_iff (length given.values) (length schema.columns)).0 e) found)
      ]
