-- ===== src/Exec/Compare/Mirror.antt =====
-- `compare` of ferrite-exec/src/eval.rs with its operands exchanged.
use ferrite.Prelude.{
  ℕ, ◌≡◌, refl, ap, ◌∙◌, Bool, true, false, ◌||◌, Option, none, some, List, [], ◌∷◌, arith,
  if◌then◌else◌,
}
use Prim.Native.Nat.{compare as nat_compare, Ordering}
use ferrite.Prelude.Int.{ℤ, pos, negsuc, int_compare}
use ferrite.Common.Error.{FerriteError, type_mismatch, Result, ok, err}
use ferrite.Common.Value.{
  Value, null, boolean, int4, int8, float8, text, timestamp, uuid, json, is_null, is_nan,
}
use ferrite.Exec.Compare.{
  Machine, text_compare, bool_compare, float_key, partial_cmp, same_kind, nan_order, float_order,
  or_floats, as_float, compare,
}

-- The order the other way round.
abbrev pub flip : Ordering → Ordering
flip Ordering.lt = Ordering.gt
flip Ordering.eq = Ordering.eq
flip Ordering.gt = Ordering.lt

abbrev pub flip_option : Option Ordering → Option Ordering
flip_option none = none
flip_option (some o) = some (flip o)

-- A mismatch names the types in the order of the operands.
abbrev pub mirror_error : FerriteError → FerriteError
mirror_error (type_mismatch a b) = type_mismatch b a
mirror_error e = e

abbrev pub mirror : Result (Option Ordering) → Result (Option Ordering)
mirror (ok o) = ok (flip_option o)
mirror (err e) = err (mirror_error e)

nat_mirror : (a b : ℕ) → nat_compare b a ≡ flip (nat_compare a b)
nat_mirror a b = ground arith

int_mirror : (a b : ℤ) → int_compare b a ≡ flip (int_compare a b)
int_mirror (pos a) (pos b) = nat_mirror a b
int_mirror (pos a) (negsuc b) = refl
int_mirror (negsuc a) (pos b) = refl
int_mirror (negsuc a) (negsuc b) = nat_mirror b a

bool_mirror : (a b : Bool) → bool_compare b a ≡ flip (bool_compare a b)
bool_mirror true true = refl
bool_mirror true false = refl
bool_mirror false true = refl
bool_mirror false false = refl

first_or : Ordering → Ordering → Ordering
first_or o rest = elim o [
  | Ordering.lt ↦ Ordering.lt
  | Ordering.eq ↦ rest
  | Ordering.gt ↦ Ordering.gt
]

first_mirror : (o rest : Ordering) → first_or (flip o) (flip rest) ≡ flip (first_or o rest)
unfolding first_or
first_mirror Ordering.lt rest = refl
first_mirror Ordering.eq rest = refl
first_mirror Ordering.gt rest = refl

text_mirror : (a b : List ℕ) → text_compare b a ≡ flip (text_compare a b)
unfolding first_or
text_mirror [] [] = refl
text_mirror [] (b ∷ bs) = refl
text_mirror (a ∷ as') [] = refl
text_mirror (a ∷ as') (b ∷ bs) =
    ap (λ o. first_or o (text_compare bs as')) (nat_mirror a b)
    ∙ ap (first_or (flip (nat_compare a b))) (text_mirror as' bs)
    ∙ first_mirror (nat_compare a b) (text_compare as' bs)

same_kind_mirror : (l r : Value) → same_kind r l ≡ flip_option (same_kind l r)
unfolding same_kind
same_kind_mirror (boolean a) (boolean b) = ap some (bool_mirror a b)
same_kind_mirror (text a) (text b) = ap some (text_mirror a b)
same_kind_mirror (json a) (json b) = ap some (text_mirror a b)
same_kind_mirror (uuid a) (uuid b) = ap some (nat_mirror a b)
same_kind_mirror (timestamp a) (timestamp b) = ap some (int_mirror a b)
same_kind_mirror (int4 a) (int4 b) = ap some (int_mirror a b)
same_kind_mirror (int8 a) (int8 b) = ap some (int_mirror a b)
same_kind_mirror (int4 a) (int8 b) = ap some (int_mirror a b)
same_kind_mirror (int8 a) (int4 b) = ap some (int_mirror a b)
same_kind_mirror null r = ground arith
same_kind_mirror (float8 a) r = ground arith
same_kind_mirror _ _ = refl

partial_mirror : (a b : ℕ) → partial_cmp b a ≡ flip_option (partial_cmp a b)
partial_mirror a b = nan_cases (is_nan a) (is_nan b) _ _ (int_mirror (float_key a) (float_key b))
  where
    nan_cases :
        (x y : Bool) (o p : Ordering)
        → p ≡ flip o
        → (if y || x then none else some p) ≡ flip_option (if x || y then none else some o)
    nan_cases true true o p h = refl
    nan_cases true false o p h = refl
    nan_cases false true o p h = refl
    nan_cases false false o p h = ap some h

nan_mirror : (o : Option Ordering) → nan_order (flip_option o) ≡ mirror (nan_order o)
unfolding nan_order
nan_mirror none = refl
nan_mirror (some o) = refl

float_mirror : (a b : Option ℕ) (l r : Value) → float_order b a r l ≡ mirror (float_order a b l r)
unfolding float_order
float_mirror (some a) (some b) l r =
    ap nan_order (partial_mirror a b) ∙ nan_mirror (partial_cmp a b)
float_mirror (some a) none l r = refl
float_mirror none (some b) l r = refl
float_mirror none none l r = refl

or_mirror :
    (o : Option Ordering) (f g : Result (Option Ordering))
    → g ≡ mirror f
    → or_floats (flip_option o) g ≡ mirror (or_floats o f)
unfolding or_floats
or_mirror none f g h = h
or_mirror (some o) f g h = refl

null_mirror :
    (x y : Bool) (f g : Result (Option Ordering))
    → g ≡ mirror f
    → (if y || x then ok none else g) ≡ mirror (if x || y then ok none else f)
null_mirror true true f g h = refl
null_mirror true false f g h = refl
null_mirror false true f g h = refl
null_mirror false false f g h = h

module _ (m : Machine) where
  -- Exchanging the operands of compare exchanges less and greater, and keeps equality, null and the
  -- error for a NaN; the error for two types names them the other way round.
  pub compare-mirror : (l r : Value) → compare m r l ≡ mirror (compare m l r)
  unfolding compare
  compare-mirror l r = null_mirror (is_null l) (is_null r) _ _ (
      ap (λ o. or_floats o (float_order (as_float m r) (as_float m l) r l)) (same_kind_mirror l r)
      ∙ or_mirror (same_kind l r) _ _ (float_mirror (as_float m l) (as_float m r) l r))
