-- ===== src/Exec/Eval/Related.antt =====
-- Two runs of the fallible code of ferrite-planner and ferrite-exec side by side.
use ferrite.Prelude.{◌≡◌, refl, Bool, true, false}
use ferrite.Common.Error.{Result, ok, err, ◌>>=◌}

-- Two results fail alike, or their values are related.
abbrev pub Related : {A B : Type 0} → (A → B → Type 0) → Result A → Result B → Type 0
Related R (ok a) (ok b) = R a b
Related R (err e) (err f) = e ≡ f
Related R (ok a) (err f) = ⊥
Related R (err e) (ok b) = ⊥

pub Related-bind :
    {A B C D : Type 0} (R : A → B → Type 0) (Q : C → D → Type 0) (r : Result A) (s : Result B)
    (f : A → Result C) (g : B → Result D)
    → Related R r s
    → ((a : A) → (b : B) → R a b → Related Q (f a) (g b))
    → Related Q (r >>= f) (s >>= g)
Related-bind R Q (ok a) (ok b) f g h k = k a b h
Related-bind R Q (err e) (err d) f g h k = h
Related-bind R Q (ok a) (err d) f g h k = elim h [ ]
Related-bind R Q (err e) (ok b) f g h k = elim h [ ]

pub itself_Related : {A : Type 0} (r : Result A) → Related (λ x y. Unit) r r
itself_Related (ok a) = tt
itself_Related (err e) = refl

pub bind_same :
    {A B : Type 0} (r : Result A) (f g : A → Result B)
    → ((a : A) → f a ≡ g a)
    → (r >>= f) ≡ (r >>= g)
bind_same (ok a) f g h = h a
bind_same (err e) f g h = refl

pub choice_same :
    {A : Type 0} (c : Bool) (x x2 y y2 : A)
    → x ≡ x2
    → y ≡ y2
    → elim c [ true ↦ x | false ↦ y ] ≡ elim c [ true ↦ x2 | false ↦ y2 ]
choice_same true x x2 y y2 h k = h
choice_same false x x2 y y2 h k = k
