-- ===== src/Storage/Transactions/Ordering.antt =====
-- The sorted list of open transactions in a snapshot of ferrite-storage/src/engine.rs.
use ferrite.Prelude.{
  ℕ, ◌≤◌, ◌<◌, ◌≡◌, refl, ◌∙◌, false, ◌||◌, List, [], ◌∷◌, arith, All, leb, ◌==◌, Bool-cases, inl,
  inr,
}
use ferrite.Storage.Transactions.{contains, insert_sorted, sort}

abbrev pub IsSorted : List ℕ → Type 0
IsSorted [] = Unit
IsSorted (x ∷ xs) = All (λ y. x ≤ y) xs × IsSorted xs

All-weaken : (x y : ℕ) (xs : List ℕ) → x ≤ y → All (λ z. y ≤ z) xs → All (λ z. x ≤ z) xs
All-weaken x y [] h a = tt
All-weaken x y (z ∷ zs) h (a, b) = (omega arith, All-weaken x y zs h b)

All-insert_sorted :
    (x y : ℕ) (ys : List ℕ) → x ≤ y → All (λ z. x ≤ z) ys → All (λ z. x ≤ z) (insert_sorted y ys)
unfolding insert_sorted
All-insert_sorted x y [] h a = (h, tt)
All-insert_sorted x y (z ∷ zs) h (a, b) = elim (Bool-cases (leb y z)) [
  | inl e ↦ rw e (h, (a, b))
  | inr e ↦ rw e (a, All-insert_sorted x y zs h b)
]

insert_sorted-IsSorted : (x : ℕ) (ys : List ℕ) → IsSorted ys → IsSorted (insert_sorted x ys)
unfolding insert_sorted
insert_sorted-IsSorted x [] h = (tt, tt)
insert_sorted-IsSorted x (y ∷ ys) (a, b) = elim (Bool-cases (leb x y)) [
  | inl e ↦ rw e ((ground arith, All-weaken x y ys (ground arith) a), (a, b))
  | inr e ↦ rw e (All-insert_sorted y x ys (ground arith) a, insert_sorted-IsSorted x ys b)
]

pub sort-IsSorted : (xs : List ℕ) → IsSorted (sort xs)
unfolding sort
sort-IsSorted [] = tt
sort-IsSorted (x ∷ xs) = insert_sorted-IsSorted x (sort xs) (sort-IsSorted xs)

contains-insert_sorted :
    (x : ℕ) (ys : List ℕ) (u : ℕ) → contains (insert_sorted x ys) u ≡ (x == u || contains ys u)
unfolding contains insert_sorted
contains-insert_sorted x [] u = refl
contains-insert_sorted x (y ∷ ys) u = ground (arith, contains-insert_sorted x ys u)

pub contains-sort : (xs : List ℕ) (u : ℕ) → contains (sort xs) u ≡ contains xs u
unfolding contains sort
contains-sort [] u = refl
contains-sort (x ∷ xs) u = contains-insert_sorted x (sort xs) u ∙ rw (contains-sort xs u) refl

-- What is below all elements is none of them.
pub contains_below : (x u : ℕ) (xs : List ℕ) → u < x → All (λ y. x ≤ y) xs → contains xs u ≡ false
unfolding contains
contains_below x u [] h a = refl
contains_below x u (y ∷ ys) h (a, b) = ground (arith, contains_below x u ys h b)
