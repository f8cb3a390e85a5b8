-- ===== src/Policy/Manager/Sorting.antt =====
-- The sort of the layers by their level.
use holonomy_source.Common.{
  ℕ, ◌≤◌, refl, inl, inr, List, [], ◌∷◌, arith, leb, leb→le, All, Has, Bool-cases,
}
use holonomy_source.Policy.WellFormed.{IsWellFormed}
use holonomy_source.Policy.Manager.{Parsed, rank, place, sort}

abbrev pub AllWellFormed : List Parsed → Type 0
AllWellFormed = All (λ x. IsWellFormed x.1)

place-AllWellFormed :
    (x : Parsed) (xs : List Parsed)
    → IsWellFormed x.1
    → AllWellFormed xs
    → AllWellFormed (place x xs)
unfolding place
place-AllWellFormed x [] h hs = (h, tt)
place-AllWellFormed x (y ∷ ys) h (k, ks) = elim (Bool-cases (leb (rank x.0) (rank y.0))) [
  | inl le ↦ rw le (h, (k, ks))
  | inr gt ↦ rw gt (k, place-AllWellFormed x ys h ks)
]

pub sort-AllWellFormed : (xs : List Parsed) → AllWellFormed xs → AllWellFormed (sort xs)
unfolding sort
sort-AllWellFormed [] h = tt
sort-AllWellFormed (x ∷ xs) (h, hs) = place-AllWellFormed x (sort xs) h (sort-AllWellFormed xs hs)

Has-place_head : (x : Parsed) (xs : List Parsed) → Has x (place x xs)
unfolding place
Has-place_head x [] = inl refl
Has-place_head x (y ∷ ys) = elim (Bool-cases (leb (rank x.0) (rank y.0))) [
  | inl le ↦ rw le (inl refl)
  | inr gt ↦ rw gt (inr (Has-place_head x ys))
]

Has-place : (z x : Parsed) (xs : List Parsed) → Has z xs → Has z (place x xs)
unfolding place
Has-place z x [] h = elim h [ ]
Has-place z x (y ∷ ys) h = elim (Bool-cases (leb (rank x.0) (rank y.0))) [
  | inl le ↦ rw le (inr h)
  | inr gt ↦ rw gt (elim h [ inl e ↦ inl e | inr k ↦ inr (Has-place z x ys k) ])
]

pub Has-sort : (z : Parsed) (xs : List Parsed) → Has z xs → Has z (sort xs)
unfolding sort
Has-sort z (x ∷ xs) (inl e) = rw (← e) (Has-place_head x (sort xs))
Has-sort z (x ∷ xs) (inr h) = Has-place z x (sort xs) (Has-sort z xs h)
Has-sort z [] h = elim h [ ]

place-All :
    (P : Parsed → Type 0) (x : Parsed) (xs : List Parsed) → P x → All P xs → All P (place x xs)
unfolding place
place-All P x [] h hs = (h, tt)
place-All P x (y ∷ ys) h (k, ks) = elim (Bool-cases (leb (rank x.0) (rank y.0))) [
  | inl le ↦ rw le (h, (k, ks))
  | inr gt ↦ rw gt (k, place-All P x ys h ks)
]

pub sort-All : (P : Parsed → Type 0) (xs : List Parsed) → All P xs → All P (sort xs)
unfolding sort
sort-All P [] h = tt
sort-All P (x ∷ xs) (h, hs) = place-All P x (sort xs) h (sort-All P xs hs)

-- Every later layer has at least the level of an earlier one.
abbrev pub IsSorted : List Parsed → Type 0
IsSorted [] = Unit
IsSorted (x ∷ xs) = All (λ y. rank x.0 ≤ rank y.0) xs × IsSorted xs

All-trans :
    (a b : ℕ) (xs : List Parsed) → a ≤ b → All (λ y. b ≤ rank y.0) xs → All (λ y. a ≤ rank y.0) xs
All-trans a b [] h k = tt
All-trans a b (x ∷ xs) h (k, ks) = (omega arith, All-trans a b xs h ks)

place-IsSorted : (x : Parsed) (xs : List Parsed) → IsSorted xs → IsSorted (place x xs)
unfolding place
place-IsSorted x [] h = (tt, tt)
place-IsSorted x (y ∷ ys) (h, hs) = elim (Bool-cases (leb (rank x.0) (rank y.0))) [
  | inl le ↦
      let below = leb→le (rank x.0) (rank y.0) le in
      rw le ((below, All-trans (rank x.0) (rank y.0) ys below h), (h, hs))
  | inr gt ↦
      rw gt (place-All (λ z. rank y.0 ≤ rank z.0) x ys (ground arith) h, place-IsSorted x ys hs)
]

pub sort-IsSorted : (xs : List Parsed) → IsSorted (sort xs)
unfolding sort
sort-IsSorted [] = tt
sort-IsSorted (x ∷ xs) = place-IsSorted x (sort xs) (sort-IsSorted xs)
