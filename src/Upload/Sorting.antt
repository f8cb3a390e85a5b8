-- ===== src/Upload/Sorting.antt =====
-- The sort of the completed parts: where every number from 1 on stands once, the result has the
-- parts in the order of their numbers.
use holonomy_source.Common.{
  ℕ, suc, zero, ◌+◌, ◌≤◌, ◌<◌, ◌≡◌, refl, List, [], ◌∷◌, ◌++◌, arith, leb, ltb, ◌&&◌, ◌==◌,
  if◌then◌else◌, length, All, Bool-cases, inl, inr,
}
use holonomy_source.Upload.{CompletedPart, place, sort}

module _ {A : Type 0} where
  -- How often a number stands in a list of numbered things.
  unfoldable pub count : ℕ → List (ℕ × A) → ℕ
  count k [] = 0
  count k (x ∷ xs) = (if x.0 == k then 1 else 0) + count k xs

  pub count-append : (k : ℕ) (xs ys : List (ℕ × A)) → count k (xs ++ ys) ≡ count k xs + count k ys
  unfolding count
  count-append k [] ys = omega arith
  count-append k (x ∷ xs) ys = omega (arith, count-append k xs ys)

  -- One thing out of the middle.
  pub count-middle :
      (k n : ℕ) (a : A) (xs ys : List (ℕ × A))
      → count k (xs ++ (n, a) ∷ ys) ≡ (if n == k then 1 else 0) + count k (xs ++ ys)
  unfolding count
  count-middle k n a [] ys = refl
  count-middle k n a (x ∷ xs) ys = omega (arith, count-middle k n a xs ys)

  pub count_self : (k : ℕ) (a : A) (xs : List (ℕ × A)) → 0 < count k ((k, a) ∷ xs)
  unfolding count
  count_self k a xs = ground arith

-- The numbers of a list are those from `a` on, one after the other.
abbrev pub Numbered : {A : Type 0} → ℕ → List (ℕ × A) → Type 0
Numbered a [] = Unit
Numbered a (x ∷ xs) = (x.0 ≡ a) × Numbered (suc a) xs

-- No number of the list is below `a`, and each is at most the next.
abbrev IsSorted : {A : Type 0} → ℕ → List (ℕ × A) → Type 0
IsSorted a [] = Unit
IsSorted a (x ∷ xs) = (a ≤ x.0) × IsSorted x.0 xs

place-IsSorted :
    (a : ℕ) (x : ℕ × CompletedPart) (xs : List (ℕ × CompletedPart))
    → a ≤ x.0
    → IsSorted a xs
    → IsSorted a (place x xs)
unfolding place
place-IsSorted a x [] h s = (h, tt)
place-IsSorted a x (y ∷ ys) h s = ground (arith, place-IsSorted y.0 x ys)

sort-IsSorted : (xs : List (ℕ × CompletedPart)) → IsSorted 0 (sort xs)
unfolding sort
sort-IsSorted [] = tt
sort-IsSorted (x ∷ xs) = place-IsSorted 0 x (sort xs) (omega arith) (sort-IsSorted xs)

count-place :
    (k : ℕ) (x : ℕ × CompletedPart) (xs : List (ℕ × CompletedPart))
    → count k (place x xs) ≡ count k (x ∷ xs)
unfolding count place
count-place k x [] = refl
count-place k x (y ∷ ys) = ground (arith, count-place k x ys)

count-sort : (k : ℕ) (xs : List (ℕ × CompletedPart)) → count k (sort xs) ≡ count k xs
unfolding sort count
count-sort k [] = refl
count-sort k (x ∷ xs) = omega (arith, count-place k x (sort xs), count-sort k xs)

-- A number below all of a sorted list does not stand in it.
count_below : {A : Type 0} (k a : ℕ) (xs : List (ℕ × A)) → k < a → IsSorted a xs → count k xs ≡ 0
unfolding count
count_below k a [] h s = refl
count_below k a (x ∷ xs) h s = ground (arith, count_below k x.0 xs)

-- The numbers from `a` to `a + m - 1` stand once, and no others.
abbrev pub Once : {A : Type 0} → ℕ → ℕ → List (ℕ × A) → Type 0
Once a m xs = (k : ℕ) → count k xs ≡ (if leb a k && ltb k (a + m) then 1 else 0)

sorted-Numbered :
    {A : Type 0} (m a b : ℕ) (xs : List (ℕ × A))
    → IsSorted b xs
    → Once a m xs
    → Numbered a xs × (length xs ≡ m)
unfolding count
sorted-Numbered zero a b [] s once = (tt, refl)
sorted-Numbered (suc m) a b [] s once = absurd (ground (arith, once a))
sorted-Numbered zero a b (x ∷ xs) s once = absurd (ground (arith, once x.0))
sorted-Numbered (suc m) a b (x ∷ xs) s once =
    let first : x.0 ≡ a = ground (arith, once x.0, once a, count_below a x.0 xs) in
    let (rest, len) =
      sorted-Numbered m (suc a) x.0 xs s.1 λ k. ground (arith, once k, count_below k x.0 xs) in
    ((first, rest), omega arith)

-- If the numbers from 1 to `m` stand once and no others, the sort lists them in order.
pub sort-Numbered :
    (m : ℕ) (xs : List (ℕ × CompletedPart))
    → Once 1 m xs
    → Numbered 1 (sort xs) × (length (sort xs) ≡ m)
sort-Numbered m xs once =
    sorted-Numbered m 1 0 (sort xs) (sort-IsSorted xs) λ k. omega (arith, count-sort k xs, once k)

module _ (P : ℕ × CompletedPart → Type 0) where
  place-All :
      (x : ℕ × CompletedPart) (xs : List (ℕ × CompletedPart)) → P x → All P xs → All P (place x xs)
  unfolding place
  place-All x [] h hs = (h, tt)
  place-All x (y ∷ ys) h hs = elim (Bool-cases (leb x.0 y.0)) [
    | inl e ↦ rw e (h, hs)
    | inr e ↦ rw e (hs.0, place-All x ys h hs.1)
  ]

  pub sort-All : (xs : List (ℕ × CompletedPart)) → All P xs → All P (sort xs)
  unfolding sort
  sort-All [] h = tt
  sort-All (x ∷ xs) h = place-All x (sort xs) h.0 (sort-All xs h.1)
