-- ===== src/Policy/Manager/Folding.antt =====
-- The fold of `merge` over the sorted layers.
use mathlib.Core.List.{foldl}
use holonomy_source.Common.{
  ℕ, ◌≤◌, String, ◌≡◌, ◌∙◌, subst, ◌⊎◌, inl, inr, none, some, List, [], ◌∷◌, All, Has,
}
use holonomy_source.Common.Dict.{get}
use holonomy_source.Policy.{PrincipalPolicy, PolicyManifest, merge}
use holonomy_source.Policy.Restrictions.{
  Enforces, Restricts-refl, merge-Enforces_left, merge-Enforces_right,
}
use holonomy_source.Policy.WellFormed.{
  IsWellFormed, merge-IsWellFormed, column_mask, column_mask-merge,
}
use holonomy_source.Policy.Manager.{Parsed, rank, merge_sorted}
use holonomy_source.Policy.Manager.Sorting.{AllWellFormed, IsSorted}

module _ (q : String) (p : PrincipalPolicy) where
  -- What the layers so far enforce, the rest of the fold keeps.
  fold-Enforces :
      (acc : PolicyManifest) (xs : List Parsed)
      → AllWellFormed xs
      → Enforces q acc p
      → Enforces q (foldl (λ a x. merge a x.1) acc xs) p
  fold-Enforces acc [] w h = h
  fold-Enforces acc (x ∷ xs) (w, ws) h =
      fold-Enforces (merge acc x.1) xs ws (merge-Enforces_left q acc x.1 p w.principals h)

  fold-Enforces_mem :
      (acc : PolicyManifest) (xs : List Parsed) (z : Parsed)
      → AllWellFormed xs
      → Has z xs
      → get q z.1.principals ≡ some p
      → Enforces q (foldl (λ a x. merge a x.1) acc xs) p
  fold-Enforces_mem acc [] z w h e = elim h [ ]
  fold-Enforces_mem acc (x ∷ xs) z (w, ws) (inl same) e =
      fold-Enforces (merge acc x.1) xs ws
        (merge-Enforces_right q acc x.1 p w.principals (rw same e))
  fold-Enforces_mem acc (x ∷ xs) z (w, ws) (inr h) e = fold-Enforces_mem (merge acc x.1) xs z ws h e

  pub merge_sorted-Enforces :
      (xs : List Parsed) (z : Parsed)
      → AllWellFormed xs
      → Has z xs
      → get q z.1.principals ≡ some p
      → Enforces q (merge_sorted xs) p
  unfolding merge_sorted
  merge_sorted-Enforces [] z w h e = elim h [ ]
  merge_sorted-Enforces (x ∷ xs) z (w, ws) (inl same) e =
      fold-Enforces x.1 xs ws (p, rw same e, Restricts-refl p)
  merge_sorted-Enforces (x ∷ xs) z (w, ws) (inr h) e = fold-Enforces_mem x.1 xs z ws h e

pub merge_sorted-IsWellFormed :
    (xs : List Parsed) → AllWellFormed xs → IsWellFormed (merge_sorted xs)
unfolding merge_sorted get
merge_sorted-IsWellFormed [] w = record {
  principals = tt;
  masks = λ q p e. cc;
  tags = λ q p e. cc;
  bindings = λ d e. cc;
}
merge_sorted-IsWellFormed (x ∷ xs) (w, ws) = fold-IsWellFormed x.1 xs w ws
  where
    fold-IsWellFormed :
        (acc : PolicyManifest) (ys : List Parsed)
        → IsWellFormed acc
        → AllWellFormed ys
        → IsWellFormed (foldl (λ a y. merge a y.1) acc ys)
    fold-IsWellFormed acc [] h k = h
    fold-IsWellFormed acc (y ∷ ys) h (k, ks) =
        fold-IsWellFormed (merge acc y.1) ys (merge-IsWellFormed acc y.1 h k) ks

-- A layer of the level, or of a higher one, that masks the column masks it in the given way.
abbrev pub Agrees : String → String → String → ℕ → Parsed → Type 0
Agrees q col mask level x =
    level ≤ rank x.0 → (column_mask q col x.1 ≡ none) ⊎ (column_mask q col x.1 ≡ some mask)

module _ (q col mask : String) where
  merge-column_mask_keep :
      (a b : PolicyManifest)
      → IsWellFormed b
      → column_mask q col a ≡ some mask
      → (column_mask q col b ≡ none) ⊎ (column_mask q col b ≡ some mask)
      → column_mask q col (merge a b) ≡ some mask
  merge-column_mask_keep a b w e (inl n) = column_mask-merge q col a b w ∙ rw n e
  merge-column_mask_keep a b w e (inr s) = column_mask-merge q col a b w ∙ rw s

  merge-column_mask_set :
      (a b : PolicyManifest)
      → IsWellFormed b
      → column_mask q col b ≡ some mask
      → column_mask q col (merge a b) ≡ some mask
  merge-column_mask_set a b w s = column_mask-merge q col a b w ∙ rw s

  -- Once the mask is set, layers that agree keep it.
  fold-column_mask_keep :
      (level : ℕ) (acc : PolicyManifest) (xs : List Parsed)
      → AllWellFormed xs
      → All (λ y. level ≤ rank y.0) xs
      → All (Agrees q col mask level) xs
      → column_mask q col acc ≡ some mask
      → column_mask q col (foldl (λ a x. merge a x.1) acc xs) ≡ some mask
  fold-column_mask_keep level acc [] w up agree e = e
  fold-column_mask_keep level acc (x ∷ xs) (w, ws) (up, ups) (agree, agrees) e =
      fold-column_mask_keep level (merge acc x.1) xs ws ups agrees
        (merge-column_mask_keep acc x.1 w e (agree up))

  fold-column_mask :
      (acc : PolicyManifest) (xs : List Parsed) (z : Parsed)
      → IsSorted xs
      → AllWellFormed xs
      → Has z xs
      → column_mask q col z.1 ≡ some mask
      → All (Agrees q col mask (rank z.0)) xs
      → column_mask q col (foldl (λ a x. merge a x.1) acc xs) ≡ some mask
  fold-column_mask acc [] z s w h e agree = elim h [ ]
  fold-column_mask acc (x ∷ xs) z (up, s) (w, ws) (inl same) e (agree, agrees) =
      fold-column_mask_keep (rank z.0) (merge acc x.1) xs ws
        (subst (λ (t : Parsed). All (λ y. rank t.0 ≤ rank y.0) xs) same up) agrees
        (merge-column_mask_set acc x.1 w (rw same e))
  fold-column_mask acc (x ∷ xs) z (up, s) (w, ws) (inr h) e (agree, agrees) =
      fold-column_mask (merge acc x.1) xs z s ws h e agrees

  pub merge_sorted-column_mask :
      (xs : List Parsed) (z : Parsed)
      → IsSorted xs
      → AllWellFormed xs
      → Has z xs
      → column_mask q col z.1 ≡ some mask
      → All (Agrees q col mask (rank z.0)) xs
      → column_mask q col (merge_sorted xs) ≡ some mask
  unfolding merge_sorted
  merge_sorted-column_mask [] z s w h e agree = elim h [ ]
  merge_sorted-column_mask (x ∷ xs) z (up, s) (w, ws) (inl same) e (agree, agrees) =
      fold-column_mask_keep (rank z.0) x.1 xs ws
        (subst (λ (t : Parsed). All (λ y. rank t.0 ≤ rank y.0) xs) same up) agrees (rw same e)
  merge_sorted-column_mask (x ∷ xs) z (up, s) (w, ws) (inr h) e (agree, agrees) =
      fold-column_mask x.1 xs z s ws h e agrees
