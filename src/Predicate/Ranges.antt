-- ===== src/Predicate/Ranges.antt =====
-- The byte ranges that are fetched, against the row groups that are read.
use holonomy_source.Common.{
  ℕ, suc, ◌+◌, String, ◌≡◌, refl, ap, ◌∙◌, subst, inl, inr, true, Option, none, some, List, [], ◌∷◌,
  ◌++◌, arith, get_elem?, Option-cases, Bool-cases,
}
use holonomy_source.Predicate.{
  Predicate, RowGroup, ColumnChunk, Metadata, position, keep, kept_from, get_pruned_row_groups,
  kept_ranges, get_pruned_column_byte_ranges,
}

-- The range of a chunk that is there.
abbrev pub range_of : Option ColumnChunk → List (ℕ × ℕ)
range_of none = []
range_of (some chunk) = (chunk.start, chunk.start + chunk.len) ∷ []

-- The range of a column in a row group.
abbrev pub range_in : ℕ → Option RowGroup → List (ℕ × ℕ)
range_in idx none = []
range_in idx (some g) = range_of (get_elem? g idx)

-- The ranges of a column in the row groups with the given numbers.
abbrev pub ranges_in : ℕ → List RowGroup → List ℕ → List (ℕ × ℕ)
ranges_in idx groups [] = []
ranges_in idx groups (i ∷ is) = range_in idx (get_elem? groups i) ++ ranges_in idx groups is

-- The ranges of a column, of which the position is given, if it is there.
abbrev pub ranges_at : Option ℕ → List RowGroup → List ℕ → List (ℕ × ℕ)
ranges_at none groups is = []
ranges_at (some idx) groups is = ranges_in idx groups is

module _ (idx : ℕ) (fields : List String) (ps : List Predicate) (groups : List RowGroup) where
  kept_ranges-cons :
      (g : RowGroup) (gs : List RowGroup)
      → keep fields ps g ≡ true
      → kept_ranges idx fields ps (g ∷ gs)
        ≡ range_of (get_elem? g idx) ++ kept_ranges idx fields ps gs
  unfolding kept_ranges
  kept_ranges-cons g gs k = elim (Option-cases (get_elem? g idx)) [
    | inl e ↦ ground (arith, k, e)
    | inr (chunk, e) ↦ ground (arith, k, e)
  ]

  kept_ranges-eq_ranges :
      (n : ℕ) (gs : List RowGroup)
      → ((k : ℕ) → get_elem? groups (n + k) ≡ get_elem? gs k)
      → kept_ranges idx fields ps gs ≡ ranges_in idx groups (kept_from n fields ps gs)
  unfolding kept_ranges kept_from
  kept_ranges-eq_ranges n [] at = refl
  kept_ranges-eq_ranges n (g ∷ gs) at =
      let rest =
        kept_ranges-eq_ranges (suc n) gs
          (λ k. subst (λ i. get_elem? groups i ≡ get_elem? gs k) (omega arith) (at (suc k))) in
      let here : get_elem? groups n ≡ some g =
        subst (λ i. get_elem? groups i ≡ some g) (omega arith) (at 0) in
      elim (Bool-cases (keep fields ps g)) [
        | inl y ↦
            kept_ranges-cons g gs y ∙ rw (y, here) (ap (λ t. range_of (get_elem? g idx) ++ t) rest)
        | inr x ↦ rw x rest
      ]

-- The byte ranges that are fetched for a column are those of its chunks in exactly the row groups
-- that `get_pruned_row_groups` names for it, in their order.
pub get_pruned_column_byte_ranges-eq_row_groups :
    (metadata : Metadata) (name : String) (ps : List Predicate)
    → get_pruned_column_byte_ranges metadata name ps
      ≡ ranges_at
          (position 0 name metadata.fields)
          metadata.row_groups
          (get_pruned_row_groups metadata name ps)
unfolding get_pruned_column_byte_ranges get_pruned_row_groups
get_pruned_column_byte_ranges-eq_row_groups metadata name ps =
    elim (Option-cases (position 0 name metadata.fields)) [
      | inl e ↦ rw (e, get_pruned_column_byte_ranges) refl
      | inr (idx, e) ↦
          rw (e, get_pruned_column_byte_ranges, get_pruned_row_groups)
            (kept_ranges-eq_ranges idx metadata.fields ps metadata.row_groups 0 metadata.row_groups
              (λ k. ap (get_elem? metadata.row_groups) (omega arith)))
    ]
