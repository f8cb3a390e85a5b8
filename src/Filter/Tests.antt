-- ===== src/Filter/Tests.antt =====
-- The test of a filter on columns of 64 and of 32 bits, with kernels that compare row by row.
use holonomy_source.Common.{
  ◌≡◌, refl, ◌≢◌, inl, Bool, true, false, Option, none, some, List, [], ◌∷◌, All,
}
use holonomy_source.Common.Int.{pos, negsuc}
use holonomy_source.Common.Result.{ok}
use holonomy_source.Predicate
use holonomy_source.Predicate.{
  Predicate, eq, gt, Statistics, int64_bounds, evaluate_statistics, max_above,
}
use holonomy_source.Arrow.{int32, int64}
use holonomy_source.Linter.Types.{same_type}
use holonomy_source.Filter.{residue, wrap, repeat, operand, scalar_array, compare, evaluate_filter}
use holonomy_source.Filter.Samples.{Column, typed, arrow, kernels, kernel_laws, chrono}
use holonomy_source.Filter.Rows.{evaluate_filter-eq_met, evaluate_filter-pruned}

abbrev adults : Predicate
adults = gt "age" (Predicate.int64 (pos 18))

abbrev ages : Column
ages = record { type = int64; held = some (pos 20) ∷ none ∷ some (negsuc 4) ∷ [] }

abbrev small : Column
small = record { type = int32; held = some (pos 5) ∷ [] }

-- A number beyond 32 bits is narrowed for a column of 32 bits, and then equals another one.
narrowed :
    evaluate_filter arrow kernels chrono small (eq "n" (Predicate.int64 (pos 4294967301)))
    ≡ ok (some true ∷ [])
unfolding evaluate_filter operand scalar_array same_type wrap residue repeat compare
narrowed = refl

evaluate_filter-eq_met_example :
    evaluate_filter arrow kernels chrono ages adults ≡ ok (some true ∷ none ∷ some false ∷ [])
unfolding operand
evaluate_filter-eq_met_example =
    evaluate_filter-eq_met arrow kernels kernel_laws chrono adults (pos 18) ages refl (inl refl)

abbrev low : Statistics
low = record { bounds = int64_bounds none (some (pos 10)); min_bytes = none; max_bytes = none }

abbrev children : Column
children = typed int64 (pos 7 ∷ [])

evaluate_filter-pruned_example :
    (rows : List (Option Bool)) × (evaluate_filter arrow kernels chrono children adults ≡ ok rows)
    × All (λ r. r ≢ some true) rows
unfolding operand evaluate_statistics max_above
evaluate_filter-pruned_example =
    evaluate_filter-pruned arrow kernels kernel_laws chrono adults (pos 18) children low refl
      (inl refl) (refl, tt) refl
