-- ===== src/Predicate/Tests.antt =====
-- Runs of the parser of the filters, and the theorems on the choice of row groups, on a file with one
-- column and two row groups.
use holonomy_source.Common.{
  ℕ, ◌≡◌, ◌↔◌, refl, none, some, [], ◌∷◌, arith, get_elem?, All, Has, str_eq, eq_iff, if◌then◌else◌,
  find_at, subst, sym,
}
use mathlib.Core.Option.{some-injective}
use holonomy_source.Common.Int.{pos, negsuc}
use holonomy_source.Predicate.{
  int64, string, Predicate, eq, gt, column, int64_bounds, Statistics, evaluate_statistics,
  ColumnChunk, RowGroup, Metadata, position, keep, may_match, kept_from, get_pruned_row_groups,
  max_above,
}
use holonomy_source.Predicate.Prune.{number, Row, Describes, get_pruned_row_groups_sound}
use holonomy_source.Predicate.Parse.{panics, returns, operators, parse_filter}
use holonomy_source.Predicate.Parse.Laws.{parse_filter-eq-none_iff}

adult_filter : parse_filter " age > 18 " ≡ returns (some (gt "age" (int64 (pos 18))))
unfolding parse_filter
adult_filter = refl

quoted_filter : parse_filter "dept = 'HR'" ≡ returns (some (eq "dept" (string "HR")))
unfolding parse_filter
quoted_filter = refl

-- A value that is one quote.
open_quote : parse_filter "dept = '" ≡ panics
unfolding parse_filter
open_quote = refl

-- "=" is found before ">".
at_least_filter : parse_filter "age >= -18" ≡ returns (some (eq "age >" (int64 (negsuc 17))))
unfolding parse_filter
at_least_filter = refl

unknown_operator : parse_filter "age between 1 and 2" ≡ returns none
unfolding parse_filter
unknown_operator = refl

abbrev adults : Predicate
adults = gt "age" (int64 (pos 18))

abbrev ages : ℕ → ℕ → Statistics
ages lo hi = record {
  bounds = int64_bounds (some (pos lo)) (some (pos hi));
  min_bytes = none;
  max_bytes = none;
}

abbrev chunk_of : Statistics → ℕ → ColumnChunk
chunk_of s start = record { statistics = some s; start = start; len = 100 }

abbrev old : RowGroup
old = chunk_of (ages 20 40) 100 ∷ []

abbrev young : RowGroup
young = chunk_of (ages 1 10) 0 ∷ []

abbrev file : Metadata
file = record { fields = "age" ∷ []; row_groups = young ∷ old ∷ [] }

abbrev row : Row
row name = if str_eq "age" name then some (number (pos 30)) else none

row-Describes : Describes ("age" ∷ []) old row
unfolding position
row-Describes = record {
  at = λ name i chunk stats e e' e''.
      let first : 0 ≡ i = ground arith in
      let here : chunk_of (ages 20 40) 100 ≡ chunk =
        some-injective _ _ (subst (λ k. get_elem? old k ≡ some chunk) (sym first) e') in
      let held : ages 20 40 ≡ stats =
        some-injective _ _
          (subst (λ (c : ColumnChunk). c.statistics ≡ some stats) (sym here) e'') in
      let named : "age" ≡ name = (eq_iff "age" name).0 (ground arith) in rw (← held, ← named) refl;
}

only_old : get_pruned_row_groups file "age" (adults ∷ []) ≡ 1 ∷ []
unfolding get_pruned_row_groups kept_from keep may_match position column evaluate_statistics
    max_above
only_old = refl

get_pruned_row_groups_sound_example : Has 1 (get_pruned_row_groups file "age" (adults ∷ []))
unfolding position column
get_pruned_row_groups_sound_example =
    get_pruned_row_groups_sound file "age" (adults ∷ []) 0 1 old row refl refl row-Describes
      (refl, tt)

parse_filter-eq-none_iff_example :
    (parse_filter "age between 1 and 2" ≡ returns none)
    ↔ All (λ op. find_at "age between 1 and 2" op ≡ none) operators
parse_filter-eq-none_iff_example = parse_filter-eq-none_iff "age between 1 and 2"
