-- ===== src/Predicate.antt =====
-- holonomy-core/src/ingestion/s3_client.rs, `Predicate`: the row filters of a policy, their test
-- against the statistics of a row group, and the choice of the row groups that are read. The
-- statistics and the metadata of a file are what the crate parquet gives; `Statistics` keeps of them
-- what the code asks for.
pub mod Parse
pub mod Prune
pub mod Ranges
mod Tests
use holonomy_source.Common.{
  ℕ, suc, ◌+◌, String, Bool, true, false, ◌&&◌, Option, none, some, List, [], ◌∷◌, get_elem?,
  str_eq, as_bytes, bytes_le, if◌then◌else◌,
}
use holonomy_source.Common.Dict.{Dict, insert}
use holonomy_source.Common.Int.{ℤ, leb_ℤ, ltb_ℤ}

pub data PredicateValue : Type 0 where
  int64 : ℤ → PredicateValue
  string : String → PredicateValue

pub data Predicate : Type 0 where
  eq neq gt lt : String → PredicateValue → Predicate

-- `Predicate::column`.
unfoldable pub column : Predicate → String
column (eq c v) = c
column (neq c v) = c
column (gt c v) = c
column (lt c v) = c

-- The bounds that the statistics give as values, by their physical type, and as bytes.
pub data Bounds : Type 0 where
  int64_bounds int32_bounds : Option ℤ → Option ℤ → Bounds
  -- Another physical type.
  other_bounds : Bounds

pub record Statistics : Type 0 where
  pub bounds : Bounds
  pub min_bytes : Option (List ℕ)
  pub max_bytes : Option (List ℕ)

-- `min <= v && v <= max`, where both bounds are there.
unfoldable pub within : Option ℤ → Option ℤ → ℤ → Bool
within (some lo) (some hi) v = leb_ℤ lo v && leb_ℤ v hi
within _ _ v = true

-- `max > v`, where there is a maximum.
unfoldable pub max_above : Option ℤ → ℤ → Bool
max_above none v = true
max_above (some hi) v = ltb_ℤ v hi

-- `min < v`, where there is a minimum.
unfoldable pub min_below : Option ℤ → ℤ → Bool
min_below none v = true
min_below (some lo) v = ltb_ℤ lo v

-- The comparison of the bytes of a text with the bounds as bytes.
unfoldable pub bytes_within : Option (List ℕ) → Option (List ℕ) → List ℕ → Bool
bytes_within (some lo) (some hi) v = bytes_le lo v && bytes_le v hi
bytes_within _ _ v = true

-- `Predicate::evaluate_statistics`: may the row group hold a row that meets the predicate?
unfoldable pub evaluate_statistics : Predicate → Statistics → Bool
evaluate_statistics (neq c v) stats = true
evaluate_statistics (eq c (int64 v)) stats = elim stats.bounds [
  | int64_bounds lo hi ↦ within lo hi v
  | int32_bounds lo hi ↦ within lo hi v
  | other_bounds ↦ true
]
evaluate_statistics (gt c (int64 v)) stats = elim stats.bounds [
  | int64_bounds lo hi ↦ max_above hi v
  | int32_bounds lo hi ↦ max_above hi v
  | other_bounds ↦ true
]
evaluate_statistics (lt c (int64 v)) stats = elim stats.bounds [
  | int64_bounds lo hi ↦ min_below lo v
  | int32_bounds lo hi ↦ min_below lo v
  | other_bounds ↦ true
]
evaluate_statistics (eq c (string v)) stats =
    bytes_within stats.min_bytes stats.max_bytes (as_bytes v)
evaluate_statistics (gt c (string v)) stats = true
evaluate_statistics (lt c (string v)) stats = true

-- A chunk of a column in a row group.
pub record ColumnChunk : Type 0 where
  pub statistics : Option Statistics
  pub start : ℕ
  pub len : ℕ

abbrev pub RowGroup : Type 0
RowGroup = List ColumnChunk

pub record Metadata : Type 0 where
  pub fields : List String
  pub row_groups : List RowGroup

-- `fields.iter().position(|c| c.name() == name)`, from an index on.
unfoldable pub position : ℕ → String → List String → Option ℕ
position i name [] = none
position i name (f ∷ fs) = if str_eq f name then some i else position (suc i) name fs

-- The chain of `let Some(..)` in the loop over the predicates, for one predicate.
unfoldable pub may_match : List String → RowGroup → Predicate → Bool
may_match fields group predicate = elim (position 0 (column predicate) fields) [
  | none ↦ true
  | some i ↦ elim (get_elem? group i) [
    | none ↦ true
    | some chunk ↦ elim chunk.statistics [
      | none ↦ true
      | some stats ↦ evaluate_statistics predicate stats
    ]
  ]
]

-- The loop over the predicates: the first that cannot match ends it.
unfoldable pub keep : List String → List Predicate → RowGroup → Bool
keep fields [] group = true
keep fields (p ∷ ps) group = if may_match fields group p then keep fields ps group else false

-- The loop over the row groups, from an index on.
unfoldable pub kept_from : ℕ → List String → List Predicate → List RowGroup → List ℕ
kept_from i fields predicates [] = []
kept_from i fields predicates (g ∷ gs) =
    let rest = kept_from (suc i) fields predicates gs in
    if keep fields predicates g then i ∷ rest else rest

-- `S3Client::get_pruned_row_groups`.
unfoldable pub get_pruned_row_groups : Metadata → String → List Predicate → List ℕ
get_pruned_row_groups metadata name predicates = elim (position 0 name metadata.fields) [
  | none ↦ []
  | some _ ↦ kept_from 0 metadata.fields predicates metadata.row_groups
]

-- The loop of `get_pruned_column_byte_ranges`: a range is its start and its end.
unfoldable pub kept_ranges : ℕ → List String → List Predicate → List RowGroup → List (ℕ × ℕ)
kept_ranges idx fields predicates [] = []
kept_ranges idx fields predicates (g ∷ gs) =
    let rest = kept_ranges idx fields predicates gs in
    if keep fields predicates g
    then elim (get_elem? g idx) [
      | none ↦ rest
      | some chunk ↦ (chunk.start, chunk.start + chunk.len) ∷ rest
    ]
    else rest

-- `S3Client::get_pruned_column_byte_ranges`.
unfoldable pub get_pruned_column_byte_ranges : Metadata → String → List Predicate → List (ℕ × ℕ)
get_pruned_column_byte_ranges metadata name predicates = elim (position 0 name metadata.fields) [
  | none ↦ []
  | some idx ↦ kept_ranges idx metadata.fields predicates metadata.row_groups
]

-- `S3Client::get_column_byte_ranges`.
unfoldable pub get_column_byte_ranges : Metadata → String → List (ℕ × ℕ)
get_column_byte_ranges metadata name = get_pruned_column_byte_ranges metadata name []

-- `S3Client::get_projected_column_byte_ranges`: the map of the ranges by column.
unfoldable pub get_projected_column_byte_ranges :
    Metadata → List String → List Predicate → Dict (List (ℕ × ℕ))
get_projected_column_byte_ranges metadata column_names predicates = projected column_names []
  where
    projected : List String → Dict (List (ℕ × ℕ)) → Dict (List (ℕ × ℕ))
    projected [] result = result
    projected (col ∷ cols) result =
        projected cols (insert col (get_pruned_column_byte_ranges metadata col predicates) result)
