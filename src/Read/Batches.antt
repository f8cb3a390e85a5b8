-- ===== src/Read/Batches.antt =====
-- holonomy-core/src/manager/read_orchestrator.rs: the loop over the batches, and the filtering of one.
use holonomy_source.Common.{
  ℕ, String, Bool, Option, none, some, List, [], ◌∷◌, ◌++◌, ltb, ◌<>◌, if◌then◌else◌,
}
use holonomy_source.Common.Dict
use holonomy_source.Common.Dict.{Dict}
use holonomy_source.Common.Result.{Result, ok, err, ok_or, map_err, and_then}
use holonomy_source.Arrow.{Arrow}
use holonomy_source.Predicate.{Predicate, column}
use holonomy_source.Filter.{Kernels, Chrono, FilterError, filter_error, evaluate_filter}
use holonomy_source.Read.{
  ReadError, ingestion_failed, parquet, FilterFailure, missing_column, not_evaluated, not_filtered,
  read_failure,
}

-- The compute functions of arrow, and `RecordBatch::try_new` with the schema of a batch.
pub record Compute (arrow : Arrow) : Type 0 where
  pub filter : arrow.Array → List (Option Bool) → Result String arrow.Array
  pub concat : List arrow.Array → Result String arrow.Array
  pub try_new : Dict arrow.Array → List arrow.Array → Result String (Dict arrow.Array)

module _ (arrow : Arrow) (kernels : Kernels arrow) (chrono : Chrono) (compute : Compute arrow) where
  open arrow use {Array, len}
  open compute use {filter, try_new}

  -- `RecordBatch`.
  abbrev pub Batch : Type 0
  Batch = Dict Array

  unfoldable pub num_rows : Batch → ℕ
  num_rows [] = 0
  num_rows ((name, x) ∷ batch) = len x

  -- `columns().iter().map(|arr| filter(arr, &mask)).collect::<Result<Vec<_>, _>>()`
  unfoldable pub filter_columns : List (Option Bool) → Batch → Result String (List Array)
  filter_columns mask [] = ok []
  filter_columns mask ((name, x) ∷ batch) =
      and_then (filter x mask) (λ y. and_then (filter_columns mask batch) (λ ys. ok (y ∷ ys)))

  -- `e.to_string()`
  unfoldable pub show_filter_error : FilterError → String
  show_filter_error (filter_error e) = "Filtering failed: " <> e

  -- The body of the loop over the predicates, for a column that is there.
  unfoldable pub filter_by : Predicate → Array → Batch → Result FilterFailure Batch
  filter_by pred col_array batch =
      and_then
        (map_err (λ e. not_evaluated (show_filter_error e))
          (evaluate_filter arrow kernels chrono col_array pred))
        (λ mask. map_err not_filtered (and_then (filter_columns mask batch) (try_new batch)))

  -- The loop over the predicates.
  unfoldable pub filter_batch : List Predicate → Batch → Result FilterFailure Batch
  filter_batch [] batch = ok batch
  filter_batch (pred ∷ preds) batch =
      and_then (ok_or (Dict.get (column pred) batch) (missing_column (column pred)))
        (λ col_array. and_then (filter_by pred col_array batch) (filter_batch preds))

  -- The column that is read, where the batch has it and a row is left.
  unfoldable pub kept_array : String → Batch → List Array
  kept_array name batch = elim (Dict.get name batch) [
    | none ↦ []
    | some x ↦ if ltb 0 (num_rows batch) then x ∷ [] else []
  ]

  -- The loop over the stream of batches.
  unfoldable pub collect_arrays :
      List Predicate → String → List (Result String Batch) → Result ReadError (List Array)
  collect_arrays preds name [] = ok []
  collect_arrays preds name (err e ∷ stream) = err (ingestion_failed (parquet e))
  collect_arrays preds name (ok batch ∷ stream) =
      let rest = collect_arrays preds name stream in
      and_then (map_err read_failure (filter_batch preds batch))
        (λ current. and_then rest (λ arrays. ok (kept_array name current ++ arrays)))
