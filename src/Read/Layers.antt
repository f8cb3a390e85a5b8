-- ===== src/Read/Layers.antt =====
-- holonomy-core/src/manager/read_orchestrator.rs and scan_orchestrator.rs: the layers that a policy is
-- merged from, and the row groups and columns that a stream of `read` has.
use holonomy_source.Common.{◌≡◌, String, List, [], ◌∷◌, ℕ}
use holonomy_source.Common.Result.{Result, ok, map_err, map_err-eq-ok, >>=-eq-ok}
use holonomy_source.Arrow.{Arrow}
use holonomy_source.Policy.{PolicyManifest}
use holonomy_source.Policy.Manager.{
  PolicyManager, Layer, discover_policies, verify_signatures, merge_layers,
}
use holonomy_source.Policy.Manager
use holonomy_source.Linter.{Engine}
use holonomy_source.Predicate.{Predicate, get_pruned_row_groups}
use holonomy_source.Filter.{Kernels, Chrono}
use holonomy_source.Read.{policy_failed, ingestion_failed, parquet, hidden_cols, project}
use holonomy_source.Read.Batches.{Compute, Batch}
use holonomy_source.Read.Orchestrator.{Inputs, File, Outside, merged_policy, stream_of}

-- The layers of the target are found, and merge to the policy.
abbrev pub IsMerged : Manager.Codec → PolicyManager → String → PolicyManifest → Type 0
IsMerged policy manager target merged =
    (policies : List Layer) × (discover_policies manager target ≡ ok policies)
    × (merge_layers policy manager policies ≡ ok merged)

module _ (lower : String → String) (arrow : Arrow) (engine : Engine arrow) (policy : Manager.Codec)
    (kernels : Kernels arrow) (chrono : Chrono) (compute : Compute arrow) (hash : String → String)
    (out : Outside lower arrow engine policy kernels chrono compute hash)
    (manager : PolicyManager) where
  pub merged_policy-IsMerged :
      (i : Inputs) {merged : PolicyManifest}
      → merged_policy lower arrow engine policy kernels chrono compute hash out manager i
        ≡ ok merged
      → IsMerged policy manager i.target merged
  unfolding merged_policy
  merged_policy-IsMerged i h =
      let (policies, d, h1) =
        >>=-eq-ok (map_err policy_failed (discover_policies manager i.target)) _ h in
      let (parsed, v, h2) =
        >>=-eq-ok (map_err policy_failed (verify_signatures policy manager policies)) _ h1 in
      (
        policies,
        map_err-eq-ok policy_failed (discover_policies manager i.target) d,
        map_err-eq-ok policy_failed (merge_layers policy manager policies) h2,
      )

  pub stream_of-eq-ok :
      (i : Inputs) (file : File arrow.Array) (preds : List Predicate) (idx : ℕ)
      {stream : List (Result String (Batch arrow kernels chrono compute))}
      → stream_of lower arrow engine policy kernels chrono compute hash out manager i file preds idx
        ≡ ok stream
      → file.build
          (project file.fields (hidden_cols preds) (idx ∷ []))
          (get_pruned_row_groups file.metadata i.column_to_read preds)
        ≡ ok stream
  unfolding stream_of
  stream_of-eq-ok i file preds idx h = map_err-eq-ok (λ e. ingestion_failed (parquet e)) _ h
