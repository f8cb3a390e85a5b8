-- ===== src/Read/Errors.antt =====
-- holonomy-core/src/manager/read_orchestrator.rs: the steps of `read` on an opened file do not fail
-- with an error of the keys.
use holonomy_source.Common.{
  ℕ, get_elem?, is_empty, trim, String, true, false, Option, none, some, List, [], ◌∷◌, Bool,
  member, if◌then◌else◌,
}
use holonomy_source.Common.Result.{Result, ok, err, map_err, ok_or}
use holonomy_source.Arrow.{Arrow}
use holonomy_source.Policy.{PolicyManifest, PrincipalPolicy}
use holonomy_source.Policy.Manager.{
  PolicyManager, discover_policies, verify_signatures, merge_layers,
}
use holonomy_source.Policy.Manager
use holonomy_source.Governance.{GovernanceError, apply_rls}
use holonomy_source.Linter.{Engine, from_json, to_arrow_schema}
use holonomy_source.Predicate.{Predicate, column, position}
use holonomy_source.Predicate.Parse.{panics, returns, parse_filter}
use holonomy_source.Filter.{Kernels, Chrono}
use holonomy_source.Write.{valid_purpose}
use holonomy_source.Read.{
  missing_filter_column, read_failure, FilterFailure, missing_column, not_evaluated, not_filtered,
  ReadError, policy_failed, missing_purpose, Answer, KeepsKeys, >>=-KeepsKeys, and_then-KeepsKeys,
  active_policy, policy_predicates, lift, lift-KeepsKeys, governance_failed, global_filter,
  global_filters, selective_filters, column_tags, is_physically_encrypted,
}
use holonomy_source.Read.Batches.{Compute, Batch, filter_batch, collect_arrays}
use holonomy_source.Read.Orchestrator.{
  Inputs, File, Outside, merged_policy, unified_schema, stream_of, concat_arrays, read_column,
  plan_read,
}

map_err-KeepsKeys :
    {E A : Type 0} (f : E → ReadError) (r : Result E A)
    → ((e : E) → KeepsKeys {A = A} (returns (err (f e))))
    → KeepsKeys (returns (map_err f r))
map_err-KeepsKeys f (ok a) fine = tt
map_err-KeepsKeys f (err e) fine = fine e

ok_or-KeepsKeys :
    {A : Type 0} (o : Option A) (e : ReadError)
    → KeepsKeys {A = A} (returns (err e))
    → KeepsKeys (returns (ok_or o e))
ok_or-KeepsKeys none e fine = fine
ok_or-KeepsKeys (some a) e fine = tt

pub valid_purpose-KeepsKeys :
    (o : Option String) → KeepsKeys (returns (valid_purpose missing_purpose o))
unfolding valid_purpose
valid_purpose-KeepsKeys none = tt
valid_purpose-KeepsKeys (some p) = go (is_empty (trim p))
  where
    go :
        (b : Bool)
        → KeepsKeys {A = String} (returns (if b then err missing_purpose else ok (trim p)))
    go true = tt
    go false = tt

global_filter-KeepsKeys :
    (cols : List String) (o : Option Predicate)
    → KeepsKeys (returns (global_filter missing_filter_column cols o))
unfolding global_filter
global_filter-KeepsKeys cols none = tt
global_filter-KeepsKeys cols (some p) = go (member (column p) cols) _
  where
    go :
        (b : Bool) (e : GovernanceError)
        → KeepsKeys (returns (if b then ok (p ∷ []) else err (governance_failed e)))
    go true e = tt
    go false e = tt

global_filters-KeepsKeys :
    (cols fs : List String) → KeepsKeys (global_filters missing_filter_column cols fs)
unfolding global_filters
global_filters-KeepsKeys cols [] = tt
global_filters-KeepsKeys cols (f ∷ fs) =
    >>=-KeepsKeys (lift (parse_filter f)) _ (lift-KeepsKeys (parse_filter f)) (λ parsed.
      >>=-KeepsKeys (returns (global_filter missing_filter_column cols parsed)) _
        (global_filter-KeepsKeys cols parsed)
        (λ found.
          >>=-KeepsKeys (global_filters missing_filter_column cols fs) _
            (global_filters-KeepsKeys cols fs) (λ rest. tt)))

selective_filters-KeepsKeys : (cols fs : List String) → KeepsKeys (selective_filters cols fs)
unfolding selective_filters
selective_filters-KeepsKeys cols [] = tt
selective_filters-KeepsKeys cols (f ∷ fs) =
    >>=-KeepsKeys (lift (parse_filter f)) _ (lift-KeepsKeys (parse_filter f)) (λ parsed.
      >>=-KeepsKeys (selective_filters cols fs) _ (selective_filters-KeepsKeys cols fs)
        (λ rest. tt))

policy_predicates-KeepsKeys :
    (cols : List String) (o : Option PrincipalPolicy)
    → KeepsKeys (policy_predicates missing_filter_column cols o)
unfolding policy_predicates
policy_predicates-KeepsKeys cols none = tt
policy_predicates-KeepsKeys cols (some p) =
    >>=-KeepsKeys (global_filters missing_filter_column cols p.global_row_filters) _
      (global_filters-KeepsKeys cols p.global_row_filters)
      (λ global.
        >>=-KeepsKeys (selective_filters cols p.selective_row_filters) _
          (selective_filters-KeepsKeys cols p.selective_row_filters) (λ selective. tt))

module _ (arrow : Arrow) (kernels : Kernels arrow) (chrono : Chrono) (compute : Compute arrow) where
  read_failure-KeepsKeys :
      (e : FilterFailure)
      → KeepsKeys {A = Batch arrow kernels chrono compute} (returns (err (read_failure e)))
  unfolding read_failure
  read_failure-KeepsKeys (missing_column col) = tt
  read_failure-KeepsKeys (not_evaluated e) = tt
  read_failure-KeepsKeys (not_filtered e) = tt

  collect_arrays-KeepsKeys :
      (ps : List Predicate) (name : String)
      (stream : List (Result String (Batch arrow kernels chrono compute)))
      → KeepsKeys (returns (collect_arrays arrow kernels chrono compute ps name stream))
  unfolding collect_arrays
  collect_arrays-KeepsKeys ps name [] = tt
  collect_arrays-KeepsKeys ps name (err e ∷ stream) = tt
  collect_arrays-KeepsKeys ps name (ok b ∷ stream) =
      and_then-KeepsKeys (map_err read_failure (filter_batch arrow kernels chrono compute ps b)) _
        (map_err-KeepsKeys read_failure (filter_batch arrow kernels chrono compute ps b)
          read_failure-KeepsKeys)
        (λ current.
          and_then-KeepsKeys (collect_arrays arrow kernels chrono compute ps name stream) _
            (collect_arrays-KeepsKeys ps name stream) (λ arrays. tt))

module _ (lower : String → String) (arrow : Arrow) (engine : Engine arrow) (policy : Manager.Codec)
    (kernels : Kernels arrow) (chrono : Chrono) (compute : Compute arrow) (hash : String → String)
    (out : Outside lower arrow engine policy kernels chrono compute hash)
    (manager : PolicyManager) where
  pub merged_policy-KeepsKeys :
      (i : Inputs)
      → KeepsKeys (
          returns
            (merged_policy lower arrow engine policy kernels chrono compute hash out manager i))
  unfolding merged_policy
  merged_policy-KeepsKeys i =
      and_then-KeepsKeys (map_err policy_failed (discover_policies manager i.target)) _
        (map_err-KeepsKeys _ (discover_policies manager i.target) (λ e. tt))
        (λ policies.
          and_then-KeepsKeys (map_err policy_failed (verify_signatures policy manager policies)) _
            (map_err-KeepsKeys _ (verify_signatures policy manager policies) (λ e. tt))
            (λ parsed. map_err-KeepsKeys _ (merge_layers policy manager policies) (λ e. tt)))

  unified_schema-KeepsKeys :
      (o : Option String)
      → KeepsKeys
          (unified_schema lower arrow engine policy kernels chrono compute hash out manager o)
  unfolding unified_schema
  unified_schema-KeepsKeys none = tt
  unified_schema-KeepsKeys (some json) =
      >>=-KeepsKeys (returns (map_err _ (from_json lower arrow engine out.parse_contract json))) _
        (map_err-KeepsKeys _ (from_json lower arrow engine out.parse_contract json) (λ e. tt))
        (λ v.
          >>=-KeepsKeys (returns (map_err _ (to_arrow_schema lower arrow engine v))) _
            (map_err-KeepsKeys _ (to_arrow_schema lower arrow engine v) (λ e. tt)) (λ schema. tt))

  pub plan_read-KeepsKeys :
      (i : Inputs) (purpose : String) (merged : PolicyManifest) (file : File arrow.Array)
      → KeepsKeys (
          plan_read lower arrow engine policy kernels chrono compute hash out manager i purpose
            merged file)
  unfolding plan_read
  plan_read-KeepsKeys i purpose merged file =
      >>=-KeepsKeys
        (unified_schema lower arrow engine policy kernels chrono compute hash out manager
          i.contract_json)
        _ (unified_schema-KeepsKeys i.contract_json)
        (λ unified.
          >>=-KeepsKeys
            (policy_predicates missing_filter_column file.file_cols
              (active_policy i.user_ctx merged i.assumed_role purpose))
            _
            (policy_predicates-KeepsKeys file.file_cols
              (active_policy i.user_ctx merged i.assumed_role purpose))
            (λ preds. tt))

  concat_arrays-KeepsKeys :
      (xs : List arrow.Array)
      → KeepsKeys (
          returns
            (concat_arrays lower arrow engine policy kernels chrono compute hash out manager xs))
  unfolding concat_arrays
  concat_arrays-KeepsKeys [] = tt
  concat_arrays-KeepsKeys (x ∷ xs) = map_err-KeepsKeys _ (compute.concat (x ∷ xs)) (λ e. tt)

  is_physically_encrypted-KeepsKeys :
      (groups : List (List Bool)) (idx : ℕ) → KeepsKeys (is_physically_encrypted groups idx)
  unfolding is_physically_encrypted
  is_physically_encrypted-KeepsKeys [] idx = tt
  is_physically_encrypted-KeepsKeys (group ∷ groups) idx = go (get_elem? group idx)
    where
      go :
          (o : Option Bool)
          → KeepsKeys (
              let r : Answer ReadError Bool = elim o [ none ↦ panics | some e ↦ returns (ok e) ] in
              r)
      go none = tt
      go (some e) = tt

  pub read_column-KeepsKeys :
      (i : Inputs) (purpose : String) (merged : PolicyManifest) (file : File arrow.Array)
      (preds : List Predicate)
      → KeepsKeys (
          read_column lower arrow engine policy kernels chrono compute hash out manager i purpose
            merged file preds)
  unfolding read_column stream_of
  read_column-KeepsKeys i purpose merged file preds =
      >>=-KeepsKeys (returns (ok_or (position 0 i.column_to_read file.fields) _)) _
        (ok_or-KeepsKeys (position 0 i.column_to_read file.fields) _ tt)
        (λ idx.
          >>=-KeepsKeys (returns (map_err _ (file.build _ _))) _
            (map_err-KeepsKeys _ (file.build _ _) (λ e. tt))
            (λ stream.
              >>=-KeepsKeys
                (returns
                  (collect_arrays arrow kernels chrono compute preds i.column_to_read stream))
                _
                (collect_arrays-KeepsKeys arrow kernels chrono compute preds i.column_to_read
                  stream)
                (λ arrays.
                  >>=-KeepsKeys
                    (returns (
                      concat_arrays lower arrow engine policy kernels chrono compute hash out
                        manager arrays))
                    _ (concat_arrays-KeepsKeys arrays)
                    (λ joined.
                      >>=-KeepsKeys (is_physically_encrypted file.encrypted idx) _
                        (is_physically_encrypted-KeepsKeys file.encrypted idx)
                        (λ encrypted.
                          map_err-KeepsKeys _
                            (apply_rls lower arrow hash joined i.user_ctx merged i.column_to_read
                              i.assumed_role (some purpose) i.fail_closed_mode encrypted
                              (column_tags file.key_value_metadata i.column_to_read))
                            (λ e. tt))))))
