-- ===== src/Read/Tests.antt =====
-- A read of a column of a file with two columns, under a policy with a row filter.
use holonomy_source.Common.{
  ◌≡◌, ◌⊎◌, ◌↔◌, refl, inl, String, true, none, some, Option, List, [], ◌∷◌, Has, member, map, ap,
  trim, trim_start, trim_end,
}
use holonomy_source.Common.Dict
use holonomy_source.Common.Dict.{Dict, contains_key}
use holonomy_source.Common.Int.{ℤ, pos}
use holonomy_source.Common.Result.{ok, err}
use holonomy_source.Auth.{identity}
use holonomy_source.Audit.{AuditEvent}
use holonomy_source.Audit
use holonomy_source.Policy.Manager.{
  merge_layers, verify_signatures, verify_layer, check_signature, sort, place, merge_sorted,
}
use holonomy_source.Governance.{
  resolve_active_role, choose_role, only_role, matching_roles, purpose_bound_role, apply_rls,
  is_policy_encrypted,
}
use holonomy_source.Linter.Types.{same_type}
use holonomy_source.Write.{valid_purpose}
use holonomy_source.Predicate
use holonomy_source.Predicate.{
  Predicate, gt, lt, column, get_pruned_row_groups, kept_from, position,
}
use holonomy_source.Predicate.Parse.{
  returns, parse_filter, parse_with, parse_at, value_of, of_op, ends_with_quote, parse_i64,
  magnitude, digits, in_i64,
}
use holonomy_source.Filter.{operand, evaluate_filter, scalar_array, wrap, residue, repeat, compare}
use holonomy_source.Filter.Samples.{Column, arrow, kernels, kernel_laws, chrono}
use holonomy_source.Read.{
  missing_filter_column, policy_predicates, global_filters, global_filter, selective_filters,
  selective_filter, split_commas, column_tags, tags_from, active_policy, hidden_cols, project,
  contains_index, is_physically_encrypted,
}
use holonomy_source.Read.Batches.{
  filter_batch, collect_arrays, filter_by, filter_columns, kept_array, num_rows,
}
use holonomy_source.Read.Samples.{
  keep_case, engine, analyst, codec, manager, integers, compute, ages, levels, batch,
}
use holonomy_source.Read.Plan.{Asked, policy_predicates_lem}
use holonomy_source.Read.Pick.{select}
use holonomy_source.Read.Rows.{ComputeLaws, Got, passes}
use holonomy_source.Read.Kept.{filter_batch-passes}
use holonomy_source.Read.Orchestrator.{
  Inputs, Outside, read, read_file, read_filtered, plan_read, unified_schema, merged_policy,
  absent_column, read_column, stream_of, concat_arrays, read_event,
}

split_text : split_commas "pii, hr" ≡ "pii" ∷ " hr" ∷ []
unfolding split_commas
split_text = refl

tags_of_age :
    column_tags (some (("holonomy.tags.age", some "pii, hr") ∷ ("other", none) ∷ [])) "age"
    ≡ "pii" ∷ "hr" ∷ []
unfolding column_tags tags_from split_commas trim trim_start trim_end
tags_of_age = refl

map_self : (xs : List (Option ℤ)) → xs ≡ map (λ c. c) xs
map_self [] = refl
map_self (x ∷ xs) = ap (λ l. x ∷ l) (map_self xs)

abbrev compute_laws : ComputeLaws arrow kernels kernel_laws compute
compute_laws = record {
  Cell = Option ℤ;
  cells = λ x. x.held;
  integer = λ c. c;
  values-cells = λ x. map_self x.held;
  filter_cells =
      λ x mask h. (record { type = x.type; held = select mask x.held }, refl, refl, refl);
  try_new_fits = λ n c b ys t h. refl;
}

abbrev filters : List Predicate
filters = gt "age" (Predicate.int64 (pos 18)) ∷ lt "level" (Predicate.int64 (pos 3)) ∷ []

planned :
    policy_predicates missing_filter_column ("age" ∷ "level" ∷ []) (some analyst)
    ≡ returns (ok filters)
unfolding policy_predicates global_filters global_filter selective_filters selective_filter
    parse_filter parse_with parse_at value_of of_op ends_with_quote parse_i64 magnitude digits
    in_i64 trim trim_start trim_end column
planned = refl

abbrev out : Outside keep_case arrow engine codec kernels chrono compute keep_case
out = record {
  Props = String;
  parse_contract = λ text. err "none";
  get_decryption_properties = λ user. ok user;
  open_file = λ props target. ok (record {
    num_rows = 4;
    file_cols = "age" ∷ "level" ∷ [];
    fields = "age" ∷ "level" ∷ [];
    metadata = record { fields = "age" ∷ "level" ∷ []; row_groups = [] };
    encrypted = [];
    key_value_metadata = none;
    build = λ projection groups. ok (ok batch ∷ []);
  });
}

abbrev inputs : Inputs
inputs = record {
  target = "s3://b/t/part.parquet";
  purpose = some " audit ";
  user_ctx = record {
    sub = some "ann";
    client_id = none;
    email = none;
    principals = "analyst" ∷ [];
  };
  column_to_read = "level";
  contract_json = none;
  assumed_role = none;
  fail_closed_mode = none;
  now = 1;
}

policy_predicates_lem_example :
    ((pred : Predicate)
      → Has pred filters ↔ (
          Asked ("age" ∷ "level" ∷ []) analyst.global_row_filters pred
          ⊎ Asked ("age" ∷ "level" ∷ []) analyst.selective_row_filters pred))
    × ((f : String)
        → Has f analyst.global_row_filters
        → (pred : Predicate) → parse_filter f ≡ returns (some pred)
        → member (column pred) ("age" ∷ "level" ∷ []) ≡ true)
policy_predicates_lem_example =
    policy_predicates_lem missing_filter_column ("age" ∷ "level" ∷ []) analyst filters planned

filter_batch-passes_example :
    (out : Dict Column) × (filter_batch arrow kernels chrono compute filters batch ≡ ok out)
    × ((col : String) (x : Column)
        → Dict.get col batch ≡ some x
        → Got arrow kernels kernel_laws chrono compute compute_laws
            (passes arrow kernels kernel_laws chrono compute compute_laws filters batch 4)
            x
            (Dict.get col out))
unfolding operand column Dict.get
filter_batch-passes_example =
    filter_batch-passes arrow kernels kernel_laws chrono compute compute_laws filters 4 "age" ages
      (("level", levels) ∷ []) (refl, (refl, tt))
      ((pos 18, ages, refl, refl, inl refl), ((pos 3, levels, refl, refl, inl refl), tt))

-- The reader sees the level of the one row that meets both filters, and the read is recorded.
read_level :
    read keep_case arrow engine codec kernels chrono compute keep_case out manager inputs ≡ (
      record {
        timestamp = 1;
        user_hash = "ann";
        file_signature = "s3://b/t/part.parquet";
        accessed_columns = none;
        business_purpose = "audit";
        action = Audit.read;
      }
          ∷ [],
      returns (ok (integers (some (pos 1) ∷ []))),
    )
unfolding read read_file read_filtered plan_read unified_schema merged_policy absent_column
    read_column stream_of concat_arrays read_event valid_purpose identity merge_layers
    verify_signatures verify_layer check_signature sort place merge_sorted active_policy
    resolve_active_role choose_role only_role matching_roles purpose_bound_role contains_key
    policy_predicates global_filters global_filter selective_filters selective_filter parse_filter
    parse_with parse_at value_of of_op ends_with_quote parse_i64 magnitude digits in_i64 trim
    trim_start trim_end column hidden_cols project contains_index get_pruned_row_groups kept_from
    position collect_arrays filter_batch filter_by filter_columns kept_array num_rows
    is_physically_encrypted column_tags apply_rls is_policy_encrypted evaluate_filter operand
    scalar_array same_type wrap residue repeat compare Dict.get
read_level = refl

-- A reader of no role that the policy names sees all rows of a column that is not encrypted.
read_unfiltered :
    (read keep_case arrow engine codec kernels chrono compute keep_case out manager
      (record inputs { user_ctx = record inputs.user_ctx { principals = [] } })).1
    ≡ returns (ok levels)
unfolding read read_file read_filtered plan_read unified_schema merged_policy absent_column
    read_column stream_of concat_arrays read_event valid_purpose identity merge_layers
    verify_signatures verify_layer check_signature sort place merge_sorted active_policy
    resolve_active_role choose_role only_role matching_roles purpose_bound_role contains_key
    policy_predicates trim trim_start trim_end hidden_cols project contains_index
    get_pruned_row_groups kept_from position collect_arrays filter_batch kept_array num_rows
    is_physically_encrypted column_tags apply_rls is_policy_encrypted Dict.get
read_unfiltered = refl
