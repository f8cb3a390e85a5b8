-- ===== src/Scan/Tests.antt =====
-- A scan of two files, under a policy with row filters.
use holonomy_source.Common.{
  ◌≡◌, refl, String, true, none, some, List, [], ◌∷◌, trim, trim_start, trim_end, str_eq,
  if◌then◌else◌,
}
use holonomy_source.Common.Dict
use holonomy_source.Common.Dict.{Dict, contains_key}
use holonomy_source.Common.Int.{pos}
use holonomy_source.Common.Result.{ok, err}
use holonomy_source.Arrow.{int64}
use holonomy_source.Auth.{identity}
use holonomy_source.Audit.{AuditEvent}
use holonomy_source.Audit
use holonomy_source.Predicate.{column, get_pruned_row_groups, kept_from, position}
use holonomy_source.Predicate.Parse.{
  returns, parse_filter, parse_with, parse_at, value_of, of_op, ends_with_quote, parse_i64,
  magnitude, digits, in_i64,
}
use holonomy_source.Policy.Manager.{
  merge_layers, verify_signatures, verify_layer, check_signature, sort, place, merge_sorted,
}
use holonomy_source.Governance.{
  resolve_active_role, choose_role, only_role, matching_roles, purpose_bound_role, apply_rls,
  is_policy_encrypted,
}
use holonomy_source.Linter.Types.{same_type}
use holonomy_source.Write.{valid_purpose, join}
use holonomy_source.Filter.{operand, evaluate_filter, scalar_array, wrap, residue, repeat, compare}
use holonomy_source.Filter.Samples.{Column, arrow, kernels, chrono}
use holonomy_source.Read.{
  global_filters, global_filter, selective_filters, selective_filter, active_policy,
  policy_predicates, hidden_cols, column_tags,
}
use holonomy_source.Read.Batches.{filter_batch, filter_by, filter_columns, num_rows}
use holonomy_source.Read.Samples.{keep_case, engine, codec, manager, integers, compute, batch}
use holonomy_source.Scan.{
  external_error, Field, schema_field, Outlet, arrays_of, requested_part, drop_hidden, flag_of,
  tags_of, masked_column, masked_columns, missing_type, same_names, batch_message, stream_messages,
  task_messages,
}
use holonomy_source.Scan.Orchestrator.{
  Inputs, File, Outside, scan_event, open_stream, scan_policy, target_fields, first_target,
  task_for, open_rest, plan_scan, opened_files, scan,
}
use holonomy_source.Scan.Columns.{
  field_names, requested_cols, project_hidden, unified_field, final_field, first_existing,
  scan_indices, is_encrypted, map_columns,
}

abbrev field : String → Field
field name = record { name = name; data_type = int64; nullable = true }

-- The arrays under the names of the schema.
abbrev named : List Field → List Column → Dict Column
named [] xs = []
named (f ∷ fs) [] = []
named (f ∷ fs) (x ∷ xs) = (f.name, x) ∷ named fs xs

abbrev outlet : Outlet keep_case arrow kernels chrono compute keep_case
outlet = record { try_new_schema = λ fields arrays. ok (named fields arrays) }

abbrev file : File Column
file = record {
  all_columns = "age" ∷ "level" ∷ [];
  fields = field "age" ∷ field "level" ∷ [];
  metadata = record { fields = "age" ∷ "level" ∷ []; row_groups = [] };
  first_group = none;
  key_value_metadata = none;
  build = λ projection groups. ok (ok batch ∷ []);
}

abbrev out : Outside keep_case arrow engine codec kernels chrono compute keep_case outlet
out = record {
  Props = String;
  parse_contract = λ text. err "none";
  show_policy_error = λ e. "policy";
  show_crypto_error = λ e. "crypto";
  get_decryption_properties = λ user. ok user;
  open_file = λ props target. if str_eq target "gone" then err "404" else ok file;
}

abbrev inputs : Inputs
inputs = record {
  targets = "a" ∷ "gone" ∷ [];
  purpose = some "audit";
  user_ctx = record {
    sub = some "ann";
    client_id = none;
    email = none;
    principals = "analyst" ∷ [];
  };
  columns = some ("level" ∷ []);
  predicates = [];
  contract_json = none;
  target_schema = none;
  assumed_role = none;
  fail_closed_mode = none;
  now = 1;
}

-- The reader gets the level of the one row that meets both filters, then the error of the second file.
scanned :
    scan keep_case arrow engine codec kernels chrono compute keep_case outlet out manager inputs ≡ (
      record {
        timestamp = 1;
        user_hash = "ann";
        file_signature = "a,gone";
        accessed_columns = some ("level" ∷ "age" ∷ []);
        business_purpose = "audit";
        action = Audit.read;
      }
          ∷ [],
      returns (
          ok (
            field "level" ∷ [],
            ok (("level", integers (some (pos 1) ∷ [])) ∷ []) ∷ err (external_error "404") ∷ [],
          )),
    )
unfolding scan plan_scan task_for open_stream open_rest opened_files scan_policy target_fields
    first_target requested_cols project_hidden unified_field final_field schema_field field_names
    first_existing scan_indices is_encrypted map_columns scan_event valid_purpose join identity
    merge_layers verify_signatures verify_layer check_signature sort place merge_sorted
    active_policy resolve_active_role choose_role only_role matching_roles purpose_bound_role
    contains_key policy_predicates global_filters global_filter selective_filters selective_filter
    parse_filter parse_with parse_at value_of of_op ends_with_quote parse_i64 magnitude digits
    in_i64 trim trim_start trim_end column hidden_cols get_pruned_row_groups kept_from position
    task_messages stream_messages batch_message filter_batch filter_by filter_columns drop_hidden
    same_names requested_part arrays_of masked_columns masked_column flag_of tags_of missing_type
    num_rows column_tags apply_rls is_policy_encrypted evaluate_filter operand scalar_array
    same_type wrap residue repeat compare Dict.get Dict.insert
scanned = refl
