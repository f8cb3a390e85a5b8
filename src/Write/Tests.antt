-- ===== src/Write/Tests.antt =====
-- A write of a batch with one column, which the policy wants encrypted.
use holonomy_source.Common.{
  ℕ, ◌≡◌, ◌⊎◌, ◌↔◌, refl, String, true, false, none, some, List, [], ◌∷◌, Has, str_eq, trim,
  trim_start, trim_end,
}
use holonomy_source.Common.Result.{Result, ok}
use holonomy_source.Common.Dict
use holonomy_source.Arrow.{utf8, Arrow}
use holonomy_source.Linter.{
  Engine, ColumnPolicy, DataContract, RecordBatch, from_json, compile, compile_regex, validate,
  extra_errors, batch_names, contract_names, all_column_errors, column_errors, find_column,
  present_errors, type_errors, null_errors, text_errors, range_errors, allowed_test, regex_test,
  null_rows, text_rows, range_rows,
}
use holonomy_source.Policy.{global, PolicyManifest}
use holonomy_source.Policy.Manager.{
  Codec, PolicyManager, merge_layers, verify_signatures, verify_layer, check_signature, sort, place,
  merge_sorted,
}
use holonomy_source.Crypto.{Moka, CachedDek, KmsProvider, generate_or_get_dek, metadata_bytes}
use holonomy_source.Crypto
use holonomy_source.Auth.{set_insert, set_insert_all}
use holonomy_source.Audit
use holonomy_source.Upload.{data_item, success}
use holonomy_source.Linter.Types.{expected_data_type, type_named, same_type}
use holonomy_source.Policy.Encrypt.{
  resolve_columns_to_encrypt, sensitive_names, is_sensitive, has_required_tag, has_required_name,
  required_tags_of, required_columns_of,
}
use holonomy_source.Write.Channel
use holonomy_source.Write.Channel.{write_task, write_all, write_loop, blocking_send, items_of}
use holonomy_source.Write.{
  Effect, pushed, uploaded, WriteError, Outside, partition_root, before_last_slash,
  trim_end_slashes, join, valid_purpose, contract_text, column_entries, tag_metadata,
}
use holonomy_source.Write.Sidecar.{SidecarKeyEntry, add_to_sidecar}
use holonomy_source.Write.Sidecar.Entries.{Nodup, keys_of, add_to_sidecar_lem}
use holonomy_source.Write.Orchestrator.{
  Inputs, State, write, flush_partition, check_write, write_checked, write_file, dek_for,
  column_deks, properties, column_keys, task, write_event, entries,
}
use holonomy_source.Write.Flush.{flush_partition_twice}

root_of : partition_root "s3://b/t/part.parquet" ≡ "s3://b/t"
unfolding partition_root before_last_slash
root_of = refl

root_of_name : partition_root "part.parquet" ≡ "part.parquet"
unfolding partition_root before_last_slash
root_of_name = refl

trimmed : trim_end_slashes "s3://b/t//" ≡ "s3://b/t"
unfolding trim_end_slashes
trimmed = refl

joined : join "," ("pii" ∷ "hr" ∷ []) ≡ "pii,hr"
unfolding join
joined = refl

abbrev arrow : Arrow
arrow = record {
  Array = ℕ;
  data_type = λ x. utf8;
  len = λ x. x;
  is_null = λ x i. false;
  as_string = λ x. none;
  as_large_string = λ x. none;
  string_array = λ vs. 0;
  large_string_array = λ vs. 0;
  null_array = λ t n. n;
}

abbrev engine : Engine arrow
engine = record {
  Regex = String;
  new = λ s. ok s;
  is_match = str_eq;
  Float = ℕ;
  lt = λ a b. false;
  as_f64 = λ x. none;
  null_count = λ x. 0;
}

abbrev keep_case : String → String
keep_case s = s

abbrev phone : ColumnPolicy keep_case arrow engine
phone = record {
  name = "phone";
  data_type = "string";
  required = true;
  regex = none;
  range = none;
  allowed_values = none;
  tags = some ("pii" ∷ []);
}

abbrev contract : DataContract keep_case arrow engine
contract = record { name = "staff"; version = "1.0"; columns = phone ∷ [] }

abbrev pii_policy : PolicyManifest
pii_policy = record {
  version = "1.0";
  principals = [];
  encryption = some (record { required_tags = "pii" ∷ []; required_columns = [] });
  purpose_bindings = none;
}

abbrev codec : Codec
codec = record {
  Key = List ℕ;
  Signature = List ℕ;
  envelope_from_str = λ s. ok (record { signature = s; payload = s });
  manifest_from_str = λ s. ok pii_policy;
  key_from_bytes = λ bytes. some bytes;
  hex_decode = λ s. some [];
  signature_from_slice = λ bytes. some bytes;
  verify = λ key payload signature. true;
}

abbrev manager : PolicyManager
manager = record { provider = λ target. ok ((global, "g") ∷ []); public_key = none }

abbrev key_codec : Crypto.Codec
key_codec = record {
  sha256_hex = λ bytes. "h";
  encode = λ bytes. "b64";
  decode = λ s. none;
  to_string = λ json. "json";
  from_str = λ s. none;
  from_utf8 = λ bytes. ok "json";
  debug = λ s. s;
}

abbrev kms : KmsProvider
kms = record { decrypt_dek = λ w context. ok w; wrap_key = λ key context. ok key }

abbrev moka : Moka CachedDek
moka = record { Cache = Unit; get = λ now k c. none; insert = λ now k v c. c }

-- The Parquet writer writes the footer key and the number of the keys of columns.
abbrev out : Outside keep_case arrow engine
out = record {
  parse_contract = λ text. ok contract;
  show_policy_error = λ e. "policy";
  show_crypto_error = λ e. "crypto";
  raw_keys = λ n. n ∷ [];
  serialize = λ props batch. (props.footer_key ∷ [], ok tt);
  is_open = λ n. true;
  upload_stream = λ target items. ok tt;
}

abbrev batch : RecordBatch keep_case arrow engine
batch = record { name = "phone"; data_type = utf8; array = 3 } ∷ []

abbrev inputs : Inputs (RecordBatch keep_case arrow engine)
inputs = record {
  batch = batch;
  target = "s3://b/t/part.parquet";
  purpose = some " audit ";
  user_hash = "u";
  canonical = some "{}";
  local_file = none;
  explicit_contract_json = none;
  now = 1;
}

abbrev state : State keep_case arrow engine codec key_codec kms moka
state = record { sidecar_deks = []; write_dek_cache = tt }

abbrev entry : String → SidecarKeyEntry
entry column = record { purpose = "audit"; column = column; wrapped_dek = "b64" }

abbrev flush :
    State keep_case arrow engine codec key_codec kms moka
    → State keep_case arrow engine codec key_codec kms moka
      × List Effect
      × Result WriteError (Unit {0})
flush =
    flush_partition keep_case arrow engine codec key_codec kms moka out manager (λ m. ok "{}") "t"

abbrev collected : State keep_case arrow engine codec key_codec kms moka
collected = record state {
  sidecar_deks = ("t", record { version = "1.0"; keys = entry "c" ∷ [] }) ∷ [];
}

flush_partition_twice_example :
    (Dict.get "t" (flush collected).0.sidecar_deks ≡ none)
    × ((flush (flush collected).0).1 ≡ [])
    × ((flush (flush collected).0).2 ≡ ok tt)
flush_partition_twice_example =
    flush_partition_twice keep_case arrow engine codec key_codec kms moka out manager (λ m. ok "{}")
      "t" collected

-- The key of the footer is the first random number, that of the column the second.
wrote :
    (write keep_case arrow engine codec key_codec kms moka out manager inputs state).1
    ≡ pushed (record {
      timestamp = 1;
      user_hash = "u";
      file_signature = "s3://b/t/part.parquet";
      accessed_columns = none;
      business_purpose = "audit";
      action = Audit.write;
    })
      ∷ uploaded "s3://b/t/part.parquet" (data_item (0 ∷ []) ∷ success ∷ [])
      ∷ []
unfolding write valid_purpose contract_text partition_root before_last_slash column_entries
    tag_metadata join trim trim_start trim_end check_write write_checked write_file dek_for
    column_deks properties column_keys task write_event entries from_json compile compile_regex
    validate extra_errors batch_names contract_names all_column_errors column_errors find_column
    present_errors type_errors null_errors text_errors range_errors allowed_test regex_test
    null_rows text_rows range_rows expected_data_type type_named same_type merge_layers
    verify_signatures verify_layer check_signature sort place merge_sorted
    resolve_columns_to_encrypt sensitive_names is_sensitive has_required_tag has_required_name
    required_tags_of required_columns_of generate_or_get_dek metadata_bytes write_task write_all
    write_loop blocking_send items_of add_to_sidecar Channel.write Channel.flush set_insert_all
    set_insert Dict.get
wrote = refl

add_to_sidecar_lem_example :
    Nodup (keys_of "t" (add_to_sidecar "t" (entry "c" ∷ entry "c" ∷ []) []))
    × ((key : SidecarKeyEntry)
        → Has key (keys_of "t" (add_to_sidecar "t" (entry "c" ∷ entry "c" ∷ []) []))
          ↔ (Has key [] ⊎ Has key (entry "c" ∷ entry "c" ∷ [])))
    × ((other : String)
        → str_eq "t" other ≡ false
        → Dict.get other (add_to_sidecar "t" (entry "c" ∷ entry "c" ∷ []) []) ≡ Dict.get other [])
unfolding Dict.get
add_to_sidecar_lem_example = add_to_sidecar_lem "t" (entry "c" ∷ entry "c" ∷ []) [] tt
