-- ===== src/Policy/Encrypt/Tests.antt =====
-- The columns to encrypt of a contract with two columns, under a global and a local layer.
use holonomy_source.Common.{
  ℕ, String, ◌≡◌, refl, inl, inr, true, false, Option, none, some, List, [], ◌∷◌, str_eq,
  if◌then◌else◌,
}
use holonomy_source.Common.Result.{ok}
use holonomy_source.Policy.{global, local, PolicyManifest, merge}
use holonomy_source.Policy.Manager.{
  Codec, Layer, Parsed, PolicyManager, verify_signatures, verify_layer, check_signature,
  merge_layers, sort, place, merge_sorted,
}
use holonomy_source.Arrow.{utf8, Arrow}
use holonomy_source.Linter.{Engine, ColumnPolicy, DataContract}
use holonomy_source.Policy.Encrypt.{
  required_tags_of, required_columns_of, has_required_tag, has_required_name, is_sensitive,
  sensitive_names, resolve_columns_to_encrypt,
}
use holonomy_source.Policy.Encrypt.Layers.{Encrypts, merge_layers-Encrypts}

abbrev arrow : Arrow
arrow = record {
  Array = ℕ;
  data_type = λ x. utf8;
  len = λ x. x;
  is_null = λ x i. false;
  as_string = λ x. none;
  as_large_string = λ x. none;
  string_array = λ vs. 0;
  large_string_array = λ vs. 0;
  null_array = λ t n. n;
}

abbrev engine : Engine arrow
engine = record {
  Regex = String;
  new = λ s. ok s;
  is_match = str_eq;
  Float = ℕ;
  lt = λ a b. false;
  as_f64 = λ x. none;
  null_count = λ x. 0;
}

abbrev keep_case : String → String
keep_case s = s

abbrev column_of : String → Option (List String) → ColumnPolicy keep_case arrow engine
column_of name tags = record {
  name = name;
  data_type = "string";
  required = false;
  regex = none;
  range = none;
  allowed_values = none;
  tags = tags;
}

abbrev contract : DataContract keep_case arrow engine
contract = record {
  name = "staff";
  version = "1.0";
  columns = column_of "work_email" none ∷ column_of "phone" (some ("pii" ∷ [])) ∷ [];
}

abbrev requires : List String → List String → PolicyManifest
requires tags columns = record {
  version = "1.0";
  principals = [];
  encryption = some (record { required_tags = tags; required_columns = columns });
  purpose_bindings = none;
}

abbrev codec : Codec
codec = record {
  Key = List ℕ;
  Signature = List ℕ;
  envelope_from_str = λ s. ok (record { signature = s; payload = s });
  manifest_from_str =
      λ s. ok (if str_eq s "G" then requires [] ("email" ∷ []) else requires ("pii" ∷ []) []);
  key_from_bytes = λ bytes. some bytes;
  hex_decode = λ s. some (1 ∷ []);
  signature_from_slice = λ bytes. some bytes;
  verify = λ key payload signature. true;
}

abbrev contents : List Layer
contents = (global, "G") ∷ (local, "L") ∷ []

abbrev manager : PolicyManager
manager = record { provider = λ target. ok contents; public_key = none }

abbrev parsed_layers : List Parsed
parsed_layers = (global, requires [] ("email" ∷ [])) ∷ (local, requires ("pii" ∷ []) []) ∷ []

abbrev merged_manifest : PolicyManifest
merged_manifest = merge (requires ("pii" ∷ []) []) (requires [] ("email" ∷ []))

verified : verify_signatures codec manager contents ≡ ok parsed_layers
unfolding verify_signatures verify_layer check_signature
verified = refl

merged : merge_layers codec manager contents ≡ ok merged_manifest
unfolding merge_layers verify_signatures verify_layer check_signature merge_sorted sort place
merged = refl

-- The tag that the local layer names is kept under the global one.
merge_layers-Encrypts_example : Encrypts keep_case arrow engine contract "phone" merged_manifest
unfolding resolve_columns_to_encrypt sensitive_names is_sensitive has_required_tag has_required_name
    required_tags_of required_columns_of
merge_layers-Encrypts_example =
    merge_layers-Encrypts keep_case arrow engine contract "phone" codec manager contents
      parsed_layers merged_manifest (local, requires ("pii" ∷ []) []) verified merged
      (inr (inl refl)) refl
