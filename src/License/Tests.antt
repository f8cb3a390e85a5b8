-- ===== src/License/Tests.antt =====
-- The check of a license on a configuration that holds the license, in a world of short codecs.
use holonomy_source.Common.{ℕ, ◌≡◌, refl, String, true, false, none, some, List, [], ◌∷◌, ◌⊎◌, ◌↔◌}
use holonomy_source.Common.Result.{ok}
use holonomy_source.Config.Resolved.{ResolvedConfiguration}
use holonomy_source.License.{
  Services, verify_manifest, root_key, check_date, check_expiration, verify_content, verify_and_set,
  license_text, fetch_license, resolve_and_verify_license,
}
use holonomy_source.License.Genuine.{IsGenuine, IsLicenseText, resolve_and_verify_license_iff}

abbrev thirty_two : List ℕ
thirty_two =
    1 ∷ 2 ∷ 3 ∷ 4 ∷ 5 ∷ 6 ∷ 7 ∷ 8 ∷ 9 ∷ 10 ∷ 11 ∷ 12 ∷ 13 ∷ 14 ∷ 15 ∷ 16 ∷ 1 ∷ 2 ∷ 3 ∷ 4 ∷ 5 ∷ 6 ∷ 7
    ∷ 8 ∷ 9 ∷ 10 ∷ 11 ∷ 12 ∷ 13 ∷ 14 ∷ 15 ∷ 16 ∷ []

-- Every text is an envelope with itself as the payload, of a license that ends on day 20.
abbrev services : Services
services = record {
  Key = List ℕ;
  Signature = List ℕ;
  Value = String;
  envelope_from_str = λ text. ok (record { signature = text; payload = text });
  value_from_str = λ text. ok text;
  get_str = λ name value. some "day 20";
  hex_decode = λ text. some thirty_two;
  key_from_bytes = λ bytes. some bytes;
  signature_from_slice = λ bytes. some bytes;
  verify = λ key payload signature. true;
  debug = λ e. "error";
  date_from_str = λ text. ok 20;
  get_object = λ endpoint region bucket key. ok [];
  from_utf8 = λ bytes. ok "";
}

abbrev config : ResolvedConfiguration
config = record {
  kms = record {
    provider = "";
    endpoint = "";
    key_id = "";
    region = "";
    token_file_path = "";
    credential = "";
  };
  policy = record { central_bucket = ""; cache_ttl_hours = 24; hash_salt = ""; public_key = "" };
  storage = record { endpoint = ""; region = "" };
  auth = record {
    provider = "";
    jwks_url = "";
    audience = "";
    issuer = "";
    client_id = "";
    credential_file = none;
  };
  telemetry = record { endpoint = ""; auth_token = none };
  license = record { key = some "L" };
}

accepted : resolve_and_verify_license services 20 config false ≡ (true, ok true)
unfolding resolve_and_verify_license verify_and_set verify_content license_text root_key
    verify_manifest check_expiration check_date
accepted = refl

expired : (resolve_and_verify_license services 21 config false).0 ≡ false
unfolding resolve_and_verify_license verify_and_set verify_content license_text root_key
    verify_manifest check_expiration check_date
expired = refl

-- Without a key, the object of the policy bucket is the license.
abbrev bucket_config : ResolvedConfiguration
bucket_config = record config {
  policy = record config.policy { central_bucket = "central" };
  license = record { key = none };
}

resolve_and_verify_license_iff_example : (true ≡ true) ↔ (
    (false ≡ true)
    ⊎ ((content : String) × IsLicenseText services bucket_config content
        × IsGenuine services 20 content))
unfolding resolve_and_verify_license verify_and_set verify_content license_text fetch_license
    root_key verify_manifest check_expiration check_date
resolve_and_verify_license_iff_example =
    resolve_and_verify_license_iff services 20 bucket_config false
