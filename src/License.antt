-- ===== src/License.antt =====
-- holonomy-core/src/manager/license_manager.rs and `verify_manifest` of policy/signer.rs: the check of
-- the license and the flag that holds its result. The flag is an argument, and the new flag stands
-- first in a result. serde_json, hex, ed25519_dalek, chrono and the object store are parameters
-- (`Services`); today is the number of a day, and so is a parsed date.
pub mod Genuine
mod Tests
use holonomy_source.Common.{
  ℕ, String, Bool, true, false, not, Option, none, some, List, ltb, ◌==◌, if◌then◌else◌, ◌<>◌,
  is_empty, length,
}
use holonomy_source.Common.Result.{Result, ok, err, ok_or, map_err, ◌>>=◌, ◌>>◌}
use holonomy_source.Config.Resolved.{ResolvedConfiguration}

pub record LicenseEnvelope : Type 0 where
  pub signature : String
  pub payload : String

pub data LicenseError : Type 0 where
  unlicensed hardcoded_key_invalid : LicenseError
  verification_failed s3_fetch_failed invalid_utf8 parse_error : String → LicenseError

pub data SignerError : Type 0 where
  invalid_key_length : ℕ → SignerError
  invalid_signature_format signature_verification_failed signing_failed : SignerError

-- The functions of the libraries, with the derived `{:?}` of `SignerError` and the request that the
-- client of the object store sends: endpoint and region where they are set, bucket and key.
pub record Services : Type 1 where
  pub Key : Type 0
  pub Signature : Type 0
  pub Value : Type 0
  pub envelope_from_str : String → Result String LicenseEnvelope
  pub value_from_str : String → Result String Value
  pub get_str : String → Value → Option String
  pub hex_decode : String → Option (List ℕ)
  pub key_from_bytes : List ℕ → Option Key
  pub signature_from_slice : List ℕ → Option Signature
  pub verify : Key → String → Signature → Bool
  pub debug : SignerError → String
  pub date_from_str : String → Result String ℕ
  pub get_object : Option String → Option String → String → String → Result String (List ℕ)
  pub from_utf8 : List ℕ → Result String String

abbrev pub holonomy_root_public_key_hex : String
holonomy_root_public_key_hex = "37e5de163b5391b05ec3d87bb3c908b48f58148bf6de52bf1fabe814bfb2bbd5"

-- A setting that is passed on only if it is not empty.
abbrev pub set_text : String → Option String
set_text s = if is_empty s then none else some s

module _ (s : Services) where
  open s use {
    Value, envelope_from_str, value_from_str, get_str, hex_decode, key_from_bytes,
    signature_from_slice, verify, debug, date_from_str, get_object, from_utf8,
  }

  -- `verify_manifest` of policy/signer.rs.
  unfoldable pub verify_manifest : String → String → List ℕ → Result SignerError (Unit {0})
  verify_manifest content signature_hex public_key = do
    key ← ok_or (key_from_bytes public_key) (invalid_key_length (length public_key))
    sig_bytes ← ok_or (hex_decode signature_hex) invalid_signature_format
    signature ← ok_or (signature_from_slice sig_bytes) invalid_signature_format
    if verify key content signature then ok tt else err signature_verification_failed

  -- The root key, whose decoding must give 32 bytes.
  unfoldable pub root_key : Result LicenseError (List ℕ)
  root_key = do
    bytes ← ok_or (hex_decode holonomy_root_public_key_hex) hardcoded_key_invalid
    if length bytes == 32 then ok bytes else err hardcoded_key_invalid

  -- The date of expiry, in the format `%Y-%m-%d`, must not be past.
  unfoldable pub check_date : ℕ → String → Result LicenseError (Unit {0})
  check_date today text = do
    date ←
        map_err (λ e. parse_error ("Invalid expires_at format (expected YYYY-MM-DD): " <> e))
          (date_from_str text)
    if ltb date today then err (verification_failed ("License expired on " <> text)) else ok tt

  -- The check of `expires_at`, where it is there and is a text.
  unfoldable pub check_expiration : ℕ → Value → Result LicenseError (Unit {0})
  check_expiration today value = elim (get_str "expires_at" value) [
    | none ↦ ok tt
    | some text ↦ check_date today text
  ]

  -- The checks of `verify_and_set`.
  unfoldable pub verify_content : ℕ → String → Result LicenseError (Unit {0})
  verify_content today content = do
    envelope ← map_err parse_error (envelope_from_str content)
    key ← root_key
    map_err (λ e. verification_failed (debug e))
        (verify_manifest envelope.payload envelope.signature key)
    value ←
        map_err (λ e. parse_error ("Payload is not valid JSON: " <> e))
          (value_from_str envelope.payload)
    check_expiration today value

  -- `verify_and_set`: the flag is set if the checks succeed, and is left alone if not.
  unfoldable pub verify_and_set : ℕ → String → Bool → Bool × Result LicenseError (Unit {0})
  verify_and_set today content valid = elim (verify_content today content) [
    | ok value ↦ (true, ok value)
    | err e ↦ (valid, err e)
  ]

  -- The text that `try_resolve_s3` reads.
  unfoldable pub fetch_license : ResolvedConfiguration → Result LicenseError String
  fetch_license config = do
    body ← map_err s3_fetch_failed (
        get_object (set_text config.storage.endpoint) (set_text config.storage.region)
          config.policy.central_bucket "holonomy.lic")
    map_err invalid_utf8 (from_utf8 body)

  -- The text that `resolve_and_verify_license` checks: the key of the configuration, or else the
  -- object in the policy bucket.
  unfoldable pub license_text : ResolvedConfiguration → Result LicenseError String
  license_text config = elim config.license.key [
    | some key ↦ ok key
    | none ↦ if is_empty config.policy.central_bucket then err unlicensed else fetch_license config
  ]

  -- `resolve_and_verify_license`.
  unfoldable pub resolve_and_verify_license :
      ℕ → ResolvedConfiguration → Bool → Bool × Result LicenseError Bool
  resolve_and_verify_license today config valid = elim (license_text config) [
    | err e ↦ (valid, err e)
    | ok content ↦ let (after, r) = verify_and_set today content valid in (after, do u ← r; ok true)
  ]
