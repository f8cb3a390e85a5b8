-- ===== src/Config.antt =====
-- holonomy-core/src/config/mod.rs and config/resolver.rs: the configuration blocks with optional
-- fields, the merge of an overriding one into a base, and the resolution of the layers. The file
-- system, the environment and the toml parser are parameters.
pub mod Resolved
pub mod Resolve
pub mod Merge
mod Tests
use holonomy_source.Common.{ℕ, String, Option, none, some}

pub record KmsConfig : Type 0 where
  pub provider : Option String
  pub endpoint : Option String
  pub key_id : Option String
  pub region : Option String
  pub token_file_path : Option String
  pub credential : Option String

pub record PolicyConfig : Type 0 where
  pub central_bucket : Option String
  pub cache_ttl_hours : Option ℕ
  pub hash_salt : Option String
  pub public_key : Option String

pub record StorageConfig : Type 0 where
  pub endpoint : Option String
  pub region : Option String

pub record AuthConfig : Type 0 where
  pub provider : Option String
  pub jwks_url : Option String
  pub audience : Option String
  pub issuer : Option String
  pub client_id : Option String
  pub credential_file : Option String

pub record TelemetryConfig : Type 0 where
  pub endpoint : Option String
  pub auth_token : Option String

pub record LicenseConfig : Type 0 where
  pub key : Option String

pub record Configuration : Type 0 where
  pub kms : Option KmsConfig
  pub policy : Option PolicyConfig
  pub storage : Option StorageConfig
  pub auth : Option AuthConfig
  pub telemetry : Option TelemetryConfig
  pub license : Option LicenseConfig

-- The derived `Default` of each block.
abbrev pub default_kms : KmsConfig
default_kms = record {
  provider = none;
  endpoint = none;
  key_id = none;
  region = none;
  token_file_path = none;
  credential = none;
}

abbrev pub default_policy : PolicyConfig
default_policy = record {
  central_bucket = none;
  cache_ttl_hours = none;
  hash_salt = none;
  public_key = none;
}

abbrev pub default_storage : StorageConfig
default_storage = record { endpoint = none; region = none }

abbrev pub default_auth : AuthConfig
default_auth = record {
  provider = none;
  jwks_url = none;
  audience = none;
  issuer = none;
  client_id = none;
  credential_file = none;
}

abbrev pub default_telemetry : TelemetryConfig
default_telemetry = record { endpoint = none; auth_token = none }

abbrev pub default_license : LicenseConfig
default_license = record { key = none }

abbrev pub default_configuration : Configuration
default_configuration = record {
  kms = none;
  policy = none;
  storage = none;
  auth = none;
  telemetry = none;
  license = none;
}

-- `if over.is_some() { base = over; }`
abbrev pub override {ℓ} : {A : Type ℓ} → Option A → Option A → Option A
override base none = base
override base (some v) = some v

-- `o.unwrap_or(default)`.
abbrev pub unwrap_or {ℓ} : {A : Type ℓ} → A → Option A → A
unwrap_or d none = d
unwrap_or d (some v) = v

unfoldable pub merge_kms : Option KmsConfig → Option KmsConfig → Option KmsConfig
merge_kms base none = base
merge_kms base (some k) =
    let b = unwrap_or default_kms base in
    some (record {
      provider = override b.provider k.provider;
      endpoint = override b.endpoint k.endpoint;
      key_id = override b.key_id k.key_id;
      region = override b.region k.region;
      token_file_path = override b.token_file_path k.token_file_path;
      credential = override b.credential k.credential;
    })

unfoldable pub merge_policy : Option PolicyConfig → Option PolicyConfig → Option PolicyConfig
merge_policy base none = base
merge_policy base (some p) =
    let b = unwrap_or default_policy base in
    some (record {
      central_bucket = override b.central_bucket p.central_bucket;
      cache_ttl_hours = override b.cache_ttl_hours p.cache_ttl_hours;
      hash_salt = override b.hash_salt p.hash_salt;
      public_key = override b.public_key p.public_key;
    })

unfoldable pub merge_storage : Option StorageConfig → Option StorageConfig → Option StorageConfig
merge_storage base none = base
merge_storage base (some s) =
    let b = unwrap_or default_storage base in
    some (record { endpoint = override b.endpoint s.endpoint; region = override b.region s.region })

unfoldable pub merge_auth : Option AuthConfig → Option AuthConfig → Option AuthConfig
merge_auth base none = base
merge_auth base (some a) =
    let b = unwrap_or default_auth base in
    some (record {
      provider = override b.provider a.provider;
      jwks_url = override b.jwks_url a.jwks_url;
      audience = override b.audience a.audience;
      issuer = override b.issuer a.issuer;
      client_id = override b.client_id a.client_id;
      credential_file = override b.credential_file a.credential_file;
    })

unfoldable pub merge_telemetry :
    Option TelemetryConfig → Option TelemetryConfig → Option TelemetryConfig
merge_telemetry base none = base
merge_telemetry base (some t) =
    let b = unwrap_or default_telemetry base in
    some (record {
      endpoint = override b.endpoint t.endpoint;
      auth_token = override b.auth_token t.auth_token;
    })

unfoldable pub merge_license : Option LicenseConfig → Option LicenseConfig → Option LicenseConfig
merge_license base none = base
merge_license base (some l) =
    let b = unwrap_or default_license base in some (record { key = override b.key l.key })

-- `merge_config`.
unfoldable pub merge_config : Configuration → Configuration → Configuration
merge_config base over = record {
  kms = merge_kms base.kms over.kms;
  policy = merge_policy base.policy over.policy;
  storage = merge_storage base.storage over.storage;
  auth = merge_auth base.auth over.auth;
  telemetry = merge_telemetry base.telemetry over.telemetry;
  license = merge_license base.license over.license;
}
