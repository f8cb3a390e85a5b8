-- ===== src/Config/Resolved.antt =====
-- holonomy-core/src/config/resolver.rs: the resolved configuration, in which every field has a value.
use holonomy_source.Common.{ℕ, String, Option}

pub record ResolvedKmsConfig : Type 0 where
  pub provider : String
  pub endpoint : String
  pub key_id : String
  pub region : String
  pub token_file_path : String
  pub credential : String

pub record ResolvedPolicyConfig : Type 0 where
  pub central_bucket : String
  pub cache_ttl_hours : ℕ
  pub hash_salt : String
  pub public_key : String

pub record ResolvedStorageConfig : Type 0 where
  pub endpoint : String
  pub region : String

pub record ResolvedAuthConfig : Type 0 where
  pub provider : String
  pub jwks_url : String
  pub audience : String
  pub issuer : String
  pub client_id : String
  pub credential_file : Option String

pub record ResolvedTelemetryConfig : Type 0 where
  pub endpoint : String
  pub auth_token : Option String

pub record ResolvedLicenseConfig : Type 0 where
  pub key : Option String

pub record ResolvedConfiguration : Type 0 where
  pub kms : ResolvedKmsConfig
  pub policy : ResolvedPolicyConfig
  pub storage : ResolvedStorageConfig
  pub auth : ResolvedAuthConfig
  pub telemetry : ResolvedTelemetryConfig
  pub license : ResolvedLicenseConfig
