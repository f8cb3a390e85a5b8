-- ===== src/Config/Merge.antt =====
-- The laws of `merge_config`: a configuration is a partial map from settings to values, and the
-- merge is their union, in which the later one wins.
use holonomy_source.Common.{ℕ, String, ◌≡◌, Option, none, some, arith}
use holonomy_source.Config.{
  Configuration, override, merge_kms, merge_policy, merge_storage, merge_auth, merge_telemetry,
  merge_license, merge_config,
}

-- The settings whose values are texts.
pub data Setting : Type 0 where
  kms_provider kms_endpoint kms_key_id kms_region kms_token_file_path kms_credential : Setting
  policy_central_bucket policy_hash_salt policy_public_key : Setting
  storage_endpoint storage_region : Setting
  auth_provider auth_jwks_url auth_audience auth_issuer auth_client_id auth_credential_file :
      Setting
  telemetry_endpoint telemetry_auth_token license_key : Setting

-- `block.as_ref().and_then(|b| b.field.clone())`.
abbrev pub and_then {ℓ κ} : {A : Type ℓ} {B : Type κ} → Option A → (A → Option B) → Option B
and_then none f = none
and_then (some a) f = f a

-- The value that a configuration gives a setting.
unfoldable pub setting : Setting → Configuration → Option String
setting kms_provider c = and_then c.kms (λ k. k.provider)
setting kms_endpoint c = and_then c.kms (λ k. k.endpoint)
setting kms_key_id c = and_then c.kms (λ k. k.key_id)
setting kms_region c = and_then c.kms (λ k. k.region)
setting kms_token_file_path c = and_then c.kms (λ k. k.token_file_path)
setting kms_credential c = and_then c.kms (λ k. k.credential)
setting policy_central_bucket c = and_then c.policy (λ p. p.central_bucket)
setting policy_hash_salt c = and_then c.policy (λ p. p.hash_salt)
setting policy_public_key c = and_then c.policy (λ p. p.public_key)
setting storage_endpoint c = and_then c.storage (λ s. s.endpoint)
setting storage_region c = and_then c.storage (λ s. s.region)
setting auth_provider c = and_then c.auth (λ a. a.provider)
setting auth_jwks_url c = and_then c.auth (λ a. a.jwks_url)
setting auth_audience c = and_then c.auth (λ a. a.audience)
setting auth_issuer c = and_then c.auth (λ a. a.issuer)
setting auth_client_id c = and_then c.auth (λ a. a.client_id)
setting auth_credential_file c = and_then c.auth (λ a. a.credential_file)
setting telemetry_endpoint c = and_then c.telemetry (λ t. t.endpoint)
setting telemetry_auth_token c = and_then c.telemetry (λ t. t.auth_token)
setting license_key c = and_then c.license (λ l. l.key)

abbrev pub cache_ttl : Configuration → Option ℕ
cache_ttl c = and_then c.policy (λ p. p.cache_ttl_hours)

-- Every setting of a merged configuration has the overriding value where there is one, and the
-- value of the base where there is none.
pub setting-merge_config :
    (s : Setting) (base over : Configuration)
    → setting s (merge_config base over) ≡ override (setting s base) (setting s over)
unfolding setting merge_config merge_kms merge_policy merge_storage merge_auth merge_telemetry
    merge_license
setting-merge_config kms_provider base over = ground arith
setting-merge_config s base over = ground arith

pub cache_ttl-merge_config :
    (base over : Configuration)
    → cache_ttl (merge_config base over) ≡ override (cache_ttl base) (cache_ttl over)
unfolding merge_config merge_policy
cache_ttl-merge_config base over = ground arith
