-- ===== src/Config/Resolve/Precedence.antt =====
-- Which layer a resolved setting comes from.
use mathlib.Core.Option
use holonomy_source.Common.{String, Option, none, some, List, [], ◌∷◌}
use holonomy_source.Config.{Configuration, override}
use holonomy_source.Config.Merge.{
  Setting, kms_provider, kms_endpoint, kms_key_id, kms_region, kms_token_file_path, kms_credential,
  policy_central_bucket, policy_hash_salt, policy_public_key, storage_endpoint, storage_region,
  auth_provider, auth_jwks_url, auth_audience, auth_issuer, auth_client_id, auth_credential_file,
  telemetry_endpoint, telemetry_auth_token, license_key, and_then,
}
use holonomy_source.Config.Resolved.{ResolvedConfiguration}
use holonomy_source.Config.Resolve.{
  System, user_toml_path, project_toml, env_configuration, strip_scheme,
}

-- The first configuration of a list, the strongest first, that sets the field.
abbrev pub first_set {ℓ} :
    {A : Type ℓ} → (Configuration → Option A) → List (Option Configuration) → Option A
first_set f [] = none
first_set f (layer ∷ layers) = override (first_set f layers) (and_then layer f)

module _ (from_toml : String → Option Configuration) (sys : System) where
  -- The layers, the strongest first: the program, the environment, the testing override, the
  -- project, the user and the system.
  unfoldable pub layers : Option Configuration → Option String → List (Option Configuration)
  layers programmatic toml_override =
      programmatic
      ∷ some (env_configuration from_toml sys)
      ∷ and_then toml_override from_toml
      ∷ and_then (project_toml from_toml sys) from_toml
      ∷ and_then (sys.read_to_string (user_toml_path from_toml sys)) from_toml
      ∷ and_then (sys.read_to_string "/etc/holonomy/config.toml") from_toml
      ∷ []

  -- The default of a setting that no layer gives.
  abbrev pub default_of : Setting → Option String
  default_of policy_hash_salt = some "default-insecure-salt"
  default_of auth_credential_file = none
  default_of telemetry_auth_token = none
  default_of license_key = none
  default_of s = some ""

  -- A bucket is stored without its scheme, every other value as it is.
  abbrev pub stored : Setting → Option String → Option String
  stored policy_central_bucket o = Option.map (strip_scheme from_toml sys) o
  stored s o = o

  -- The value of a setting in the resolved configuration.
  abbrev pub resolved : Setting → ResolvedConfiguration → Option String
  resolved kms_provider r = some r.kms.provider
  resolved kms_endpoint r = some r.kms.endpoint
  resolved kms_key_id r = some r.kms.key_id
  resolved kms_region r = some r.kms.region
  resolved kms_token_file_path r = some r.kms.token_file_path
  resolved kms_credential r = some r.kms.credential
  resolved policy_central_bucket r = some r.policy.central_bucket
  resolved policy_hash_salt r = some r.policy.hash_salt
  resolved policy_public_key r = some r.policy.public_key
  resolved storage_endpoint r = some r.storage.endpoint
  resolved storage_region r = some r.storage.region
  resolved auth_provider r = some r.auth.provider
  resolved auth_jwks_url r = some r.auth.jwks_url
  resolved auth_audience r = some r.auth.audience
  resolved auth_issuer r = some r.auth.issuer
  resolved auth_client_id r = some r.auth.client_id
  resolved auth_credential_file r = r.auth.credential_file
  resolved telemetry_endpoint r = some r.telemetry.endpoint
  resolved telemetry_auth_token r = r.telemetry.auth_token
  resolved license_key r = r.license.key
