-- ===== src/Config/Resolve.antt =====
-- holonomy-core/src/config/resolver.rs, `resolve_configuration`: the layers in the order in which
-- the code merges them, and the defaults.
pub mod Precedence
use Prim.Native.Char.{code}
use Prim.Native.String
use Prim.Native.String.{len, slice}
use text.Mathlib.Text.{starts_with}
use holonomy_source.Common.{
  ℕ, ◌+◌, ◌-◌, ◌*◌, ◌^◌, String, Bool, ◌&&◌, Option, none, some, List, [], ◌∷◌, ltb, leb, ◌==◌,
  is_empty, str_eq, ◌<>◌, strip_prefix, if◌then◌else◌,
}
use holonomy_source.Config.{
  KmsConfig, PolicyConfig, StorageConfig, AuthConfig, TelemetryConfig, LicenseConfig, Configuration,
  default_configuration, override, unwrap_or, merge_config,
}
use holonomy_source.Config.Resolved.{ResolvedConfiguration}
use holonomy_source.Config.Merge.{and_then}

-- What the resolver asks of the system: files by their path, environment variables, the current
-- directory as its components, the innermost first, and the `.holonomy.toml` of a directory.
pub record System : Type 0 where
  pub read_to_string : String → Option String
  pub var : String → Option String
  pub current_dir : Option (List String)
  pub project_file : List String → Option String

-- `v.parse::<u32>()`: an optional plus and at least one digit.
unfoldable pub u32_digits : ℕ → String → Option ℕ
u32_digits n String.[] = if ltb n (2 ^ 32) then some n else none
u32_digits n (String.◌∷◌ ch rest) =
    let c = code ch in
    let next = u32_digits (n * 10 + (c - 48)) rest in if leb 48 c && leb c 57 then next else none

unfoldable pub parse_u32 : String → Option ℕ
parse_u32 String.[] = none
parse_u32 (String.◌∷◌ ch rest) =
    if code ch == b'+' && is_empty rest
    then none
    else if code ch == b'+'
    then u32_digits 0 rest
    else u32_digits 0 (String.◌∷◌ ch rest)

-- `PathBuf::join` with a relative path.
unfoldable pub join : String → String → String
join dir file =
    if is_empty dir
    then file
    else if str_eq (slice dir (len dir - 1) (len dir)) "/"
    then dir <> file
    else dir <> "/" <> file

module _ (from_toml : String → Option Configuration) (sys : System) where
  open sys use {read_to_string, var, current_dir, project_file}

  -- `if let Ok(cfg) = Configuration::from_toml(&content) { merge_config(&mut merged, cfg); }`
  unfoldable pub merge_toml : Configuration → Option String → Configuration
  merge_toml merged none = merged
  merge_toml merged (some content) = elim (from_toml content) [
    | none ↦ merged
    | some cfg ↦ merge_config merged cfg
  ]

  unfoldable pub user_toml_path : String
  user_toml_path =
      join (unwrap_or (unwrap_or "" (var "HOME") <> "/.config") (var "XDG_CONFIG_HOME"))
        "holonomy/config.toml"

  -- The nearest project file, from the directory upwards; the root has no components.
  unfoldable pub crawl : List String → Option String
  crawl [] = project_file []
  crawl (d ∷ ds) = elim (project_file (d ∷ ds)) [ some content ↦ some content | none ↦ crawl ds ]

  unfoldable pub project_toml : Option String
  project_toml = and_then current_dir crawl

  -- The configuration that the environment variables give.
  unfoldable pub env_configuration : Configuration
  env_configuration = record {
    kms = some (record {
      provider = var "HOLONOMY_KMS_PROVIDER";
      endpoint = var "HOLONOMY_KMS_ENDPOINT";
      key_id = var "HOLONOMY_KMS_KEY_ID";
      region = none;
      token_file_path = var "HOLONOMY_KMS_TOKEN_FILE_PATH";
      credential = var "HOLONOMY_KMS_CREDENTIAL";
    });
    policy = some (record {
      central_bucket = var "HOLONOMY_POLICY_BUCKET";
      cache_ttl_hours = and_then (var "HOLONOMY_CACHE_TTL_HOURS") parse_u32;
      hash_salt = var "HOLONOMY_HASH_SALT";
      public_key = var "HOLONOMY_PUBLIC_KEY";
    });
    storage = some (record {
      endpoint = var "HOLONOMY_STORAGE_ENDPOINT";
      region = var "HOLONOMY_STORAGE_REGION";
    });
    auth = some (record {
      provider = none;
      jwks_url = var "HOLONOMY_JWKS_URL";
      audience = var "HOLONOMY_AUDIENCE";
      issuer = var "HOLONOMY_ISSUER";
      client_id = var "HOLONOMY_CLIENT_ID";
      credential_file = var "HOLONOMY_CREDENTIAL_FILE";
    });
    telemetry = some (record {
      endpoint = var "HOLONOMY_TELEMETRY_ENDPOINT";
      auth_token = var "HOLONOMY_TELEMETRY_TOKEN";
    });
    license = some (record { key = var "HOLONOMY_LICENSE_KEY" });
  }

  -- The merge of all layers, before the defaults.
  unfoldable pub merge_all : Option Configuration → Option String → Configuration
  merge_all programmatic toml_override =
      let system = merge_toml default_configuration (read_to_string "/etc/holonomy/config.toml") in
      let user = merge_toml system (read_to_string user_toml_path) in
      let project = merge_toml user project_toml in
      let testing = merge_toml project toml_override in
      let env = merge_config testing env_configuration in
      elim programmatic [ none ↦ env | some prog ↦ merge_config env prog ]

  -- The bucket without its scheme.
  unfoldable pub strip_scheme : String → String
  strip_scheme bucket = elim (strip_prefix bucket "s3://") [
    | some stripped ↦ stripped
    | none ↦ elim (strip_prefix bucket "r2://") [ some stripped ↦ stripped | none ↦ bucket ]
  ]

  -- Layer 6: the defaults.
  unfoldable pub finalize : Configuration → ResolvedConfiguration
  finalize merged = record {
    kms = record {
      provider = unwrap_or "" (and_then merged.kms (λ k. k.provider));
      endpoint = unwrap_or "" (and_then merged.kms (λ k. k.endpoint));
      key_id = unwrap_or "" (and_then merged.kms (λ k. k.key_id));
      region = unwrap_or "" (and_then merged.kms (λ k. k.region));
      token_file_path = unwrap_or "" (and_then merged.kms (λ k. k.token_file_path));
      credential = unwrap_or "" (and_then merged.kms (λ k. k.credential));
    };
    policy = record {
      central_bucket = strip_scheme (unwrap_or "" (and_then merged.policy (λ p. p.central_bucket)));
      cache_ttl_hours = unwrap_or 24 (and_then merged.policy (λ p. p.cache_ttl_hours));
      hash_salt = unwrap_or "default-insecure-salt" (and_then merged.policy (λ p. p.hash_salt));
      public_key = unwrap_or "" (and_then merged.policy (λ p. p.public_key));
    };
    storage = record {
      endpoint = unwrap_or "" (and_then merged.storage (λ s. s.endpoint));
      region = unwrap_or "" (and_then merged.storage (λ s. s.region));
    };
    auth = record {
      provider = unwrap_or "" (and_then merged.auth (λ a. a.provider));
      jwks_url = unwrap_or "" (and_then merged.auth (λ a. a.jwks_url));
      audience = unwrap_or "" (and_then merged.auth (λ a. a.audience));
      issuer = unwrap_or "" (and_then merged.auth (λ a. a.issuer));
      client_id = unwrap_or "" (and_then merged.auth (λ a. a.client_id));
      credential_file = and_then merged.auth (λ a. a.credential_file);
    };
    telemetry = record {
      endpoint = unwrap_or "" (and_then merged.telemetry (λ t. t.endpoint));
      auth_token = and_then merged.telemetry (λ t. t.auth_token);
    };
    license = record { key = and_then merged.license (λ l. l.key) };
  }

  -- `resolve_configuration`.
  unfoldable pub resolve_configuration :
      Option Configuration → Option String → ResolvedConfiguration
  resolve_configuration programmatic toml_override = finalize (merge_all programmatic toml_override)
