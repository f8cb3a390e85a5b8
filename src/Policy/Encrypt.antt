-- ===== src/Policy/Encrypt.antt =====
-- holonomy-core/src/manager/policy_manager.rs, `resolve_columns_to_encrypt`: the columns of a data
-- contract that a policy requires to be encrypted. `str::to_lowercase` is the parameter `lower`.
pub mod Union
pub mod Layers
mod Tests
use holonomy_source.Common.{
  String, Bool, true, false, ◌||◌, Option, none, some, List, [], ◌∷◌, any, member, contains,
  if◌then◌else◌,
}
use holonomy_source.Policy.{PolicyManifest, EncryptionBlock}
use holonomy_source.Arrow.{Arrow}
use holonomy_source.Linter.{Engine, ColumnPolicy, DataContract}

-- `(enc.required_tags.clone(), enc.required_columns.clone())`, or two empty lists.
unfoldable pub required_tags_of : Option EncryptionBlock → List String
required_tags_of none = []
required_tags_of (some enc) = enc.required_tags

unfoldable pub required_columns_of : Option EncryptionBlock → List String
required_columns_of none = []
required_columns_of (some enc) = enc.required_columns

module _ (lower : String → String) where
  -- The loop over the tags of a column, in lower case.
  unfoldable pub has_required_tag : List String → Option (List String) → Bool
  has_required_tag req_tags none = false
  has_required_tag req_tags (some tags) = any (λ tag. member (lower tag) req_tags) tags

  -- The name of the column contains a required one, both in lower case.
  unfoldable pub has_required_name : List String → String → Bool
  has_required_name req_cols name = any (λ c. contains (lower name) (lower c)) req_cols

  module _ (arrow : Arrow) (engine : Engine arrow) where
    unfoldable pub is_sensitive : Option EncryptionBlock → ColumnPolicy lower arrow engine → Bool
    is_sensitive enc col =
        has_required_tag (required_tags_of enc) col.tags
        || has_required_name (required_columns_of enc) col.name

    -- The loop over the columns of the contract.
    unfoldable pub sensitive_names :
        (ColumnPolicy lower arrow engine → Bool)
        → List (ColumnPolicy lower arrow engine)
        → List String
    sensitive_names sensitive [] = []
    sensitive_names sensitive (col ∷ cols) =
        let rest = sensitive_names sensitive cols in if sensitive col then col.name ∷ rest else rest

    -- `PolicyManager::resolve_columns_to_encrypt`.
    unfoldable pub resolve_columns_to_encrypt :
        DataContract lower arrow engine → PolicyManifest → List String
    resolve_columns_to_encrypt contract policy =
        sensitive_names (is_sensitive policy.encryption) contract.columns
