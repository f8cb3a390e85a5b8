-- ===== src/Policy.antt =====
-- holonomy-core/src/policy/manifest.rs: the policy manifest and the merge of two of them.
-- A `HashMap` is a `Dict`; the loops over `other` meet its entries in the order of the list.
pub mod Merge
pub mod Restrictions
pub mod WellFormed
pub mod Encrypt
pub mod Manager
mod Tests
use holonomy_source.Common.{
  ℕ, String, Option, none, some, List, [], ◌∷◌, ◌++◌, leb, member, str_eq, if◌then◌else◌,
}
use holonomy_source.Common.Dict.{Dict, insert_all}

pub data PolicyLevel : Type 0 where
  local domain global : PolicyLevel

pub record PolicyEnvelope : Type 0 where
  pub signature : String
  pub payload : String

pub record EncryptionBlock : Type 0 where
  pub required_tags : List String
  pub required_columns : List String

pub record PrincipalPolicy : Type 0 where
  pub global_row_filters : List String
  pub selective_row_filters : List String
  pub column_masks : Dict String
  pub tag_masks : Dict String
  pub sampling_cap : Option ℕ

pub record PolicyManifest : Type 0 where
  pub version : String
  pub principals : Dict PrincipalPolicy
  pub encryption : Option EncryptionBlock
  pub purpose_bindings : Option (Dict String)

-- `PrincipalPolicy::default()`.
abbrev pub default_principal : PrincipalPolicy
default_principal = record {
  global_row_filters = [];
  selective_row_filters = [];
  column_masks = [];
  tag_masks = [];
  sampling_cap = none;
}

-- The `match` on the two sampling caps.
unfoldable pub merge_cap : Option ℕ → Option ℕ → Option ℕ
merge_cap (some a) (some b) = some (if leb a b then a else b)
merge_cap (some a) none = some a
merge_cap none (some b) = some b
merge_cap none none = none

-- The body of the loop over `other.principals`, at the entry of the principal.
unfoldable pub merge_principal : PrincipalPolicy → PrincipalPolicy → PrincipalPolicy
merge_principal mine other = record {
  global_row_filters = mine.global_row_filters ++ other.global_row_filters;
  selective_row_filters = mine.selective_row_filters ++ other.selective_row_filters;
  column_masks = insert_all other.column_masks mine.column_masks;
  tag_masks = insert_all other.tag_masks mine.tag_masks;
  sampling_cap = merge_cap mine.sampling_cap other.sampling_cap;
}

-- `principals.entry(principal).or_default()`, changed by the body of the loop.
unfoldable pub merge_entry : String → PrincipalPolicy → Dict PrincipalPolicy → Dict PrincipalPolicy
merge_entry p other [] = (p, merge_principal default_principal other) ∷ []
merge_entry p other ((q, mine) ∷ m) =
    if str_eq q p then (q, merge_principal mine other) ∷ m else (q, mine) ∷ merge_entry p other m

-- The loop over `other.principals`.
unfoldable pub merge_principals : Dict PrincipalPolicy → Dict PrincipalPolicy → Dict PrincipalPolicy
merge_principals [] m = m
merge_principals ((p, other) ∷ rest) m = merge_principals rest (merge_entry p other m)

-- `for x in other { if !mine.contains(&x) { mine.push(x); } }`
unfoldable pub push_new : List String → List String → List String
push_new [] mine = mine
push_new (x ∷ other) mine = push_new other (if member x mine then mine else mine ++ x ∷ [])

unfoldable pub merge_encryption :
    Option EncryptionBlock → Option EncryptionBlock → Option EncryptionBlock
merge_encryption mine none = mine
merge_encryption none (some other) = some other
merge_encryption (some mine) (some other) = some (record {
  required_tags = push_new other.required_tags mine.required_tags;
  required_columns = push_new other.required_columns mine.required_columns;
})

unfoldable pub merge_bindings : Option (Dict String) → Option (Dict String) → Option (Dict String)
merge_bindings mine none = mine
merge_bindings none (some other) = some other
merge_bindings (some mine) (some other) = some (insert_all other mine)

-- `PolicyManifest::merge`: `other` is the layer of the higher precedence.
unfoldable pub merge : PolicyManifest → PolicyManifest → PolicyManifest
merge self other = record self {
  principals = merge_principals other.principals self.principals;
  encryption = merge_encryption self.encryption other.encryption;
  purpose_bindings = merge_bindings self.purpose_bindings other.purpose_bindings;
}
