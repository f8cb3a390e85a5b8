-- ===== src/Governance.antt =====
-- holonomy-core/src/manager/governance_manager.rs: which role a reader acts in, and how a column is
-- masked for that role. `str::to_lowercase` is a parameter (`lower`), since its tables are Unicode's;
-- `hash` is the salted hash of a value, `compute_salted_hash_into` in
-- Governance/Hash.antt.
pub mod Roles
pub mod Masks
mod Masking
pub mod Columns
pub mod Shape
mod Hash
mod Tests
use Prim.Native.Nat.{Ordering}
use Prim.Native.String.{compare}
use holonomy_source.Common.{
  ℕ, String, Bool, true, false, not, ◌&&◌, ◌||◌, Option, none, some, List, [], ◌∷◌, any, member,
  str_eq, contains, ◌<>◌, if◌then◌else◌,
}
use holonomy_source.Common.Dict.{Dict, get, contains_key}
use holonomy_source.Common.Result.{Result, ok, err, ◌>>=◌}
use holonomy_source.Policy.{PrincipalPolicy, PolicyManifest, EncryptionBlock}
use holonomy_source.Auth.{UserContext, set_insert}
use holonomy_source.Arrow.{Arrow, DataType}

pub data GovernanceError : Type 0 where
  access_denied data_leak_prevented : String → GovernanceError

pub data FailClosedMode : Type 0 where
  strict_error graceful_masking : FailClosedMode

-- `policy.purpose_bindings.as_ref().and_then(|pb| pb.get(p))`, for a purpose that is given.
unfoldable pub purpose_bound_role : PolicyManifest → Option String → Option String
purpose_bound_role policy none = none
purpose_bound_role policy (some p) = elim policy.purpose_bindings [
  | none ↦ none
  | some pb ↦ get p pb
]

-- The user's principals that the policy names.
unfoldable pub matching_roles : List String → Dict PrincipalPolicy → List String
matching_roles [] policy = []
matching_roles (p ∷ ps) policy =
    if contains_key p policy then p ∷ matching_roles ps policy else matching_roles ps policy

-- The role if the user has it.
unfoldable pub require_role : UserContext → String → Result GovernanceError String
require_role user role =
    if member role user.principals
    then ok role
    else err (access_denied ("User does not possess the required/assumed role '" <> role <> "'"))

-- The one matching role.
unfoldable pub only_role : List String → Result GovernanceError String
only_role [] = err (access_denied "User has no roles that match any roles defined in the policy")
only_role (role ∷ []) = ok role
only_role (_ ∷ _ ∷ _) = err (
    access_denied
      "User has multiple roles matching the policy. Must explicitly provide an assumed_role, or provide a purpose that is mapped to a specific role in the policy's purpose_bindings.")

unfoldable pub conflict : String → String → Result GovernanceError String
conflict bound assumed = err (
    access_denied (
      "Conflict: Purpose is bound to role '" <> bound <> "' but user assumed role '" <> assumed
      <> "'"))

-- The choice between the role that the purpose is bound to and the assumed one.
unfoldable pub choose_role :
    UserContext → PolicyManifest → Option String → Option String → Result GovernanceError String
choose_role user policy (some bound) (some assumed) =
    if str_eq bound assumed then require_role user bound else conflict bound assumed
choose_role user policy (some bound) none = require_role user bound
choose_role user policy none (some assumed) = require_role user assumed
choose_role user policy none none = only_role (matching_roles user.principals policy.principals)

-- `GovernanceManager::resolve_active_role`.
unfoldable pub resolve_active_role :
    UserContext → PolicyManifest → Option String → Option String → Result GovernanceError String
resolve_active_role user policy assumed_role purpose =
    choose_role user policy (purpose_bound_role policy purpose) assumed_role

-- The greatest text, as `sort` and `pop` give it.
unfoldable pub greatest : List String → Option String
greatest [] = none
greatest (x ∷ xs) = elim (greatest xs) [
  | none ↦ some x
  | some y ↦ elim (compare x y) [ Ordering.lt ↦ some y | _ ↦ some x ]
]

-- The mask that is applied, from the set of the masks that the role has for the column, where
-- "PLAINTEXT" is not among them.
unfoldable pub target_mask : List String → String
target_mask masks =
    if member "HASH" masks
    then "HASH"
    else if member "REDACT" masks
    then "REDACT"
    else if member "UNLISTED" masks
    then "UNLISTED"
    else elim (greatest masks) [ none ↦ "UNLISTED" | some m ↦ m ]

-- The loop of the text builders: a null stays null.
unfoldable pub mask_values : (String → String) → List (Option String) → List (Option String)
mask_values f [] = []
mask_values f (none ∷ vs) = none ∷ mask_values f vs
mask_values f (some v ∷ vs) = some (f v) ∷ mask_values f vs

-- `mask_found` is true exactly when a mask was inserted.
unfoldable pub or_unlisted : List String → List String
or_unlisted [] = "UNLISTED" ∷ []
or_unlisted (m ∷ ms) = m ∷ ms

-- `for tag in tags`.
unfoldable pub tag_mask_set : List String → Dict String → List String → List String
tag_mask_set [] tag_masks masks = masks
tag_mask_set (tag ∷ tags) tag_masks masks =
    tag_mask_set tags tag_masks
      (elim (get tag tag_masks) [ none ↦ masks | some mask ↦ set_insert mask masks ])

module _ (arrow : Arrow) where
  open arrow use {
    Array, data_type, len, as_string, as_large_string, string_array, large_string_array, null_array,
  }

  -- A text array has its values masked; any other array is replaced by nulls.
  unfoldable pub mask_array : (String → String) → Array → Array
  mask_array f array = elim (as_string array) [
    | some vs ↦ string_array (mask_values f vs)
    | none ↦ elim (as_large_string array) [
      | some vs ↦ large_string_array (mask_values f vs)
      | none ↦ null_array (data_type array) (len array)
    ]
  ]

module _ (arrow : Arrow) (hash : String → String) where
  open arrow use {Array}

  -- The branches on `target_mask`, after "UNLISTED" is replaced.
  unfoldable pub apply_mask : String → Array → Array
  apply_mask mask array =
      if str_eq mask "REDACT"
      then mask_array arrow (λ _. "***") array
      else if str_eq mask "HASH"
      then mask_array arrow hash array
      else array

  -- The masks of the role are known.
  unfoldable pub mask_column :
      Array → String → Option FailClosedMode → List String → Result GovernanceError Array
  mask_column array column mode masks =
      if member "PLAINTEXT" masks
      then ok array
      else if str_eq (target_mask masks) "UNLISTED"
      then elim mode [
        | some strict_error ↦ err (
            access_denied
              ("Column '" <> column <> "' is unlisted and strict fail-closed mode is active"))
        | _ ↦ ok (apply_mask "REDACT" array)
      ]
      else ok (apply_mask (target_mask masks) array)

module _ (lower : String → String) where
  -- `format!("_{}_", s.to_lowercase())`.
  unfoldable pub padded : String → String
  padded s = "_" <> lower s <> "_"

  -- The name of the column contains the key, between underscores.
  unfoldable pub key_matches : String → String → Bool
  key_matches column key = contains (padded column) (padded key)

  -- Does the policy require that the column is encrypted, by its name or by one of its tags?
  unfoldable pub is_policy_encrypted : Option EncryptionBlock → String → List String → Bool
  is_policy_encrypted none column tags = false
  is_policy_encrypted (some enc) column tags =
      any (key_matches column) enc.required_columns || any (λ t. member t tags) enc.required_tags

  -- `for (key, mask) in &role_policy.column_masks`.
  unfoldable pub column_mask_set : String → Dict String → List String → List String
  column_mask_set column [] masks = masks
  column_mask_set column ((key, mask) ∷ m) masks =
      column_mask_set column m (if key_matches column key then set_insert mask masks else masks)

  -- The set of the masks that the role has for the column.
  unfoldable pub role_masks : PrincipalPolicy → String → List String → List String
  role_masks policy column tags =
      or_unlisted
        (tag_mask_set tags policy.tag_masks (column_mask_set column policy.column_masks []))

  module _ (arrow : Arrow) (hash : String → String) where
    open arrow use {Array}

    -- The column is physically encrypted: the role decides.
    unfoldable pub mask_encrypted :
        Array
        → UserContext
        → PolicyManifest
        → String
        → Option String
        → Option String
        → Option FailClosedMode
        → List String
        → Result GovernanceError Array
    mask_encrypted array user policy column assumed_role purpose mode tags = do
      active_role ← resolve_active_role user policy assumed_role purpose
      elim (get active_role policy.principals) [
        | none ↦ err (access_denied ("Role '" <> active_role <> "' not found in policy"))
        | some role_policy ↦
            mask_column arrow hash array column mode (role_masks role_policy column tags)
      ]

    -- `GovernanceManager::apply_rls`.
    unfoldable pub apply_rls :
        Array
        → UserContext
        → PolicyManifest
        → String
        → Option String
        → Option String
        → Option FailClosedMode
        → Bool
        → List String
        → Result GovernanceError Array
    apply_rls array user policy column assumed_role purpose mode is_physically_encrypted tags =
        if not is_physically_encrypted && is_policy_encrypted policy.encryption column tags
        then err (
            data_leak_prevented (
              "Column " <> column
              <> " requires encryption by policy but was found in plaintext in the file"))
        else if not is_physically_encrypted
        then ok array
        else mask_encrypted array user policy column assumed_role purpose mode tags
