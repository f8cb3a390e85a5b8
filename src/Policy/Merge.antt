-- ===== src/Policy/Merge.antt =====
-- What `PolicyManifest::merge` gives, principal by principal, and what it requires to be encrypted.
use holonomy_source.Common.{
  String, ◌≡◌, refl, Bool, false, Option, none, some, List, [], ◌∷◌, ◌++◌, arith, member, eq_iff,
  str_eq, if◌then◌else◌, member-append, ◌||◌,
}
use holonomy_source.Common.Dict.{Dict, Distinct, get}
use holonomy_source.Policy.{
  PrincipalPolicy, PolicyManifest, EncryptionBlock, default_principal, merge_principal, merge_entry,
  merge_principals, push_new, merge_encryption, merge,
}

-- `get(p).unwrap_or_default()`.
abbrev pub policy_of : Option PrincipalPolicy → PrincipalPolicy
policy_of none = default_principal
policy_of (some p) = p

pub get-merge_entry :
    (p q : String) (other : PrincipalPolicy) (m : Dict PrincipalPolicy)
    → get q (merge_entry p other m)
      ≡ (if str_eq p q then some (merge_principal (policy_of (get q m)) other) else get q m)
unfolding get merge_entry
get-merge_entry p q other [] = ground arith
get-merge_entry p q other ((r, mine) ∷ m) =
    ground (arith, eq_iff p q, eq_iff r p, eq_iff r q, get-merge_entry p q other m)

-- What the merge gives a principal, from what the two layers give it.
abbrev pub merged_policy : Option PrincipalPolicy → Option PrincipalPolicy → Option PrincipalPolicy
merged_policy mine none = mine
merged_policy mine (some other) = some (merge_principal (policy_of mine) other)

pub get-merge_principals :
    (q : String) (other m : Dict PrincipalPolicy)
    → Distinct other
    → get q (merge_principals other m) ≡ merged_policy (get q m) (get q other)
unfolding get merge_principals
get-merge_principals q [] m h = refl
get-merge_principals q ((p, o) ∷ rest) m (fresh, d) =
    ground (
      arith,
      get-merge_principals q rest (merge_entry p o m) d,
      get-merge_entry p q o m,
      eq_iff p q,
    )

-- If the higher layer's principals have distinct names, the policy of a principal under the merge
-- of two layers is the merge of what the two layers give it.
pub get-merge :
    (q : String) (a b : PolicyManifest)
    → Distinct b.principals
    → get q (merge a b).principals ≡ merged_policy (get q a.principals) (get q b.principals)
unfolding merge
get-merge q a b d = get-merge_principals q b.principals a.principals d

pub member-push_new :
    (s : String) (other mine : List String)
    → member s (push_new other mine) ≡ (member s mine || member s other)
unfolding push_new
member-push_new s [] mine = ground arith
member-push_new s (x ∷ other) mine = ground (
  arith,
  member-push_new s other (if member x mine then mine else mine ++ x ∷ []),
  member-append s x mine,
  eq_iff x s,
)

-- Does the manifest require that a column, or a tag, is encrypted?
abbrev pub requires_tag : String → Option EncryptionBlock → Bool
requires_tag t none = false
requires_tag t (some e) = member t e.required_tags

abbrev pub requires_column : String → Option EncryptionBlock → Bool
requires_column c none = false
requires_column c (some e) = member c e.required_columns

-- The merge of two layers requires the encryption of exactly the tags and the columns that one of
-- the two requires.
pub merge-encryption :
    (s : String) (a b : PolicyManifest)
    → (requires_tag s (merge a b).encryption
        ≡ (requires_tag s a.encryption || requires_tag s b.encryption))
      × (requires_column s (merge a b).encryption
          ≡ (requires_column s a.encryption || requires_column s b.encryption))
unfolding merge merge_encryption
merge-encryption s a b = go a.encryption b.encryption
  where
    go :
        (x y : Option EncryptionBlock)
        → (requires_tag s (merge_encryption x y) ≡ (requires_tag s x || requires_tag s y))
          × (requires_column s (merge_encryption x y)
              ≡ (requires_column s x || requires_column s y))
    go none none = (refl, refl)
    go none (some y) = (refl, refl)
    go (some x) none = ground arith
    go (some x) (some y) = (
      member-push_new s y.required_tags x.required_tags,
      member-push_new s y.required_columns x.required_columns,
    )
