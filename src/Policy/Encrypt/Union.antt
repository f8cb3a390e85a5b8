-- ===== src/Policy/Encrypt/Union.antt =====
-- The columns to encrypt under a merged policy.
use holonomy_source.Common.{
  String, ◌≡◌, inl, inr, Bool, true, ◌||◌, Option, none, some, List, [], ◌∷◌, ◌++◌, arith, any,
  member, contains, eq_iff, str_eq, Bool-cases,
}
use holonomy_source.Policy.{PolicyManifest, EncryptionBlock, push_new, merge_encryption, merge}
use holonomy_source.Policy.Merge.{member-push_new}
use holonomy_source.Arrow.{Arrow}
use holonomy_source.Linter.{Engine, ColumnPolicy, DataContract}
use holonomy_source.Policy.Encrypt.{
  required_tags_of, required_columns_of, has_required_tag, has_required_name, is_sensitive,
  sensitive_names, resolve_columns_to_encrypt,
}

any_of_member :
    (p : String → Bool) (x : String) (xs : List String)
    → member x xs ≡ true
    → p x ≡ true
    → any p xs ≡ true
any_of_member p x [] h k = cc
any_of_member p x (y ∷ ys) h k = elim (Bool-cases (str_eq y x)) [
  | inl same ↦ let e : y ≡ x = (eq_iff y x).0 same in rw e (ground (arith, k))
  | inr other ↦ ground (arith, other, h, any_of_member p x ys)
]

any-append :
    (p : String → Bool) (x : String) (xs : List String) → any p (xs ++ x ∷ []) ≡ (any p xs || p x)
any-append p x [] = ground arith
any-append p x (y ∷ ys) = ground (arith, any-append p x ys)

any-push_new :
    (p : String → Bool) (other mine : List String)
    → any p (push_new other mine) ≡ (any p mine || any p other)
unfolding push_new
any-push_new p [] mine = ground arith
any-push_new p (x ∷ other) mine = elim (Bool-cases (member x mine)) [
  | inl there ↦ ground (arith, there, any-push_new p other mine, any_of_member p x mine there)
  | inr new ↦ ground (arith, new, any-push_new p other (mine ++ x ∷ []), any-append p x mine)
]

module _ (lower : String → String) where
  required_columns-merge :
      (a b : Option EncryptionBlock) (name : String)
      → has_required_name lower (required_columns_of (merge_encryption a b)) name ≡ (
          has_required_name lower (required_columns_of a) name
          || has_required_name lower (required_columns_of b) name)
  unfolding merge_encryption has_required_name required_columns_of
  required_columns-merge a none name = ground arith
  required_columns-merge none (some y) name = ground arith
  required_columns-merge (some x) (some y) name =
      any-push_new (λ c. contains (lower name) (lower c)) y.required_columns x.required_columns

  member-required_tags :
      (a b : Option EncryptionBlock) (tag : String)
      → member tag (required_tags_of (merge_encryption a b))
        ≡ (member tag (required_tags_of a) || member tag (required_tags_of b))
  unfolding merge_encryption required_tags_of
  member-required_tags a none tag = ground arith
  member-required_tags none (some y) tag = ground arith
  member-required_tags (some x) (some y) tag = member-push_new tag y.required_tags x.required_tags

  any-required_tags :
      (a b : Option EncryptionBlock) (tags : List String)
      → any (λ t. member (lower t) (required_tags_of (merge_encryption a b))) tags ≡ (
          any (λ t. member (lower t) (required_tags_of a)) tags
          || any (λ t. member (lower t) (required_tags_of b)) tags)
  any-required_tags a b [] = ground arith
  any-required_tags a b (t ∷ ts) =
      ground (arith, member-required_tags a b (lower t), any-required_tags a b ts)

  required_tags-merge :
      (a b : Option EncryptionBlock) (tags : Option (List String))
      → has_required_tag lower (required_tags_of (merge_encryption a b)) tags ≡ (
          has_required_tag lower (required_tags_of a) tags
          || has_required_tag lower (required_tags_of b) tags)
  unfolding has_required_tag
  required_tags-merge a b none = ground arith
  required_tags-merge a b (some tags) = any-required_tags a b tags

  module _ (arrow : Arrow) (engine : Engine arrow) where
    is_sensitive-merge :
        (a b : Option EncryptionBlock) (col : ColumnPolicy lower arrow engine)
        → is_sensitive lower arrow engine (merge_encryption a b) col
          ≡ (is_sensitive lower arrow engine a col || is_sensitive lower arrow engine b col)
    unfolding is_sensitive
    is_sensitive-merge a b col =
        ground (arith, required_tags-merge a b col.tags, required_columns-merge a b col.name)

    member-sensitive_names :
        (f g h : ColumnPolicy lower arrow engine → Bool) (s : String)
        (cols : List (ColumnPolicy lower arrow engine))
        → ((col : ColumnPolicy lower arrow engine) → h col ≡ (f col || g col))
        → member s (sensitive_names lower arrow engine h cols) ≡ (
            member s (sensitive_names lower arrow engine f cols)
            || member s (sensitive_names lower arrow engine g cols))
    unfolding sensitive_names
    member-sensitive_names f g h s [] e = ground arith
    member-sensitive_names f g h s (col ∷ cols) e =
        ground (arith, e col, member-sensitive_names f g h s cols e)

    -- Under the merge of two policies exactly the columns of a data contract are encrypted that one
    -- of the two requires to be.
    pub resolve_columns_to_encrypt-merge :
        (contract : DataContract lower arrow engine) (a b : PolicyManifest) (s : String)
        → member s (resolve_columns_to_encrypt lower arrow engine contract (merge a b)) ≡ (
            member s (resolve_columns_to_encrypt lower arrow engine contract a)
            || member s (resolve_columns_to_encrypt lower arrow engine contract b))
    unfolding resolve_columns_to_encrypt merge
    resolve_columns_to_encrypt-merge contract a b s =
        member-sensitive_names (is_sensitive lower arrow engine a.encryption)
          (is_sensitive lower arrow engine b.encryption)
          (is_sensitive lower arrow engine (merge_encryption a.encryption b.encryption)) s
          contract.columns (is_sensitive-merge a.encryption b.encryption)
