-- ===== src/Governance/Tests.antt =====
-- Runs of the governance manager on a small policy, and the theorems applied to it.
use holonomy_source.Common.{
  ℕ, ℕ, String, ◌≡◌, refl, inl, inr, true, false, Option, none, some, List, [], ◌∷◌, arith, length,
  member, eq_iff, ◌<>◌, subst, sym,
}
use holonomy_source.Common.Dict.{get, contains_key}
use holonomy_source.Common.Result.{ok, err}
use holonomy_source.Policy.{PrincipalPolicy, default_principal, PolicyManifest}
use holonomy_source.Auth.{UserContext, set_insert}
use holonomy_source.Arrow.{DataType, utf8, Arrow, ArrowLaws}
use holonomy_source.Governance.{
  access_denied, strict_error, resolve_active_role, purpose_bound_role, role_masks, target_mask,
  mask_values, mask_array, apply_rls, mask_encrypted, choose_role, require_role, mask_column,
  or_unlisted, tag_mask_set, column_mask_set, key_matches, padded, apply_mask, matching_roles,
  only_role,
}
use holonomy_source.Governance.Roles.{
  IsActive, resolve_active_role-IsActive, resolve_active_role_complete,
}
use holonomy_source.Governance.Masks.{has_mask}
use holonomy_source.Governance.Masking.{known_masks, IsKnown, IsProtected}
use holonomy_source.Governance.Columns.{
  ActsIn, apply_rls-IsProtected, apply_rls-unknown_mask, apply_rls-decides,
}
use holonomy_source.Governance.Shape.{apply_rls-len}

-- Arrays that are texts, or nulls of another type.
data Column : Type 0 where
  texts : List (Option String) → Column
  nulls : DataType → ℕ → Column

abbrev column_len : Column → ℕ
column_len (texts vs) = length vs
column_len (nulls t n) = n

abbrev column_texts : Column → Option (List (Option String))
column_texts (texts vs) = some vs
column_texts (nulls t n) = none

abbrev column_type : Column → DataType
column_type (texts vs) = utf8
column_type (nulls t n) = t

abbrev arrow : Arrow
arrow = record {
  Array = Column;
  data_type = column_type;
  len = column_len;
  is_null = λ x i. false;
  as_string = column_texts;
  as_large_string = λ x. none;
  string_array = texts;
  large_string_array = texts;
  null_array = nulls;
}

len-column_texts :
    (x : Column) (vs : List (Option String)) → column_texts x ≡ some vs → length vs ≡ column_len x
len-column_texts (texts ws) vs h = ground arith
len-column_texts (nulls t n) vs h = cc

arrow_laws : ArrowLaws arrow
arrow_laws = record {
  len-as_string = len-column_texts;
  len-as_large_string = λ x vs h. cc;
  len-string_array = λ vs. refl;
  len-large_string_array = λ vs. refl;
  len-null_array = λ t n. refl;
}

abbrev keep_case : String → String
keep_case s = s

abbrev mark : String → String
mark s = "#" <> s

abbrev analyst : PrincipalPolicy
analyst = record default_principal {
  column_masks = ("email", "HASH") ∷ ("name", "PLAINTEXT") ∷ [];
  tag_masks = ("pii", "REDACT") ∷ [];
}

abbrev intern : PrincipalPolicy
intern = record default_principal { column_masks = ("email", "hash") ∷ [] }

abbrev policy : PolicyManifest
policy = record {
  version = "1.0";
  principals = ("analyst", analyst) ∷ [];
  encryption = some (record { required_tags = "pii" ∷ []; required_columns = "email" ∷ [] });
  purpose_bindings = some (("billing", "analyst") ∷ []);
}

abbrev loose : PolicyManifest
loose = record policy { principals = ("intern", intern) ∷ [] }

abbrev ann : UserContext
ann = record {
  sub = some "ann";
  client_id = none;
  email = none;
  principals = "analyst" ∷ "intern" ∷ "ann" ∷ [];
}

abbrev emails : Column
emails = texts (some "a@b" ∷ none ∷ [])

-- The purpose of the reader is bound to the role.
ann_role : resolve_active_role ann policy none (some "billing") ≡ ok "analyst"
unfolding resolve_active_role choose_role purpose_bound_role get require_role
ann_role = refl

ann_acts :
    ActsIn keep_case "email" [] arrow mark emails ann policy none
      (some "billing")
      none
      "analyst"
      analyst
unfolding get
ann_acts = record { resolved = ann_role; listed = refl }

ann_hashed :
    apply_rls keep_case arrow mark emails ann policy "user_email" none (some "billing") none true []
    ≡ ok (texts (some "#a@b" ∷ none ∷ []))
unfolding apply_rls mask_encrypted resolve_active_role choose_role purpose_bound_role get
    require_role mask_column role_masks or_unlisted tag_mask_set column_mask_set key_matches padded
    set_insert target_mask apply_mask mask_array mask_values
ann_hashed = refl

-- A reader with two roles of the policy and no purpose.
two_roles :
    resolve_active_role ann
      (record policy { principals = ("analyst", analyst) ∷ ("intern", intern) ∷ [] })
      none
      none
    ≡ err (
        access_denied
          "User has multiple roles matching the policy. Must explicitly provide an assumed_role, or provide a purpose that is mapped to a specific role in the policy's purpose_bindings.")
unfolding resolve_active_role choose_role purpose_bound_role matching_roles contains_key get
    only_role
two_roles = refl

resolve_active_role-IsActive_example : IsActive ann policy none (some "billing") "analyst"
resolve_active_role-IsActive_example =
    resolve_active_role-IsActive ann policy none (some "billing") "analyst" ann_role

resolve_active_role_complete_example :
    resolve_active_role ann policy (some "intern") none ≡ ok "intern"
unfolding purpose_bound_role
resolve_active_role_complete_example =
    resolve_active_role_complete ann policy (some "intern") none "intern" (inr (inl refl))
      (inr (refl, refl))

email-IsKnown : IsKnown keep_case "user_email" [] policy
unfolding get has_mask key_matches padded
email-IsKnown role p mask found has =
    let same : analyst ≡ p = ground arith in
    let granted : has_mask keep_case analyst "user_email" [] mask ≡ true =
      subst (λ (r : PrincipalPolicy). has_mask keep_case r "user_email" [] mask ≡ true) (sym same)
        has in
    let e : "HASH" ≡ mask = (eq_iff "HASH" mask).0 (ground arith) in rw (← e) refl

apply_rls-IsProtected_example :
    (role : String) × (p : PrincipalPolicy) × ActsIn keep_case "user_email" [] arrow mark emails ann
      policy none
      (some "billing")
      none
      role
      p
    × IsProtected keep_case "user_email" [] arrow mark emails p (texts (some "#a@b" ∷ none ∷ []))
apply_rls-IsProtected_example =
    apply_rls-IsProtected keep_case "user_email" [] arrow mark emails ann policy none
      (some "billing") none (texts (some "#a@b" ∷ none ∷ [])) email-IsKnown ann_hashed

apply_rls-decides_example :
    apply_rls keep_case arrow mark emails ann policy "phone" none
      (some "billing")
      (some strict_error)
      true
      []
    ≡ err (access_denied "Column 'phone' is unlisted and strict fail-closed mode is active")
unfolding get has_mask key_matches padded
apply_rls-decides_example =
    apply_rls-decides keep_case "phone" [] arrow mark emails ann policy none (some "billing")
      (some strict_error) "analyst" analyst (record { resolved = ann_role; listed = refl })
      (λ mask h. cc)

intern_role : resolve_active_role ann loose none none ≡ ok "intern"
unfolding resolve_active_role choose_role purpose_bound_role matching_roles contains_key get
    only_role
intern_role = refl

intern_email : has_mask keep_case intern "email" [] "hash" ≡ true
unfolding has_mask key_matches padded
intern_email = refl

intern_unknown :
    (mask : String)
    → has_mask keep_case intern "email" [] mask ≡ true
    → member mask ("UNLISTED" ∷ known_masks) ≡ false
unfolding has_mask key_matches padded
intern_unknown mask h =
    let e : "hash" ≡ mask = (eq_iff "hash" mask).0 (ground arith) in rw (← e) refl

apply_rls-unknown_mask_example :
    apply_rls keep_case arrow mark emails ann loose "email" none none none true [] ≡ ok emails
unfolding get
apply_rls-unknown_mask_example =
    apply_rls-unknown_mask keep_case "email" [] arrow mark emails ann loose none none none "intern"
      intern "hash" (record { resolved = intern_role; listed = refl }) intern_email intern_unknown

apply_rls-len_example : column_len (texts (some "#a@b" ∷ none ∷ [])) ≡ 2
apply_rls-len_example =
    apply_rls-len arrow arrow_laws keep_case mark emails "user_email" [] none ann policy none
      (some "billing") true (texts (some "#a@b" ∷ none ∷ [])) ann_hashed
