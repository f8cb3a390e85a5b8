-- ===== src/Governance/Shape.antt =====
-- The column that `apply_rls` hands out has as many rows as the one that was read.
use holonomy_source.Common.{
  String, ◌≡◌, ◌∙◌, inl, inr, Bool, true, false, Option, List, arith, Option-cases,
}
use holonomy_source.Common.Dict.{get}
use holonomy_source.Common.Result.{ok, >>=-eq-ok}
use holonomy_source.Policy.{PolicyManifest}
use holonomy_source.Auth.{UserContext}
use holonomy_source.Arrow.{Arrow, ArrowLaws}
use holonomy_source.Governance.{
  FailClosedMode, resolve_active_role, role_masks, target_mask, mask_values, mask_array, apply_mask,
  mask_column, mask_encrypted, apply_rls,
}
use holonomy_source.Governance.Masks.{length-mask_values}

module _ (arrow : Arrow) (laws : ArrowLaws arrow) where
  mask_array-len :
      (f : String → String) (x : arrow.Array) → arrow.len (mask_array arrow f x) ≡ arrow.len x
  unfolding mask_array
  mask_array-len f x = elim (Option-cases (arrow.as_string x)) [
    | inr (vs, e) ↦
        rw (e, mask_array)
          (laws.len-string_array (mask_values f vs)
            ∙ length-mask_values f vs
            ∙ laws.len-as_string x vs e)
    | inl e ↦ elim (Option-cases (arrow.as_large_string x)) [
      | inr (vs, e') ↦
          rw (e, e', mask_array)
            (laws.len-large_string_array (mask_values f vs)
              ∙ length-mask_values f vs
              ∙ laws.len-as_large_string x vs e')
      | inl e' ↦ rw (e, e', mask_array) (laws.len-null_array (arrow.data_type x) (arrow.len x))
    ]
  ]

  module _ (lower hash : String → String) (x : arrow.Array) (column : String) (tags : List String)
      (mode : Option FailClosedMode) where
    apply_mask-len : (mask : String) → arrow.len (apply_mask arrow hash mask x) ≡ arrow.len x
    unfolding apply_mask
    apply_mask-len mask = ground (arith, mask_array-len (λ _. "***") x, mask_array-len hash x)

    mask_column-len :
        (masks : List String) (out : arrow.Array)
        → mask_column arrow hash x column mode masks ≡ ok out
        → arrow.len out ≡ arrow.len x
    unfolding mask_column
    mask_column-len masks out h =
        ground (arith, h, apply_mask-len "REDACT", apply_mask-len (target_mask masks))

    -- By the laws of arrow on the lengths of arrays: whatever the policy and the role, a column
    -- that is handed out has as many rows as the column that was read.
    pub apply_rls-len :
        (user : UserContext) (policy : PolicyManifest) (assumed purpose : Option String)
        (encrypted : Bool) (out : arrow.Array)
        → apply_rls lower arrow hash x user policy column assumed purpose mode encrypted tags
          ≡ ok out
        → arrow.len out ≡ arrow.len x
    unfolding apply_rls mask_encrypted
    apply_rls-len user policy assumed purpose false out h = ground arith
    apply_rls-len user policy assumed purpose true out h =
        let (role, r, k) = >>=-eq-ok (resolve_active_role user policy assumed purpose) _ h in
        elim (Option-cases (get role policy.principals)) [
          | inl missing ↦ absurd (ground (arith, missing, k))
          | inr (p, found) ↦
              mask_column-len (role_masks lower p column tags) out (ground (arith, found, k))
        ]
