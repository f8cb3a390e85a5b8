-- ===== src/Governance/Columns.antt =====
-- What `apply_rls` gives for a column of a file.
use holonomy_source.Common.{
  String, ◌≡◌, refl, ◌∙◌, inl, inr, true, false, Bool, Bool-cases, ◌||◌, Option, some, List, [],
  ◌∷◌, arith, member, ◌<>◌, Option-cases, if◌then◌else◌,
}
use holonomy_source.Common.Dict.{get}
use holonomy_source.Common.Result.{Result, ok, err, >>=-eq-ok}
use holonomy_source.Policy.{PrincipalPolicy, PolicyManifest}
use holonomy_source.Auth.{UserContext}
use holonomy_source.Arrow.{Arrow}
use holonomy_source.Governance.{
  GovernanceError, access_denied, FailClosedMode, strict_error, resolve_active_role, role_masks,
  target_mask, mask_array, apply_mask, mask_column, mask_encrypted, apply_rls,
}
use holonomy_source.Governance.Masks.{has_mask, role_masks-unlisted}
use holonomy_source.Governance.Masking.{
  known_masks, IsKnown, IsProtected, mask_column-IsProtected, mask_column-unknown,
  mask_column-decides, has_mask-eq-false,
}

module _ (lower : String → String) (column : String) (tags : List String) where
  module _ (arrow : Arrow) (hash : String → String) (array : arrow.Array) where
    module _ (user : UserContext) (policy : PolicyManifest) (assumed purpose : Option String)
        (mode : Option FailClosedMode) where
      -- The role that the reader acts in, and what the policy says of it.
      pub record ActsIn (role : String) (p : PrincipalPolicy) : Type 0 where
        pub resolved : resolve_active_role user policy assumed purpose ≡ ok role
        pub listed : get role policy.principals ≡ some p

      mask_encrypted-ActsIn :
          (out : arrow.Array)
          → mask_encrypted lower arrow hash array user policy column assumed purpose mode tags
            ≡ ok out
          → (role : String) × (p : PrincipalPolicy) × ActsIn role p
            × (mask_column arrow hash array column mode (role_masks lower p column tags) ≡ ok out)
      unfolding mask_encrypted
      mask_encrypted-ActsIn out h =
          let (role, r, k) = >>=-eq-ok (resolve_active_role user policy assumed purpose) _ h in
          elim (Option-cases (get role policy.principals)) [
            | inl missing ↦ absurd (ground (arith, missing, k))
            | inr (p, found) ↦
                (role, p, record { resolved = r; listed = found }, ground (arith, found, k))
          ]

      -- Under a policy whose roles have only the masks PLAINTEXT, HASH and REDACT for the column, a
      -- column that is encrypted in the file and that is handed out is shown as it is only to a
      -- role with PLAINTEXT for it, and is redacted, or hashed for a role with HASH, otherwise; and
      -- the reader acts in a role of the policy.
      pub apply_rls-IsProtected :
          (out : arrow.Array)
          → IsKnown lower column tags policy
          → apply_rls lower arrow hash array user policy column assumed purpose mode true tags
            ≡ ok out
          → (role : String) × (p : PrincipalPolicy) × ActsIn role p
            × IsProtected lower column tags arrow hash array p out
      unfolding apply_rls
      apply_rls-IsProtected out known h =
          let (role, p, acts, k) = mask_encrypted-ActsIn out h in
          (
            role,
            p,
            acts,
            mask_column-IsProtected lower column tags arrow hash array p mode out
                (λ m. known role p m acts.listed) k,
          )

      mask_encrypted-eq_masks :
          (role : String) (p : PrincipalPolicy) (set : List String)
          → ActsIn role p
          → role_masks lower p column tags ≡ set
          → mask_encrypted lower arrow hash array user policy column assumed purpose mode tags
            ≡ mask_column arrow hash array column mode set
      unfolding mask_encrypted
      mask_encrypted-eq_masks role p set acts e = ground (arith, acts.resolved, acts.listed, e)

      -- The answer for a column that the role has no mask for.
      abbrev pub unlisted_answer : Result GovernanceError arrow.Array
      unlisted_answer = elim mode [
        | some strict_error ↦ err (
            access_denied
              ("Column '" <> column <> "' is unlisted and strict fail-closed mode is active"))
        | _ ↦ ok (mask_array arrow (λ _. "***") array)
      ]

      mask_encrypted-unlisted :
          (role : String) (p : PrincipalPolicy)
          → ActsIn role p
          → ((mask : String) → has_mask lower p column tags mask ≡ false)
          → mask_encrypted lower arrow hash array user policy column assumed purpose mode tags
            ≡ unlisted_answer
      unfolding mask_column target_mask apply_mask
      mask_encrypted-unlisted role p acts none_listed =
          mask_encrypted-eq_masks role p ("UNLISTED" ∷ []) acts
            (role_masks-unlisted lower p column tags none_listed)
          ∙ ground arith

      -- The answer for a role of which every mask is one that the code acts upon.
      abbrev pub decision : PrincipalPolicy → Result GovernanceError arrow.Array
      decision p =
          if has_mask lower p column tags "PLAINTEXT"
          then ok array
          else if has_mask lower p column tags "HASH"
          then ok (mask_array arrow hash array)
          else if has_mask lower p column tags "REDACT"
          then ok (mask_array arrow (λ _. "***") array)
          else unlisted_answer

      -- Does the role have a mask that the code acts upon?
      abbrev some_mask : PrincipalPolicy → Bool
      some_mask p =
          has_mask lower p column tags "PLAINTEXT"
          || has_mask lower p column tags "HASH"
          || has_mask lower p column tags "REDACT"

      mask_encrypted-decides :
          (role : String) (p : PrincipalPolicy)
          → ActsIn role p
          → ((mask : String)
              → has_mask lower p column tags mask ≡ true
              → member mask known_masks ≡ true)
          → mask_encrypted lower arrow hash array user policy column assumed purpose mode tags
            ≡ decision p
      mask_encrypted-decides role p acts known = elim (Bool-cases (some_mask p)) [
        | inl t ↦
            mask_encrypted-eq_masks role p _ acts refl
            ∙ mask_column-decides lower column tags arrow hash array p mode t
            ∙ ground (arith, t)
        | inr f ↦ ground (
          arith,
          mask_encrypted-unlisted role p acts (
              has_mask-eq-false lower column tags arrow hash array p mode known (ground (arith, f))
                (ground (arith, f)) (ground (arith, f))),
          f,
        )
      ]

      -- For a role that has only the masks PLAINTEXT, HASH and REDACT for the column, an encrypted
      -- column is shown if PLAINTEXT is among them, else hashed if HASH is, else redacted if REDACT
      -- is, whether by name or by tag; with none it is refused in the strict mode and redacted
      -- otherwise.
      pub apply_rls-decides :
          (role : String) (p : PrincipalPolicy)
          → ActsIn role p
          → ((mask : String)
              → has_mask lower p column tags mask ≡ true
              → member mask known_masks ≡ true)
          → apply_rls lower arrow hash array user policy column assumed purpose mode true tags
            ≡ decision p
      unfolding apply_rls
      apply_rls-decides role p acts known = mask_encrypted-decides role p acts known

      -- If a role has a mask for a column, and all its masks for it are words other than PLAINTEXT,
      -- HASH, REDACT and UNLISTED, an encrypted column is handed out as it is.
      pub apply_rls-unknown_mask :
          (role : String) (p : PrincipalPolicy) (word : String)
          → ActsIn role p
          → has_mask lower p column tags word ≡ true
          → ((mask : String)
              → has_mask lower p column tags mask ≡ true
              → member mask ("UNLISTED" ∷ known_masks) ≡ false)
          → apply_rls lower arrow hash array user policy column assumed purpose mode true tags
            ≡ ok array
      unfolding apply_rls
      apply_rls-unknown_mask role p word acts has unknown =
          mask_encrypted-eq_masks role p _ acts refl
          ∙ mask_column-unknown lower column tags arrow hash array p mode word has unknown
