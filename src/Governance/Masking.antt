-- ===== src/Governance/Masking.antt =====
-- What the masks of a role make of a column.
use holonomy_source.Common.{
  String, ◌≡◌, refl, ap, sym, ◌∙◌, subst, ◌≢◌, ◌⊎◌, inl, inr, true, false, Bool, ◌||◌,
  if◌then◌else◌, Option, some, List, [], ◌∷◌, arith, member, member→Has, Has→member, Has, str_eq,
  eq_iff, Bool-cases,
}
use holonomy_source.Common.Dict.{get}
use holonomy_source.Common.Result.{ok, ok-injective}
use holonomy_source.Policy.{PrincipalPolicy, PolicyManifest}
use holonomy_source.Arrow.{Arrow}
use holonomy_source.Governance.{
  FailClosedMode, or_unlisted, role_masks, target_mask, mask_array, apply_mask, mask_column,
}
use holonomy_source.Governance.Masks.{
  has_mask, member-role_masks, member-role_masks_found, target_mask-Has, target_mask-precedence,
}

-- The masks that the code acts upon.
abbrev pub known_masks : List String
known_masks = "PLAINTEXT" ∷ "HASH" ∷ "REDACT" ∷ []

or_unlisted-cons :
    (ms : List String) → (x : String) × (xs : List String) × (or_unlisted ms ≡ x ∷ xs)
unfolding or_unlisted
or_unlisted-cons [] = ("UNLISTED", [], refl)
or_unlisted-cons (m ∷ ms) = (m, ms, refl)

role_masks-cons :
    (lower : String → String) (p : PrincipalPolicy) (column : String) (tags : List String)
    → (x : String) × (xs : List String) × (role_masks lower p column tags ≡ x ∷ xs)
unfolding role_masks
role_masks-cons lower p column tags = or_unlisted-cons _

module _ (lower : String → String) (column : String) (tags : List String) where
  -- Every mask that a role of the policy has for the column is one that the code acts upon.
  abbrev pub IsKnown : PolicyManifest → Type 0
  IsKnown policy =
      (role : String) (p : PrincipalPolicy) (mask : String)
      → get role policy.principals ≡ some p
      → has_mask lower p column tags mask ≡ true
      → member mask known_masks ≡ true

  module _ (arrow : Arrow) (hash : String → String) (array : arrow.Array) where
    -- The role has the mask "PLAINTEXT" for the column and the values are shown; or they are
    -- redacted; or the role has the mask "HASH" and they are hashed.
    abbrev pub IsProtected : PrincipalPolicy → arrow.Array → Type 0
    IsProtected p out =
        (has_mask lower p column tags "PLAINTEXT" ≡ true) × (out ≡ array)
        ⊎ (out ≡ mask_array arrow (λ _. "***") array)
        ⊎ (has_mask lower p column tags "HASH" ≡ true) × (out ≡ mask_array arrow hash array)

    module _ (p : PrincipalPolicy) (mode : Option FailClosedMode) where
      abbrev masks : List String
      masks = role_masks lower p column tags

      -- A mask that is applied, and is neither missing nor shown, is "HASH" or "REDACT".
      applied :
          ((mask : String)
            → has_mask lower p column tags mask ≡ true
            → member mask known_masks ≡ true)
          → member "PLAINTEXT" masks ≡ false
          → target_mask masks ≢ "UNLISTED"
          → (target_mask masks ≡ "HASH") × (member "HASH" masks ≡ true)
            ⊎ (target_mask masks ≡ "REDACT")
      applied known hidden listed =
          let (x, xs, e) = role_masks-cons lower p column tags in
          let h : Has (target_mask masks) masks =
            subst (λ (l : List String). Has (target_mask l) l) (sym e) (target_mask-Has x xs) in
          let t = target_mask masks in
          let here = Has→member t masks h in
          let k = known t (sym (member-role_masks lower p column tags t listed) ∙ here) in
          elim (member→Has t known_masks k) [
            | inl plain ↦
                absurd (ground (arith, subst (λ u. member u masks ≡ true) (sym plain) here, hidden))
            | inr (inl hashed) ↦
                inl (sym hashed, subst (λ u. member u masks ≡ true) (sym hashed) here)
            | inr (inr (inl redacted)) ↦ inr (sym redacted)
            | inr (inr (inr none_left)) ↦ elim none_left [ ]
          ]

      mask_column-eq_target :
          member "PLAINTEXT" masks ≡ false
          → str_eq (target_mask masks) "UNLISTED" ≡ false
          → mask_column arrow hash array column mode masks
            ≡ ok (apply_mask arrow hash (target_mask masks) array)
      unfolding mask_column
      mask_column-eq_target hidden listed = rw (hidden, listed)

      pub mask_column-IsProtected :
          (out : arrow.Array)
          → ((mask : String)
              → has_mask lower p column tags mask ≡ true
              → member mask known_masks ≡ true)
          → mask_column arrow hash array column mode masks ≡ ok out
          → IsProtected p out
      unfolding mask_column apply_mask
      mask_column-IsProtected out known h = elim (Bool-cases (member "PLAINTEXT" masks)) [
        | inl shown ↦ inl (
          sym (
                member-role_masks lower p column tags "PLAINTEXT"
                  (λ e. ground (arith, eq_iff "PLAINTEXT" "UNLISTED")))
              ∙ shown,
          ground (arith, shown),
        )
        | inr hidden ↦ elim (Bool-cases (str_eq (target_mask masks) "UNLISTED")) [
          | inl missing ↦ inr (inl (ground (arith, hidden, missing)))
          | inr listed ↦
              elim (applied known hidden
                (λ e. ground (arith, eq_iff (target_mask masks) "UNLISTED"))) [
                  | inl (hashed, present) ↦ inr (
                      inr (
                        sym (
                              member-role_masks lower p column tags "HASH"
                                (λ e. ground (arith, eq_iff "HASH" "UNLISTED")))
                            ∙ present,
                        ok-injective (sym h ∙ mask_column-eq_target hidden listed)
                            ∙ ap (λ t. apply_mask arrow hash t array) hashed,
                      ))
                  | inr redacted ↦ inr (
                      inl (
                        ok-injective (sym h ∙ mask_column-eq_target hidden listed)
                        ∙ ap (λ t. apply_mask arrow hash t array) redacted))
                ]
        ]
      ]

      -- With only unknown masks, the one that is applied is unknown too.
      pub mask_column-unknown :
          (word : String)
          → has_mask lower p column tags word ≡ true
          → ((mask : String)
              → has_mask lower p column tags mask ≡ true
              → member mask ("UNLISTED" ∷ known_masks) ≡ false)
          → mask_column arrow hash array column mode masks ≡ ok array
      unfolding mask_column apply_mask
      mask_column-unknown word has unknown =
          let (x, xs, e) = role_masks-cons lower p column tags in
          let h : Has (target_mask masks) masks =
            subst (λ (l : List String). Has (target_mask l) l) (sym e) (target_mask-Has x xs) in
          let t = target_mask masks in
          let here = Has→member t masks h in
          let u = unknown t (sym (member-role_masks_found lower p column tags word t has) ∙ here) in
          ground (
            arith,
            u,
            unknown "PLAINTEXT",
            member-role_masks_found lower p column tags word "PLAINTEXT" has,
            eq_iff t "UNLISTED",
            eq_iff "UNLISTED" t,
            eq_iff t "HASH",
            eq_iff "HASH" t,
            eq_iff t "REDACT",
            eq_iff "REDACT" t,
          )

      -- A role that has one of the masks that the code acts upon.
      pub mask_column-decides :
          (has_mask lower p column tags "PLAINTEXT"
              || has_mask lower p column tags "HASH"
              || has_mask lower p column tags "REDACT")
            ≡ true
          → mask_column arrow hash array column mode masks ≡ (
              if has_mask lower p column tags "PLAINTEXT"
              then ok array
              else if has_mask lower p column tags "HASH"
              then ok (mask_array arrow hash array)
              else ok (mask_array arrow (λ _. "***") array))
      unfolding mask_column apply_mask
      mask_column-decides some_mask = go _ _ _ refl refl refl
        where
          on_masks :
              (mask : String) (b : Bool)
              → mask ≢ "UNLISTED"
              → has_mask lower p column tags mask ≡ b
              → member mask masks ≡ b
          on_masks mask b differs e = member-role_masks lower p column tags mask differs ∙ e

          go :
              (plain hashed redacted : Bool)
              → has_mask lower p column tags "PLAINTEXT" ≡ plain
              → has_mask lower p column tags "HASH" ≡ hashed
              → has_mask lower p column tags "REDACT" ≡ redacted
              → mask_column arrow hash array column mode masks ≡ (
                  if has_mask lower p column tags "PLAINTEXT"
                  then ok array
                  else if has_mask lower p column tags "HASH"
                  then ok (mask_array arrow hash array)
                  else ok (mask_array arrow (λ _. "***") array))
          go true hashed redacted a b c =
              let m =
                on_masks "PLAINTEXT" true (λ e. ground (arith, eq_iff "PLAINTEXT" "UNLISTED")) a in
              rw (a, m) refl
          go false true redacted a b c =
              let m =
                on_masks "PLAINTEXT" false (λ e. ground (arith, eq_iff "PLAINTEXT" "UNLISTED")) a in
              let h = on_masks "HASH" true (λ e. ground (arith, eq_iff "HASH" "UNLISTED")) b in
              let t = (target_mask-precedence masks).0 h in rw (a, b, m, t) refl
          go false false true a b c =
              let m =
                on_masks "PLAINTEXT" false (λ e. ground (arith, eq_iff "PLAINTEXT" "UNLISTED")) a in
              let h = on_masks "HASH" false (λ e. ground (arith, eq_iff "HASH" "UNLISTED")) b in
              let r = on_masks "REDACT" true (λ e. ground (arith, eq_iff "REDACT" "UNLISTED")) c in
              let t = (target_mask-precedence masks).1 h r in rw (a, b, m, t) refl
          go false false false a b c = absurd (ground arith)

      -- A role that has none of them has no mask at all.
      pub has_mask-eq-false :
          ((mask : String)
            → has_mask lower p column tags mask ≡ true
            → member mask known_masks ≡ true)
          → has_mask lower p column tags "PLAINTEXT" ≡ false
          → has_mask lower p column tags "HASH" ≡ false
          → has_mask lower p column tags "REDACT" ≡ false
          → (mask : String) → has_mask lower p column tags mask ≡ false
      has_mask-eq-false known a b c mask = elim (Bool-cases (has_mask lower p column tags mask)) [
        | inr f ↦ f
        | inl t ↦ elim (member→Has mask known_masks (known mask t)) [
          | inl e ↦ subst (λ m. has_mask lower p column tags m ≡ false) e a
          | inr (inl e) ↦ subst (λ m. has_mask lower p column tags m ≡ false) e b
          | inr (inr (inl e)) ↦ subst (λ m. has_mask lower p column tags m ≡ false) e c
          | inr (inr (inr none_left)) ↦ elim none_left [ ]
        ]
      ]
