-- ===== src/Drift/Detection.antt =====
-- holonomy-core/src/schema/drift.rs: when drift is reported.
use holonomy_source.Common.{
  String, ◌≡◌, refl, ap, ◌↔◌, ◌≢◌, inl, inr, true, false, Option, none, some, List, [], ◌∷◌, arith,
  length, Has, eq_iff, Bool-cases, Option-cases, ◌==◌,
}
use mathlib.Core.Option.{some-injective}
use holonomy_source.Drift
use holonomy_source.Drift.{
  Types, same_option, differs, any_differs, has_schema_drift, any_drift, check_drift_for_uris,
}

-- The tests of the parameters are equalities.
pub record TypesLaws (types : Types) : Type 0 where
  pub same_physical_iff : (a b : types.Physical) → (types.same_physical a b ≡ true) ↔ (a ≡ b)
  pub same_logical_iff : (a b : types.Logical) → (types.same_logical a b ≡ true) ↔ (a ≡ b)

module _ (types : Types) (laws : TypesLaws types) where
  same_option_iff : (a b : Option types.Logical) → (same_option types a b ≡ true) ↔ (a ≡ b)
  unfolding same_option
  same_option_iff none none = (λ h. refl, λ h. refl)
  same_option_iff none (some b) = (λ h. cc, λ h. cc)
  same_option_iff (some a) none = (λ h. cc, λ h. cc)
  same_option_iff (some a) (some b) = (
    λ h. ap some ((laws.same_logical_iff a b).0 h),
    λ h. (laws.same_logical_iff a b).1 (some-injective a b h),
  )

  differs_iff : (b c : Drift.Column types) → (differs types b c ≡ false) ↔ (b ≡ c)
  unfolding differs
  differs_iff b c = (
    λ h.
        let en : b.name ≡ c.name = (eq_iff b.name c.name).0 (ground (arith, h)) in
        let ep : b.physical_type ≡ c.physical_type =
          (laws.same_physical_iff b.physical_type c.physical_type).0 (ground (arith, h)) in
        let el : b.logical_type ≡ c.logical_type =
          (same_option_iff b.logical_type c.logical_type).0 (ground (arith, h)) in
        λ i. record { name = en i; physical_type = ep i; logical_type = el i },
    λ e.
        let en = (eq_iff b.name c.name).1 (ap (λ (x : Drift.Column types). x.name) e) in
        let ep =
          (laws.same_physical_iff b.physical_type c.physical_type).1
            (ap (λ (x : Drift.Column types). x.physical_type) e) in
        let el =
          (same_option_iff b.logical_type c.logical_type).1
            (ap (λ (x : Drift.Column types). x.logical_type) e) in
        ground (arith, en, ep, el),
  )

  any_differs_iff :
      (base sample : List (Drift.Column types))
      → length base ≡ length sample
      → (any_differs types base sample ≡ false) ↔ (base ≡ sample)
  unfolding any_differs
  any_differs_iff [] [] h = (λ e. refl, λ e. refl)
  any_differs_iff [] (c ∷ sample) h = absurd (omega (arith, h))
  any_differs_iff (b ∷ base) [] h = absurd (omega (arith, h))
  any_differs_iff (b ∷ base) (c ∷ sample) h =
      let first = differs_iff b c in
      let rest = any_differs_iff base sample (omega (arith, h)) in
      elim (Bool-cases (differs types b c)) [
        | inl d ↦ (
          λ k. absurd (ground (arith, d, k)),
          λ k. let e : b ≡ c = cc in absurd (ground (arith, d, first.1 e)),
        )
        | inr same ↦ (
          λ k. let e = first.0 same in let es = rest.0 (ground (arith, same, k)) in cc,
          λ k. let es : base ≡ sample = cc in ground (arith, same, rest.1 es),
        )
      ]

  -- No drift is seen between two schemas exactly when they are the same columns in the same order.
  has_schema_drift_iff :
      (base sample : List (Drift.Column types))
      → (has_schema_drift types base sample ≡ false) ↔ (base ≡ sample)
  unfolding has_schema_drift
  has_schema_drift_iff base sample = elim (Bool-cases (length base == length sample)) [
    | inl same ↦
        let r = any_differs_iff base sample (ground (arith, same)) in
        (λ h. r.0 (ground (arith, same, h)), λ e. ground (arith, same, r.1 e))
    | inr other ↦ (
      λ h. absurd (ground (arith, other, h)),
      λ e. absurd (let l = ap length e in ground (arith, other, l)),
    )
  ]

  module _ (fetch : String → Option (List (Drift.Column types))) where
    -- A readable file of the list whose schema is another than the given one.
    abbrev pub Drifts : List (Drift.Column types) → List String → Type 0
    Drifts base uris =
        (uri : String) × (sample : List (Drift.Column types)) × Has uri uris
        × (fetch uri ≡ some sample)
        × (base ≢ sample)

    any_drift_found :
        (base : List (Drift.Column types)) (uris : List String)
        → any_drift types fetch base uris ≡ true
        → Drifts base uris
    unfolding any_drift
    any_drift_found base [] h = cc
    any_drift_found base (uri ∷ uris) h = elim (Option-cases (fetch uri)) [
      | inl unread ↦
          let (u, sample, m, e, d) = any_drift_found base uris (ground (arith, unread, h)) in
          (u, sample, inr m, e, d)
      | inr (sample, e) ↦ elim (Bool-cases (has_schema_drift types base sample)) [
        | inl t ↦ (
          uri,
          sample,
          inl refl,
          e,
          λ same. ground (arith, t, (has_schema_drift_iff base sample).1 same),
        )
        | inr f ↦
            let (u, other, m, e', d) = any_drift_found base uris (ground (arith, e, f, h)) in
            (u, other, inr m, e', d)
      ]
    ]

    any_drift_complete :
        (base : List (Drift.Column types)) (uris : List String)
        → Drifts base uris
        → any_drift types fetch base uris ≡ true
    unfolding any_drift
    any_drift_complete base [] (uri, sample, h, e, d) = elim h [ ]
    any_drift_complete base (first ∷ uris) (uri, sample, inl same, e, d) =
        let read : fetch first ≡ some sample = rw same e in
        elim (Bool-cases (has_schema_drift types base sample)) [
          | inl t ↦ ground (arith, read, t)
          | inr f ↦ absurd (d ((has_schema_drift_iff base sample).0 f))
        ]
    any_drift_complete base (first ∷ uris) (uri, sample, inr m, e, d) =
        let rest = any_drift_complete base uris (uri, sample, m, e, d) in
        elim (Option-cases (fetch first)) [
          | inl unread ↦ ground (arith, unread, rest)
          | inr (other, read) ↦ ground (arith, read, rest)
        ]

    -- If the equality tests of the column types are equalities and the first file can be read:
    -- drift is reported exactly when one of the other files can be read and its columns are not
    -- those of the first file, in name, physical type, logical type and order.
    pub check_drift_for_uris_iff :
        (first : String) (base : List (Drift.Column types)) (uris : List String)
        → fetch first ≡ some base
        → (check_drift_for_uris types fetch (first ∷ uris) ≡ true) ↔ Drifts base uris
    unfolding check_drift_for_uris
    check_drift_for_uris_iff first base uris e = (
      λ h. any_drift_found base uris (ground (arith, e, h)),
      λ d. ground (arith, e, any_drift_complete base uris d),
    )
