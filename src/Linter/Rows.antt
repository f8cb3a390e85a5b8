-- ===== src/Linter/Rows.antt =====
-- holonomy-core/src/linter/validator.rs, `validate`: when the rows of a column have no error.
use holonomy_source.Common.{
  ℕ, zero, suc, ◌+◌, ◌<◌, ◌≤◌, String, ◌≡◌, refl, ◌↔◌, inl, inr, Bool, true, false, ◌&&◌, Option,
  none, some, List, [], ◌∷◌, ◌++◌, arith, All, Bool-cases, if◌then◌else◌, ◌==◌,
}
use holonomy_source.Arrow.{Arrow}
use holonomy_source.Linter
use holonomy_source.Linter.{
  LinterError, extra_column, missing_column, type_mismatch, null_violation, range_violation, Engine,
}

-- A list made of two parts is empty exactly when both are.
pub append-nil_iff : {A : Type 0} (xs ys : List A) → (xs ++ ys ≡ []) ↔ ((xs ≡ []) × (ys ≡ []))
append-nil_iff [] ys = (λ h. (refl, h), λ h. h.1)
append-nil_iff (x ∷ xs) ys = (λ h. cc, λ h. let e = h.0 in cc)

-- A value that is there passes the test.
abbrev pub Passes : {V : Type 0} → (V → Bool) → Option V → Type 0
Passes test none = Unit
Passes test (some v) = test v ≡ true

-- The column was read as values that all pass the test.
abbrev pub AllPass : {V : Type 0} → (V → Bool) → Option (List (Option V)) → Type 0
AllPass test none = ⊥
AllPass test (some vs) = All (Passes test) vs

-- If there is a rule, all the values of the column keep to it.
abbrev pub Keeps : {V : Type 0} → Option (V → Bool) → Option (List (Option V)) → Type 0
Keeps none o = Unit
Keeps (some test) o = AllPass test o

module _ (lower : String → String) (arrow : Arrow) (engine : Engine arrow) where
  open arrow use {Array, len, is_null, as_string}
  open engine use {Float, lt, as_f64, null_count}

  -- A column without nulls by its count has none.
  pub record EngineLaws : Type 0 where
    pub null_count_zero : (x : Array) (i : ℕ) → null_count x ≡ 0 → i < len x → is_null x i ≡ false

  -- The value is not below a lower bound, and not above an upper one.
  abbrev pub not_below : Option Float → Float → Bool
  not_below none v = true
  not_below (some m) v = if lt v m then false else true

  abbrev pub not_above : Option Float → Float → Bool
  not_above none v = true
  not_above (some m) v = if lt m v then false else true

  abbrev pub in_range : Linter.RangeRule lower arrow engine → Float → Bool
  in_range r v = not_below r.min v && not_above r.max v

  -- All numbers of the column lie in the range.
  abbrev pub RangeKept :
      Option (Linter.RangeRule lower arrow engine) → Option (List (Option Float)) → Type 0
  RangeKept none o = Unit
  RangeKept (some r) o = AllPass (in_range r) o

  text_rows-eq-nil_iff :
      (violation : ℕ → LinterError) (test : String → Bool) (i : ℕ) (vs : List (Option String))
      → (Linter.text_rows lower arrow engine violation test i vs ≡ []) ↔ All (Passes test) vs
  unfolding Linter.text_rows
  text_rows-eq-nil_iff violation test i [] = (λ h. tt, λ h. refl)
  text_rows-eq-nil_iff violation test i (none ∷ vs) =
      let r = text_rows-eq-nil_iff violation test (i + 1) vs in (λ h. (tt, r.0 h), λ h. r.1 h.1)
  text_rows-eq-nil_iff violation test i (some v ∷ vs) =
      let r = text_rows-eq-nil_iff violation test (i + 1) vs in
      elim (Bool-cases (test v)) [
        | inl t ↦ (λ h. (t, r.0 (ground (arith, t, h))), λ h. ground (arith, t, r.1 h.1))
        | inr f ↦ (λ h. absurd (ground (arith, f, h)), λ h. absurd (ground (arith, f, h.0)))
      ]

  pub text_errors-eq-nil_iff :
      (violation : ℕ → LinterError) (name : String) (rule : Option (String → Bool)) (x : Array)
      → (Linter.text_errors lower arrow engine violation name rule x ≡ [])
        ↔ Keeps rule (as_string x)
  unfolding Linter.text_errors
  text_errors-eq-nil_iff violation name none x = (λ h. tt, λ h. refl)
  text_errors-eq-nil_iff violation name (some test) x = go (as_string x)
    where
      go :
          (o : Option (List (Option String)))
          → ((elim o as (λ _. List LinterError) [
            | some vs ↦ Linter.text_rows lower arrow engine violation test 0 vs
            | none ↦ type_mismatch name ∷ []
          ])
              ≡ [])
            ↔ AllPass test o
      go none = (λ h. cc, λ h. elim h [ ])
      go (some vs) = text_rows-eq-nil_iff violation test 0 vs

  below-not :
      (r : Linter.RangeRule lower arrow engine) (v : Float)
      → Linter.below lower arrow engine r.min v ≡ true
      → in_range r v ≡ false
  unfolding Linter.below
  below-not r v h = ground (arith, h)

  above-not :
      (r : Linter.RangeRule lower arrow engine) (v : Float)
      → Linter.above lower arrow engine r.max v ≡ true
      → in_range r v ≡ false
  unfolding Linter.above
  above-not r v h = ground (arith, h)

  within-range :
      (r : Linter.RangeRule lower arrow engine) (v : Float)
      → Linter.below lower arrow engine r.min v ≡ false
      → Linter.above lower arrow engine r.max v ≡ false
      → in_range r v ≡ true
  unfolding Linter.below Linter.above
  within-range r v f g = ground (arith, f, g)

  range_rows-eq-nil_iff :
      (name : String) (r : Linter.RangeRule lower arrow engine) (i : ℕ) (vs : List (Option Float))
      → (Linter.range_rows lower arrow engine name r i vs ≡ []) ↔ All (Passes (in_range r)) vs
  unfolding Linter.range_rows
  range_rows-eq-nil_iff name r i [] = (λ h. tt, λ h. refl)
  range_rows-eq-nil_iff name r i (none ∷ vs) =
      let rest = range_rows-eq-nil_iff name r (i + 1) vs in (λ h. (tt, rest.0 h), λ h. rest.1 h.1)
  range_rows-eq-nil_iff name r i (some v ∷ vs) =
      let rest = range_rows-eq-nil_iff name r (i + 1) vs in
      elim (Bool-cases (Linter.below lower arrow engine r.min v)) [
        | inl t ↦
            (λ h. absurd (ground (arith, t, h)), λ h. absurd (ground (arith, below-not r v t, h.0)))
        | inr f ↦ elim (Bool-cases (Linter.above lower arrow engine r.max v)) [
          | inl t ↦ (
            λ h. absurd (ground (arith, f, t, h)),
            λ h. absurd (ground (arith, above-not r v t, h.0)),
          )
          | inr g ↦ (
            λ h. (within-range r v f g, rest.0 (ground (arith, f, g, h))),
            λ h. ground (arith, f, g, rest.1 h.1),
          )
        ]
      ]

  pub range_errors-eq-nil_iff :
      (p : Linter.ColumnPolicy lower arrow engine) (c : Linter.BatchColumn lower arrow engine)
      → (Linter.range_errors lower arrow engine p c ≡ []) ↔ RangeKept p.range (as_f64 c.array)
  unfolding Linter.range_errors
  range_errors-eq-nil_iff p c = go p.range (as_f64 c.array)
    where
      go :
          (rule : Option (Linter.RangeRule lower arrow engine)) (o : Option (List (Option Float)))
          → ((elim rule as (λ _. List LinterError) [
            | none ↦ []
            | some range ↦ elim o as (λ _. List LinterError) [
              | some vs ↦ Linter.range_rows lower arrow engine p.name range 0 vs
              | none ↦ type_mismatch p.name ∷ []
            ]
          ])
              ≡ [])
            ↔ RangeKept rule o
      go none o = (λ h. tt, λ h. refl)
      go (some r) none = (λ h. cc, λ h. elim h [ ])
      go (some r) (some vs) = range_rows-eq-nil_iff p.name r 0 vs

  -- The rows from one on have no null.
  pub null_rows-eq-nil_iff :
      (name : String) (x : Array) (i n : ℕ)
      → (Linter.null_rows lower arrow engine name x i n ≡ [])
        ↔ ((k : ℕ) → i ≤ k → k < i + n → is_null x k ≡ false)
  unfolding Linter.null_rows
  null_rows-eq-nil_iff name x i zero = (λ h k lo hi. absurd (omega (arith, lo, hi)), λ h. refl)
  null_rows-eq-nil_iff name x i (suc n) =
      let rest = null_rows-eq-nil_iff name x (i + 1) n in
      elim (Bool-cases (is_null x i)) [
        | inl t ↦ (
          λ h. absurd (ground (arith, t, h)),
          λ h. let f = h i (omega arith) (omega arith) in absurd (ground (arith, t, f)),
        )
        | inr f ↦ (
          λ h k lo hi. elim (Bool-cases (k == i)) [
            | inl e ↦ ground (arith, e, f)
            | inr differs ↦
                rest.0 (ground (arith, f, h)) k (ground (arith, lo, differs)) (omega (arith, hi))
          ],
          λ h. ground (arith, f, rest.1 (λ k lo hi. h k (omega (arith, lo)) (omega (arith, hi)))),
        )
      ]
