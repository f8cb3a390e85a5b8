-- ===== src/Linter/Conform.antt =====
-- holonomy-core/src/linter/validator.rs, `validate`: when a batch has no error.
use holonomy_source.Common.{
  ℕ, ◌<◌, String, ◌≡◌, refl, sym, ap, ◌↔◌, inl, inr, true, false, ◌&&◌, Option, none, some, List,
  [], ◌∷◌, arith, ltb, member, str_eq, eq_iff, All, Bool-cases, if◌then◌else◌,
}
use holonomy_source.Auth.{set_insert_all}
use holonomy_source.Auth.Principals.{member-set_insert_all}
use holonomy_source.Arrow.{Arrow, DataType}
use holonomy_source.Linter.Types.{expected_data_type, same_type, same_type_iff}
use holonomy_source.Linter
use holonomy_source.Linter.{
  LinterError, extra_column, missing_column, type_mismatch, enum_violation, regex_violation, Engine,
}
use holonomy_source.Linter.Rows.{
  append-nil_iff, Keeps, EngineLaws, RangeKept, text_errors-eq-nil_iff, range_errors-eq-nil_iff,
  null_rows-eq-nil_iff,
}

module _ (lower : String → String) (arrow : Arrow) (engine : Engine arrow) where
  open arrow use {Array, len, is_null, as_string}
  open engine use {as_f64, null_count}

  -- A column that is in the batch is of the type of the contract, has no null if it is required, and
  -- its values keep to the allowed values, the pattern and the range that the contract gives it.
  pub record ColumnConforms (v : Linter.Validator lower arrow engine)
      (p : Linter.ColumnPolicy lower arrow engine) (c : Linter.BatchColumn lower arrow engine)
      : Type 0 where
    pub typed : expected_data_type lower p.data_type ≡ some c.data_type
    pub not_null : p.required ≡ true → (k : ℕ) → k < len c.array → is_null c.array k ≡ false
    pub allowed : Keeps (Linter.allowed_test lower arrow engine v p.name) (as_string c.array)
    pub matching : Keeps (Linter.regex_test lower arrow engine v p.name) (as_string c.array)
    pub ranged : RangeKept lower arrow engine p.range (as_f64 c.array)

  type_errors-eq-nil_iff :
      (p : Linter.ColumnPolicy lower arrow engine) (c : Linter.BatchColumn lower arrow engine)
      → (Linter.type_errors lower arrow engine p c ≡ [])
        ↔ (expected_data_type lower p.data_type ≡ some c.data_type)
  unfolding Linter.type_errors
  type_errors-eq-nil_iff p c = go (expected_data_type lower p.data_type)
    where
      go :
          (o : Option DataType)
          → ((elim o as (λ _. List LinterError) [
            | some expected ↦
                if same_type c.data_type expected then [] else type_mismatch p.name ∷ []
            | none ↦ type_mismatch p.name ∷ []
          ])
              ≡ [])
            ↔ (o ≡ some c.data_type)
      go none = (λ h. cc, λ h. cc)
      go (some t) = elim (Bool-cases (same_type c.data_type t)) [
        | inl y ↦ (λ h. ap some (sym ((same_type_iff c.data_type t).0 y)), λ h. ground (arith, y))
        | inr n ↦ (
          λ h. absurd (ground (arith, n, h)),
          λ h. ground (arith, n, same_type_iff c.data_type t, h),
        )
      ]

  module _ (laws : EngineLaws lower arrow engine) where
    null_errors-eq-nil_iff :
        (p : Linter.ColumnPolicy lower arrow engine) (c : Linter.BatchColumn lower arrow engine)
        → (Linter.null_errors lower arrow engine p c ≡ [])
          ↔ (p.required ≡ true → (k : ℕ) → k < len c.array → is_null c.array k ≡ false)
    unfolding Linter.null_errors
    null_errors-eq-nil_iff p c =
        let rows = null_rows-eq-nil_iff lower arrow engine p.name c.array 0 (len c.array) in
        elim (Bool-cases (p.required && ltb 0 (null_count c.array))) [
          | inl y ↦ (
            λ h r k hi. rows.0 (ground (arith, y, h)) k (omega arith) (omega (arith, hi)),
            λ h. ground (arith, y, rows.1 (λ k lo hi. h (ground (arith, y)) k (omega (arith, hi)))),
          )
          | inr n ↦ (
            λ h r k hi. laws.null_count_zero c.array k (ground (arith, n, r)) hi,
            λ h. ground (arith, n),
          )
        ]

    present_errors-eq-nil_iff :
        (v : Linter.Validator lower arrow engine) (p : Linter.ColumnPolicy lower arrow engine)
        (c : Linter.BatchColumn lower arrow engine)
        → (Linter.present_errors lower arrow engine v p c ≡ []) ↔ ColumnConforms v p c
    unfolding Linter.present_errors
    present_errors-eq-nil_iff v p c =
        let t = type_errors-eq-nil_iff p c in
        let n = null_errors-eq-nil_iff p c in
        let e =
          text_errors-eq-nil_iff lower arrow engine (enum_violation p.name) p.name
            (Linter.allowed_test lower arrow engine v p.name) c.array in
        let m =
          text_errors-eq-nil_iff lower arrow engine (regex_violation p.name) p.name
            (Linter.regex_test lower arrow engine v p.name) c.array in
        let g = range_errors-eq-nil_iff lower arrow engine p c in
        (
          λ h.
              let (k3, h5) = (append-nil_iff _ _).0 h in
              let (k2, h4) = (append-nil_iff _ _).0 k3 in
              let (k1, h3) = (append-nil_iff _ _).0 k2 in
              let (h1, h2) = (append-nil_iff _ _).0 k1 in
              record {
                typed = t.0 h1;
                not_null = n.0 h2;
                allowed = e.0 h3;
                matching = m.0 h4;
                ranged = g.0 h5;
              },
          λ c.
              let k1 = (append-nil_iff _ _).1 (t.1 c.typed, n.1 c.not_null) in
              let k2 = (append-nil_iff _ _).1 (k1, e.1 c.allowed) in
              let k3 = (append-nil_iff _ _).1 (k2, m.1 c.matching) in
              (append-nil_iff _ _).1 (k3, g.1 c.ranged),
        )

    -- A column of the contract, and the column of the batch with its name, if there is one.
    abbrev pub Meets :
        Linter.Validator lower arrow engine
        → Linter.ColumnPolicy lower arrow engine
        → Option (Linter.BatchColumn lower arrow engine)
        → Type 0
    Meets v p none = p.required ≡ false
    Meets v p (some c) = ColumnConforms v p c

    column_errors-eq-nil_iff :
        (v : Linter.Validator lower arrow engine) (batch : Linter.RecordBatch lower arrow engine)
        (p : Linter.ColumnPolicy lower arrow engine)
        → (Linter.column_errors lower arrow engine v batch p ≡ [])
          ↔ Meets v p (Linter.find_column lower arrow engine p.name batch)
    unfolding Linter.column_errors
    column_errors-eq-nil_iff v batch p = go (Linter.find_column lower arrow engine p.name batch)
      where
        go :
            (o : Option (Linter.BatchColumn lower arrow engine))
            → ((elim o as (λ _. List LinterError) [
              | none ↦ if p.required then missing_column p.name ∷ [] else []
              | some c ↦ Linter.present_errors lower arrow engine v p c
            ])
                ≡ [])
              ↔ Meets v p o
        go none = elim (Bool-cases p.required) [
          | inl y ↦ (λ h. absurd (ground (arith, y, h)), λ h. absurd (ground (arith, y, h)))
          | inr n ↦ (λ h. n, λ h. ground (arith, n))
        ]
        go (some c) = present_errors-eq-nil_iff v p c

    -- Every column of the contract is met by the batch.
    abbrev pub AllMeet :
        Linter.Validator lower arrow engine
        → Linter.RecordBatch lower arrow engine
        → List (Linter.ColumnPolicy lower arrow engine)
        → Type 0
    AllMeet v batch = All (λ p. Meets v p (Linter.find_column lower arrow engine p.name batch))

    all_column_errors-eq-nil_iff :
        (v : Linter.Validator lower arrow engine) (batch : Linter.RecordBatch lower arrow engine)
        (ps : List (Linter.ColumnPolicy lower arrow engine))
        → (Linter.all_column_errors lower arrow engine v batch ps ≡ []) ↔ AllMeet v batch ps
    unfolding Linter.all_column_errors
    all_column_errors-eq-nil_iff v batch [] = (λ h. tt, λ h. refl)
    all_column_errors-eq-nil_iff v batch (p ∷ ps) =
        let first = column_errors-eq-nil_iff v batch p in
        let rest = all_column_errors-eq-nil_iff v batch ps in
        (
          λ h. let (a, b) = (append-nil_iff _ _).0 h in (first.0 a, rest.0 b),
          λ h. (append-nil_iff _ _).1 (first.1 h.0, rest.1 h.1),
        )

    extra_errors-eq-nil_iff :
        (known names : List String)
        → (Linter.extra_errors lower arrow engine known names ≡ [])
          ↔ ((s : String) → member s names ≡ true → member s known ≡ true)
    unfolding Linter.extra_errors
    extra_errors-eq-nil_iff known [] = (λ h s m. cc, λ h. refl)
    extra_errors-eq-nil_iff known (n ∷ ns) =
        let rest = extra_errors-eq-nil_iff known ns in
        elim (Bool-cases (member n known)) [
          | inl y ↦ (
            λ h s m. elim (Bool-cases (str_eq n s)) [
              | inl same ↦ let e : n ≡ s = (eq_iff n s).0 same in rw (← e) y
              | inr other ↦ rest.0 (ground (arith, y, h)) s (ground (arith, m, other))
            ],
            λ h. ground (arith, y, rest.1 (λ s m. h s (ground (arith, m)))),
          )
          | inr x ↦ (
            λ h. absurd (ground (arith, x, h)),
            λ h. absurd (ground (arith, x, h n (ground (arith, eq_iff n n)))),
          )
        ]

    -- The batch has no column beside those of the contract, and meets every column of it.
    pub record Conforms (v : Linter.Validator lower arrow engine)
        (batch : Linter.RecordBatch lower arrow engine) : Type 0 where
      pub known :
          (s : String)
          → member s (Linter.batch_names lower arrow engine batch) ≡ true
          → member s (Linter.contract_names lower arrow engine v.contract.columns) ≡ true
      pub meets : AllMeet v batch v.contract.columns

    -- If a column with a null count of 0 has no null, `validate` reports no error exactly for a
    -- batch that conforms to the contract: no required column is missing, none is undocumented, and
    -- those that are there have the type, the nulls, the allowed values, the pattern and the range
    -- of the contract, on every row.
    pub validate-eq-nil_iff :
        (v : Linter.Validator lower arrow engine) (batch : Linter.RecordBatch lower arrow engine)
        → (Linter.validate lower arrow engine v batch ≡ []) ↔ Conforms v batch
    unfolding Linter.validate
    validate-eq-nil_iff v batch =
        let names = Linter.batch_names lower arrow engine batch in
        let contract = Linter.contract_names lower arrow engine v.contract.columns in
        let x = extra_errors-eq-nil_iff contract (set_insert_all names []) in
        let a = all_column_errors-eq-nil_iff v batch v.contract.columns in
        (
          λ h.
              let (e, f) = (append-nil_iff _ _).0 h in
              record {
                known = λ s m. x.0 e s (ground (arith, member-set_insert_all s names [], m));
                meets = a.0 f;
              },
          λ c. (append-nil_iff _ _).1 (
            x.1 (λ s m. c.known s (ground (arith, member-set_insert_all s names [], m))),
            a.1 c.meets,
          ),
        )
