-- ===== src/Linter/Contract.antt =====
-- holonomy-core/src/linter/validator.rs: `Validator::from_json` and `validate` together.
use holonomy_source.Common.{
  String, ◌≡◌, ◌↔◌, refl, sym, ap, ◌∙◌, subst, inl, inr, Bool, true, false, Option, none, some,
  List, [], ◌∷◌, Has, All, str_eq, member, member→Has, Has→member, Option-cases,
}
use holonomy_source.Common.Dict.{Dict, get}
use holonomy_source.Common.Result.{Result, ok, >>=-eq-ok, ok-injective}
use holonomy_source.Arrow.{Arrow}
use holonomy_source.Linter.Types.{type_named, expected_data_type}
use holonomy_source.Linter
use holonomy_source.Linter.{Engine}
use holonomy_source.Linter.Rows.{Keeps, AllPass, EngineLaws}
use holonomy_source.Linter.Conform.{ColumnConforms, Meets, validate-eq-nil_iff}
use holonomy_source.Linter.Promise.{
  type_names, type_of, policy_names, column_names, DistinctNames, KeepsAllowed, KeepsPattern,
  KeepsPolicy, IsKept, KeepsContract,
}
use holonomy_source.Linter.Compile.{IsCompiled, IsMapped, compile-IsMapped}
use holonomy_source.Linter.Find.{
  batch_names_lem, contract_names_lem, find_column-eq-some, find_column-eq-none,
  IsFirstColumn-find_column, found_column-Has,
}

type_named-type_of : (s : String) → type_named s ≡ type_of s type_names
unfolding type_named
type_named-type_of s = go (str_eq s "string") refl
  where
    go : (b : Bool) → str_eq s "string" ≡ b → type_named s ≡ type_of s type_names
    go true e = rw e refl
    go false e = rw e refl

module _ (lower : String → String) (arrow : Arrow) (engine : Engine arrow) where
  open arrow use {Array, len, is_null, as_string}
  open engine use {Regex, new, is_match, as_f64}

  abbrev Policy : Type 0
  Policy = Linter.ColumnPolicy lower arrow engine

  abbrev Column : Type 0
  Column = Linter.BatchColumn lower arrow engine

  allowed_iff :
      (v : Linter.Validator lower arrow engine) (p : Policy) (texts : Option (List (Option String)))
      → get p.name v.allowed_sets ≡ p.allowed_values
      → Keeps (Linter.allowed_test lower arrow engine v p.name) texts
        ↔ KeepsAllowed lower arrow engine p.allowed_values texts
  unfolding Linter.allowed_test
  allowed_iff v p texts h = go p.allowed_values (get p.name v.allowed_sets) h
    where
      go :
          (o found : Option (List String))
          → found ≡ o
          → Keeps
              (elim found as (λ _. Option (String → Bool)) [
                | none ↦ none
                | some allowed ↦ some (λ s. member s allowed)
              ])
              texts
            ↔ KeepsAllowed lower arrow engine o texts
      go none none e = (λ x. tt, λ x. tt)
      go none (some a) e = cc
      go (some values) none e = cc
      go (some values) (some a) e =
          let same : a ≡ values = cc in
          (
            subst (λ l. AllPass (λ s. member s l) texts) same,
            subst (λ l. AllPass (λ s. member s l) texts) (sym same),
          )

  pattern_iff :
      (v : Linter.Validator lower arrow engine) (p : Policy) (texts : Option (List (Option String)))
      → IsCompiled lower arrow engine p.regex (get p.name v.compiled_regexes)
      → Keeps (Linter.regex_test lower arrow engine v p.name) texts
        ↔ KeepsPattern lower arrow engine p.regex texts
  unfolding Linter.regex_test
  pattern_iff v p texts h = go p.regex (get p.name v.compiled_regexes) h
    where
      go :
          (o : Option String) (found : Option Regex)
          → IsCompiled lower arrow engine o found
          → Keeps
              (elim found as (λ _. Option (String → Bool)) [
                | none ↦ none
                | some re ↦ some (is_match re)
              ])
              texts
            ↔ KeepsPattern lower arrow engine o texts
      go none none e = (λ x. tt, λ x. tt)
      go none (some a) e = cc
      go (some pattern) none (re, compiled, e) = cc
      go (some pattern) (some a) (re, compiled, e) =
          let same : a ≡ re = cc in
          (
            λ x. (re, compiled, subst (λ r. AllPass (is_match r) texts) same x),
            λ (re', compiled', x).
                let other : re' ≡ a = ok-injective (sym compiled' ∙ compiled) ∙ sym same in
                subst (λ r. AllPass (is_match r) texts) other x,
          )

  typed_lem :
      (p : Policy) → expected_data_type lower p.data_type ≡ type_of (lower p.data_type) type_names
  unfolding expected_data_type
  typed_lem p = type_named-type_of (lower p.data_type)

  ColumnConforms-iff :
      (v : Linter.Validator lower arrow engine) (p : Policy) (c : Column)
      → IsMapped lower arrow engine (v.compiled_regexes, v.allowed_sets) p
      → ColumnConforms lower arrow engine v p c ↔ KeepsPolicy lower arrow engine p c
  ColumnConforms-iff v p c (compiled, allowed) =
      let a = allowed_iff v p (as_string c.array) allowed in
      let m = pattern_iff v p (as_string c.array) compiled in
      (
        λ h. record {
          typed = sym (typed_lem p) ∙ h.typed;
          not_null = h.not_null;
          allowed = a.0 h.allowed;
          matching = m.0 h.matching;
          ranged = h.ranged;
        },
        λ h. record {
          typed = typed_lem p ∙ h.typed;
          not_null = h.not_null;
          allowed = a.1 h.allowed;
          matching = m.1 h.matching;
          ranged = h.ranged;
        },
      )

  module _ (laws : EngineLaws lower arrow engine) where
    abbrev Met : Linter.Validator lower arrow engine → List Column → Policy → Type 0
    Met v batch p =
        Meets lower arrow engine laws v p (Linter.find_column lower arrow engine p.name batch)

    Meets-iff :
        (v : Linter.Validator lower arrow engine) (batch : List Column) (p : Policy)
        → IsMapped lower arrow engine (v.compiled_regexes, v.allowed_sets) p
        → Met v batch p ↔ IsKept lower arrow engine batch p
    Meets-iff v batch p mapped =
        elim (Option-cases (Linter.find_column lower arrow engine p.name batch)) [
          | inl e ↦
              let absent = find_column-eq-none lower arrow engine p.name batch e in
              (
                λ h. inl (absent, subst (Meets lower arrow engine laws v p) e h),
                λ h. elim h [
                  | inl (free, optional) ↦
                      subst (Meets lower arrow engine laws v p) (sym e) optional
                  | inr (c, first, keeps) ↦
                      absurd
                        (cc (e, IsFirstColumn-find_column lower arrow engine p.name batch c first))
                ],
              )
          | inr (c, e) ↦
              let column = ColumnConforms-iff v p c mapped in
              (
                λ h. inr (
                  c,
                  find_column-eq-some lower arrow engine p.name batch c e,
                  column.0 (subst (Meets lower arrow engine laws v p) e h),
                ),
                λ h. elim h [
                  | inl (free, optional) ↦
                      absurd (free (found_column-Has lower arrow engine p.name batch c e))
                  | inr (c', first, keeps) ↦
                      let found =
                        IsFirstColumn-find_column lower arrow engine p.name batch c' first in
                      subst (Meets lower arrow engine laws v p) (sym found)
                        ((ColumnConforms-iff v p c' mapped).1 keeps)
                ],
              )
        ]

    AllMeet_iff :
        (v : Linter.Validator lower arrow engine) (batch : List Column) (ps : List Policy)
        → All (IsMapped lower arrow engine (v.compiled_regexes, v.allowed_sets)) ps
        → All (Met v batch) ps ↔ All (IsKept lower arrow engine batch) ps
    AllMeet_iff v batch [] mapped = (λ h. tt, λ h. tt)
    AllMeet_iff v batch (p ∷ ps) (own, mapped) =
        let first = Meets-iff v batch p own in
        let rest = AllMeet_iff v batch ps mapped in
        (λ h. (first.0 h.0, rest.0 h.1), λ h. (first.1 h.0, rest.1 h.1))

    documented_iff :
        (batch : List Column) (ps : List Policy)
        → ((s : String)
            → member s (Linter.batch_names lower arrow engine batch) ≡ true
            → member s (Linter.contract_names lower arrow engine ps) ≡ true)
          ↔ ((s : String)
              → Has s (column_names lower arrow engine batch)
              → Has s (policy_names lower arrow engine ps))
    documented_iff batch ps =
        let b = batch_names_lem lower arrow engine batch in
        let p = contract_names_lem lower arrow engine ps in
        (
          λ h s m. member→Has s (policy_names lower arrow engine ps) (
              ap (member s) (sym p)
              ∙ h s (ap (member s) b ∙ Has→member s (column_names lower arrow engine batch) m)),
          λ h s m.
              ap (member s) p
              ∙ Has→member s (policy_names lower arrow engine ps) (
                  h s (
                    member→Has s (column_names lower arrow engine batch)
                      (ap (member s) (sym b) ∙ m))),
        )

    built :
        (contract : Linter.DataContract lower arrow engine) (maps : Dict Regex × Dict (List String))
        → Linter.compile lower arrow engine contract.columns [] [] ≡ ok maps
        → (v : Linter.Validator lower arrow engine)
        → (record { contract = contract; compiled_regexes = maps.0; allowed_sets = maps.1 }) ≡ v
        → DistinctNames lower arrow engine v.contract.columns
        → (batch : List Column)
        → (Linter.validate lower arrow engine v batch ≡ [])
          ↔ KeepsContract lower arrow engine v.contract batch
    unfolding get
    built contract maps compiled v same distinct batch =
        let columns : contract.columns ≡ v.contract.columns =
          ap (λ (w : Linter.Validator lower arrow engine). w.contract.columns) same in
        let mapped : All (IsMapped lower arrow engine (v.compiled_regexes, v.allowed_sets))
            v.contract.columns =
          compile-IsMapped lower arrow engine v.contract.columns [] [] distinct
            (λ name x. (refl, refl))
            (subst (λ cs. Linter.compile lower arrow engine cs [] [] ≡ ok maps) columns compiled
              ∙ ap
                  (λ (w : Linter.Validator lower arrow engine).
                    ok (w.compiled_regexes, w.allowed_sets))
                  same) in
        let conforms = validate-eq-nil_iff lower arrow engine laws v batch in
        let named = documented_iff batch v.contract.columns in
        let all = AllMeet_iff v batch v.contract.columns mapped in
        (
          λ h.
              let c = conforms.0 h in record { documented = named.0 c.known; kept = all.0 c.meets },
          λ k. conforms.1 (record { known = named.1 k.documented; meets = all.1 k.kept }),
        )

    -- If a text is read as a validator, the columns of its contract have different names, and a
    -- column with a null count of 0 has no null: the contract is the one that the text parses to,
    -- and `validate` reports no error exactly for a batch that keeps to it. The batch has no column
    -- that the contract does not name; and for each column of the contract, the first column of its
    -- name in the batch has the type that the table of type names gives, no null if it is required,
    -- only allowed values and texts that match the pattern, as the contract has them, and only
    -- numbers in the range, or no column has the name and it is not required.
    pub validate-from_json :
        (parse : String → Result String (Linter.DataContract lower arrow engine)) (text : String)
        (v : Linter.Validator lower arrow engine) (batch : List Column)
        → Linter.from_json lower arrow engine parse text ≡ ok v
        → DistinctNames lower arrow engine v.contract.columns
        → (parse text ≡ ok v.contract)
          × ((Linter.validate lower arrow engine v batch ≡ [])
              ↔ KeepsContract lower arrow engine v.contract batch)
    unfolding Linter.from_json
    validate-from_json parse text v batch h distinct =
        let (contract, parsed, h1) = >>=-eq-ok (parse text) _ h in
        let (maps, compiled, h2) =
          >>=-eq-ok (Linter.compile lower arrow engine contract.columns [] []) _ h1 in
        let same : ◌≡◌ {A = Linter.Validator lower arrow engine} _ v = ok-injective h2 in
        (
          parsed ∙ ap (λ (w : Linter.Validator lower arrow engine). ok w.contract) same,
          built contract maps compiled v same distinct batch,
        )
