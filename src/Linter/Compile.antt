-- ===== src/Linter/Compile.antt =====
-- holonomy-core/src/linter/validator.rs, `Validator::from_json`: what the maps of the validator have for
-- the columns of the contract.
use holonomy_source.Common.{
  String, ◌≡◌, refl, sym, ap, ◌∙◌, subst, inl, inr, false, Option, none, some, List, [], ◌∷◌, Has,
  All, arith, str_eq, eq_iff, Bool-cases,
}
use holonomy_source.Common.Dict.{Dict, get, insert, get-insert}
use holonomy_source.Common.Result.{ok, >>=-eq-ok, ok-injective, Result-cases}
use holonomy_source.Arrow.{Arrow}
use holonomy_source.Linter
use holonomy_source.Linter.{Engine}
use holonomy_source.Linter.Promise.{policy_names, DistinctNames}

module _ (lower : String → String) (arrow : Arrow) (engine : Engine arrow) where
  open arrow use {Array, len, is_null, as_string}
  open engine use {Regex, new, is_match, as_f64}

  abbrev Policy : Type 0
  Policy = Linter.ColumnPolicy lower arrow engine

  -- What the map of the patterns has for a column.
  abbrev pub IsCompiled : Option String → Option Regex → Type 0
  IsCompiled none found = found ≡ none
  IsCompiled (some pattern) found = (re : Regex) × (new pattern ≡ ok re) × (found ≡ some re)

  compile_regex-get :
      (col : Policy) (regexes : Dict Regex) {made : Dict Regex}
      → Linter.compile_regex lower arrow engine col regexes ≡ ok made
      → (get col.name regexes ≡ none → IsCompiled col.regex (get col.name made))
        × ((name : String) → ¬ (col.name ≡ name) → get name made ≡ get name regexes)
  unfolding Linter.compile_regex
  compile_regex-get col regexes {made} h = go col.regex refl
    where
      differ : (name : String) → ¬ (col.name ≡ name) → str_eq col.name name ≡ false
      differ name n = elim (Bool-cases (str_eq col.name name)) [
        | inl same ↦ absurd (n ((eq_iff col.name name).0 same))
        | inr other ↦ other
      ]

      go :
          (o : Option String)
          → col.regex ≡ o
          → (get col.name regexes ≡ none → IsCompiled o (get col.name made))
            × ((name : String) → ¬ (col.name ≡ name) → get name made ≡ get name regexes)
      go none e =
          let same : regexes ≡ made = ground (arith, h, e) in
          (λ free. ap (get col.name) (sym same) ∙ free, λ name n. ap (get name) (sym same))
      go (some pattern) e = elim (Result-cases (new pattern)) [
        | inr (failure, failed) ↦ absurd (ground (arith, h, e, failed))
        | inl (re, compiled) ↦
            let same : insert col.name re regexes ≡ made = ground (arith, h, e, compiled) in
            (
              λ free. (
                re,
                compiled,
                ap (get col.name) (sym same)
                    ∙ ground (
                      arith,
                      get-insert col.name col.name re regexes,
                      (eq_iff col.name col.name).1 refl,
                    ),
              ),
              λ name n.
                  ap (get name) (sym same)
                  ∙ ground (arith, get-insert col.name name re regexes, differ name n),
            )
      ]

  allow : Policy → Dict (List String) → Dict (List String)
  allow col allowed = elim col.allowed_values [
    | none ↦ allowed
    | some av ↦ insert col.name av allowed
  ]

  allow-get :
      (col : Policy) (allowed : Dict (List String))
      → (get col.name allowed ≡ none → get col.name (allow col allowed) ≡ col.allowed_values)
        × ((name : String) → ¬ (col.name ≡ name) → get name (allow col allowed) ≡ get name allowed)
  unfolding allow
  allow-get col allowed = go col.allowed_values refl
    where
      go :
          (o : Option (List String))
          → col.allowed_values ≡ o
          → (get col.name allowed ≡ none → get col.name (allow col allowed) ≡ col.allowed_values)
            × ((name : String)
                → ¬ (col.name ≡ name)
                → get name (allow col allowed) ≡ get name allowed)
      go none e = (λ free. ground (arith, e, free), λ name n. ground (arith, e))
      go (some av) e = (
        λ free.
            ground (
              arith,
              e,
              get-insert col.name col.name av allowed,
              (eq_iff col.name col.name).1 refl,
            ),
        λ name n. elim (Bool-cases (str_eq col.name name)) [
          | inl same ↦ absurd (n ((eq_iff col.name name).0 same))
          | inr other ↦ ground (arith, e, get-insert col.name name av allowed, other)
        ],
      )

  compile_next :
      (col : Policy) (cols : List Policy) (regexes : Dict Regex) (allowed : Dict (List String))
      {made : Dict Regex × Dict (List String)}
      → Linter.compile lower arrow engine (col ∷ cols) regexes allowed ≡ ok made
      → (next : Dict Regex) × (Linter.compile_regex lower arrow engine col regexes ≡ ok next)
        × (Linter.compile lower arrow engine cols next (allow col allowed) ≡ ok made)
  unfolding Linter.compile allow
  compile_next col cols regexes allowed h =
      >>=-eq-ok (Linter.compile_regex lower arrow engine col regexes) _ h

  -- The maps have nothing new for a name that no column has.
  compile-keeps :
      (cols : List Policy) (regexes : Dict Regex) (allowed : Dict (List String))
      {made : Dict Regex × Dict (List String)} (name : String)
      → Linter.compile lower arrow engine cols regexes allowed ≡ ok made
      → ¬ (Has name (policy_names lower arrow engine cols))
      → (get name made.0 ≡ get name regexes) × (get name made.1 ≡ get name allowed)
  unfolding Linter.compile
  compile-keeps [] regexes allowed name h n =
      let same = ok-injective h in
      (
        ap (λ (m : Dict Regex × Dict (List String)). get name m.0) (sym same),
        ap (λ (m : Dict Regex × Dict (List String)). get name m.1) (sym same),
      )
  compile-keeps (col ∷ cols) regexes allowed name h n =
      let (next, c, rest) = compile_next col cols regexes allowed h in
      let (r, a) = compile-keeps cols next (allow col allowed) name rest (λ x. n (inr x)) in
      (
        r ∙ (compile_regex-get col regexes c).1 name (λ e. n (inl e)),
        a ∙ (allow-get col allowed).1 name (λ e. n (inl e)),
      )

  -- The maps have for each column what its policy says.
  abbrev pub IsMapped : Dict Regex × Dict (List String) → Policy → Type 0
  IsMapped made p = IsCompiled p.regex (get p.name made.0) × (get p.name made.1 ≡ p.allowed_values)

  pub compile-IsMapped :
      (cols : List Policy) (regexes : Dict Regex) (allowed : Dict (List String))
      {made : Dict Regex × Dict (List String)}
      → DistinctNames lower arrow engine cols
      → ((name : String)
          → Has name (policy_names lower arrow engine cols)
          → (get name regexes ≡ none) × (get name allowed ≡ none))
      → Linter.compile lower arrow engine cols regexes allowed ≡ ok made
      → All (IsMapped made) cols
  compile-IsMapped [] regexes allowed distinct free h = tt
  compile-IsMapped (col ∷ cols) regexes allowed {made} (own, distinct) free h =
      let (next, c, rest) = compile_next col cols regexes allowed h in
      let (r, a) = compile-keeps cols next (allow col allowed) col.name rest own in
      let (r0, r1) = compile_regex-get col regexes c in
      let (a0, a1) = allow-get col allowed in
      let (f, g) = free col.name (inl refl) in
      (
        (subst (IsCompiled col.regex) (sym r) (r0 f), a ∙ a0 g),
        compile-IsMapped cols next (allow col allowed) distinct
            (λ name x.
              let n : ¬ (col.name ≡ name) =
                λ e. own (subst (λ s. Has s (policy_names lower arrow engine cols)) (sym e) x) in
              let (p, q) = free name (inr x) in (r1 name n ∙ p, a1 name n ∙ q))
            rest,
      )
