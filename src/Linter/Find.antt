-- ===== src/Linter/Find.antt =====
-- holonomy-core/src/linter/validator.rs, `validate`: the column of a name in a batch, and the names of the
-- batch and of the contract.
use holonomy_source.Common.{
  String, ◌≡◌, refl, sym, ap, ◌∙◌, subst, inl, inr, none, some, List, [], ◌∷◌, ◌++◌, Has, arith,
  str_eq, eq_iff, Bool-cases,
}
use holonomy_source.Arrow.{Arrow}
use holonomy_source.Linter
use holonomy_source.Linter.{Engine}
use holonomy_source.Linter.Promise.{policy_names, column_names, IsFirstColumn}

module _ (lower : String → String) (arrow : Arrow) (engine : Engine arrow) where
  open arrow use {Array, len, is_null, as_string}
  open engine use {Regex, new, is_match, as_f64}

  abbrev Policy : Type 0
  Policy = Linter.ColumnPolicy lower arrow engine

  abbrev Column : Type 0
  Column = Linter.BatchColumn lower arrow engine

  pub batch_names_lem :
      (batch : List Column)
      → Linter.batch_names lower arrow engine batch ≡ column_names lower arrow engine batch
  unfolding Linter.batch_names
  batch_names_lem [] = refl
  batch_names_lem (c ∷ cs) = ap (λ l. c.name ∷ l) (batch_names_lem cs)

  pub contract_names_lem :
      (ps : List Policy)
      → Linter.contract_names lower arrow engine ps ≡ policy_names lower arrow engine ps
  unfolding Linter.contract_names
  contract_names_lem [] = refl
  contract_names_lem (p ∷ ps) = ap (λ l. p.name ∷ l) (contract_names_lem ps)

  pub find_column-eq-some :
      (name : String) (batch : List Column) (c : Column)
      → Linter.find_column lower arrow engine name batch ≡ some c
      → IsFirstColumn lower arrow engine name batch c
  unfolding Linter.find_column
  find_column-eq-some name [] c h = cc
  find_column-eq-some name (b ∷ bs) c h = elim (Bool-cases (str_eq b.name name)) [
    | inl same ↦
        let here : b ≡ c = ground (arith, h, same) in
        (
          [],
          bs,
          ap (λ x. x ∷ bs) here,
          ap (λ (x : Column). x.name) (sym here) ∙ (eq_iff b.name name).0 same,
          λ x. x,
        )
    | inr differs ↦
        let (before, after, e, named, free) =
          find_column-eq-some name bs c (ground (arith, h, differs)) in
        (
          b ∷ before,
          after,
          ap (λ l. b ∷ l) e,
          named,
          λ x. elim x [
            | inl same ↦ cc (differs, (eq_iff b.name name).1 same)
            | inr later ↦ free later
          ],
        )
  ]

  pub find_column-eq-none :
      (name : String) (batch : List Column)
      → Linter.find_column lower arrow engine name batch ≡ none
      → ¬ (Has name (column_names lower arrow engine batch))
  unfolding Linter.find_column
  find_column-eq-none name [] h x = x
  find_column-eq-none name (b ∷ bs) h x = elim (Bool-cases (str_eq b.name name)) [
    | inl same ↦ ground (arith, h, same)
    | inr differs ↦ elim x [
      | inl e ↦ cc (differs, (eq_iff b.name name).1 e)
      | inr later ↦ find_column-eq-none name bs (ground (arith, h, differs)) later
    ]
  ]

  pub IsFirstColumn-find_column :
      (name : String) (batch : List Column) (c : Column)
      → IsFirstColumn lower arrow engine name batch c
      → Linter.find_column lower arrow engine name batch ≡ some c
  unfolding Linter.find_column
  IsFirstColumn-find_column name batch c (before, after, e, named, free) =
      subst (λ b. Linter.find_column lower arrow engine name b ≡ some c) (sym e) (go before free)
    where
      go :
          (before : List Column)
          → ¬ (Has name (column_names lower arrow engine before))
          → Linter.find_column lower arrow engine name (before ++ c ∷ after) ≡ some c
      go [] free = ground (arith, (eq_iff c.name name).1 named)
      go (b ∷ bs) free = elim (Bool-cases (str_eq b.name name)) [
        | inl same ↦ absurd (free (inl ((eq_iff b.name name).0 same)))
        | inr differs ↦ ground (arith, differs, go bs (λ x. free (inr x)))
      ]

  pub found_column-Has :
      (name : String) (batch : List Column) (c : Column)
      → Linter.find_column lower arrow engine name batch ≡ some c
      → Has name (column_names lower arrow engine batch)
  unfolding Linter.find_column
  found_column-Has name [] c h = cc
  found_column-Has name (b ∷ bs) c h = elim (Bool-cases (str_eq b.name name)) [
    | inl same ↦ inl ((eq_iff b.name name).0 same)
    | inr differs ↦ inr (found_column-Has name bs c (ground (arith, h, differs)))
  ]
