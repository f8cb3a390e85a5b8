-- ===== src/Write/Keys.antt =====
-- holonomy-core/src/manager/write_orchestrator.rs: the keys of the columns of a write.
use holonomy_source.Common.{
  ℕ, suc, ◌≡◌, ◌⊎◌, inl, inr, sym, ap, subst, ◌∙◌, String, some, List, [], ◌∷◌, Has, arith, eq_iff,
  str_eq, Bool-cases, Option-cases, refl,
}
use holonomy_source.Common.Dict
use holonomy_source.Common.Dict.{Dict, get-insert}
use holonomy_source.Common.Result.{Result, ok, err, ok-injective, Result-cases}
use holonomy_source.Arrow.{Arrow}
use holonomy_source.Linter.{Engine}
use holonomy_source.Policy.Manager.{PolicyManager, Layer, discover_policies, merge_layers}
use holonomy_source.Policy.Manager
use holonomy_source.Crypto.{
  KmsProvider, Moka, CachedDek, metadata_bytes, cache_key, aad_context, generate_or_get_dek,
}
use holonomy_source.Crypto
use holonomy_source.Write.{WriteError, Outside}
use holonomy_source.Write.Orchestrator.{dek_for, column_deks, column_keys}

module _ (lower : String → String) (arrow : Arrow) (engine : Engine arrow) (policy : Manager.Codec)
    (codec : Crypto.Codec) (kms : KmsProvider) (moka : Moka CachedDek)
    (out : Outside lower arrow engine) (manager : PolicyManager) where
  -- The key service wrapped the key of this draw of random numbers for the column.
  abbrev pub Wrapped : String → String → ℕ → List ℕ → Type 0
  Wrapped dataset column draw wrapped =
      kms.wrap_key (out.raw_keys draw) (some (aad_context dataset column)) ≡ ok wrapped

  -- The caches of a write: the one that it starts with, and those with new keys under the names of
  -- their columns.
  pub data Filled (now : ℕ) (dataset purpose user : String) (start : moka.Cache)
      : moka.Cache → Type 0 where
    unchanged : Filled now dataset purpose user start start
    added :
        {cache : moka.Cache} (column : String) (draw : ℕ) (wrapped : List ℕ)
        → Filled now dataset purpose user start cache
        → Wrapped dataset column draw wrapped
        → Filled now dataset purpose user start (
            moka.insert now
              (cache_key dataset purpose column user)
              (record { plaintext = out.raw_keys draw; wrapped = wrapped })
              cache)

  -- The key is a new one, wrapped for the column, or a cache of the write has it under the name of
  -- the column.
  abbrev pub IsProvided : ℕ → String → String → String → moka.Cache → String → CachedDek → Type 0
  IsProvided now dataset purpose user start column dek =
      ((draw : ℕ) × (dek.plaintext ≡ out.raw_keys draw) × Wrapped dataset column draw dek.wrapped)
      ⊎ ((cache : moka.Cache) × Filled now dataset purpose user start cache
          × (moka.get now (cache_key dataset purpose column user) cache ≡ some dek))

  -- A key that was provided is there for the column.
  abbrev pub HasKey : ℕ → String → String → String → moka.Cache → String → Dict CachedDek → Type 0
  HasKey now dataset purpose user start c deks =
      (dek : CachedDek) × (Dict.get c deks ≡ some dek)
      × IsProvided now dataset purpose user start c dek

  HasKey-insert :
      (now : ℕ) (dataset purpose user : String) (start : moka.Cache) (c column : String)
      (dek : CachedDek) (deks : Dict CachedDek)
      → IsProvided now dataset purpose user start column dek
      → (column ≡ c) ⊎ HasKey now dataset purpose user start c deks
      → HasKey now dataset purpose user start c (Dict.insert column dek deks)
  HasKey-insert now dataset purpose user start c column dek deks provided h =
      elim (Bool-cases (str_eq column c)) [
        | inl same ↦ (
          dek,
          ground (arith, same, get-insert column c dek deks),
          subst (λ s. IsProvided now dataset purpose user start s dek) ((eq_iff column c).0 same)
              provided,
        )
        | inr differs ↦ elim h [
          | inl e ↦ absurd (cc (differs, (eq_iff column c).1 e))
          | inr (old, found, given) ↦
              (old, ground (arith, differs, found, get-insert column c dek deks), given)
        ]
      ]

  abbrev pub deks_of :
      ℕ
      → ℕ
      → String
      → String
      → String
      → List String
      → Dict CachedDek
      → moka.Cache
      → moka.Cache × Result WriteError (Dict CachedDek)
  deks_of = column_deks lower arrow engine policy codec kms moka out manager

  abbrev pub dek_of :
      ℕ
      → ℕ
      → String
      → String
      → String
      → String
      → moka.Cache
      → moka.Cache × Result WriteError CachedDek
  dek_of = dek_for lower arrow engine policy codec kms moka out manager

  deks_of_next :
      (now draw : ℕ) (dataset purpose user column : String) (columns : List String)
      (deks : Dict CachedDek) (cache : moka.Cache) {dek : CachedDek}
      → (dek_of now draw dataset purpose column user cache).1 ≡ ok dek
      → deks_of now draw dataset purpose user (column ∷ columns) deks cache
        ≡ deks_of now
            (suc draw)
            dataset
            purpose
            user
            columns
            (Dict.insert column dek deks)
            (dek_of now draw dataset purpose column user cache).0
  unfolding column_deks
  deks_of_next now draw dataset purpose user column columns deks cache h = ground arith

  deks_of_error :
      (now draw : ℕ) (dataset purpose user column : String) (columns : List String)
      (deks : Dict CachedDek) (cache : moka.Cache) {e : WriteError}
      → (dek_of now draw dataset purpose column user cache).1 ≡ err e
      → (deks_of now draw dataset purpose user (column ∷ columns) deks cache).1 ≡ err e
  unfolding column_deks
  deks_of_error now draw dataset purpose user column columns deks cache h = ground arith

  -- A key of `generate_or_get_dek` is provided, and the cache that it leaves is one of the write.
  pub dek_for-IsProvided :
      (now draw : ℕ) (dataset purpose user column : String) (start cache : moka.Cache)
      {dek : CachedDek}
      → Filled now dataset purpose user start cache
      → (dek_of now draw dataset purpose column user cache).1 ≡ ok dek
      → IsProvided now dataset purpose user start column dek
        × Filled now dataset purpose user start
            (dek_of now draw dataset purpose column user cache).0
  unfolding dek_for generate_or_get_dek
  dek_for-IsProvided now draw dataset purpose user column start cache {dek} filled h =
      elim (Option-cases (moka.get now (cache_key dataset purpose column user) cache)) [
        | inr (old, hit) ↦
            let same : old ≡ dek = ground (arith, h, hit) in
            (
              inr (cache, filled, hit ∙ ap some same),
              subst (Filled now dataset purpose user start) (ground (arith, hit)) filled,
            )
        | inl miss ↦
            elim (Result-cases
              (kms.wrap_key (out.raw_keys draw) (some (aad_context dataset column)))) [
                | inr (e, failed) ↦ absurd (ground (arith, h, miss, failed))
                | inl (wrapped, made) ↦
                    let new : CachedDek = record {
                      plaintext = out.raw_keys draw;
                      wrapped = wrapped;
                    } in
                    let same : new ≡ dek = ground (arith, h, miss, made) in
                    (
                      subst (IsProvided now dataset purpose user start column) same
                          (inl (draw, refl, made)),
                      subst (Filled now dataset purpose user start) (ground (arith, miss, made))
                          (added column draw wrapped filled made),
                    )
              ]
      ]

  pub column_deks-HasKey :
      (now draw : ℕ) (dataset purpose user : String) (start : moka.Cache) (columns : List String)
      (deks : Dict CachedDek) (cache : moka.Cache) {made : Dict CachedDek}
      → Filled now dataset purpose user start cache
      → (deks_of now draw dataset purpose user columns deks cache).1 ≡ ok made
      → (c : String) → Has c columns ⊎ HasKey now dataset purpose user start c deks
      → HasKey now dataset purpose user start c made
  unfolding column_deks
  column_deks-HasKey now draw dataset purpose user start [] deks cache filled h c (inl m) =
      elim m [ ]
  column_deks-HasKey now draw dataset purpose user start [] deks cache filled h c (inr found) =
      subst (HasKey now dataset purpose user start c) (ok-injective h) found
  column_deks-HasKey now draw dataset purpose user start (column ∷ columns) deks cache {made} filled
        h c m =
      elim (Result-cases (dek_of now draw dataset purpose column user cache).1) [
        | inr (e, failed) ↦
            absurd
              (cc (h, deks_of_error now draw dataset purpose user column columns deks cache failed))
        | inl (dek, found) ↦
            let next = deks_of_next now draw dataset purpose user column columns deks cache found in
            let (provided, after) =
              dek_for-IsProvided now draw dataset purpose user column start cache filled found in
            let keep = HasKey-insert now dataset purpose user start c column dek deks provided in
            column_deks-HasKey now (suc draw) dataset purpose user start columns
              (Dict.insert column dek deks) (dek_of now draw dataset purpose column user cache).0
              after
              (sym (ap (λ (x : moka.Cache × Result WriteError (Dict CachedDek)). x.1) next) ∙ h) c
              (elim m [
                | inr old ↦ inr (keep (inr old))
                | inl here ↦ elim here [ inl e ↦ inr (keep (inl e)) | inr there ↦ inl there ]
              ])
      ]

  -- The key of a column in the properties of the writer, and its metadata.
  pub get-column_keys :
      (dataset c : String) (deks : Dict CachedDek) {dek : CachedDek}
      → Dict.get c deks ≡ some dek
      → Dict.get c (column_keys lower arrow engine policy codec kms moka out manager dataset deks)
        ≡ some (dek.plaintext, metadata_bytes codec kms dataset c dek.wrapped)
  unfolding column_keys Dict.get
  get-column_keys dataset c [] h = cc
  get-column_keys dataset c ((j, d) ∷ deks) {dek} h = elim (Bool-cases (str_eq j c)) [
    | inl same ↦ let e = (eq_iff j c).0 same in ground (arith, same, e, h)
    | inr differs ↦
        let rest = get-column_keys dataset c deks {dek = dek} (ground (arith, differs, h)) in
        ground (arith, differs, rest)
  ]
