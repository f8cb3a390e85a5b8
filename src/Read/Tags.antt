-- ===== src/Read/Tags.antt =====
-- holonomy-core/src/manager/read_orchestrator.rs and scan_orchestrator.rs: where the tags of a column
-- stand in the metadata of a file, and at which index of the fields a column stands.
use holonomy_source.Common.{
  ℕ, suc, ◌+◌, ◌≡◌, ◌⊎◌, inl, inr, refl, ap, String, Option, none, some, List, [], ◌∷◌, ◌++◌, map,
  Has, arith, eq_iff, str_eq, trim, length, Bool-cases, ◌<>◌,
}
use holonomy_source.Predicate.{position}
use holonomy_source.Read.{split_commas, tags_from, column_tags}

-- No entry of the key has a value.
abbrev pub Valueless : String → List (String × Option String) → Type 0
Valueless key kvs = (val : String) → ¬ (Has (key, some val) kvs)

-- The tags are the parts of the last value of the key, without the space around each.
abbrev pub LastParts : String → List (String × Option String) → List String → Type 0
LastParts key kvs tags =
    (val : String) × (before : List (String × Option String)) × (after : List
      (String × Option String))
    × (kvs ≡ before ++ (key, some val) ∷ after)
    × Valueless key after
    × (tags ≡ map trim (split_commas val))

-- The tags of a column: those of its key, or none where no entry of the key has a value.
abbrev pub IsTags : Option (List (String × Option String)) → String → List String → Type 0
IsTags none name tags = tags ≡ []
IsTags (some kv_meta) name tags =
    LastParts ("holonomy.tags." <> name) kv_meta tags
    ⊎ (Valueless ("holonomy.tags." <> name) kv_meta × (tags ≡ []))

LastParts-cons :
    (key : String) (kv : String × Option String) (kvs : List (String × Option String))
    (tags : List String)
    → LastParts key kvs tags
    → LastParts key (kv ∷ kvs) tags
LastParts-cons key kv kvs tags (val, before, after, e, free, tagged) =
    (val, kv ∷ before, after, ap (λ l. kv ∷ l) e, free, tagged)

tags_from-LastParts :
    (key : String) (kvs : List (String × Option String)) (old : List String)
    → LastParts key kvs (tags_from key kvs old)
      ⊎ (Valueless key kvs × (tags_from key kvs old ≡ old))
unfolding tags_from
tags_from-LastParts key [] old = inr (λ val h. h, refl)
tags_from-LastParts key ((k, none) ∷ kvs) old = elim (tags_from-LastParts key kvs old) [
  | inl found ↦ inl (LastParts-cons key (k, none) kvs _ found)
  | inr (free, e) ↦ inr (λ val h. elim h [ inl same ↦ cc | inr later ↦ free val later ], e)
]
tags_from-LastParts key ((k, some val) ∷ kvs) old = elim (Bool-cases (str_eq k key)) [
  | inl same ↦
      let e = (eq_iff k key).0 same in
      elim (tags_from-LastParts key kvs (map trim (split_commas val))) [
        | inl found ↦ inl (ground (arith, same, LastParts-cons key (k, some val) kvs _ found))
        | inr (free, tags) ↦
            inl (val, [], kvs, ap (λ s. (s, some val) ∷ kvs) e, free, ground (arith, same, tags))
      ]
  | inr differs ↦ elim (tags_from-LastParts key kvs old) [
    | inl found ↦ inl (ground (arith, differs, LastParts-cons key (k, some val) kvs _ found))
    | inr (free, tags) ↦ inr (
      λ v h. elim h [
        | inl same ↦ cc (differs, (eq_iff k key).1 (ap (λ (x : String × Option String). x.0) same))
        | inr later ↦ free v later
      ],
      ground (arith, differs, tags),
    )
  ]
]

pub column_tags-IsTags :
    (kv_meta : Option (List (String × Option String))) (name : String)
    → IsTags kv_meta name (column_tags kv_meta name)
unfolding column_tags
column_tags-IsTags none name = refl
column_tags-IsTags (some kvs) name = tags_from-LastParts ("holonomy.tags." <> name) kvs []

-- The index of the first field of the name.
abbrev pub IsFirst : String → List String → ℕ → Type 0
IsFirst name fields idx =
    (before : List String) × (after : List String) × (fields ≡ before ++ name ∷ after)
    × (idx ≡ length before)
    × ¬ (Has name before)

position-eq-some :
    (i : ℕ) (name : String) (fields : List String) (j : ℕ)
    → position i name fields ≡ some j
    → (before : List String) × (after : List String) × (fields ≡ before ++ name ∷ after)
      × (j ≡ i + length before)
      × ¬ (Has name before)
unfolding position
position-eq-some i name [] j h = cc
position-eq-some i name (f ∷ fs) j h = elim (Bool-cases (str_eq f name)) [
  | inl same ↦ ([], fs, ap (λ s. s ∷ fs) ((eq_iff f name).0 same), ground (arith, h, same), λ x. x)
  | inr differs ↦
      let (before, after, e, at, free) =
        position-eq-some (suc i) name fs j (ground (arith, h, differs)) in
      (
        f ∷ before,
        after,
        ap (λ l. f ∷ l) e,
        ground (arith, at),
        λ x. elim x [ inl same ↦ cc (differs, (eq_iff f name).1 same) | inr later ↦ free later ],
      )
]

pub position-IsFirst :
    (name : String) (fields : List String) (idx : ℕ)
    → position 0 name fields ≡ some idx
    → IsFirst name fields idx
position-IsFirst name fields idx h =
    let (before, after, e, at, free) = position-eq-some 0 name fields idx h in
    (before, after, e, ground (arith, at), free)

pub position-eq-none :
    (i : ℕ) (name : String) (fields : List String)
    → position i name fields ≡ none
    → ¬ (Has name fields)
unfolding position
position-eq-none i name [] h x = x
position-eq-none i name (f ∷ fs) h x = elim (Bool-cases (str_eq f name)) [
  | inl same ↦ ground (arith, h, same)
  | inr differs ↦ elim x [
    | inl e ↦ cc (differs, (eq_iff f name).1 e)
    | inr later ↦ position-eq-none (suc i) name fs (ground (arith, h, differs)) later
  ]
]
