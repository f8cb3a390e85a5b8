-- ===== src/Policy/WellFormed.antt =====
-- The maps of a merged manifest have distinct keys, and the mask that it has for a column.
use mathlib.Core.Option.{some-injective}
use holonomy_source.Common.{
  sym, String, ◌≡◌, refl, inl, inr, Option, none, some, [], ◌∷◌, arith, eq_iff, Option-cases, ◌∙◌,
}
use holonomy_source.Common.Dict.{Dict, Distinct, get, get-insert_all, insert_all-Distinct}
use holonomy_source.Policy.{
  PrincipalPolicy, PolicyManifest, default_principal, merge_principal, merge_entry,
  merge_principals, merge_bindings, merge,
}
use holonomy_source.Policy.Merge.{policy_of, get-merge_entry, merged_policy, get-merge}

-- The mask that a manifest has for a column of a principal.
abbrev pub column_mask : String → String → PolicyManifest → Option String
column_mask q c m = elim (get q m.principals) [ none ↦ none | some p ↦ get c p.column_masks ]

-- Every map of the manifest has distinct keys, as a `HashMap` has.
pub record IsWellFormed (m : PolicyManifest) : Type 0 where
  pub principals : Distinct m.principals
  pub masks :
      (q : String) (p : PrincipalPolicy) → get q m.principals ≡ some p → Distinct p.column_masks
  pub tags : (q : String) (p : PrincipalPolicy) → get q m.principals ≡ some p → Distinct p.tag_masks
  pub bindings : (d : Dict String) → m.purpose_bindings ≡ some d → Distinct d

-- The higher layer's mask of a column is the merged one; where it has none, the lower layer's is.
pub column_mask-merge :
    (q c : String) (a b : PolicyManifest)
    → IsWellFormed b
    → column_mask q c (merge a b)
      ≡ elim (column_mask q c b) [ none ↦ column_mask q c a | some v ↦ some v ]
unfolding merge_principal get
column_mask-merge q c a b w = elim (Option-cases (get q b.principals)) [
  | inl no_b ↦ ground (arith, get-merge q a b w.principals, no_b)
  | inr (o, at_b) ↦ ground (
    arith,
    get-merge q a b w.principals,
    at_b,
    get-insert_all c o.column_masks (policy_of (get q a.principals)).column_masks
        (w.masks q o at_b),
  )
]

merge_entry-Distinct :
    (p : String) (o : PrincipalPolicy) (m : Dict PrincipalPolicy)
    → Distinct m
    → Distinct (merge_entry p o m)
unfolding get merge_entry
merge_entry-Distinct p o [] d = (refl, tt)
merge_entry-Distinct p o ((r, mine) ∷ m) (fresh, d) =
    ground (arith, eq_iff r p, eq_iff p r, get-merge_entry p r o m, merge_entry-Distinct p o m d)

merge_principals-Distinct :
    (other m : Dict PrincipalPolicy) → Distinct m → Distinct (merge_principals other m)
unfolding merge_principals
merge_principals-Distinct [] m d = d
merge_principals-Distinct ((p, o) ∷ rest) m d =
    merge_principals-Distinct rest (merge_entry p o m) (merge_entry-Distinct p o m d)

module _ (field : PrincipalPolicy → Dict String) where
  -- The maps of a merged principal are distinct if those of the lower layer are.
  merged_policy-Distinct :
      (x y : Option PrincipalPolicy) (p : PrincipalPolicy)
      → Distinct (field default_principal)
      → ((a b : PrincipalPolicy) → Distinct (field a) → Distinct (field (merge_principal a b)))
      → ((a : PrincipalPolicy) → x ≡ some a → Distinct (field a))
      → merged_policy x y ≡ some p
      → Distinct (field p)
  merged_policy-Distinct x none p d0 keep hx e = hx p e
  merged_policy-Distinct none (some o) p d0 keep hx e =
      rw (← some-injective _ _ e) (keep default_principal o d0)
  merged_policy-Distinct (some a) (some o) p d0 keep hx e =
      rw (← some-injective _ _ e) (keep a o (hx a refl))

merge_bindings-Distinct :
    (x y : Option (Dict String)) (d : Dict String)
    → ((e : Dict String) → x ≡ some e → Distinct e)
    → ((e : Dict String) → y ≡ some e → Distinct e)
    → merge_bindings x y ≡ some d
    → Distinct d
unfolding merge_bindings
merge_bindings-Distinct x none d hx hy e = hx d e
merge_bindings-Distinct none (some o) d hx hy e = hy d e
merge_bindings-Distinct (some m) (some o) d hx hy e =
    rw (← some-injective _ _ e) (insert_all-Distinct o m (hx m refl))

-- The merge of two well-formed manifests is well formed.
pub merge-IsWellFormed :
    (a b : PolicyManifest) → IsWellFormed a → IsWellFormed b → IsWellFormed (merge a b)
unfolding merge merge_principal
merge-IsWellFormed a b wa wb = record {
  principals = merge_principals-Distinct b.principals a.principals wa.principals;
  masks = λ q p e.
      merged_policy-Distinct (λ r. r.column_masks) (get q a.principals) (get q b.principals) p tt
        (λ x y. insert_all-Distinct y.column_masks x.column_masks) (wa.masks q)
        (sym (get-merge q a b wb.principals) ∙ e);
  tags = λ q p e.
      merged_policy-Distinct (λ r. r.tag_masks) (get q a.principals) (get q b.principals) p tt
        (λ x y. insert_all-Distinct y.tag_masks x.tag_masks) (wa.tags q)
        (sym (get-merge q a b wb.principals) ∙ e);
  bindings = λ d e.
      merge_bindings-Distinct a.purpose_bindings b.purpose_bindings d wa.bindings wb.bindings e;
}
