-- ===== src/Write/Sidecar/Entries.antt =====
-- holonomy-core/src/manager/write_orchestrator.rs: no entry of a sidecar is lost, and none stands twice.
use holonomy_source.Common.{
  ◌≡◌, ◌↔◌, ◌⊎◌, inl, inr, sym, ap, subst, Option-cases, eq_refl, String, true, false, none, some,
  List, [], ◌∷◌, ◌++◌, Has, Has-append, Has-append_left, Has-append_right, arith, eq_iff, str_eq,
  Bool-cases, if◌then◌else◌,
}
use mathlib.Core.Option.{get_or}
use holonomy_source.Common.Dict
use holonomy_source.Common.Dict.{Dict, get-insert}
use holonomy_source.Write.Sidecar.{
  SidecarKeyEntry, SidecarMetadata, empty_sidecar, same_entry, contains_entry, append_keys,
  add_to_sidecar,
}

same_entry_iff : (a b : SidecarKeyEntry) → (same_entry a b ≡ true) ↔ (a ≡ b)
unfolding same_entry
same_entry_iff a b = (
  λ h.
      let ep = (eq_iff a.purpose b.purpose).0 (ground (arith, h)) in
      let ec = (eq_iff a.column b.column).0 (ground (arith, h)) in
      let ew = (eq_iff a.wrapped_dek b.wrapped_dek).0 (ground (arith, h)) in
      λ i. record { purpose = ep i; column = ec i; wrapped_dek = ew i },
  λ e. ground (
    arith,
    (eq_iff a.purpose b.purpose).1 (ap (λ (x : SidecarKeyEntry). x.purpose) e),
    (eq_iff a.column b.column).1 (ap (λ (x : SidecarKeyEntry). x.column) e),
    (eq_iff a.wrapped_dek b.wrapped_dek).1 (ap (λ (x : SidecarKeyEntry). x.wrapped_dek) e),
  ),
)

contains_entry_iff :
    (key : SidecarKeyEntry) (keys : List SidecarKeyEntry)
    → (contains_entry key keys ≡ true) ↔ Has key keys
unfolding contains_entry
contains_entry_iff key [] = (λ h. cc, λ h. elim h [ ])
contains_entry_iff key (k ∷ keys) =
    let here = same_entry_iff k key in
    let there = contains_entry_iff key keys in
    (
      λ h. elim (Bool-cases (same_entry k key)) [
        | inl same ↦ inl (here.0 same)
        | inr differs ↦ inr (there.0 (ground (arith, differs, h)))
      ],
      λ m. elim m [ inl e ↦ ground (arith, here.1 e) | inr h ↦ ground (arith, there.1 h) ],
    )

-- No entry stands twice.
abbrev pub Nodup : List SidecarKeyEntry → Type 0
Nodup [] = Unit
Nodup (k ∷ keys) = (¬ Has k keys) × Nodup keys

Nodup-append :
    (keys : List SidecarKeyEntry) (key : SidecarKeyEntry)
    → Nodup keys
    → ¬ Has key keys
    → Nodup (keys ++ key ∷ [])
Nodup-append [] key d fresh = (λ h. h, tt)
Nodup-append (k ∷ keys) key d fresh = (
  λ h. elim (Has-append k keys (key ∷ []) h) [
    | inl old ↦ d.0 old
    | inr new ↦ elim new [ inl e ↦ fresh (inl (sym e)) | inr nowhere ↦ elim nowhere [ ] ]
  ],
  Nodup-append keys key d.1 (λ h. fresh (inr h)),
)

append_keys_lem :
    (more keys : List SidecarKeyEntry)
    → Nodup keys
    → Nodup (append_keys more keys)
      × ((key : SidecarKeyEntry) → Has key (append_keys more keys) ↔ (Has key keys ⊎ Has key more))
unfolding append_keys
append_keys_lem [] keys d = (d, λ key. (λ h. inl h, λ m. elim m [ inl h ↦ h | inr h ↦ elim h [ ] ]))
append_keys_lem (new ∷ more) keys d = elim (Bool-cases (contains_entry new keys)) [
  | inl old ↦ rw old (
      let (nodup, members) = append_keys_lem more keys d in
      (
        nodup,
        λ key. (
          λ h. elim ((members key).0 h) [ inl a ↦ inl a | inr b ↦ inr (inr b) ],
          λ m. (members key).1 (elim m [
            | inl a ↦ inl a
            | inr b ↦ elim b [
              | inl e ↦ inl (subst (λ k. Has k keys) e ((contains_entry_iff new keys).0 old))
              | inr c ↦ inr c
            ]
          ]),
        ),
      ))
  | inr fresh ↦ rw fresh (
      let absent : ¬ Has new keys = λ h. cc (fresh, (contains_entry_iff new keys).1 h) in
      let (nodup, members) =
        append_keys_lem more (keys ++ new ∷ []) (Nodup-append keys new d absent) in
      (
        nodup,
        λ key. (
          λ h. elim ((members key).0 h) [
            | inl a ↦ elim (Has-append key keys (new ∷ []) a) [
              | inl b ↦ inl b
              | inr b ↦ inr (elim b [ inl e ↦ inl e | inr nowhere ↦ elim nowhere [ ] ])
            ]
            | inr b ↦ inr (inr b)
          ],
          λ m. (members key).1 (elim m [
            | inl a ↦ inl (Has-append_left key keys (new ∷ []) a)
            | inr b ↦ elim b [
              | inl e ↦ inl (Has-append_right key keys (new ∷ []) (inl e))
              | inr c ↦ inr c
            ]
          ]),
        ),
      ))
]

-- The keys of a partition.
abbrev pub keys_of : String → Dict SidecarMetadata → List SidecarKeyEntry
keys_of root sidecars = elim (Dict.get root sidecars) [ none ↦ [] | some sidecar ↦ sidecar.keys ]

get-add_to_sidecar :
    (root j : String) (more : List SidecarKeyEntry) (sidecars : Dict SidecarMetadata)
    → Dict.get j (add_to_sidecar root more sidecars) ≡ (
        if str_eq root j
        then some (record (get_or (Dict.get root sidecars) empty_sidecar) {
          keys = append_keys more (keys_of root sidecars);
        })
        else Dict.get j sidecars)
unfolding add_to_sidecar
get-add_to_sidecar root j more sidecars = elim (Option-cases (Dict.get root sidecars)) [
  | inl e ↦ ground (
    arith,
    e,
    get-insert root j (record { version = "1.0"; keys = append_keys more [] }) sidecars,
  )
  | inr (old, e) ↦
      ground
        (arith, e, get-insert root j (record old { keys = append_keys more old.keys }) sidecars)
]

keys_of-add_to_sidecar :
    (root : String) (more : List SidecarKeyEntry) (sidecars : Dict SidecarMetadata)
    → keys_of root (add_to_sidecar root more sidecars) ≡ append_keys more (keys_of root sidecars)
keys_of-add_to_sidecar root more sidecars =
    ground (arith, get-add_to_sidecar root root more sidecars, eq_refl root)

-- If no entry of a partition's sidecar stands twice, then after entries are added none does, its
-- entries are the old ones and those that were added, and the sidecars of other partitions are as
-- before.
pub add_to_sidecar_lem :
    (root : String) (more : List SidecarKeyEntry) (sidecars : Dict SidecarMetadata)
    → Nodup (keys_of root sidecars)
    → Nodup (keys_of root (add_to_sidecar root more sidecars))
      × ((key : SidecarKeyEntry)
          → Has key (keys_of root (add_to_sidecar root more sidecars))
            ↔ (Has key (keys_of root sidecars) ⊎ Has key more))
      × ((other : String)
          → str_eq root other ≡ false
          → Dict.get other (add_to_sidecar root more sidecars) ≡ Dict.get other sidecars)
add_to_sidecar_lem root more sidecars d =
    let (nodup, members) = append_keys_lem more (keys_of root sidecars) d in
    let e = sym (keys_of-add_to_sidecar root more sidecars) in
    (
      subst Nodup e nodup,
      λ key.
          subst (λ ks. Has key ks ↔ (Has key (keys_of root sidecars) ⊎ Has key more)) e
            (members key),
      λ other differs. ground (arith, differs, get-add_to_sidecar root other more sidecars),
    )
