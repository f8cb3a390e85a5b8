-- ===== src/Auth/Principals.antt =====
-- Which principals a user has.
use holonomy_source.Common.{
  String, ◌≡◌, Bool, false, ◌||◌, Option, none, some, List, [], ◌∷◌, arith, member, member-append,
  str_eq, eq_iff, refl, ◌∙◌, sym, subst, ap, true, inl, inr, ◌⊎◌, ◌↔◌, Has, Option-cases,
  Bool-cases, member→Has, Has→member,
}
use holonomy_source.Common.Dict.{get}
use holonomy_source.Auth.{
  set_insert, set_insert_all, set_insert_some, strings, Json, RawContext, realm_roles,
  collect_principals, place, sort, deserialize,
}

pub member-set_insert :
    (s x : String) (set : List String) → member s (set_insert x set) ≡ (member s set || str_eq x s)
unfolding set_insert
member-set_insert s x set = ground (arith, member-append s x set, eq_iff x s)

pub member-set_insert_all :
    (s : String) (xs set : List String)
    → member s (set_insert_all xs set) ≡ (member s set || member s xs)
unfolding set_insert_all
member-set_insert_all s [] set = ground arith
member-set_insert_all s (x ∷ xs) set =
    ground (arith, member-set_insert_all s xs (set_insert x set), member-set_insert s x set)

-- Is the text the one in the option?
abbrev pub is_in : String → Option String → Bool
is_in s none = false
is_in s (some t) = str_eq t s

member-set_insert_some :
    (s : String) (o : Option String) (set : List String)
    → member s (set_insert_some o set) ≡ (member s set || is_in s o)
unfolding set_insert_some
member-set_insert_some s none set = ground arith
member-set_insert_some s (some t) set = member-set_insert s t set

pub member-collect_principals :
    (json : Json) (raw : RawContext json) (s : String)
    → member s (collect_principals json raw) ≡ (
        is_in s raw.sub
        || is_in s raw.client_id
        || member s raw.groups
        || member s raw.roles
        || member s (realm_roles json raw.extra))
unfolding collect_principals
member-collect_principals json raw s = ground (
  arith,
  member-set_insert_all s (realm_roles json raw.extra) (
      set_insert_all raw.roles
        (set_insert_all raw.groups (set_insert_some raw.client_id (set_insert_some raw.sub [])))),
  member-set_insert_all s raw.roles
      (set_insert_all raw.groups (set_insert_some raw.client_id (set_insert_some raw.sub []))),
  member-set_insert_all s raw.groups (set_insert_some raw.client_id (set_insert_some raw.sub [])),
  member-set_insert_some s raw.client_id (set_insert_some raw.sub []),
  member-set_insert_some s raw.sub [],
)

member-place :
    (s x : String) (xs : List String) → member s (place x xs) ≡ (str_eq x s || member s xs)
unfolding place
member-place s x [] = ground arith
member-place s x (y ∷ ys) = ground (arith, member-place s x ys)

member-sort : (s : String) (xs : List String) → member s (sort xs) ≡ member s xs
unfolding sort
member-sort s [] = refl
member-sort s (x ∷ xs) = ground (arith, member-place s x (sort xs), member-sort s xs)

is_in-eq : (s : String) (o : Option String) → is_in s o ≡ true → o ≡ some s
is_in-eq s none h = cc
is_in-eq s (some t) h = ap some ((eq_iff t s).0 h)

is_in-some : (s : String) (o : Option String) → o ≡ some s → is_in s o ≡ true
is_in-some s none h = cc
is_in-some s (some t) h = let e : t ≡ s = cc in (eq_iff t s).1 e

-- The text stands in the array `realm_access.roles` of the token.
abbrev pub IsRealmRole : (json : Json) → RawContext json → String → Type 0
IsRealmRole json raw s =
    (access : json.Value) × (roles : json.Value) × (values : List json.Value) × (v : json.Value)
    × (get "realm_access" raw.extra ≡ some access)
    × (json.field "roles" access ≡ some roles)
    × (json.as_array roles ≡ some values)
    × Has v values
    × (json.as_str v ≡ some s)

strings_iff :
    (json : Json) (values : List json.Value) (s : String)
    → (member s (strings json values) ≡ true)
      ↔ ((v : json.Value) × Has v values × (json.as_str v ≡ some s))
unfolding strings
strings_iff json [] s = ((λ h. cc), λ (v, k, e). elim k [ ])
strings_iff json (v ∷ vs) s =
    let rest = strings_iff json vs s in
    elim (Option-cases (json.as_str v)) [
      | inl e ↦ (
        λ h. let (w, k, f) = rest.0 (ground (arith, e, h)) in (w, inr k, f),
        λ (w, k, f). elim k [
          | inl same ↦ absurd (cc (e, f, same))
          | inr there ↦ let m = rest.1 (w, there, f) in ground (arith, e, m)
        ],
      )
      | inr (t, e) ↦ (
        λ h. elim (Bool-cases (str_eq t s)) [
          | inl same ↦ let eq : t ≡ s = (eq_iff t s).0 same in (v, inl refl, e ∙ ap some eq)
          | inr other ↦ let (w, k, f) = rest.0 (ground (arith, e, h, other)) in (w, inr k, f)
        ],
        λ (w, k, f). elim k [
          | inl same ↦ let eq : t ≡ s = cc (e, f, same) in ground (arith, e, eq_iff t s, eq)
          | inr there ↦ let m = rest.1 (w, there, f) in ground (arith, e, m)
        ],
      )
    ]

-- The array of the roles is there.
RolesAre : (json : Json) → RawContext json → List json.Value → Type 0
RolesAre json raw values =
    (access : json.Value) × (roles : json.Value) × (get "realm_access" raw.extra ≡ some access)
    × (json.field "roles" access ≡ some roles)
    × (json.as_array roles ≡ some values)

realm_roles-cases :
    (json : Json) (raw : RawContext json)
    → (((values : List json.Value) → ¬ RolesAre json raw values)
        × (realm_roles json raw.extra ≡ []))
      ⊎ ((values : List json.Value) × RolesAre json raw values
          × (realm_roles json raw.extra ≡ strings json values))
unfolding realm_roles RolesAre
realm_roles-cases json raw = elim (Option-cases (get "realm_access" raw.extra)) [
  | inl e ↦ inl ((λ values (access, roles, a, r, v). cc), ground (arith, e))
  | inr (access, a) ↦ elim (Option-cases (json.field "roles" access)) [
    | inl e ↦ inl (
      (λ values (access', roles, a', r, v). let same : access' ≡ access = cc in cc),
      ground (arith, a, e),
    )
    | inr (roles, r) ↦ elim (Option-cases (json.as_array roles)) [
      | inl e ↦ inl (
        (λ values (access', roles', a', r', v).
            let same : access' ≡ access = cc in let same' : roles' ≡ roles = cc in cc),
        ground (arith, a, r, e),
      )
      | inr (values, v) ↦ inr (values, (access, roles, a, r, v), ground (arith, a, r, v))
    ]
  ]
]

RolesAre-unique :
    (json : Json) (raw : RawContext json) (values values' : List json.Value)
    → RolesAre json raw values
    → RolesAre json raw values'
    → values ≡ values'
unfolding RolesAre
RolesAre-unique json raw values values' (access, roles, a, r, v) (access', roles', a', r', v') =
    let same : access ≡ access' = cc in let same' : roles ≡ roles' = cc in cc

realm_roles_iff :
    (json : Json) (raw : RawContext json) (s : String)
    → (member s (realm_roles json raw.extra) ≡ true) ↔ IsRealmRole json raw s
unfolding RolesAre
realm_roles_iff json raw s = elim (realm_roles-cases json raw) [
  | inl (missing, e) ↦ (
    λ h. absurd (ground (arith, e, h)),
    λ (access, roles, values, v, a, r, k, m, t). absurd (missing values (access, roles, a, r, k)),
  )
  | inr (values, (access, roles, a, r, k), e) ↦ (
    λ h.
        let (v, m, t) = (strings_iff json values s).0 (ap (member s) (sym e) ∙ h) in
        (access, roles, values, v, a, r, k, m, t),
    λ (access', roles', values', v, a', r', k', m, t).
        let same =
          RolesAre-unique json raw values' values (access', roles', a', r', k')
            (access, roles, a, r, k) in
        ap (member s) e ∙ (strings_iff json values s).1 (v, subst (Has v) same m, t),
  )
]

-- The principals of a user are exactly the subject, the client id, the groups, the roles and the
-- texts of the array `realm_access.roles` of the token.
pub member-deserialize :
    (json : Json) (raw : RawContext json) (s : String)
    → (member s (deserialize json raw).principals ≡ true) ↔ (
        (raw.sub ≡ some s)
        ⊎ (raw.client_id ≡ some s)
        ⊎ Has s raw.groups
        ⊎ Has s raw.roles
        ⊎ IsRealmRole json raw s)
unfolding deserialize
member-deserialize json raw s =
    let all = member-sort s (collect_principals json raw) ∙ member-collect_principals json raw s in
    let realm = realm_roles_iff json raw s in
    (
      λ h. elim (Bool-cases (is_in s raw.sub)) [
        | inl a ↦ inl (is_in-eq s raw.sub a)
        | inr a ↦ elim (Bool-cases (is_in s raw.client_id)) [
          | inl b ↦ inr (inl (is_in-eq s raw.client_id b))
          | inr b ↦ elim (Bool-cases (member s raw.groups)) [
            | inl c ↦ inr (inr (inl (member→Has s raw.groups c)))
            | inr c ↦ elim (Bool-cases (member s raw.roles)) [
              | inl d ↦ inr (inr (inr (inl (member→Has s raw.roles d))))
              | inr d ↦ inr (inr (inr (inr (realm.0 (ground (arith, all, h, a, b, c, d))))))
            ]
          ]
        ]
      ],
      λ cause. elim cause [
        | inl a ↦ let i = is_in-some s raw.sub a in ground (arith, all, i)
        | inr (inl b) ↦ let i = is_in-some s raw.client_id b in ground (arith, all, i)
        | inr (inr (inl c)) ↦ let i = Has→member s raw.groups c in ground (arith, all, i)
        | inr (inr (inr (inl d))) ↦ let i = Has→member s raw.roles d in ground (arith, all, i)
        | inr (inr (inr (inr r))) ↦ let i = realm.1 r in ground (arith, all, i)
      ],
    )
