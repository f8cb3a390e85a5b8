-- ===== src/Read/Plan.antt =====
-- holonomy-core/src/manager/read_orchestrator.rs: which predicates the row filters of a role become.
use holonomy_source.Common.{
  ◌≡◌, ◌⊎◌, inl, inr, ◌↔◌, refl, sym, subst, ap, ◌∙◌, String, true, Option, none, some, List, [],
  ◌∷◌, ◌++◌, Has, Has-append, Has-append_left, Has-append_right, member, arith, Bool-cases,
}
use holonomy_source.Common.Result.{ok, ok-injective}
use holonomy_source.Policy.{PrincipalPolicy}
use holonomy_source.Predicate.{Predicate, column}
use holonomy_source.Predicate.Parse.{Outcome, panics, returns, parse_filter}
use holonomy_source.Read.{
  Answer, lift, returns-injective, >>=-eq-ok, global_filter, global_filters, selective_filter,
  selective_filters, policy_predicates,
}

-- One of the texts is a filter on a column of the file, and this is its predicate.
abbrev pub Asked : List String → List String → Predicate → Type 0
Asked cols filters pred =
    (f : String) × Has f filters
    × (parse_filter f ≡ returns (some pred))
    × (member (column pred) cols ≡ true)

lift-eq-ok :
    {E A : Type 0} {a : A} (o : Outcome A)
    → ◌≡◌ {A = Answer E A} (lift {E = E} o) (returns (ok a))
    → o ≡ returns a
lift-eq-ok panics h = cc
lift-eq-ok (returns a) h = cc

-- The predicate of one text: nothing, or one on a column of the file.
abbrev Kept : List String → Option Predicate → List Predicate → Type 0
Kept cols parsed found =
    (found ≡ [])
    ⊎ ((pred : Predicate) × (parsed ≡ some pred)
        × (member (column pred) cols ≡ true)
        × (found ≡ pred ∷ []))

global_filter-Kept :
    {E : Type 0} (missing : String → E) (cols : List String) (parsed : Option Predicate)
    (found : List Predicate)
    → global_filter missing cols parsed ≡ ok found
    → Kept cols parsed found
unfolding global_filter
global_filter-Kept missing cols none found h = inl (sym (ok-injective h))
global_filter-Kept missing cols (some p) found h = elim (Bool-cases (member (column p) cols)) [
  | inl m ↦ inr (p, refl, m, ground (arith, h, m))
  | inr m ↦ ground (arith, h, m)
]

-- A global filter that parses is on a column of the file, and is kept.
global_filter-keeps :
    {E : Type 0} (missing : String → E) (cols : List String) (pred : Predicate)
    (found : List Predicate)
    → global_filter missing cols (some pred) ≡ ok found
    → Has pred found × (member (column pred) cols ≡ true)
unfolding global_filter
global_filter-keeps missing cols pred found h = elim (Bool-cases (member (column pred) cols)) [
  | inl m ↦
      let e : ◌≡◌ {A = List Predicate} (pred ∷ []) found = ground (arith, h, m) in
      (subst (Has pred) e (inl refl), m)
  | inr m ↦ ground (arith, h, m)
]

selective_filter-Kept :
    (cols : List String) (parsed : Option Predicate)
    → Kept cols parsed (selective_filter cols parsed)
unfolding selective_filter
selective_filter-Kept cols none = inl refl
selective_filter-Kept cols (some p) = elim (Bool-cases (member (column p) cols)) [
  | inl m ↦ inr (p, refl, m, ground (arith, m))
  | inr m ↦ inl (ground (arith, m))
]

selective_filter-keeps :
    (cols : List String) (pred : Predicate)
    → member (column pred) cols ≡ true
    → Has pred (selective_filter cols (some pred))
unfolding selective_filter
selective_filter-keeps cols pred m = subst (Has pred) {x = pred ∷ []} (ground (arith, m)) (inl refl)

-- What a step finds is asked for by its text; what the rest finds, by another one.
Kept-Asked :
    (cols : List String) (f : String) (fs : List String) (parsed : Option Predicate)
    (found : List Predicate) (pred : Predicate)
    → parse_filter f ≡ returns parsed
    → Kept cols parsed found
    → Has pred found
    → Asked cols (f ∷ fs) pred
Kept-Asked cols f fs parsed found pred p (inl e) h = elim (subst (Has pred) e h) [ ]
Kept-Asked cols f fs parsed found pred p (inr (q, e, m, k)) h = elim (subst (Has pred) k h) [
  | inl same ↦ (
    f,
    inl refl,
    subst (λ x. parse_filter f ≡ returns (some x)) same (cc),
    subst (λ x. member (column x) cols ≡ true) same m,
  )
  | inr nowhere ↦ elim nowhere [ ]
]

Asked-weaken :
    (cols : List String) (f : String) (fs : List String) (pred : Predicate)
    → Asked cols fs pred
    → Asked cols (f ∷ fs) pred
Asked-weaken cols f fs pred (g, h, p, m) = (g, inr h, p, m)

global_filters-Asked :
    {E : Type 0} (missing : String → E) (cols fs : List String) (preds : List Predicate)
    → global_filters missing cols fs ≡ returns (ok preds)
    → (pred : Predicate) → Has pred preds
    → Asked cols fs pred
unfolding global_filters
global_filters-Asked {E} missing cols [] preds h pred k =
    elim (subst (Has pred) (sym (ok-injective (returns-injective h))) k) [ ]
global_filters-Asked {E} missing cols (f ∷ fs) preds h pred k =
    let (parsed, p, h1) = >>=-eq-ok (lift {E = E} (parse_filter f)) _ h in
    let (found, g, h2) = >>=-eq-ok (returns (global_filter missing cols parsed)) _ h1 in
    let (rest, r, h3) = >>=-eq-ok (global_filters missing cols fs) _ h2 in
    let all : found ++ rest ≡ preds = ok-injective (returns-injective h3) in
    elim (Has-append pred found rest (subst (Has pred) (sym all) k)) [
      | inl here ↦
          Kept-Asked cols f fs parsed found pred (lift-eq-ok (parse_filter f) p)
            (global_filter-Kept missing cols parsed found (returns-injective g)) here
      | inr there ↦
          Asked-weaken cols f fs pred (global_filters-Asked missing cols fs rest r pred there)
    ]

global_filters-keeps :
    {E : Type 0} (missing : String → E) (cols fs : List String) (preds : List Predicate)
    → global_filters missing cols fs ≡ returns (ok preds)
    → (f : String) → Has f fs
    → (pred : Predicate) → parse_filter f ≡ returns (some pred)
    → Has pred preds × (member (column pred) cols ≡ true)
unfolding global_filters
global_filters-keeps {E} missing cols [] preds h t k pred q = elim k [ ]
global_filters-keeps {E} missing cols (f ∷ fs) preds h t k pred q =
    let (parsed, p, h1) = >>=-eq-ok (lift {E = E} (parse_filter f)) _ h in
    let (found, g, h2) = >>=-eq-ok (returns (global_filter missing cols parsed)) _ h1 in
    let (rest, r, h3) = >>=-eq-ok (global_filters missing cols fs) _ h2 in
    let all : found ++ rest ≡ preds = ok-injective (returns-injective h3) in
    elim k [
      | inl same ↦
          let e : parsed ≡ some pred =
            returns-injective (sym (lift-eq-ok (parse_filter f) p) ∙ (ap parse_filter same ∙ q)) in
          let (has, m) =
            global_filter-keeps missing cols pred found
              (subst (λ x. global_filter missing cols x ≡ ok found) e (returns-injective g)) in
          (subst (Has pred) all (Has-append_left pred found rest has), m)
      | inr later ↦
          let (has, m) = global_filters-keeps missing cols fs rest r t later pred q in
          (subst (Has pred) all (Has-append_right pred found rest has), m)
    ]

selective_filters-Asked :
    (E : Type 0) (cols fs : List String) (preds : List Predicate)
    → ◌≡◌ {A = Answer E (List Predicate)} (selective_filters cols fs) (returns (ok preds))
    → (pred : Predicate) → Has pred preds
    → Asked cols fs pred
unfolding selective_filters
selective_filters-Asked E cols [] preds h pred k =
    elim (subst (Has pred) (sym (ok-injective (returns-injective h))) k) [ ]
selective_filters-Asked E cols (f ∷ fs) preds h pred k =
    let (parsed, p, h1) = >>=-eq-ok (lift {E = E} (parse_filter f)) _ h in
    let (rest, r, h2) = >>=-eq-ok (selective_filters cols fs) _ h1 in
    let found = selective_filter cols parsed in
    let all : found ++ rest ≡ preds = ok-injective (returns-injective h2) in
    elim (Has-append pred found rest (subst (Has pred) (sym all) k)) [
      | inl here ↦
          Kept-Asked cols f fs parsed found pred (lift-eq-ok (parse_filter f) p)
            (selective_filter-Kept cols parsed) here
      | inr there ↦
          Asked-weaken cols f fs pred (selective_filters-Asked E cols fs rest r pred there)
    ]

selective_filters-keeps :
    (E : Type 0) (cols fs : List String) (preds : List Predicate)
    → ◌≡◌ {A = Answer E (List Predicate)} (selective_filters cols fs) (returns (ok preds))
    → (f : String) → Has f fs
    → (pred : Predicate) → parse_filter f ≡ returns (some pred)
    → member (column pred) cols ≡ true
    → Has pred preds
unfolding selective_filters
selective_filters-keeps E cols [] preds h t k pred q m = elim k [ ]
selective_filters-keeps E cols (f ∷ fs) preds h t k pred q m =
    let (parsed, p, h1) = >>=-eq-ok (lift {E = E} (parse_filter f)) _ h in
    let (rest, r, h2) = >>=-eq-ok (selective_filters cols fs) _ h1 in
    let found = selective_filter cols parsed in
    let all : found ++ rest ≡ preds = ok-injective (returns-injective h2) in
    elim k [
      | inl same ↦
          let e : some pred ≡ parsed = sym (
            returns-injective (sym (lift-eq-ok (parse_filter f) p) ∙ (ap parse_filter same ∙ q))) in
          let has : Has pred found =
            subst (λ x. Has pred (selective_filter cols x)) e
              (selective_filter-keeps cols pred m) in
          subst (Has pred) all (Has-append_left pred found rest has)
      | inr later ↦ subst (Has pred) all (
          Has-append_right pred found rest
            (selective_filters-keeps E cols fs rest r t later pred q m))
    ]

-- If the row filters of a role become predicates, the predicates are exactly those of the global
-- and selective filters that parse and are on a column of the file, and every global filter that
-- parses is on one.
pub policy_predicates_lem :
    {E : Type 0} (missing : String → E) (cols : List String) (p : PrincipalPolicy)
    (preds : List Predicate)
    → policy_predicates missing cols (some p) ≡ returns (ok preds)
    → ((pred : Predicate)
        → Has pred preds
          ↔ (Asked cols p.global_row_filters pred ⊎ Asked cols p.selective_row_filters pred))
      × ((f : String)
          → Has f p.global_row_filters
          → (pred : Predicate) → parse_filter f ≡ returns (some pred)
          → member (column pred) cols ≡ true)
unfolding policy_predicates
policy_predicates_lem {E} missing cols p preds h =
    let (global, g, h1) = >>=-eq-ok (global_filters missing cols p.global_row_filters) _ h in
    let (selective, s, h2) = >>=-eq-ok (selective_filters cols p.selective_row_filters) _ h1 in
    let all : global ++ selective ≡ preds = ok-injective (returns-injective h2) in
    (
      λ pred. (
        λ k. elim (Has-append pred global selective (subst (Has pred) (sym all) k)) [
          | inl a ↦ inl (global_filters-Asked missing cols p.global_row_filters global g pred a)
          | inr b ↦ inr (selective_filters-Asked E cols p.selective_row_filters selective s pred b)
        ],
        λ k. subst (Has pred) all (elim k [
          | inl (f, t, q, m) ↦
              Has-append_left pred global selective
                (global_filters-keeps missing cols p.global_row_filters global g f t pred q).0
          | inr (f, t, q, m) ↦
              Has-append_right pred global selective
                (selective_filters-keeps E cols p.selective_row_filters selective s f t pred q m)
        ]),
      ),
      λ f t pred q. (global_filters-keeps missing cols p.global_row_filters global g f t pred q).1,
    )
