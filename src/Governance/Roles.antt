-- ===== src/Governance/Roles.antt =====
-- Which role a reader acts in.
use holonomy_source.Common.{
  String, ◌≡◌, refl, sym, subst, ◌⊎◌, inl, inr, Bool, true, false, Option, none, some, List, [],
  ◌∷◌, arith, member→Has, Has, Has→member, str_eq, eq_iff, Bool-cases, if◌then◌else◌,
}
use holonomy_source.Common.Dict.{Dict, contains_key}
use holonomy_source.Common.Result.{ok}
use holonomy_source.Policy.{PrincipalPolicy, PolicyManifest}
use holonomy_source.Auth.{UserContext}
use holonomy_source.Governance.{
  purpose_bound_role, matching_roles, require_role, only_role, conflict, choose_role,
  resolve_active_role,
}

-- The role is one that the user has, it is the one that the purpose is bound to and the one that
-- the user assumes, where there are such; and with neither, it is the only principal of the user
-- that the policy names.
pub record IsActive (user : UserContext) (policy : PolicyManifest) (assumed purpose : Option String)
    (role : String) : Type 0 where
  pub held : Has role user.principals
  pub bound : (b : String) → purpose_bound_role policy purpose ≡ some b → role ≡ b
  pub chosen : (a : String) → assumed ≡ some a → role ≡ a
  pub only :
      purpose_bound_role policy purpose ≡ none
      → assumed ≡ none
      → (p : String) → Has p user.principals
      → contains_key p policy.principals ≡ true
      → p ≡ role
  pub named :
      purpose_bound_role policy purpose ≡ none
      → assumed ≡ none
      → contains_key role policy.principals ≡ true

require_role-eq-ok :
    (user : UserContext) (r role : String)
    → require_role user r ≡ ok role
    → (role ≡ r) × Has role user.principals
unfolding require_role
require_role-eq-ok user r role h = ground (arith, member→Has r user.principals)

Has-matching_roles :
    (p : String) (ps : List String) (policy : Dict PrincipalPolicy)
    → Has p ps
    → contains_key p policy ≡ true
    → Has p (matching_roles ps policy)
unfolding matching_roles
Has-matching_roles p [] policy h k = elim h [ ]
Has-matching_roles p (q ∷ ps) policy (inl e) k =
    let k' : contains_key q policy ≡ true = rw e k in rw k' (inl e)
Has-matching_roles p (q ∷ ps) policy (inr h) k = elim (Bool-cases (contains_key q policy)) [
  | inl y ↦ rw y (inr (Has-matching_roles p ps policy h k))
  | inr n ↦ rw n (Has-matching_roles p ps policy h k)
]

Has-matching_roles_cons :
    (p q : String) (ps : List String) (policy : Dict PrincipalPolicy)
    → Has p (matching_roles (q ∷ ps) policy)
    → (q ≡ p) × (contains_key q policy ≡ true) ⊎ Has p (matching_roles ps policy)
unfolding matching_roles
Has-matching_roles_cons p q ps policy h = go (contains_key q policy) refl h
  where
    go :
        (b : Bool)
        → contains_key q policy ≡ b
        → Has p (if b then q ∷ matching_roles ps policy else matching_roles ps policy)
        → (q ≡ p) × (contains_key q policy ≡ true) ⊎ Has p (matching_roles ps policy)
    go true e (inl k) = inl (k, e)
    go true e (inr k) = inr k
    go false e k = inr k

matching_roles-Has :
    (p : String) (ps : List String) (policy : Dict PrincipalPolicy)
    → Has p (matching_roles ps policy)
    → Has p ps × (contains_key p policy ≡ true)
matching_roles-Has p [] policy h = unfold matching_roles in elim h [ ]
matching_roles-Has p (q ∷ ps) policy h = elim (Has-matching_roles_cons p q ps policy h) [
  | inl (e, k) ↦ (inl e, rw (← e) k)
  | inr k ↦ let (a, b) = matching_roles-Has p ps policy k in (inr a, b)
]

only_role-eq-ok :
    (roles : List String) (role : String) → only_role roles ≡ ok role → roles ≡ role ∷ []
unfolding only_role
only_role-eq-ok [] role h = cc
only_role-eq-ok (r ∷ []) role h = cc
only_role-eq-ok (r ∷ s ∷ rs) role h = cc

choose_role-IsActive :
    (user : UserContext) (policy : PolicyManifest) (b a purpose : Option String) (role : String)
    → purpose_bound_role policy purpose ≡ b
    → choose_role user policy b a ≡ ok role
    → IsActive user policy a purpose role
unfolding choose_role conflict
choose_role-IsActive user policy (some b) (some a) purpose role e h =
    elim (Bool-cases (str_eq b a)) [
      | inl same ↦
          let (eq, held) = require_role-eq-ok user b role (ground (arith, same)) in
          let b-a : b ≡ a = (eq_iff b a).0 same in
          record {
            held = held;
            bound = λ c k. cc;
            chosen = λ c k. cc;
            only = λ n m. cc;
            named = λ n m. cc;
          }
      | inr differ ↦ absurd (ground arith)
    ]
choose_role-IsActive user policy (some b) none purpose role e h =
    let (eq, held) = require_role-eq-ok user b role h in
    record {
      held = held;
      bound = λ c k. cc;
      chosen = λ c k. cc;
      only = λ n m. cc;
      named = λ n m. cc;
    }
choose_role-IsActive user policy none (some a) purpose role e h =
    let (eq, held) = require_role-eq-ok user a role h in
    record {
      held = held;
      bound = λ c k. cc;
      chosen = λ c k. cc;
      only = λ n m. cc;
      named = λ n m. cc;
    }
choose_role-IsActive user policy none none purpose role e h =
    let one = only_role-eq-ok (matching_roles user.principals policy.principals) role h in
    let (held, named) =
      matching_roles-Has role user.principals policy.principals (rw one (inl refl)) in
    record {
      held = held;
      bound = λ c k. cc;
      chosen = λ c k. cc;
      only = λ n m p hp kp.
          elim (subst (Has p) one (Has-matching_roles p user.principals policy.principals hp kp)) [
            | inl same ↦ sym same
            | inr none_left ↦ elim none_left [ ]
          ];
      named = λ n m. named;
    }

-- A role that is resolved is held by the user, it is the one that the purpose is bound to and the
-- one that is assumed, where these are given; with neither, it is the one principal of the user
-- that the policy names.
pub resolve_active_role-IsActive :
    (user : UserContext) (policy : PolicyManifest) (assumed purpose : Option String) (role : String)
    → resolve_active_role user policy assumed purpose ≡ ok role
    → IsActive user policy assumed purpose role
unfolding resolve_active_role
resolve_active_role-IsActive user policy assumed purpose role h =
    choose_role-IsActive user policy (purpose_bound_role policy purpose) assumed purpose role refl h

-- A role that the user holds, that is bound to the purpose or assumed, and that is in conflict with
-- neither, is resolved.
pub resolve_active_role_complete :
    (user : UserContext) (policy : PolicyManifest) (assumed purpose : Option String) (role : String)
    → Has role user.principals
    → (purpose_bound_role policy purpose ≡ some role) × ((assumed ≡ none) ⊎ (assumed ≡ some role))
      ⊎ (purpose_bound_role policy purpose ≡ none) × (assumed ≡ some role)
    → resolve_active_role user policy assumed purpose ≡ ok role
unfolding resolve_active_role choose_role require_role
resolve_active_role_complete user policy assumed purpose role held given =
    ground (arith, Has→member role user.principals held, eq_iff role role)
