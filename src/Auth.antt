-- ===== src/Auth.antt =====
-- holonomy-core/src/auth/jwt_validator.rs: the user context that the claims of a token become.
-- serde_json's `Value` is a parameter of the model only through what the code asks of a value: it is
-- an object with a field, an array, or a text.
pub mod Principals
mod Tests
use Prim.Native.Nat.{Ordering}
use Prim.Native.String.{compare}
use holonomy_source.Common.{String, Option, none, some, List, [], ◌∷◌, ◌++◌, member, if◌then◌else◌}
use holonomy_source.Common.Dict.{Dict, get}

-- What the code asks of a `serde_json::Value`.
pub record Json : Type 1 where
  pub Value : Type 0
  pub field : String → Value → Option Value
  pub as_array : Value → Option (List Value)
  pub as_str : Value → Option String

-- `UserContext`, without the fields that no other part reads.
pub record UserContext : Type 0 where
  pub sub : Option String
  pub client_id : Option String
  pub email : Option String
  pub principals : List String

-- `HashSet::insert`.
unfoldable pub set_insert : String → List String → List String
set_insert s set = if member s set then set else set ++ s ∷ []

-- `for s in xs { set.insert(s); }`
unfoldable pub set_insert_all : List String → List String → List String
set_insert_all [] set = set
set_insert_all (x ∷ xs) set = set_insert_all xs (set_insert x set)

-- `if let Some(s) = o { set.insert(s); }`
unfoldable pub set_insert_some : Option String → List String → List String
set_insert_some none set = set
set_insert_some (some s) set = set_insert s set

-- One step of the sort of texts.
unfoldable pub place : String → List String → List String
place x [] = x ∷ []
place x (y ∷ ys) = elim (compare x y) [ Ordering.gt ↦ y ∷ place x ys | _ ↦ x ∷ y ∷ ys ]

-- `principals_vec.sort()`: texts by their bytes, which is by their code points.
unfoldable pub sort : List String → List String
sort [] = []
sort (x ∷ xs) = place x (sort xs)

-- `UserContext::identity`.
unfoldable pub identity : UserContext → String
identity u = elim u.sub [
  | some sub ↦ sub
  | none ↦ elim u.client_id [ some id ↦ id | none ↦ "unknown" ]
]

module _ (json : Json) where
  open json use {Value, field, as_array, as_str}

  -- `RawContext`: the claims as serde reads them.
  pub record RawContext : Type 0 where
    pub sub : Option String
    pub client_id : Option String
    pub email : Option String
    pub groups : List String
    pub roles : List String
    pub extra : Dict Value

  -- The texts of an array; other values are skipped.
  unfoldable pub strings : List Value → List String
  strings [] = []
  strings (v ∷ vs) = elim (as_str v) [ none ↦ strings vs | some s ↦ s ∷ strings vs ]

  -- `extra["realm_access"]["roles"]`, where each step is there.
  unfoldable pub realm_roles : Dict Value → List String
  realm_roles extra = elim (get "realm_access" extra) [
    | none ↦ []
    | some access ↦ elim (field "roles" access) [
      | none ↦ []
      | some roles ↦ elim (as_array roles) [ none ↦ [] | some values ↦ strings values ]
    ]
  ]

  -- The set of the principals.
  unfoldable pub collect_principals : RawContext → List String
  collect_principals raw = set_insert_all (realm_roles raw.extra) (
      set_insert_all raw.roles
        (set_insert_all raw.groups (set_insert_some raw.client_id (set_insert_some raw.sub []))))

  -- `UserContext::deserialize`, from the claims as serde reads them.
  unfoldable pub deserialize : RawContext → UserContext
  deserialize raw = record {
    sub = raw.sub;
    client_id = raw.client_id;
    email = raw.email;
    principals = sort (collect_principals raw);
  }
