-- ===== src/Auth/Tests.antt =====
-- The principals of a user whose token has a subject, a client id, a group and a realm role.
use holonomy_source.Common.{
  String, ◌≡◌, true, ◌⊎◌, ◌↔◌, Has, Option, none, some, List, [], ◌∷◌, member, str_eq,
  if◌then◌else◌,
}
use holonomy_source.Auth.{
  Json, RawContext, realm_roles, deserialize, collect_principals, strings, set_insert_all,
  set_insert, set_insert_some, sort, place,
}
use holonomy_source.Common.Dict.{get}
use holonomy_source.Auth.Principals.{IsRealmRole, member-deserialize}

-- Values that are texts, arrays of texts, or an object with the one field "roles".
data Value : Type 0 where
  text : String → Value
  texts : List String → Value
  roles_of : List String → Value

abbrev all_text : List String → List Value
all_text [] = []
all_text (s ∷ ss) = text s ∷ all_text ss

abbrev field_of : String → Value → Option Value
field_of key (roles_of ss) = if str_eq key "roles" then some (texts ss) else none
field_of _ _ = none

abbrev array_of : Value → Option (List Value)
array_of (texts ss) = some (all_text ss)
array_of _ = none

abbrev text_of : Value → Option String
text_of (text s) = some s
text_of _ = none

abbrev json : Json
json = record { Value = Value; field = field_of; as_array = array_of; as_str = text_of }

abbrev token : RawContext json
token = record {
  sub = some "ann";
  client_id = some "app";
  email = none;
  groups = "eng" ∷ [];
  roles = [];
  extra = ("realm_access", roles_of ("analyst" ∷ [])) ∷ [];
}

member-deserialize_example : (member "analyst" ("analyst" ∷ "ann" ∷ "app" ∷ "eng" ∷ []) ≡ true) ↔ (
    (token.sub ≡ some "analyst")
    ⊎ (token.client_id ≡ some "analyst")
    ⊎ Has "analyst" token.groups
    ⊎ Has "analyst" token.roles
    ⊎ IsRealmRole json token "analyst")
unfolding deserialize collect_principals realm_roles strings set_insert_all set_insert
    set_insert_some sort place get
member-deserialize_example = member-deserialize json token "analyst"
