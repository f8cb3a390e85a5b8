-- ===== src/Drift/Tests.antt =====
-- Drift between three files, of which one cannot be read.
use holonomy_source.Common.{
  ℕ, String, ◌≡◌, refl, ◌↔◌, true, Option, none, some, List, [], ◌∷◌, arith, str_eq, eq_iff, ◌==◌,
  if◌then◌else◌,
}
use holonomy_source.Drift
use holonomy_source.Drift.{Types, check_drift_for_uris}
use holonomy_source.Drift.Detection.{TypesLaws, Drifts, check_drift_for_uris_iff}

abbrev types : Types
types = record {
  Physical = ℕ;
  Logical = String;
  same_physical = λ a b. a == b;
  same_logical = str_eq;
}

nat_iff : (a b : ℕ) → ((a == b) ≡ true) ↔ (a ≡ b)
nat_iff a b = ground arith

types_laws : TypesLaws types
types_laws = record { same_physical_iff = nat_iff; same_logical_iff = eq_iff }

abbrev column_of : String → List (Drift.Column types)
column_of name = record { name = name; physical_type = 1; logical_type = none } ∷ []

abbrev fetch_of : String → Option (List (Drift.Column types))
fetch_of uri =
    if str_eq uri "a"
    then some (column_of "id")
    else if str_eq uri "c"
    then some (column_of "key")
    else none

check_drift_for_uris_iff_example :
    (check_drift_for_uris types fetch_of ("a" ∷ "b" ∷ "c" ∷ []) ≡ true)
    ↔ Drifts types types_laws fetch_of (column_of "id") ("b" ∷ "c" ∷ [])
check_drift_for_uris_iff_example =
    check_drift_for_uris_iff types types_laws fetch_of "a" (column_of "id") ("b" ∷ "c" ∷ []) refl
