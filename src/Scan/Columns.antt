-- ===== src/Scan/Columns.antt =====
-- holonomy-core/src/manager/scan_orchestrator.rs: the columns that `scan` asks the files for.
use holonomy_source.Common.{
  ℕ, String, Bool, true, false, Option, none, some, List, [], ◌∷◌, ◌++◌, member, ◌<>◌,
  if◌then◌else◌,
}
use holonomy_source.Common.Dict
use holonomy_source.Common.Dict.{Dict}
use holonomy_source.Arrow.{Arrow}
use holonomy_source.Arrow
use holonomy_source.Predicate.{position}
use holonomy_source.Scan.{Field, schema_field}

unfoldable pub field_names : List Field → List String
field_names [] = []
field_names (f ∷ fs) = f.name ∷ field_names fs

-- The error of `scan` for a global row filter on a column that the first file does not have.
abbrev pub missing_scan_column : String → String
missing_scan_column col =
    "Access Denied: Global row filter references missing column '" <> (col <> "'")

-- `requested_cols`.
unfoldable pub requested_cols :
    Option (List String) → Option (List Field) → List String → List String
requested_cols (some cols) unified all_columns = cols
requested_cols none (some us) all_columns = field_names us
requested_cols none none all_columns = all_columns

-- `projected_cols`: the hidden columns are added.
unfoldable pub project_hidden : List String → List String → List String
project_hidden [] projected = projected
project_hidden (col ∷ cols) projected =
    project_hidden cols (if member col projected then projected else projected ++ col ∷ [])

unfoldable pub unified_field : Option (List Field) → String → Option Field
unified_field none name = none
unified_field (some us) name = schema_field name us

-- A field of the schema of the reader: that of the unified schema, or else of the file, or else nulls.
unfoldable pub final_field : Option (List Field) → List Field → String → Field
final_field unified fields name = elim (unified_field unified name) [
  | some field ↦ field
  | none ↦ elim (schema_field name fields) [
    | some field ↦ field
    | none ↦ record { name = name; data_type = Arrow.null; nullable = true }
  ]
]

-- `existing_cols.first().unwrap_or(&"")`
unfoldable pub first_existing : List String → List String → String
first_existing [] all_columns = ""
first_existing (c ∷ cs) all_columns =
    if member c all_columns then c else first_existing cs all_columns

-- `projected_indices`.
unfoldable pub scan_indices : List String → List String → List ℕ
scan_indices fields [] = []
scan_indices fields (c ∷ cs) = elim (position 0 c fields) [
  | none ↦ scan_indices fields cs
  | some idx ↦ idx ∷ scan_indices fields cs
]

-- Is the column encrypted in the file?
unfoldable pub is_encrypted : List String → Option (ℕ → Bool) → String → Bool
is_encrypted fields first_group name = elim (position 0 name fields) [
  | none ↦ false
  | some idx ↦ elim first_group [ none ↦ false | some encrypted ↦ encrypted idx ]
]

-- A map with a value for each column.
unfoldable pub map_columns : {V : Type 0} → (String → V) → List String → Dict V → Dict V
map_columns f [] m = m
map_columns f (c ∷ cs) m = map_columns f cs (Dict.insert c (f c) m)
