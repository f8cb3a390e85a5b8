-- ===== src/Drift.antt =====
-- holonomy-core/src/schema/drift.rs: the comparison of the schemas of the files of a directory. The
-- types of the crate parquet are parameters (`Types`), and so is the fetch of a footer.
pub mod Detection
mod Tests
use holonomy_source.Common.{
  ℕ, suc, String, Bool, true, false, not, ◌&&◌, ◌||◌, Option, none, some, List, [], ◌∷◌, length,
  leb, str_eq, ◌==◌, if◌then◌else◌,
}

-- The physical and the logical types of columns, with their equality.
pub record Types : Type 1 where
  pub Physical : Type 0
  pub Logical : Type 0
  pub same_physical : Physical → Physical → Bool
  pub same_logical : Logical → Logical → Bool

module _ (types : Types) where
  open types use {Physical, Logical, same_physical, same_logical}

  -- What the code asks of a `ColumnDescriptor`.
  pub record Column : Type 0 where
    pub name : String
    pub physical_type : Physical
    pub logical_type : Option Logical

  -- `!=` of two `Option<&LogicalType>`.
  unfoldable pub same_option : Option Logical → Option Logical → Bool
  same_option none none = true
  same_option (some a) (some b) = same_logical a b
  same_option _ _ = false

  -- The test in the loop of `has_schema_drift`.
  unfoldable pub differs : Column → Column → Bool
  differs base_col col =
      not (str_eq base_col.name col.name)
      || not (same_physical base_col.physical_type col.physical_type)
      || not (same_option base_col.logical_type col.logical_type)

  -- `for (base_col, col) in base.zip(sample)`.
  unfoldable pub any_differs : List Column → List Column → Bool
  any_differs (b ∷ base) (c ∷ sample) = if differs b c then true else any_differs base sample
  any_differs _ _ = false

  -- `has_schema_drift`.
  unfoldable pub has_schema_drift : List Column → List Column → Bool
  has_schema_drift base sample =
      if length base == length sample then any_differs base sample else true

  module _ (fetch : String → Option (List Column)) where
    -- `for uri in uris.iter().skip(1)`: a file that cannot be read is skipped.
    unfoldable pub any_drift : List Column → List String → Bool
    any_drift base [] = false
    any_drift base (uri ∷ uris) =
        let rest = any_drift base uris in
        elim (fetch uri) [
          | none ↦ rest
          | some sample ↦ if has_schema_drift base sample then true else rest
        ]

    -- `check_drift_for_uris`: nothing is reported when the first file cannot be read.
    unfoldable pub check_drift_for_uris : List String → Bool
    check_drift_for_uris [] = false
    check_drift_for_uris (first ∷ uris) = elim (fetch first) [
      | none ↦ false
      | some base ↦ any_drift base uris
    ]
