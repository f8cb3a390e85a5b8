-- ===== src/Write/Sidecar.antt =====
-- holonomy-core/src/manager/sidecar.rs and the sidecars of write_orchestrator.rs: the wrapped keys of
-- a partition, collected by the writes and uploaded by `flush_partition`.
pub mod Entries
use holonomy_source.Common.{
  String, Bool, true, false, Option, none, some, List, [], ◌∷◌, ◌++◌, ◌||◌, ◌&&◌, str_eq,
  if◌then◌else◌,
}
use holonomy_source.Common.Dict
use holonomy_source.Common.Dict.{Dict}

pub record SidecarKeyEntry : Type 0 where
  pub purpose : String
  pub column : String
  pub wrapped_dek : String

pub record SidecarMetadata : Type 0 where
  pub version : String
  pub keys : List SidecarKeyEntry

-- `SidecarMetadata::default`.
abbrev pub empty_sidecar : SidecarMetadata
empty_sidecar = record { version = "1.0"; keys = [] }

-- The derived equality.
unfoldable pub same_entry : SidecarKeyEntry → SidecarKeyEntry → Bool
same_entry a b =
    str_eq a.purpose b.purpose && (str_eq a.column b.column && str_eq a.wrapped_dek b.wrapped_dek)

-- `sidecar.keys.contains(&key)`
unfoldable pub contains_entry : SidecarKeyEntry → List SidecarKeyEntry → Bool
contains_entry key [] = false
contains_entry key (k ∷ keys) = same_entry k key || contains_entry key keys

-- `for key in keys_to_append { if !sidecar.keys.contains(&key) { sidecar.keys.push(key) } }`
unfoldable pub append_keys : List SidecarKeyEntry → List SidecarKeyEntry → List SidecarKeyEntry
append_keys [] keys = keys
append_keys (key ∷ more) keys =
    append_keys more (if contains_entry key keys then keys else keys ++ key ∷ [])

-- `self.sidecar_deks.entry(root).or_default()`, with the keys appended.
unfoldable pub add_to_sidecar :
    String → List SidecarKeyEntry → Dict SidecarMetadata → Dict SidecarMetadata
add_to_sidecar root more sidecars =
    let old : SidecarMetadata = elim (Dict.get root sidecars) [
      | none ↦ empty_sidecar
      | some sidecar ↦ sidecar
    ] in
    Dict.insert root (record old { keys = append_keys more old.keys }) sidecars
