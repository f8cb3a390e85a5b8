-- ===== src/Policy/Manager.antt =====
-- holonomy-core/src/manager/policy_manager.rs: discovery, signatures and the merge of the layers.
-- serde_json, hex and ed25519_dalek are parameters (`Codec`): what they answer is not code of this
-- repository. The messages of their errors are texts.
pub mod Signed
pub mod Sorting
mod Folding
pub mod Layers
use mathlib.Core.List.{foldl}
use holonomy_source.Common.{ℕ, String, Bool, Option, none, some, List, [], ◌∷◌, leb, if◌then◌else◌}
use holonomy_source.Common.Result.{Result, ok, err, ok_or, map_err, ◌>>=◌, ◌>>◌}
use holonomy_source.Policy.{
  PolicyLevel, local, domain, global, PolicyEnvelope, PolicyManifest, merge,
}

pub data PolicyError : Type 0 where
  discovery_failed : String → PolicyError
  invalid_signature merge_failed : PolicyError
  parse_error : String → PolicyError

-- The functions of serde_json, hex and ed25519_dalek that the manager calls.
pub record Codec : Type 1 where
  pub Key : Type 0
  pub Signature : Type 0
  pub envelope_from_str : String → Result String PolicyEnvelope
  pub manifest_from_str : String → Result String PolicyManifest
  pub key_from_bytes : List ℕ → Option Key
  pub hex_decode : String → Option (List ℕ)
  pub signature_from_slice : List ℕ → Option Signature
  pub verify : Key → String → Signature → Bool

abbrev pub Layer : Type 0
Layer = PolicyLevel × String

abbrev pub Parsed : Type 0
Parsed = PolicyLevel × PolicyManifest

pub record PolicyManager : Type 0 where
  pub provider : String → Result PolicyError (List Layer)
  pub public_key : Option (List ℕ)

-- `PolicyManager::new_dangerously_allow_unsigned`.
pub new_dangerously_allow_unsigned : (String → Result PolicyError (List Layer)) → PolicyManager
new_dangerously_allow_unsigned provider = record { provider = provider; public_key = none }

-- `PolicyManager::with_public_key`.
pub with_public_key : (String → Result PolicyError (List Layer)) → List ℕ → PolicyManager
with_public_key provider key = record { provider = provider; public_key = some key }

abbrev pub discover_policies : PolicyManager → String → Result PolicyError (List Layer)
discover_policies m target = m.provider target

-- `PolicyLevel` as a number, for its derived order.
abbrev pub rank : PolicyLevel → ℕ
rank local = 0
rank domain = 1
rank global = 2

-- One step of the stable sort by level: the new element stands before those of its own level.
unfoldable pub place : Parsed → List Parsed → List Parsed
place x [] = x ∷ []
place x (y ∷ ys) = if leb (rank x.0) (rank y.0) then x ∷ y ∷ ys else y ∷ place x ys

-- `parsed_policies.sort_by(|a, b| a.0.cmp(&b.0))`.
unfoldable pub sort : List Parsed → List Parsed
sort [] = []
sort (x ∷ xs) = place x (sort xs)

-- The manifest when no policy was discovered.
abbrev pub empty_manifest : PolicyManifest
empty_manifest = record {
  version = "1.0";
  principals = [];
  encryption = none;
  purpose_bindings = none;
}

-- The fold over the sorted layers, from the first one.
unfoldable pub merge_sorted : List Parsed → PolicyManifest
merge_sorted [] = empty_manifest
merge_sorted ((_, first) ∷ rest) = foldl (λ acc x. merge acc x.1) first rest

module _ (c : Codec) where
  open c use {
    envelope_from_str, manifest_from_str, key_from_bytes, hex_decode, signature_from_slice, verify,
  }

  -- The signature test of one envelope, if the manager has a key.
  unfoldable pub check_signature : Option (List ℕ) → PolicyEnvelope → Result PolicyError (Unit {0})
  check_signature none envelope = ok tt
  check_signature (some bytes) envelope = do
    key ← ok_or (key_from_bytes bytes) invalid_signature
    sig_bytes ← ok_or (hex_decode envelope.signature) invalid_signature
    signature ← ok_or (signature_from_slice sig_bytes) invalid_signature
    if verify key envelope.payload signature then ok tt else err invalid_signature

  -- The body of the loop of `verify_signatures`.
  unfoldable pub verify_layer : PolicyManager → Layer → Result PolicyError Parsed
  verify_layer m (level, content) = do
    envelope ← map_err parse_error (envelope_from_str content)
    check_signature m.public_key envelope
    manifest ← map_err parse_error (manifest_from_str envelope.payload)
    ok (level, manifest)

  -- `PolicyManager::verify_signatures`: the first layer that fails ends the loop.
  unfoldable pub verify_signatures : PolicyManager → List Layer → Result PolicyError (List Parsed)
  verify_signatures m [] = ok []
  verify_signatures m (layer ∷ layers) = do
    parsed ← verify_layer m layer
    rest ← verify_signatures m layers
    ok (parsed ∷ rest)

  -- `PolicyManager::merge_layers`.
  unfoldable pub merge_layers : PolicyManager → List Layer → Result PolicyError PolicyManifest
  merge_layers m layers = do parsed ← verify_signatures m layers; ok (merge_sorted (sort parsed))
