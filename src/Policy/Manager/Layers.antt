-- ===== src/Policy/Manager/Layers.antt =====
-- What the merge of all layers keeps of each of them.
use holonomy_source.Common.{String, ◌≡◌, subst, some, List, [], ◌∷◌, arith, All, Has}
use holonomy_source.Common.Dict.{get}
use holonomy_source.Common.Result.{Result, ok, err, map_err, >>=-eq-ok, ok-injective}
use holonomy_source.Policy.{PrincipalPolicy, PolicyManifest}
use holonomy_source.Policy.Restrictions.{Enforces}
use holonomy_source.Policy.WellFormed.{IsWellFormed, column_mask}
use holonomy_source.Policy.Manager.{
  Codec, Layer, Parsed, PolicyManager, rank, sort, merge_sorted, verify_layer, verify_signatures,
  merge_layers, check_signature, PolicyError, parse_error,
}
use holonomy_source.Policy.Manager.Sorting.{
  AllWellFormed, sort-AllWellFormed, Has-sort, sort-All, sort-IsSorted,
}
use holonomy_source.Policy.Manager.Folding.{
  merge_sorted-Enforces, merge_sorted-IsWellFormed, Agrees, merge_sorted-column_mask,
}

-- The layers that the codec parses are well formed, if the manifests that it reads are.
module _ (c : Codec)
    (reads : (s : String) (m : PolicyManifest)
      → c.manifest_from_str s ≡ ok m
      → IsWellFormed m) where
  verify_layer-IsWellFormed :
      (m : PolicyManager) (layer : Layer) {x : Parsed}
      → verify_layer c m layer ≡ ok x
      → IsWellFormed x.1
  unfolding verify_layer
  verify_layer-IsWellFormed m layer h =
      let (envelope, e, h1) = >>=-eq-ok (map_err parse_error (c.envelope_from_str layer.1)) _ h in
      let (u, s, h2) = >>=-eq-ok (check_signature c m.public_key envelope) _ h1 in
      let (manifest, r, h3) =
        >>=-eq-ok (map_err parse_error (c.manifest_from_str envelope.payload)) _ h2 in
      let w = reads envelope.payload manifest (ground arith) in
      subst (λ (x : Result PolicyError Parsed). elim x [ ok y ↦ IsWellFormed y.1 | err z ↦ Unit ])
        h3 w

  verify_signatures-AllWellFormed :
      (m : PolicyManager) (layers : List Layer) {parsed : List Parsed}
      → verify_signatures c m layers ≡ ok parsed
      → AllWellFormed parsed
  unfolding verify_signatures
  verify_signatures-AllWellFormed m [] {parsed} h = subst AllWellFormed (ok-injective h) tt
  verify_signatures-AllWellFormed m (layer ∷ layers) h =
      let (x, e, h1) = >>=-eq-ok (verify_layer c m layer) _ h in
      let (xs, es, h2) = >>=-eq-ok (verify_signatures c m layers) _ h1 in
      subst AllWellFormed (ok-injective h2)
        (verify_layer-IsWellFormed m layer e, verify_signatures-AllWellFormed m layers es)

  -- If the maps of every parsed manifest have distinct keys, the merged manifest restricts each
  -- principal at least as much as each single layer does: no row filter is lost and no sampling cap
  -- is raised, whatever the levels and the order of the layers.
  pub merge_layers-Enforces :
      (m : PolicyManager) (layers : List Layer) (parsed : List Parsed) (merged : PolicyManifest)
      (z : Parsed) (q : String) (p : PrincipalPolicy)
      → verify_signatures c m layers ≡ ok parsed
      → merge_layers c m layers ≡ ok merged
      → Has z parsed
      → get q z.1.principals ≡ some p
      → Enforces q merged p
  unfolding merge_layers
  merge_layers-Enforces m layers parsed merged z q p v h mem e =
      let same : merge_sorted (sort parsed) ≡ merged = ok-injective (rw v at h) in
      rw (← same) (
        merge_sorted-Enforces q p (sort parsed) z
          (sort-AllWellFormed parsed (verify_signatures-AllWellFormed m layers v))
          (Has-sort z parsed mem) e)

  -- If the maps of every parsed manifest have distinct keys and the layers verify, the merge
  -- succeeds and the maps of the merged manifest have distinct keys.
  pub merge_layers-IsWellFormed :
      (m : PolicyManager) (layers : List Layer) (parsed : List Parsed)
      → verify_signatures c m layers ≡ ok parsed
      → (merged : PolicyManifest) × (merge_layers c m layers ≡ ok merged) × IsWellFormed merged
  unfolding merge_layers
  merge_layers-IsWellFormed m layers parsed v = (
    merge_sorted (sort parsed),
    rw v,
    merge_sorted-IsWellFormed (sort parsed)
        (sort-AllWellFormed parsed (verify_signatures-AllWellFormed m layers v)),
  )

  -- If the maps of every parsed manifest have distinct keys: where one layer masks a column for a
  -- principal, and every layer of that level or a higher one that masks the column does it in the
  -- same way, that is the merged mask.
  pub merge_layers-column_mask :
      (m : PolicyManager) (layers : List Layer) (parsed : List Parsed) (merged : PolicyManifest)
      (z : Parsed) (q col mask : String)
      → verify_signatures c m layers ≡ ok parsed
      → merge_layers c m layers ≡ ok merged
      → Has z parsed
      → column_mask q col z.1 ≡ some mask
      → All (Agrees q col mask (rank z.0)) parsed
      → column_mask q col merged ≡ some mask
  unfolding merge_layers
  merge_layers-column_mask m layers parsed merged z q col mask v h mem e agree =
      let same : merge_sorted (sort parsed) ≡ merged = ok-injective (rw v at h) in
      rw (← same) (
        merge_sorted-column_mask q col mask (sort parsed) z (sort-IsSorted parsed)
          (sort-AllWellFormed parsed (verify_signatures-AllWellFormed m layers v))
          (Has-sort z parsed mem) e (sort-All (Agrees q col mask (rank z.0)) parsed agree))
