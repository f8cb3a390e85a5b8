-- ===== src/Policy/Encrypt/Layers.antt =====
-- The columns to encrypt under the merge of all layers of a policy.
use mathlib.Core.List.{foldl}
use holonomy_source.Common.{
  String, ◌≡◌, sym, inl, inr, true, List, [], ◌∷◌, arith, member, Has, subst,
}
use holonomy_source.Common.Result.{ok, ok-injective}
use holonomy_source.Policy.{PolicyManifest, merge}
use holonomy_source.Policy.Manager.{
  Codec, Layer, Parsed, PolicyManager, sort, merge_sorted, verify_signatures, merge_layers,
}
use holonomy_source.Policy.Manager.Sorting.{Has-sort}
use holonomy_source.Policy.Encrypt.{resolve_columns_to_encrypt}
use holonomy_source.Policy.Encrypt.Union.{resolve_columns_to_encrypt-merge}
use holonomy_source.Arrow.{Arrow}
use holonomy_source.Linter.{Engine, DataContract}

module _ (lower : String → String) (arrow : Arrow) (engine : Engine arrow)
    (contract : DataContract lower arrow engine) (s : String) where
  -- The policy requires that the column `s` of the contract is encrypted.
  abbrev pub Encrypts : PolicyManifest → Type 0
  Encrypts m = member s (resolve_columns_to_encrypt lower arrow engine contract m) ≡ true

  Encrypts-merge_left : (a b : PolicyManifest) → Encrypts a → Encrypts (merge a b)
  Encrypts-merge_left a b h =
      ground (arith, resolve_columns_to_encrypt-merge lower arrow engine contract a b s, h)

  Encrypts-merge_right : (a b : PolicyManifest) → Encrypts b → Encrypts (merge a b)
  Encrypts-merge_right a b h =
      ground (arith, resolve_columns_to_encrypt-merge lower arrow engine contract a b s, h)

  fold-Encrypts :
      (acc : PolicyManifest) (xs : List Parsed)
      → Encrypts acc
      → Encrypts (foldl (λ a x. merge a x.1) acc xs)
  fold-Encrypts acc [] h = h
  fold-Encrypts acc (x ∷ xs) h = fold-Encrypts (merge acc x.1) xs (Encrypts-merge_left acc x.1 h)

  fold-Encrypts_mem :
      (acc : PolicyManifest) (xs : List Parsed) (z : Parsed)
      → Has z xs
      → Encrypts z.1
      → Encrypts (foldl (λ a x. merge a x.1) acc xs)
  fold-Encrypts_mem acc [] z h e = elim h [ ]
  fold-Encrypts_mem acc (x ∷ xs) z (inl same) e =
      fold-Encrypts (merge acc x.1) xs
        (Encrypts-merge_right acc x.1 (subst (λ (y : Parsed). Encrypts y.1) (sym same) e))
  fold-Encrypts_mem acc (x ∷ xs) z (inr h) e = fold-Encrypts_mem (merge acc x.1) xs z h e

  merge_sorted-Encrypts :
      (xs : List Parsed) (z : Parsed) → Has z xs → Encrypts z.1 → Encrypts (merge_sorted xs)
  unfolding merge_sorted
  merge_sorted-Encrypts [] z h e = elim h [ ]
  merge_sorted-Encrypts (x ∷ xs) z (inl same) e =
      fold-Encrypts x.1 xs (subst (λ (y : Parsed). Encrypts y.1) (sym same) e)
  merge_sorted-Encrypts (x ∷ xs) z (inr h) e = fold-Encrypts_mem x.1 xs z h e

  -- A column of a data contract that one verified layer requires to be encrypted is encrypted under
  -- the merge of all layers, whatever the other layers, the levels and the order.
  pub merge_layers-Encrypts :
      (c : Codec) (m : PolicyManager) (layers : List Layer) (parsed : List Parsed)
      (merged : PolicyManifest) (z : Parsed)
      → verify_signatures c m layers ≡ ok parsed
      → merge_layers c m layers ≡ ok merged
      → Has z parsed
      → Encrypts z.1
      → Encrypts merged
  unfolding merge_layers
  merge_layers-Encrypts c m layers parsed merged z v h mem e =
      let same : merge_sorted (sort parsed) ≡ merged = ok-injective (rw v at h) in
      subst Encrypts same (merge_sorted-Encrypts (sort parsed) z (Has-sort z parsed mem) e)
