-- ===== src/Policy/Tests.antt =====
-- The theorems of the policies, on a local and a global layer that mask the same column.
use holonomy_source.Common.{
  ℕ, String, ◌≡◌, refl, inl, inr, Bool, true, false, none, some, List, [], ◌∷◌, arith, All, str_eq,
  if◌then◌else◌, subst,
}
use holonomy_source.Common.Dict.{Distinct, get}
use holonomy_source.Common.Result.{ok, ok-injective}
use holonomy_source.Policy.{
  local, global, PrincipalPolicy, default_principal, PolicyManifest, merge,
}
use holonomy_source.Policy.Restrictions.{Enforces}
use holonomy_source.Policy.WellFormed.{IsWellFormed, column_mask}
use holonomy_source.Policy.Manager.{
  Codec, Layer, Parsed, PolicyManager, verify_signatures, verify_layer, check_signature,
  merge_layers, sort, place, merge_sorted,
}
use holonomy_source.Policy.Manager.Signed.{IsSigned, merge_layers-IsSigned}
use holonomy_source.Policy.Manager.Layers.{merge_layers-Enforces, merge_layers-column_mask}

abbrev local_eng : PrincipalPolicy
local_eng = record default_principal {
  global_row_filters = "dept = 'HR'" ∷ [];
  column_masks = ("email", "PLAINTEXT") ∷ [];
  sampling_cap = some 100;
}

abbrev global_eng : PrincipalPolicy
global_eng = record default_principal {
  column_masks = ("email", "HASH") ∷ [];
  sampling_cap = some 10;
}

abbrev one_principal : PrincipalPolicy → PolicyManifest
one_principal p = record {
  version = "1.0";
  principals = ("eng", p) ∷ [];
  encryption = none;
  purpose_bindings = none;
}

-- The two payloads are "L" and "G"; a content is its payload, signed with its own text.
abbrev codec : Codec
codec = record {
  Key = List ℕ;
  Signature = List ℕ;
  envelope_from_str = λ s. ok (record { signature = s; payload = s });
  manifest_from_str = λ s. ok (one_principal (if str_eq s "G" then global_eng else local_eng));
  key_from_bytes = λ bytes. some bytes;
  hex_decode = λ s. some (1 ∷ []);
  signature_from_slice = λ bytes. some bytes;
  verify = λ key payload signature. true;
}

abbrev manager : PolicyManager
manager = record {
  provider = λ target. ok ((global, "G") ∷ (local, "L") ∷ []);
  public_key = some (9 ∷ []);
}

abbrev contents : List Layer
contents = (global, "G") ∷ (local, "L") ∷ []

abbrev parsed_layers : List Parsed
parsed_layers = (global, one_principal global_eng) ∷ (local, one_principal local_eng) ∷ []

abbrev merged_manifest : PolicyManifest
merged_manifest = merge (one_principal local_eng) (one_principal global_eng)

verified : verify_signatures codec manager contents ≡ ok parsed_layers
unfolding verify_signatures verify_layer check_signature
verified = refl

merged : merge_layers codec manager contents ≡ ok merged_manifest
unfolding merge_layers verify_signatures verify_layer check_signature merge_sorted sort place
merged = refl

one_principal-IsWellFormed :
    (p : PrincipalPolicy)
    → Distinct p.column_masks
    → Distinct p.tag_masks
    → IsWellFormed (one_principal p)
unfolding get
one_principal-IsWellFormed p dm dt = record {
  principals = (refl, tt);
  masks = λ q r e. let same : p ≡ r = ground arith in rw (← same) dm;
  tags = λ q r e. let same : p ≡ r = ground arith in rw (← same) dt;
  bindings = λ d e. cc;
}

eng-IsWellFormed : (b : Bool) → IsWellFormed (one_principal (if b then global_eng else local_eng))
unfolding get
eng-IsWellFormed true = one_principal-IsWellFormed global_eng (refl, tt) tt
eng-IsWellFormed false = one_principal-IsWellFormed local_eng (refl, tt) tt

reads : (s : String) (m : PolicyManifest) → codec.manifest_from_str s ≡ ok m → IsWellFormed m
reads s m h = subst IsWellFormed (ok-injective h) (eng-IsWellFormed (str_eq s "G"))

merge_layers-IsSigned_example : All (IsSigned codec (9 ∷ [])) contents
merge_layers-IsSigned_example = merge_layers-IsSigned codec manager (9 ∷ []) contents refl merged

-- The cap of the global layer and the filter of the local one are both kept.
merge_layers-Enforces_example : Enforces "eng" merged_manifest local_eng
unfolding get
merge_layers-Enforces_example =
    merge_layers-Enforces codec reads manager contents parsed_layers merged_manifest
      (local, one_principal local_eng) "eng" local_eng verified merged (inr (inl refl)) refl

-- The global layer masks the column that the local one shows.
merge_layers-column_mask_example : column_mask "eng" "email" merged_manifest ≡ some "HASH"
unfolding get
merge_layers-column_mask_example =
    merge_layers-column_mask codec reads manager contents parsed_layers merged_manifest
      (global, one_principal global_eng) "eng" "email" "HASH" verified merged (inl refl) refl
      ((λ h. inr refl), ((λ h. absurd (omega (arith, h))), tt))
