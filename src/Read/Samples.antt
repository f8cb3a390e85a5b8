-- ===== src/Read/Samples.antt =====
-- A policy with row filters, a batch of two columns of integers and functions on it, for the runs of
-- the tests.
use holonomy_source.Common.{ℕ, String, true, false, none, some, Option, List, [], ◌∷◌, str_eq}
use holonomy_source.Common.Dict.{Dict}
use holonomy_source.Common.Int.{ℤ, pos}
use holonomy_source.Common.Result.{ok, err}
use holonomy_source.Arrow.{int64}
use holonomy_source.Linter.{Engine}
use holonomy_source.Policy.{global, PolicyManifest, PrincipalPolicy}
use holonomy_source.Policy.Manager.{Codec, PolicyManager}
use holonomy_source.Filter.Samples.{Column, arrow}
use holonomy_source.Read.Batches.{Compute}
use holonomy_source.Read.Pick.{select}
use holonomy_source.Read.Rows.{replaced}

abbrev pub keep_case : String → String
keep_case s = s

abbrev pub engine : Engine arrow
engine = record {
  Regex = String;
  new = λ s. ok s;
  is_match = str_eq;
  Float = ℕ;
  lt = λ a b. false;
  as_f64 = λ x. none;
  null_count = λ x. 0;
}

abbrev pub analyst : PrincipalPolicy
analyst = record {
  global_row_filters = "age > 18" ∷ [];
  selective_row_filters = "level < 3" ∷ "floor > 1" ∷ [];
  column_masks = [];
  tag_masks = [];
  sampling_cap = none;
}

abbrev pub policy : PolicyManifest
policy = record {
  version = "1.0";
  principals = ("analyst", analyst) ∷ [];
  encryption = none;
  purpose_bindings = none;
}

abbrev pub codec : Codec
codec = record {
  Key = List ℕ;
  Signature = List ℕ;
  envelope_from_str = λ s. ok (record { signature = s; payload = s });
  manifest_from_str = λ s. ok policy;
  key_from_bytes = λ bytes. some bytes;
  hex_decode = λ s. some [];
  signature_from_slice = λ bytes. some bytes;
  verify = λ key payload signature. true;
}

abbrev pub manager : PolicyManager
manager = record { provider = λ target. ok ((global, "g") ∷ []); public_key = none }

abbrev pub integers : List (Option ℤ) → Column
integers vs = record { type = int64; held = vs }

abbrev pub compute : Compute arrow
compute = record {
  filter = λ x mask. ok (record { type = x.type; held = select mask x.held });
  concat = λ xs. elim xs [ [] ↦ err "empty" | (x ∷ more) ↦ ok x ];
  try_new = λ b ys. ok (replaced b ys);
}

abbrev pub ages : Column
ages = integers (some (pos 20) ∷ some (pos 7) ∷ none ∷ some (pos 44) ∷ [])

abbrev pub levels : Column
levels = integers (some (pos 1) ∷ some (pos 2) ∷ some (pos 1) ∷ some (pos 5) ∷ [])

abbrev pub batch : Dict Column
batch = ("age", ages) ∷ ("level", levels) ∷ []
