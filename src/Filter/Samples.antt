-- ===== src/Filter/Samples.antt =====
-- Arrays of integers, with kernels that compare row by row, for the runs of the tests.
use holonomy_source.Common.{refl, false, not, Option, none, List, [], length}
use holonomy_source.Common.Int.{ℤ, eqb_ℤ, ltb_ℤ}
use holonomy_source.Common.Result.{ok}
use holonomy_source.Arrow.{Arrow, DataType, utf8, int32, int64, date32, date64, timestamp}
use holonomy_source.Filter.{Kernels, Chrono}
use holonomy_source.Filter.Rows.{zip_rows, somes, KernelLaws}

pub record Column : Type 0 where
  pub type : DataType
  pub held : List (Option ℤ)

abbrev pub typed : DataType → List ℤ → Column
typed t vs = record { type = t; held = somes vs }

abbrev pub arrow : Arrow
arrow = record {
  Array = Column;
  data_type = λ x. x.type;
  len = λ x. length x.held;
  is_null = λ x i. false;
  as_string = λ x. none;
  as_large_string = λ x. none;
  string_array = λ vs. typed utf8 [];
  large_string_array = λ vs. typed utf8 [];
  null_array = λ t n. typed t [];
}

abbrev pub kernels : Kernels arrow
kernels = record {
  int32_array = typed int32;
  int64_array = typed int64;
  date32_array = typed date32;
  date64_array = typed date64;
  timestamp_array = λ u. typed (timestamp u);
  cmp_eq = λ x y. ok (zip_rows eqb_ℤ x.held y.held);
  cmp_neq = λ x y. ok (zip_rows (λ a b. not (eqb_ℤ a b)) x.held y.held);
  cmp_gt = λ x y. ok (zip_rows (λ a b. ltb_ℤ b a) x.held y.held);
  cmp_lt = λ x y. ok (zip_rows ltb_ℤ x.held y.held);
}

abbrev pub kernel_laws : KernelLaws arrow kernels
kernel_laws = record {
  values = λ x. x.held;
  length-values = λ x. refl;
  type-int64_array = λ vs. refl;
  type-int32_array = λ vs. refl;
  values-int64_array = λ vs. refl;
  values-int32_array = λ vs. refl;
  eq_rows = λ x y t u. refl;
  neq_rows = λ x y t u. refl;
  gt_rows = λ x y t u. refl;
  lt_rows = λ x y t u. refl;
}

abbrev pub chrono : Chrono
chrono = record {
  ymd_days = λ s. none;
  dmy_days = λ s. none;
  rfc3339_days = λ s. none;
  rfc3339_millis = λ s. none;
  dmy_time_millis = λ s. none;
}
