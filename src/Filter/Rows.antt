-- ===== src/Filter/Rows.antt =====
-- holonomy-core/src/governance/simd_ops.rs, `evaluate_filter`: the rows of an integer column that pass.
use holonomy_source.Common.{
  ◌<◌, ◌^◌, String, ◌≡◌, refl, sym, ap, ◌∙◌, ◌⊎◌, inl, inr, Bool, true, false, not, Option, none,
  some, List, [], ◌∷◌, arith, length, All, ◌≢◌,
}
use holonomy_source.Common.Int.{ℤ, pos, negsuc, eqb_ℤ, ltb_ℤ}
use holonomy_source.Common.Result.{Result, ok}
use holonomy_source.Predicate
use mathlib.Core.Option.{some-injective}
use holonomy_source.Predicate.{
  PredicateValue, string, Predicate, eq, neq, gt, lt, Statistics, evaluate_statistics,
}
use holonomy_source.Predicate.Prune.{Cell, number, meets_value, covers, evaluate_statistics_sound}
use holonomy_source.Arrow.{Arrow, int32, int64}
use holonomy_source.Linter.Types.{same_type}
use holonomy_source.Filter.{
  Kernels, Chrono, residue, wrap, repeat, operand, scalar_array, compare, evaluate_filter,
}

-- Row by row; a null gives a null.
abbrev pub zip_rows : (ℤ → ℤ → Bool) → List (Option ℤ) → List (Option ℤ) → List (Option Bool)
zip_rows f [] ys = []
zip_rows f (x ∷ xs) [] = []
zip_rows f (none ∷ xs) (y ∷ ys) = none ∷ zip_rows f xs ys
zip_rows f (some x ∷ xs) (none ∷ ys) = none ∷ zip_rows f xs ys
zip_rows f (some x ∷ xs) (some y ∷ ys) = some (f x y) ∷ zip_rows f xs ys

abbrev pub map_rows : (ℤ → Bool) → List (Option ℤ) → List (Option Bool)
map_rows f [] = []
map_rows f (none ∷ xs) = none ∷ map_rows f xs
map_rows f (some x ∷ xs) = some (f x) ∷ map_rows f xs

abbrev pub somes : List ℤ → List (Option ℤ)
somes [] = []
somes (x ∷ xs) = some x ∷ somes xs

-- The range of an `i32`.
abbrev pub InI32 : ℤ → Type 0
InI32 (pos n) = n < 2 ^ 31
InI32 (negsuc n) = n < 2 ^ 31

-- The kernels compare integer arrays of one type row by row.
pub record KernelLaws (arrow : Arrow) (kernels : Kernels arrow) : Type 0 where
  pub values : arrow.Array → List (Option ℤ)
  pub length-values : (x : arrow.Array) → length (values x) ≡ arrow.len x
  pub type-int64_array : (vs : List ℤ) → arrow.data_type (kernels.int64_array vs) ≡ int64
  pub type-int32_array : (vs : List ℤ) → arrow.data_type (kernels.int32_array vs) ≡ int32
  pub values-int64_array : (vs : List ℤ) → values (kernels.int64_array vs) ≡ somes vs
  pub values-int32_array : (vs : List ℤ) → values (kernels.int32_array vs) ≡ somes vs
  pub eq_rows :
      (x y : arrow.Array)
      → (arrow.data_type x ≡ int64) ⊎ (arrow.data_type x ≡ int32)
      → arrow.data_type y ≡ arrow.data_type x
      → kernels.cmp_eq x y ≡ ok (zip_rows eqb_ℤ (values x) (values y))
  pub neq_rows :
      (x y : arrow.Array)
      → (arrow.data_type x ≡ int64) ⊎ (arrow.data_type x ≡ int32)
      → arrow.data_type y ≡ arrow.data_type x
      → kernels.cmp_neq x y ≡ ok (zip_rows (λ a b. not (eqb_ℤ a b)) (values x) (values y))
  pub gt_rows :
      (x y : arrow.Array)
      → (arrow.data_type x ≡ int64) ⊎ (arrow.data_type x ≡ int32)
      → arrow.data_type y ≡ arrow.data_type x
      → kernels.cmp_gt x y ≡ ok (zip_rows (λ a b. ltb_ℤ b a) (values x) (values y))
  pub lt_rows :
      (x y : arrow.Array)
      → (arrow.data_type x ≡ int64) ⊎ (arrow.data_type x ≡ int32)
      → arrow.data_type y ≡ arrow.data_type x
      → kernels.cmp_lt x y ≡ ok (zip_rows ltb_ℤ (values x) (values y))

wrap-eq_self : (v : ℤ) → InI32 v → wrap 32 v ≡ v
unfolding wrap residue
wrap-eq_self (pos n) h = ground (arith, h)
wrap-eq_self (negsuc n) h = ground (arith, h)

zip_rows-repeat :
    (f : ℤ → ℤ → Bool) (v : ℤ) (xs : List (Option ℤ))
    → zip_rows f xs (somes (repeat v (length xs))) ≡ map_rows (λ w. f w v) xs
unfolding repeat
zip_rows-repeat f v [] = refl
zip_rows-repeat f v (none ∷ xs) = ap (λ l. none ∷ l) (zip_rows-repeat f v xs)
zip_rows-repeat f v (some x ∷ xs) = ap (λ l. some (f x v) ∷ l) (zip_rows-repeat f v xs)

module _ (arrow : Arrow) (kernels : Kernels arrow) (laws : KernelLaws arrow kernels)
    (chrono : Chrono) where
  open arrow use {Array, data_type, len}

  -- The array that an integer column is compared with: as many rows, of the same type.
  abbrev Scalar : ℤ → Array → Type 0
  Scalar v x =
      (y : Array) × (scalar_array arrow kernels chrono (Predicate.int64 v) x ≡ ok y)
      × (data_type y ≡ data_type x)
      × (laws.values y ≡ somes (repeat v (length (laws.values x))))

  Scalar-int64 : (v : ℤ) (x : Array) → data_type x ≡ int64 → Scalar v x
  unfolding scalar_array same_type
  Scalar-int64 v x t = (
    kernels.int64_array (repeat v (len x)),
    rw (t, scalar_array) refl,
    laws.type-int64_array _ ∙ sym t,
    laws.values-int64_array _ ∙ ap (λ n. somes (repeat v n)) (sym (laws.length-values x)),
  )

  Scalar-int32 : (v : ℤ) (x : Array) → InI32 v → data_type x ≡ int32 → Scalar v x
  unfolding scalar_array same_type
  Scalar-int32 v x r t = (
    kernels.int32_array (repeat (wrap 32 v) (len x)),
    rw (t, scalar_array) refl,
    laws.type-int32_array _ ∙ sym t,
    laws.values-int32_array _
        ∙ ap (λ w. somes (repeat w (len x))) (wrap-eq_self v r)
        ∙ ap (λ n. somes (repeat v n)) (sym (laws.length-values x)),
  )

  -- A column of a 64-bit type, or of a 32-bit one that the number fits.
  abbrev pub Fits : ℤ → Array → Type 0
  Fits v x = (data_type x ≡ int64) ⊎ ((data_type x ≡ int32) × InI32 v)

  Scalar-Fits : (v : ℤ) (x : Array) → Fits v x → Scalar v x
  Scalar-Fits v x (inl t) = Scalar-int64 v x t
  Scalar-Fits v x (inr (t, r)) = Scalar-int32 v x r t

  Fits-type : (v : ℤ) (x : Array) → Fits v x → (data_type x ≡ int64) ⊎ (data_type x ≡ int32)
  Fits-type v x (inl t) = inl t
  Fits-type v x (inr (t, r)) = inr t

  -- The rows of the column that meet a predicate; a null gives a null.
  abbrev pub met_rows : Predicate → Array → List (Option Bool)
  met_rows p x = map_rows (λ w. meets_value p (some (number w))) (laws.values x)

  -- The comparison with the repeated number, from the law of a kernel.
  kernel_rows :
      (f : ℤ → ℤ → Bool) (v : ℤ) (x y : Array) {r : Result String (List (Option Bool))}
      → laws.values y ≡ somes (repeat v (length (laws.values x)))
      → r ≡ ok (zip_rows f (laws.values x) (laws.values y))
      → r ≡ ok (map_rows (λ w. f w v) (laws.values x))
  kernel_rows f v x y e k =
      k ∙ ap ok (ap (zip_rows f (laws.values x)) e ∙ zip_rows-repeat f v (laws.values x))

  compare-eq_met :
      (p : Predicate) (v : ℤ) (x y : Array)
      → operand p ≡ Predicate.int64 v
      → (data_type x ≡ int64) ⊎ (data_type x ≡ int32)
      → data_type y ≡ data_type x
      → laws.values y ≡ somes (repeat v (length (laws.values x)))
      → compare arrow kernels chrono p x y ≡ ok (met_rows p x)
  unfolding compare operand
  compare-eq_met (eq c (Predicate.int64 w)) v x y o t u e =
      let same : v ≡ w = cc in rw (← same) (kernel_rows eqb_ℤ v x y e (laws.eq_rows x y t u))
  compare-eq_met (neq c (Predicate.int64 w)) v x y o t u e =
      let same : v ≡ w = cc in
      rw (← same) (kernel_rows (λ a b. not (eqb_ℤ a b)) v x y e (laws.neq_rows x y t u))
  compare-eq_met (gt c (Predicate.int64 w)) v x y o t u e =
      let same : v ≡ w = cc in
      rw (← same) (kernel_rows (λ a b. ltb_ℤ b a) v x y e (laws.gt_rows x y t u))
  compare-eq_met (lt c (Predicate.int64 w)) v x y o t u e =
      let same : v ≡ w = cc in rw (← same) (kernel_rows ltb_ℤ v x y e (laws.lt_rows x y t u))
  compare-eq_met (eq c (string s)) v x y o t u e = cc
  compare-eq_met (neq c (string s)) v x y o t u e = cc
  compare-eq_met (gt c (string s)) v x y o t u e = cc
  compare-eq_met (lt c (string s)) v x y o t u e = cc

  -- By the laws of the comparison kernels: for a predicate with a number, on a column of 64-bit
  -- integers, or of 32-bit ones if the number is in their range, the filter gives true exactly on
  -- the rows whose value meets the predicate, false on those whose value does not, and null on
  -- nulls.
  pub evaluate_filter-eq_met :
      (p : Predicate) (v : ℤ) (x : Array)
      → operand p ≡ Predicate.int64 v
      → Fits v x
      → evaluate_filter arrow kernels chrono x p ≡ ok (met_rows p x)
  unfolding evaluate_filter
  evaluate_filter-eq_met p v x o fits =
      let (y, s, t, e) = Scalar-Fits v x fits in
      let c = compare-eq_met p v x y o (Fits-type v x fits) t e in ground (arith, o, s, c)

  -- A value of the column as a cell of a row.
  abbrev pub cell : Option ℤ → Option Cell
  cell none = none
  cell (some w) = some (number w)

  none_met :
      (p : Predicate) (stats : Statistics) (ws : List (Option ℤ))
      → All (λ o. covers stats (cell o) ≡ true) ws
      → evaluate_statistics p stats ≡ false
      → All (λ r. r ≢ some true) (map_rows (λ w. meets_value p (some (number w))) ws)
  none_met p stats [] c h = tt
  none_met p stats (none ∷ ws) (k, c) h = ((λ e. cc), none_met p stats ws c h)
  none_met p stats (some w ∷ ws) (k, c) h = (
    λ e.
        let m : meets_value p (some (number w)) ≡ true = some-injective _ _ e in
        let t = evaluate_statistics_sound p stats (some (number w)) k m in ground (arith, t, h),
    none_met p stats ws c h,
  )

  -- By the laws of the comparison kernels: for a predicate with a number, on a column of 64-bit
  -- integers, or of 32-bit ones if the number is in their range, whose values the statistics of a
  -- row group cover: if the statistics rule the row group out, the filter passes none of its rows.
  pub evaluate_filter-pruned :
      (p : Predicate) (v : ℤ) (x : Array) (stats : Statistics)
      → operand p ≡ Predicate.int64 v
      → Fits v x
      → All (λ o. covers stats (cell o) ≡ true) (laws.values x)
      → evaluate_statistics p stats ≡ false
      → (rows : List (Option Bool)) × (evaluate_filter arrow kernels chrono x p ≡ ok rows)
        × All (λ r. r ≢ some true) rows
  evaluate_filter-pruned p v x stats o fits c h =
      (met_rows p x, evaluate_filter-eq_met p v x o fits, none_met p stats (laws.values x) c h)
