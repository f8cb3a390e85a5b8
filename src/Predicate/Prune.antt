-- ===== src/Predicate/Prune.antt =====
-- No row group is dropped that holds a row which meets every predicate.
use mathlib.Core.Option.{some-injective}
use holonomy_source.Common.{
  ℕ, zero, suc, ◌+◌, String, ◌≡◌, subst, refl, inl, inr, Bool, true, false, not, ◌&&◌, Option, none,
  some, List, [], ◌∷◌, arith, get_elem?, All, Has, str_eq, eq_iff, as_bytes, bytes_le,
  if◌then◌else◌, Option-cases, Bool-cases,
}
use holonomy_source.Common.Int.{ℤ, leb_ℤ, ltb_ℤ, eqb_ℤ, eqb_ℤ_iff}
use holonomy_source.Predicate.{
  int64, string, Predicate, eq, neq, gt, lt, column, Bounds, int64_bounds, int32_bounds,
  other_bounds, Statistics, within, max_above, min_below, bytes_within, evaluate_statistics,
  ColumnChunk, RowGroup, Metadata, position, may_match, keep, kept_from, get_pruned_row_groups,
}

-- A value that is not null.
pub data Cell : Type 0 where
  number : ℤ → Cell
  text : String → Cell

-- A row gives each column a value, or null.
abbrev pub Row : Type 0
Row = String → Option Cell

-- Does the value meet the comparison? A null, or a value of the other kind, does not.
abbrev pub meets_value : Predicate → Option Cell → Bool
meets_value (eq c (int64 v)) (some (number w)) = eqb_ℤ w v
meets_value (neq c (int64 v)) (some (number w)) = not (eqb_ℤ w v)
meets_value (gt c (int64 v)) (some (number w)) = ltb_ℤ v w
meets_value (lt c (int64 v)) (some (number w)) = ltb_ℤ w v
meets_value (eq c (string v)) (some (text s)) = str_eq s v
meets_value (neq c (string v)) (some (text s)) = not (str_eq s v)
meets_value (gt c (string v)) (some (text s)) = not (bytes_le (as_bytes s) (as_bytes v))
meets_value (lt c (string v)) (some (text s)) = not (bytes_le (as_bytes v) (as_bytes s))
meets_value p cell = false

abbrev pub meets : Predicate → Row → Bool
meets p row = meets_value p (row (column p))

abbrev pub lower_bound : Option ℤ → ℤ → Bool
lower_bound none w = true
lower_bound (some lo) w = leb_ℤ lo w

abbrev pub upper_bound : Option ℤ → ℤ → Bool
upper_bound none w = true
upper_bound (some hi) w = leb_ℤ w hi

abbrev pub lower_bytes : Option (List ℕ) → List ℕ → Bool
lower_bytes none bs = true
lower_bytes (some lo) bs = bytes_le lo bs

abbrev pub upper_bytes : Option (List ℕ) → List ℕ → Bool
upper_bytes none bs = true
upper_bytes (some hi) bs = bytes_le bs hi

abbrev pub bounds_cover : Bounds → ℤ → Bool
bounds_cover (int64_bounds lo hi) w = lower_bound lo w && upper_bound hi w
bounds_cover (int32_bounds lo hi) w = lower_bound lo w && upper_bound hi w
bounds_cover other_bounds w = true

-- The statistics hold for a value: an integer lies between the bounds as numbers, the bytes of a
-- text lie between the bounds as bytes. They say nothing of a null.
abbrev pub covers : Statistics → Option Cell → Bool
covers stats none = true
covers stats (some (number w)) = bounds_cover stats.bounds w
covers stats (some (text s)) =
    lower_bytes stats.min_bytes (as_bytes s) && upper_bytes stats.max_bytes (as_bytes s)

-- If the statistics of a row group hold for a value, and the value meets the predicate, the row
-- group is not ruled out.
pub evaluate_statistics_sound :
    (p : Predicate) (stats : Statistics) (cell : Option Cell)
    → covers stats cell ≡ true
    → meets_value p cell ≡ true
    → evaluate_statistics p stats ≡ true
unfolding evaluate_statistics within max_above min_below bytes_within
evaluate_statistics_sound (neq c v) stats cell h m = refl
evaluate_statistics_sound (eq c (int64 v)) stats (some (number w)) h m =
    let e : w ≡ v = (eqb_ℤ_iff w v).0 m in ground (arith, e)
evaluate_statistics_sound (eq c (string v)) stats (some (text s)) h m = ground (arith, eq_iff s v)
evaluate_statistics_sound (gt c (int64 v)) stats (some (number w)) h m = ground arith
evaluate_statistics_sound (lt c (int64 v)) stats (some (number w)) h m = ground arith
evaluate_statistics_sound (gt c (string v)) stats cell h m = refl
evaluate_statistics_sound (lt c (string v)) stats cell h m = refl
evaluate_statistics_sound p stats cell h m = cc

-- The statistics of each column of the row group hold for the row.
pub record Describes (fields : List String) (group : RowGroup) (row : Row) : Type 0 where
  pub at :
      (name : String) (i : ℕ) (chunk : ColumnChunk) (stats : Statistics)
      → position 0 name fields ≡ some i
      → get_elem? group i ≡ some chunk
      → chunk.statistics ≡ some stats
      → covers stats (row name) ≡ true

may_match_sound :
    (fields : List String) (group : RowGroup) (row : Row) (p : Predicate)
    → Describes fields group row
    → meets p row ≡ true
    → may_match fields group p ≡ true
unfolding may_match
may_match_sound fields group row p d m = elim (Option-cases (position 0 (column p) fields)) [
  | inl e ↦ ground (arith, e)
  | inr (i, e) ↦ elim (Option-cases (get_elem? group i)) [
    | inl e' ↦ ground (arith, e, e')
    | inr (chunk, e') ↦ elim (Option-cases chunk.statistics) [
      | inl e'' ↦ ground (arith, e, e', e'')
      | inr (stats, e'') ↦ ground (
        arith,
        e,
        e',
        e'',
        evaluate_statistics_sound p stats (row (column p)) (d.at (column p) i chunk stats e e' e'')
            m,
      )
    ]
  ]
]

keep_sound :
    (fields : List String) (group : RowGroup) (row : Row) (ps : List Predicate)
    → Describes fields group row
    → All (λ p. meets p row ≡ true) ps
    → keep fields ps group ≡ true
unfolding keep
keep_sound fields group row [] d ms = refl
keep_sound fields group row (p ∷ ps) d (m, ms) =
    rw (may_match_sound fields group row p d m) (keep_sound fields group row ps d ms)

Has-kept_from :
    (n i : ℕ) (fields : List String) (ps : List Predicate) (gs : List RowGroup) (g : RowGroup)
    → get_elem? gs i ≡ some g
    → keep fields ps g ≡ true
    → Has (n + i) (kept_from n fields ps gs)
unfolding kept_from
Has-kept_from n i fields ps [] g e k = cc
Has-kept_from n zero fields ps (h ∷ gs) g e k =
    let same : h ≡ g = some-injective _ _ e in
    let k' : keep fields ps h ≡ true = rw same k in rw k' (inl (omega arith))
Has-kept_from n (suc i) fields ps (h ∷ gs) g e k =
    let rest : Has (n + suc i) (kept_from (suc n) fields ps gs) =
      subst (λ (x : ℕ). Has x (kept_from (suc n) fields ps gs)) (omega arith)
        (Has-kept_from (suc n) i fields ps gs g e k) in
    elim (Bool-cases (keep fields ps h)) [ inl y ↦ rw y (inr rest) | inr x ↦ rw x rest ]

-- A row group with a row that meets every predicate, and for which the statistics of the file hold,
-- is among the row groups that are read, if the column that is asked for is one of the file.
pub get_pruned_row_groups_sound :
    (metadata : Metadata) (name : String) (ps : List Predicate) (j i : ℕ) (g : RowGroup) (row : Row)
    → position 0 name metadata.fields ≡ some j
    → get_elem? metadata.row_groups i ≡ some g
    → Describes metadata.fields g row
    → All (λ p. meets p row ≡ true) ps
    → Has i (get_pruned_row_groups metadata name ps)
unfolding get_pruned_row_groups
get_pruned_row_groups_sound metadata name ps j i g row found at d ms =
    rw (found, get_pruned_row_groups)
      (subst (λ (x : ℕ). Has x (kept_from 0 metadata.fields ps metadata.row_groups)) (omega arith)
        (Has-kept_from 0 i metadata.fields ps metadata.row_groups g at
          (keep_sound metadata.fields g row ps d ms)))

kept_from-Has :
    (n i : ℕ) (fields : List String) (ps : List Predicate) (gs : List RowGroup)
    → Has i (kept_from n fields ps gs)
    → (k : ℕ) × (g : RowGroup) × (i ≡ n + k) × (get_elem? gs k ≡ some g) × (keep fields ps g ≡ true)
unfolding kept_from
kept_from-Has n i fields ps [] h = elim h [ ]
kept_from-Has n i fields ps (g ∷ gs) h =
    go (kept_from-Has (suc n) i fields ps gs) (keep fields ps g) refl h
  where
    go :
        (Has i (kept_from (suc n) fields ps gs)
          → (k : ℕ) × (g' : RowGroup) × (i ≡ suc n + k)
            × (get_elem? gs k ≡ some g')
            × (keep fields ps g' ≡ true))
        → (b : Bool) → keep fields ps g ≡ b
        → Has i (if b then n ∷ kept_from (suc n) fields ps gs else kept_from (suc n) fields ps gs)
        → (k : ℕ) × (g' : RowGroup) × (i ≡ n + k)
          × (get_elem? (g ∷ gs) k ≡ some g')
          × (keep fields ps g' ≡ true)
    go ih true e (inl s) = (0, g, omega arith, refl, e)
    go ih true e (inr r) = let (k, g', a, b, c) = ih r in (suc k, g', omega arith, b, c)
    go ih false e r = let (k, g', a, b, c) = ih r in (suc k, g', omega arith, b, c)

-- A row group that is read is one of the file, and no predicate rules it out.
pub get_pruned_row_groups_kept :
    (metadata : Metadata) (name : String) (ps : List Predicate) (i : ℕ)
    → Has i (get_pruned_row_groups metadata name ps)
    → (g : RowGroup) × (get_elem? metadata.row_groups i ≡ some g)
      × (keep metadata.fields ps g ≡ true)
unfolding get_pruned_row_groups
get_pruned_row_groups_kept metadata name ps i h = go (position 0 name metadata.fields) h
  where
    go :
        (o : Option ℕ)
        → Has i (elim o [ none ↦ [] | some _ ↦ kept_from 0 metadata.fields ps metadata.row_groups ])
        → (g : RowGroup) × (get_elem? metadata.row_groups i ≡ some g)
          × (keep metadata.fields ps g ≡ true)
    go none k = elim k [ ]
    go (some j) k =
        let (m, g, a, b, c) = kept_from-Has 0 i metadata.fields ps metadata.row_groups k in
        (g, subst (λ (x : ℕ). get_elem? metadata.row_groups x ≡ some g) (omega arith) b, c)
