-- ===== src/Read/Rows.antt =====
-- holonomy-core/src/manager/read_orchestrator.rs: the rows that the loop over the predicates keeps.
use holonomy_source.Common.{
  ℕ, suc, ◌≡◌, refl, sym, ap, ◌∙◌, String, Bool, true, false, Option, none, some, List, [], ◌∷◌,
  map, arith, length, All, str_eq,
}
use holonomy_source.Common.Dict
use holonomy_source.Common.Dict.{Dict}
use holonomy_source.Common.Int.{ℤ}
use holonomy_source.Common.Result.{ok}
use holonomy_source.Arrow.{Arrow}
use holonomy_source.Predicate
use holonomy_source.Predicate.{Predicate, column}
use holonomy_source.Predicate.Prune.{number, meets_value}
use holonomy_source.Filter.{Kernels, Chrono, operand, repeat}
use holonomy_source.Filter.Rows.{KernelLaws, Fits, map_rows, met_rows, evaluate_filter-eq_met}
use holonomy_source.Read.Batches.{Compute, filter_columns, filter_by}
use holonomy_source.Read.Pick.{pick, select, trues, zip_and, length-pick, length-map}

-- The arrays in the place of the columns of a batch.
abbrev pub replaced : {V : Type 0} → Dict V → List V → Dict V
replaced [] ys = []
replaced (c ∷ b) [] = []
replaced ((name, x) ∷ b) (y ∷ ys) = (name, y) ∷ replaced b ys

-- An array is its cells, of which some are integers. A filter keeps the type of an array and the cells
-- under a true, and `try_new` takes arrays of the types of the schema and of one length, where there is
-- one.
pub record ComputeLaws (arrow : Arrow) (kernels : Kernels arrow) (laws : KernelLaws arrow kernels)
    (compute : Compute arrow) : Type 1 where
  pub Cell : Type 0
  pub cells : arrow.Array → List Cell
  pub integer : Cell → Option ℤ
  pub values-cells : (x : arrow.Array) → laws.values x ≡ map integer (cells x)
  pub filter_cells :
      (x : arrow.Array) (mask : List (Option Bool))
      → length mask ≡ length (cells x)
      → (y : arrow.Array) × (compute.filter x mask ≡ ok y)
        × (arrow.data_type y ≡ arrow.data_type x)
        × (cells y ≡ select mask (cells x))
  -- The arrays fit the schema of the batch, and have a number of rows.
  pub try_new_fits :
      (n : ℕ) (c : String × arrow.Array) (b : Dict arrow.Array) (ys : List arrow.Array)
      → map arrow.data_type ys ≡ map (λ (d : String × arrow.Array). arrow.data_type d.1) (c ∷ b)
      → All (λ y. length (cells y) ≡ n) ys
      → compute.try_new (c ∷ b) ys ≡ ok (replaced (c ∷ b) ys)

module _ (arrow : Arrow) (kernels : Kernels arrow) (laws : KernelLaws arrow kernels)
    (chrono : Chrono) (compute : Compute arrow)
    (compute_laws : ComputeLaws arrow kernels laws compute) where
  open arrow use {Array, data_type}
  open compute_laws use {Cell, cells, integer}

  -- Does the cell hold an integer that meets the predicate?
  abbrev meets_integer : Predicate → Option ℤ → Bool
  meets_integer p none = false
  meets_integer p (some w) = meets_value p (some (number w))

  abbrev pub meets_cell : Predicate → Cell → Bool
  meets_cell p c = meets_integer p (integer c)

  -- The rows of a column that meet a predicate.
  abbrev pub met : Predicate → Option Array → List Bool
  met p none = []
  met p (some x) = map (meets_cell p) (cells x)

  -- The rows of a batch that meet all predicates, where the batch has `n` rows.
  abbrev pub passes : List Predicate → Dict Array → ℕ → List Bool
  passes [] b n = repeat true n
  passes (p ∷ ps) b n = zip_and (met p (Dict.get (column p) b)) (passes ps b n)

  -- A predicate with a number, on a column of integers that it can be compared with.
  abbrev pub Numeric : Predicate → Dict Array → Type 0
  Numeric p b =
      (v : ℤ) × (x : Array) × (operand p ≡ Predicate.int64 v)
      × (Dict.get (column p) b ≡ some x)
      × Fits arrow kernels laws chrono v x

  abbrev pub HasRows : ℕ → Dict Array → Type 0
  HasRows n b = All (λ (c : String × Array). length (cells c.1) ≡ n) b

  select-cons :
      (b : Bool) (ms : List (Option Bool)) (bs : List Bool) (xs : List Cell)
      → ((ys : List Cell) → select ms ys ≡ pick bs ys)
      → select (some b ∷ ms) xs ≡ pick (b ∷ bs) xs
  select-cons b ms bs [] same = refl
  select-cons true ms bs (x ∷ xs) same = ap (λ l. x ∷ l) (same xs)
  select-cons false ms bs (x ∷ xs) same = same xs

  select-row :
      (p : Predicate) (o : Option ℤ) (os : List (Option ℤ)) (bs : List Bool) (xs : List Cell)
      → ((ys : List Cell)
          → select (map_rows (λ w. meets_value p (some (number w))) os) ys ≡ pick bs ys)
      → select (map_rows (λ w. meets_value p (some (number w))) (o ∷ os)) xs
        ≡ pick (meets_integer p o ∷ bs) xs
  select-row p none os bs [] same = refl
  select-row p none os bs (x ∷ xs) same = same xs
  select-row p (some w) os bs xs same =
      select-cons (meets_value p (some (number w)))
        (map_rows (λ w. meets_value p (some (number w))) os) bs xs same

  -- The mask of a predicate picks the cells that meet it.
  select-met_rows :
      (p : Predicate) (cs xs : List Cell)
      → select (map_rows (λ w. meets_value p (some (number w))) (map integer cs)) xs
        ≡ pick (map (meets_cell p) cs) xs
  select-met_rows p [] xs = refl
  select-met_rows p (c ∷ cs) xs =
      select-row p (integer c) (map integer cs) (map (meets_cell p) cs) xs (select-met_rows p cs)

  length-map_rows : (f : ℤ → Bool) (vs : List (Option ℤ)) → length (map_rows f vs) ≡ length vs
  length-map_rows f [] = refl
  length-map_rows f (none ∷ vs) = ap suc (length-map_rows f vs)
  length-map_rows f (some v ∷ vs) = ap suc (length-map_rows f vs)

  -- The mask of a predicate on a column, and what it selects.
  mask_of : Predicate → Array → List (Option Bool)
  mask_of p x = met_rows arrow kernels laws chrono p x

  length-mask : (p : Predicate) (x : Array) → length (mask_of p x) ≡ length (cells x)
  unfolding mask_of
  length-mask p x =
      length-map_rows (λ w. meets_value p (some (number w))) (laws.values x)
      ∙ ap length (compute_laws.values-cells x)
      ∙ length-map integer (cells x)

  select-mask :
      (p : Predicate) (x : Array) (xs : List Cell)
      → select (mask_of p x) xs ≡ pick (met p (some x)) xs
  unfolding mask_of
  select-mask p x xs =
      ap (λ vs. select (map_rows (λ w. meets_value p (some (number w))) vs) xs)
        (compute_laws.values-cells x)
      ∙ select-met_rows p (cells x) xs

  -- A filtered batch: every column keeps its type and the picked cells.
  abbrev pub Picked : List Bool → Dict Array → List Array → Type 0
  Picked m [] [] = Unit
  Picked m [] (y ∷ ys) = ⊥
  Picked m (c ∷ b) [] = ⊥
  Picked m (c ∷ b) (y ∷ ys) =
      (data_type y ≡ data_type c.1) × (cells y ≡ pick m (cells c.1)) × Picked m b ys

  filter_columns-Picked :
      (p : Predicate) (x : Array) (b : Dict Array)
      → HasRows (length (cells x)) b
      → (ys : List Array) × (filter_columns arrow kernels chrono compute (mask_of p x) b ≡ ok ys)
        × Picked (met p (some x)) b ys
  unfolding filter_columns
  filter_columns-Picked p x [] rows = ([], refl, tt)
  filter_columns-Picked p x ((name, z) ∷ b) (r, rows) =
      let (y, f, t, k) = compute_laws.filter_cells z (mask_of p x) (length-mask p x ∙ sym r) in
      let (ys, g, q) = filter_columns-Picked p x b rows in
      (y ∷ ys, ground (arith, f, g), (t, k ∙ select-mask p x (cells z), q))

  -- A column that comes from another by a mask.
  abbrev pub Got : List Bool → Array → Option Array → Type 0
  Got m x o =
      (y : Array) × (o ≡ some y) × (data_type y ≡ data_type x) × (cells y ≡ pick m (cells x))

  pub get-replaced :
      (name : String) (m : List Bool) (b : Dict Array) (ys : List Array)
      → Picked m b ys
      → (x : Array) → Dict.get name b ≡ some x
      → Got m x (Dict.get name (replaced b ys))
  unfolding Dict.get
  get-replaced name m [] ys q x h = cc
  get-replaced name m ((k, z) ∷ b) [] q x h = elim q [ ]
  get-replaced name m ((k, z) ∷ b) (y ∷ ys) (t, c, q) x h =
      go (str_eq k name) refl (get-replaced name m b ys q x)
    where
      go :
          (e : Bool)
          → str_eq k name ≡ e
          → (Dict.get name b ≡ some x → Got m x (Dict.get name (replaced b ys)))
          → Got m x (Dict.get name ((k, y) ∷ replaced b ys))
      go true e later =
          let same : z ≡ x = ground (arith, h, e) in
          (y, ground (arith, e), t ∙ ap data_type same, c ∙ ap (λ w. pick m (cells w)) same)
      go false e later =
          let (y', g, t', c') = later (ground (arith, h, e)) in (y', ground (arith, g, e), t', c')

  -- What `try_new` needs.
  pub Picked-fits :
      (n : ℕ) (m : List Bool) (b : Dict Array) (ys : List Array)
      → length m ≡ n
      → HasRows n b
      → Picked m b ys
      → (map data_type ys ≡ map (λ (d : String × Array). data_type d.1) b)
        × All (λ y. length (cells y) ≡ trues m) ys
  Picked-fits n m [] [] l rows q = (refl, tt)
  Picked-fits n m (c ∷ b) (y ∷ ys) l (r, rows) (t, k, q) =
      let (types, lengths) = Picked-fits n m b ys l rows q in
      (
        ap (λ d. d ∷ map data_type ys) t ∙ ap (λ ds. data_type c.1 ∷ ds) types,
        (ap length k ∙ length-pick m (cells c.1) (l ∙ sym r), lengths),
      )
  Picked-fits n m [] (y ∷ ys) l rows q = elim q [ ]
  Picked-fits n m (c ∷ b) [] l rows q = elim q [ ]

  pub replaced-HasRows :
      (k : ℕ) (b : Dict Array) (ys : List Array)
      → All (λ y. length (cells y) ≡ k) ys
      → HasRows k (replaced b ys)
  replaced-HasRows k [] ys h = tt
  replaced-HasRows k (c ∷ b) [] h = tt
  replaced-HasRows k ((name, x) ∷ b) (y ∷ ys) (h, hs) = (h, replaced-HasRows k b ys hs)

  filter_columns-cons :
      (p : Predicate) (x : Array) (name : String) (z : Array) (b : Dict Array)
      → HasRows (length (cells x)) ((name, z) ∷ b)
      → (y : Array) × (ys : List Array) × (filter_columns arrow kernels chrono compute
            (mask_of p x)
            ((name, z) ∷ b)
          ≡ ok (y ∷ ys))
        × Picked (met p (some x)) ((name, z) ∷ b) (y ∷ ys)
  unfolding filter_columns
  filter_columns-cons p x name z b (r, rows) =
      let (y, f, t, k) = compute_laws.filter_cells z (mask_of p x) (length-mask p x ∙ sym r) in
      let (ys, g, q) = filter_columns-Picked p x b rows in
      (y, ys, ground (arith, f, g), (t, k ∙ select-mask p x (cells z), q))

  -- One predicate: the new batch, with the rows that meet it.
  pub filter_by-Picked :
      (p : Predicate) (v : ℤ) (x : Array) (name : String) (z : Array) (b : Dict Array)
      → operand p ≡ Predicate.int64 v
      → Fits arrow kernels laws chrono v x
      → HasRows (length (cells x)) ((name, z) ∷ b)
      → (y : Array) × (ys : List Array) × (filter_by arrow kernels chrono compute p x
            ((name, z) ∷ b)
          ≡ ok ((name, y) ∷ replaced b ys))
        × Picked (met p (some x)) ((name, z) ∷ b) (y ∷ ys)
  unfolding filter_by mask_of
  filter_by-Picked p v x name z b o fits rows =
      let (y, ys, f, q) = filter_columns-cons p x name z b rows in
      let (types, lengths) =
        Picked-fits (length (cells x)) (met p (some x)) ((name, z) ∷ b) (y ∷ ys)
          (length-map (meets_cell p) (cells x)) rows q in
      let made =
        compute_laws.try_new_fits (trues (met p (some x))) (name, z) b (y ∷ ys) types lengths in
      let evaluated = evaluate_filter-eq_met arrow kernels laws chrono p v x o fits in
      (y, ys, ground (arith, evaluated, f, made), q)
