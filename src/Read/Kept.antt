-- ===== src/Read/Kept.antt =====
-- holonomy-core/src/manager/read_orchestrator.rs: the loop over the predicates keeps the rows that meet
-- all of them.
use holonomy_source.Common.{
  ℕ, ◌≡◌, refl, sym, ap, ◌∙◌, subst, String, Bool, true, false, Option, some, List, [], ◌∷◌, map,
  arith, length, All, All-weaken, str_eq, inl, inr,
}
use holonomy_source.Common.Dict
use holonomy_source.Common.Dict.{Dict}
use holonomy_source.Common.Int.{ℤ}
use holonomy_source.Common.Result.{ok}
use holonomy_source.Arrow.{Arrow}
use holonomy_source.Predicate.{Predicate, column}
use holonomy_source.Filter.{Kernels, Chrono, repeat}
use holonomy_source.Filter.Rows.{KernelLaws, Fits}
use holonomy_source.Read.Batches.{Compute, filter_batch}
use holonomy_source.Read.Pick.{
  pick, trues, zip_and, pick-map, pick-repeat, zip_and-pick, pick-pick, pick-all, length-map,
}
use holonomy_source.Read.Rows.{
  replaced, ComputeLaws, meets_cell, met, passes, Numeric, HasRows, Picked, Got, get-replaced,
  Picked-fits, replaced-HasRows, filter_by-Picked,
}

module _ (arrow : Arrow) (kernels : Kernels arrow) (laws : KernelLaws arrow kernels)
    (chrono : Chrono) (compute : Compute arrow)
    (compute_laws : ComputeLaws arrow kernels laws compute) where
  open arrow use {Array, data_type}
  open compute_laws use {Cell, cells, integer}

  abbrev Shows : List Bool → Array → Option Array → Type 0
  Shows = Got arrow kernels laws chrono compute compute_laws

  abbrev IsNumeric : Predicate → Dict Array → Type 0
  IsNumeric = Numeric arrow kernels laws chrono compute compute_laws

  abbrev rows_met : Predicate → Option Array → List Bool
  rows_met = met arrow kernels laws chrono compute compute_laws

  abbrev Taken : List Bool → Dict Array → List Array → Type 0
  Taken = Picked arrow kernels laws chrono compute compute_laws

  abbrev Tall : ℕ → Dict Array → Type 0
  Tall = HasRows arrow kernels laws chrono compute compute_laws

  abbrev kept : List Predicate → Dict Array → ℕ → List Bool
  kept = passes arrow kernels laws chrono compute compute_laws

  get-Tall :
      (n : ℕ) (name : String) (b : Dict Array) (x : Array)
      → Tall n b
      → Dict.get name b ≡ some x
      → length (cells x) ≡ n
  unfolding Dict.get
  get-Tall n name [] x rows h = cc
  get-Tall n name ((k, z) ∷ b) x (r, rows) h = go (str_eq k name) refl (get-Tall n name b x rows)
    where
      go :
          (e : Bool)
          → str_eq k name ≡ e
          → (Dict.get name b ≡ some x → length (cells x) ≡ n)
          → length (cells x) ≡ n
      go true e later =
          let same : z ≡ x = ground (arith, h, e) in subst (λ w. length (cells w) ≡ n) same r
      go false e later = later (ground (arith, h, e))

  Fits-replaced :
      (v : ℤ) (x y : Array)
      → data_type y ≡ data_type x
      → Fits arrow kernels laws chrono v x
      → Fits arrow kernels laws chrono v y
  Fits-replaced v x y t (inl e) = inl (t ∙ e)
  Fits-replaced v x y t (inr (e, r)) = inr (t ∙ e, r)

  IsNumeric-replaced :
      (q : Predicate) (m : List Bool) (b : Dict Array) (ys : List Array)
      → Taken m b ys
      → IsNumeric q b
      → IsNumeric q (replaced b ys)
  IsNumeric-replaced q m b ys k (v, x, o, g, fits) =
      let (y, e, t, c) =
        get-replaced arrow kernels laws chrono compute compute_laws (column q) m b ys k x g in
      (v, y, o, e, Fits-replaced v x y t fits)

  -- The rows that a smaller batch passes.
  passes-replaced :
      (ps : List Predicate) (n : ℕ) (m : List Bool) (b : Dict Array) (ys : List Array)
      → length m ≡ n
      → Taken m b ys
      → All (λ q. IsNumeric q b) ps
      → kept ps (replaced b ys) (trues m) ≡ pick m (kept ps b n)
  passes-replaced [] n m b ys l k numeric = sym (pick-repeat m) ∙ ap (λ j. pick m (repeat true j)) l
  passes-replaced (q ∷ ps) n m b ys l k ((v, x, o, g, fits), numeric) =
      let (y, e, t, c) =
        get-replaced arrow kernels laws chrono compute compute_laws (column q) m b ys k x g in
      let here : rows_met q (Dict.get (column q) (replaced b ys))
          ≡ pick m (rows_met q (Dict.get (column q) b)) =
        ap (rows_met q) e
        ∙ ap (map (meets_cell arrow kernels laws chrono compute compute_laws q)) c
        ∙ pick-map (meets_cell arrow kernels laws chrono compute compute_laws q) m (cells x)
        ∙ ap (λ w. pick m (rows_met q w)) (sym g) in
      ap (λ w. zip_and w (kept ps (replaced b ys) (trues m))) here
      ∙ ap (zip_and (pick m (rows_met q (Dict.get (column q) b))))
          (passes-replaced ps n m b ys l k numeric)
      ∙ zip_and-pick m (rows_met q (Dict.get (column q) b)) (kept ps b n)

  -- By the laws of the kernels and of `filter` and `try_new`: for predicates with a number, each on
  -- a column of integers that it can be compared with, in a batch that has a column and whose
  -- columns have as many rows, the loop over the predicates succeeds, and every column keeps its
  -- type and exactly those rows, in order, in which every predicate is met.
  pub filter_batch-passes :
      (ps : List Predicate) (n : ℕ) (name : String) (z : Array) (b : Dict Array)
      → Tall n ((name, z) ∷ b)
      → All (λ p. IsNumeric p ((name, z) ∷ b)) ps
      → (out : Dict Array) × (filter_batch arrow kernels chrono compute ps ((name, z) ∷ b) ≡ ok out)
        × ((col : String) (x : Array)
            → Dict.get col ((name, z) ∷ b) ≡ some x
            → Shows (kept ps ((name, z) ∷ b) n) x (Dict.get col out))
  unfolding filter_batch
  filter_batch-passes [] n name z b rows numeric = (
    (name, z) ∷ b,
    refl,
    λ col x g. (
      x,
      g,
      refl,
      sym (pick-all (cells x))
          ∙ ap (λ j. pick (repeat true j) (cells x)) (get-Tall n col ((name, z) ∷ b) x rows g),
    ),
  )
  filter_batch-passes (p ∷ ps) n name z b rows ((v, x, o, g, fits), numeric) =
      let batch : Dict Array = (name, z) ∷ b in
      let l = get-Tall n (column p) batch x rows g in
      let m = rows_met p (some x) in
      let lm : length m ≡ n =
        length-map (meets_cell arrow kernels laws chrono compute compute_laws p) (cells x) ∙ l in
      let (y, ys, f, q) =
        filter_by-Picked arrow kernels laws chrono compute compute_laws p v x name z b o fits
          (subst (λ j. Tall j batch) (sym l) rows) in
      let (types, lengths) =
        Picked-fits arrow kernels laws chrono compute compute_laws n m batch (y ∷ ys) lm rows q in
      let (out, filtered, shown) =
        filter_batch-passes ps (trues m) name y (replaced b ys)
          (replaced-HasRows arrow kernels laws chrono compute compute_laws (trues m) batch (y ∷ ys)
            lengths)
          (All-weaken (λ r. IsNumeric r batch) (λ r. IsNumeric r (replaced batch (y ∷ ys))) ps
            (λ r k. IsNumeric-replaced r m batch (y ∷ ys) q k) numeric) in
      let passed = passes-replaced ps n m batch (y ∷ ys) lm q numeric in
      (
        out,
        ground (arith, g, f, filtered),
        λ col w h.
            let (w', e, t, c) =
              get-replaced arrow kernels laws chrono compute compute_laws col m batch (y ∷ ys) q w
                h in
            let (w'', e', t', c') = shown col w' e in
            (
              w'',
              e',
              t' ∙ t,
              c'
                  ∙ ap (λ j. pick j (cells w')) passed
                  ∙ ap (pick (pick m (kept ps batch n))) c
                  ∙ pick-pick m (kept ps batch n) (cells w)
                  ∙ ap (λ j. pick (zip_and (rows_met p j) (kept ps batch n)) (cells w)) (sym g),
            ),
      )
