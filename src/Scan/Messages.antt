-- ===== src/Scan/Messages.antt =====
-- holonomy-core/src/manager/scan_orchestrator.rs: what stands behind a batch that a scan sends.
use holonomy_source.Common.{
  ◌≡◌, ◌⊎◌, inl, inr, refl, sym, ap, ◌∙◌, subst, String, true, none, some, List, [], ◌∷◌, Has,
  Has-append, member, str_eq, eq_iff, arith, Bool-cases, Option-cases, Has→member,
}
use holonomy_source.Common.Dict
use holonomy_source.Common.Dict.{Dict}
use holonomy_source.Common.Result.{Result, ok, err, map_err, map_err-eq-ok, >>=-eq-ok, ok-injective}
use holonomy_source.Arrow.{Arrow}
use holonomy_source.Governance.{apply_rls}
use holonomy_source.Filter.{Kernels, Chrono}
use holonomy_source.Read.Batches.{Compute, num_rows, filter_batch}
use holonomy_source.Read.Rows.{replaced}
use holonomy_source.Scan.{
  ArrowError, compute_error, external_error, filter_message, show_governance_error, same_names,
  Task, missing_type, Opened, arrays_of, requested_part, drop_hidden, flag_of, tags_of,
  masked_column, masked_columns, Outlet, batch_message, stream_messages, task_messages,
}

module _ (lower : String → String) (arrow : Arrow) (kernels : Kernels arrow) (chrono : Chrono)
    (compute : Compute arrow) (hash : String → String)
    (outlet : Outlet lower arrow kernels chrono compute hash) where
  open arrow use {Array, null_array}

  abbrev ScanFile : Type 0
  ScanFile = Opened lower arrow kernels chrono compute hash

  abbrev Message : Type 0
  Message = Result ArrowError (Dict Array)

  -- An array of a message: the column of the filtered batch, masked, or nulls where it has none.
  abbrev pub Shown : Task → ScanFile → Dict Array → Dict Array → String → Array → Type 0
  Shown t file filtered visible name x =
      ((array : Array) × (Dict.get name filtered ≡ some array)
        × (apply_rls lower arrow hash array t.user_ctx t.merged_policy name t.assumed_role
              (some t.purpose) t.fail_closed_mode
              (flag_of lower arrow kernels chrono compute hash name file.physical_encryption_map)
              (tags_of lower arrow kernels chrono compute hash name file.column_tags_map)
            ≡ ok x))
      ⊎ ((Dict.get name filtered ≡ none)
          × (x
              ≡ null_array (missing_type t.unified_schema name)
                  (num_rows arrow kernels chrono compute visible)))

  abbrev pub AllShown :
      Task → ScanFile → Dict Array → Dict Array → List String → List Array → Type 0
  AllShown t file filtered visible [] [] = Unit
  AllShown t file filtered visible (name ∷ names) (x ∷ xs) =
      Shown t file filtered visible name x × AllShown t file filtered visible names xs
  AllShown t file filtered visible names xs = ⊥

  -- What stands behind a batch that is sent.
  pub record IsSent (t : Task) (files : List (Result ArrowError ScanFile)) (sent : Dict Array)
      : Type 0 where
    pub file : ScanFile
    pub batch : Dict Array
    pub filtered : Dict Array
    pub visible : Dict Array
    pub arrays : List Array
    pub among : Has (ok file) files
    pub streamed : Has (ok batch) file.stream
    pub passed : filter_batch arrow kernels chrono compute t.policy_predicates batch ≡ ok filtered
    pub shown : AllShown t file filtered visible t.requested_cols arrays
    pub built : outlet.try_new_schema t.schema arrays ≡ ok sent

  replaced-arrays_of :
      (b : Dict Array) → replaced b (arrays_of lower arrow kernels chrono compute hash b) ≡ b
  unfolding arrays_of
  replaced-arrays_of [] = refl
  replaced-arrays_of ((name, x) ∷ b) = ap (λ l. (name, x) ∷ l) (replaced-arrays_of b)

  get-requested_part :
      (requested : List String) (name : String) (b : Dict Array)
      → member name requested ≡ true
      → Dict.get name (requested_part lower arrow kernels chrono compute hash requested b)
        ≡ Dict.get name b
  unfolding requested_part Dict.get
  get-requested_part requested name [] m = refl
  get-requested_part requested name ((k, x) ∷ b) m =
      let rest = get-requested_part requested name b m in
      elim (Bool-cases (str_eq k name)) [
        | inl e ↦
            let same : k ≡ name = (eq_iff k name).0 e in
            let in_it : member k requested ≡ true =
              subst (λ s. member s requested ≡ true) (sym same) m in
            ground (arith, e, in_it)
        | inr e ↦ elim (Bool-cases (member k requested)) [
          | inl w ↦ ground (arith, e, w, rest)
          | inr w ↦ ground (arith, e, w, rest)
        ]
      ]

  -- `try_new` takes the arrays that it is given.
  abbrev pub TakesArrays : Type 0
  TakesArrays =
      (b b' : Dict Array) (ys : List Array) → compute.try_new b ys ≡ ok b' → b' ≡ replaced b ys

  get-drop_hidden :
      TakesArrays
      → (t : Task) (b visible : Dict Array) (name : String)
      → drop_hidden lower arrow kernels chrono compute hash t b ≡ ok visible
      → member name t.requested_cols ≡ true
      → Dict.get name visible ≡ Dict.get name b
  unfolding drop_hidden
  get-drop_hidden takes t b visible name h m =
      elim (Bool-cases (same_names t.projected_cols t.requested_cols)) [
        | inl e ↦ let same : b ≡ visible = ground (arith, h, e) in ap (Dict.get name) (sym same)
        | inr e ↦
            let part = requested_part lower arrow kernels chrono compute hash t.requested_cols b in
            let made : compute.try_new part (arrays_of lower arrow kernels chrono compute hash part)
                ≡ ok visible =
              map_err-eq-ok compute_error
                (compute.try_new part (arrays_of lower arrow kernels chrono compute hash part))
                (ground (arith, h, e)) in
            ap (Dict.get name) (
              takes part visible (arrays_of lower arrow kernels chrono compute hash part) made
              ∙ replaced-arrays_of part)
            ∙ get-requested_part t.requested_cols name b m
      ]

  masked_column-Shown :
      (t : Task) (file : ScanFile) (filtered visible : Dict Array) (name : String) (x : Array)
      → Dict.get name visible ≡ Dict.get name filtered
      → masked_column lower arrow kernels chrono compute hash t file visible name ≡ ok x
      → Shown t file filtered visible name x
  unfolding masked_column
  masked_column-Shown t file filtered visible name x same h =
      elim (Option-cases (Dict.get name visible)) [
        | inl e ↦ inr (sym same ∙ e, ground (arith, h, e))
        | inr (array, e) ↦ inl (
          array,
          sym same ∙ e,
          map_err-eq-ok (λ e. external_error (show_governance_error e)) _ (ground (arith, h, e)),
        )
      ]

  masked_columns-AllShown :
      (t : Task) (file : ScanFile) (filtered visible : Dict Array) (names : List String)
      (xs : List Array)
      → ((name : String) → Has name names → Dict.get name visible ≡ Dict.get name filtered)
      → masked_columns lower arrow kernels chrono compute hash t file visible names ≡ ok xs
      → AllShown t file filtered visible names xs
  unfolding masked_columns
  masked_columns-AllShown t file filtered visible [] [] same h = tt
  masked_columns-AllShown t file filtered visible [] (x ∷ xs) same h = cc
  masked_columns-AllShown t file filtered visible (name ∷ names) xs same h =
      let (y, h1, k1) =
        >>=-eq-ok (masked_column lower arrow kernels chrono compute hash t file visible name) _ h in
      let (ys, h2, k2) =
        >>=-eq-ok (masked_columns lower arrow kernels chrono compute hash t file visible names) _
          k1 in
      subst (AllShown t file filtered visible (name ∷ names)) (ok-injective k2) (
        masked_column-Shown t file filtered visible name y (same name (inl refl)) h1,
        masked_columns-AllShown t file filtered visible names ys (λ n k. same n (inr k)) h2,
      )

  stream_messages-Has :
      (t : Task) (file : ScanFile) (stream : List Message) (sent : Dict Array)
      → Has (ok sent) (stream_messages lower arrow kernels chrono compute hash outlet t file stream)
      → (batch : Dict Array) × Has (ok batch) stream
        × (batch_message lower arrow kernels chrono compute hash outlet t file batch ≡ ok sent)
  unfolding stream_messages
  stream_messages-Has t file [] sent h = elim h [ ]
  stream_messages-Has t file (err e ∷ stream) sent (inl k) = cc
  stream_messages-Has t file (err e ∷ stream) sent (inr k) = elim k [ ]
  stream_messages-Has t file (ok b ∷ stream) sent h =
      go (batch_message lower arrow kernels chrono compute hash outlet t file b) refl h
        (stream_messages-Has t file stream sent)
    where
      go :
          (r : Message)
          → batch_message lower arrow kernels chrono compute hash outlet t file b ≡ r
          → Has (ok sent) (
              let all : List Message = elim r [
                | err e ↦ err e ∷ []
                | ok out ↦
                    ok out
                    ∷ stream_messages lower arrow kernels chrono compute hash outlet t file stream
              ] in
              all)
          → (Has
                (ok sent)
                (stream_messages lower arrow kernels chrono compute hash outlet t file stream)
              → (batch : Dict Array) × Has (ok batch) stream
                × (batch_message lower arrow kernels chrono compute hash outlet t file batch
                    ≡ ok sent))
          → (batch : Dict Array) × Has (ok batch) (ok b ∷ stream)
            × (batch_message lower arrow kernels chrono compute hash outlet t file batch ≡ ok sent)
      go (err e) m (inl k) later = cc
      go (err e) m (inr k) later = elim k [ ]
      go (ok out) m (inl k) later = (b, inl refl, m ∙ k)
      go (ok out) m (inr k) later = let (batch, s, made) = later k in (batch, inr s, made)

  task_messages-Has :
      (t : Task) (files : List (Result ArrowError ScanFile)) (sent : Dict Array)
      → Has (ok sent) (task_messages lower arrow kernels chrono compute hash outlet t files)
      → (file : ScanFile) × Has (ok file) files
        × Has
            (ok sent)
            (stream_messages lower arrow kernels chrono compute hash outlet t file file.stream)
  unfolding task_messages
  task_messages-Has t [] sent h = elim h [ ]
  task_messages-Has t (err e ∷ files) sent (inl k) = cc
  task_messages-Has t (err e ∷ files) sent (inr k) = elim k [ ]
  task_messages-Has t (ok file ∷ files) sent h =
      elim (Has-append (ok sent)
        (stream_messages lower arrow kernels chrono compute hash outlet t file file.stream)
        (task_messages lower arrow kernels chrono compute hash outlet t files) h) [
          | inl here ↦ (file, inl refl, here)
          | inr there ↦ let (f, k, s) = task_messages-Has t files sent there in (f, inr k, s)
        ]

  -- If `try_new` takes the arrays that it is given: a batch that the task of a scan sends is made of a
  -- batch of one of its files, of which all row filters of the policy were applied, and has one array
  -- for each column that was asked for: what `apply_rls` makes of the column of the filtered batch,
  -- for the reader and the file, or nulls if that batch does not have the column.
  pub task_messages-IsSent :
      TakesArrays
      → (t : Task) (files : List (Result ArrowError ScanFile)) (sent : Dict Array)
      → Has (ok sent) (task_messages lower arrow kernels chrono compute hash outlet t files)
      → IsSent t files sent
  unfolding batch_message
  task_messages-IsSent takes t files sent h =
      let (file, f, k) = task_messages-Has t files sent h in
      let (batch, b, made) = stream_messages-Has t file file.stream sent k in
      let (filtered, p, made1) =
        >>=-eq-ok
          (map_err filter_message
            (filter_batch arrow kernels chrono compute t.policy_predicates batch))
          _ made in
      let (visible, d, made2) =
        >>=-eq-ok (drop_hidden lower arrow kernels chrono compute hash t filtered) _ made1 in
      let (arrays, c, made3) =
        >>=-eq-ok
          (masked_columns lower arrow kernels chrono compute hash t file visible t.requested_cols) _
          made2 in
      record {
        file = file;
        batch = batch;
        filtered = filtered;
        visible = visible;
        arrays = arrays;
        among = f;
        streamed = b;
        passed =
            map_err-eq-ok filter_message
              (filter_batch arrow kernels chrono compute t.policy_predicates batch) p;
        shown =
            masked_columns-AllShown t file filtered visible t.requested_cols arrays
              (λ name n.
                get-drop_hidden takes t filtered visible name d
                  (Has→member name t.requested_cols n))
              c;
        built = made3;
      }
