-- ===== src/Scan/Files.antt =====
-- holonomy-core/src/manager/scan_orchestrator.rs: the files that a scan opens, and how an array that it
-- sends comes from the column of a file.
use holonomy_source.Common.{
  ℕ, ◌≡◌, ◌⊎◌, inl, inr, refl, sym, ap, ◌∙◌, String, Bool, false, Option, none, some, List, [], ◌∷◌,
  ◌++◌, map, subst, Has, arith, eq_iff, str_eq, Bool-cases, Option-cases,
}
use holonomy_source.Common.Dict
use holonomy_source.Common.Dict.{Dict, get-insert}
use holonomy_source.Common.Result.{Result, ok, map_err, map_err-eq-ok, >>=-eq-ok, ok-injective}
use holonomy_source.Arrow.{Arrow}
use holonomy_source.Governance.{apply_rls}
use holonomy_source.Policy.Manager.{PolicyManager}
use holonomy_source.Policy.Manager
use holonomy_source.Linter.{Engine}
use holonomy_source.Predicate.{Predicate, position, get_pruned_row_groups}
use holonomy_source.Filter.{Kernels, Chrono}
use holonomy_source.Read.{column_tags}
use holonomy_source.Read.Batches.{Compute, num_rows, filter_batch}
use holonomy_source.Read.Tags.{
  IsTags, column_tags-IsTags, IsFirst, position-IsFirst, position-eq-none,
}
use holonomy_source.Scan.{
  ArrowError, external_error, Field, Task, missing_type, Opened, flag_of, tags_of, Outlet,
}
use holonomy_source.Scan.Columns.{
  field_names, first_existing, scan_indices, is_encrypted, map_columns,
}
use holonomy_source.Scan.Messages.{Shown, AllShown, IsSent}
use holonomy_source.Scan.Orchestrator.{
  Inputs, File, Outside, open_stream, open_rest, first_target, opened_files,
}

-- The flag of a column: that of the chunk of the first field of its name in the first row group, and
-- false where there is no such field or no row group.
abbrev pub IsFlag : List String → Option (ℕ → Bool) → String → Bool → Type 0
IsFlag fields none name flag = flag ≡ false
IsFlag fields (some encrypted) name flag =
    ((idx : ℕ) × IsFirst name fields idx × (flag ≡ encrypted idx))
    ⊎ ((¬ (Has name fields)) × (flag ≡ false))

is_encrypted-IsFlag :
    (fields : List String) (first_group : Option (ℕ → Bool)) (name : String)
    → IsFlag fields first_group name (is_encrypted fields first_group name)
unfolding is_encrypted
is_encrypted-IsFlag fields none name = elim (Option-cases (position 0 name fields)) [
  | inl e ↦ ground (arith, e)
  | inr (idx, e) ↦ ground (arith, e)
]
is_encrypted-IsFlag fields (some encrypted) name = elim (Option-cases (position 0 name fields)) [
  | inl e ↦ inr (position-eq-none 0 name fields e, ground (arith, e))
  | inr (idx, e) ↦ inl (idx, position-IsFirst name fields idx e, ground (arith, e))
]

-- What a map has for a column that it was made with.
get-map_columns :
    {V : Type 0} (f : String → V) (cols : List String) (m : Dict V) (c : String)
    → Has c cols ⊎ (Dict.get c m ≡ some (f c))
    → Dict.get c (map_columns f cols m) ≡ some (f c)
unfolding map_columns
get-map_columns f [] m c (inl h) = elim h [ ]
get-map_columns f [] m c (inr e) = e
get-map_columns f (col ∷ cols) m c h =
    get-map_columns f cols (Dict.insert col (f col) m) c (elim (Bool-cases (str_eq col c)) [
      | inl same ↦ inr (
          ground (arith, same, get-insert col c (f col) m)
          ∙ ap (λ s. some (f s)) ((eq_iff col c).0 same))
      | inr differs ↦ elim h [
        | inr old ↦ inr (ground (arith, differs, get-insert col c (f col) m, old))
        | inl here ↦ elim here [ inl e ↦ cc (differs, (eq_iff col c).1 e) | inr later ↦ inl later ]
      ]
    ])

pub field_names_lem :
    (fields : List Field) → field_names fields ≡ map (λ (f : Field). f.name) fields
unfolding field_names
field_names_lem [] = refl
field_names_lem (f ∷ fs) = ap (λ l. f.name ∷ l) (field_names_lem fs)

module _ (lower : String → String) (arrow : Arrow) (engine : Engine arrow) (policy : Manager.Codec)
    (kernels : Kernels arrow) (chrono : Chrono) (compute : Compute arrow) (hash : String → String)
    (outlet : Outlet lower arrow kernels chrono compute hash)
    (out : Outside lower arrow engine policy kernels chrono compute hash outlet)
    (manager : PolicyManager) where
  open arrow use {Array, null_array}

  abbrev ScanFile : Type 0
  ScanFile = Opened lower arrow kernels chrono compute hash

  -- A file of the scan: it is that of one of the targets, opened with the properties of the user, and
  -- its batches are those of its projected columns and of the row groups that are not pruned.
  pub record IsSource (i : Inputs) (t : Task) (props : out.Props) (file : File Array)
      (stream : List (Result ArrowError (Dict Array))) : Type 0 where
    pub target : String
    pub asked : Has target i.targets
    pub found : out.open_file props target ≡ ok file
    pub built :
        file.build (scan_indices (field_names file.fields) t.projected_cols) (
          get_pruned_row_groups file.metadata
            (first_existing t.projected_cols file.all_columns)
            (i.predicates ++ t.policy_predicates))
        ≡ ok stream

  -- The maps of an opened file.
  record IsMapped (t : Task) (file : File Array) (opened : ScanFile) : Type 0 where
    flags :
        opened.physical_encryption_map
        ≡ map_columns (is_encrypted (field_names file.fields) file.first_group) t.projected_cols []
    tags :
        opened.column_tags_map
        ≡ map_columns (column_tags file.key_value_metadata) t.projected_cols []

  open_stream-eq-ok :
      (t : Task) (combined : List Predicate) (file : File Array) {opened : ScanFile}
      → open_stream lower arrow engine policy kernels chrono compute hash outlet t combined file
        ≡ ok opened
      → (file.build (scan_indices (field_names file.fields) t.projected_cols) (
            get_pruned_row_groups file.metadata
              (first_existing t.projected_cols file.all_columns)
              combined)
          ≡ ok opened.stream)
        × IsMapped t file opened
  unfolding open_stream
  open_stream-eq-ok t combined file {opened} h =
      let (stream, b, made) = >>=-eq-ok (map_err external_error (file.build _ _)) _ h in
      let same : ◌≡◌ {A = ScanFile} _ opened = ok-injective made in
      (
        map_err-eq-ok external_error (file.build _ _) b ∙ ap (λ (o : ScanFile). ok o.stream) same,
        record {
          flags = sym (ap (λ (o : ScanFile). o.physical_encryption_map) same);
          tags = sym (ap (λ (o : ScanFile). o.column_tags_map) same);
        },
      )

  abbrev Found : Inputs → Task → out.Props → ScanFile → Type 0
  Found i t props opened =
      (file : File Array) × IsSource i t props file opened.stream × IsMapped t file opened

  open_rest-Found :
      (i : Inputs) (t : Task) (props : out.Props) (targets : List String) (opened : ScanFile)
      → ((target : String) → Has target targets → Has target i.targets)
      → Has (ok opened) (
          open_rest lower arrow engine policy kernels chrono compute hash outlet out manager t
            (i.predicates ++ t.policy_predicates)
            props
            targets)
      → Found i t props opened
  unfolding open_rest
  open_rest-Found i t props [] opened among h = elim h [ ]
  open_rest-Found i t props (target ∷ targets) opened among (inr later) =
      open_rest-Found i t props targets opened (λ x k. among x (inr k)) later
  open_rest-Found i t props (target ∷ targets) opened among (inl e) =
      let (file, f, k) = >>=-eq-ok (map_err external_error (out.open_file props target)) _ e in
      let (b, maps) = open_stream-eq-ok t (i.predicates ++ t.policy_predicates) file k in
      (
        file,
        record {
          target = target;
          asked = among target (inl refl);
          found = map_err-eq-ok external_error (out.open_file props target) f;
          built = b;
        },
        maps,
      )

  opened_files-Found :
      (i : Inputs) (t : Task) (props : out.Props) (file : File Array) (target : String)
      (opened : ScanFile)
      → first_target lower arrow engine policy kernels chrono compute hash outlet out manager
          i.targets
        ≡ ok target
      → out.open_file props target ≡ ok file
      → Has (ok opened) (
          opened_files lower arrow engine policy kernels chrono compute hash outlet out manager i t
            props file)
      → Found i t props opened
  unfolding opened_files first_target
  opened_files-Found i t props file target opened first found h = go i.targets refl h
    where
      go :
          (targets : List String)
          → i.targets ≡ targets
          → Has (ok opened) (
              open_stream lower arrow engine policy kernels chrono compute hash outlet t
                (i.predicates ++ t.policy_predicates)
                file
              ∷ (let rest : List (Result ArrowError ScanFile) = elim targets [
                | [] ↦ []
                | (head ∷ tail) ↦
                    open_rest lower arrow engine policy kernels chrono compute hash outlet out
                      manager t
                      (i.predicates ++ t.policy_predicates)
                      props
                      tail
              ] in
                  rest))
          → Found i t props opened
      go [] e (inl k) = cc
      go [] e (inr k) = elim k [ ]
      go (head ∷ tail) e (inr k) =
          open_rest-Found i t props tail opened (λ x m. subst (Has x) (sym e) (inr m)) k
      go (head ∷ tail) e (inl k) =
          let (b, maps) = open_stream-eq-ok t (i.predicates ++ t.policy_predicates) file k in
          let same : head ≡ target = ok-injective (
            ap
              (first_target lower arrow engine policy kernels chrono compute hash outlet out
                manager)
              (sym e)
            ∙ first) in
          (
            file,
            record {
              target = target;
              asked = subst (Has target) (sym e) (inl same);
              found = found;
              built = b;
            },
            maps,
          )

  -- An array of a message: the column of the filtered batch, masked with the flag and the tags that
  -- the file has for it, or nulls where the batch does not have it.
  abbrev pub Displayed : Task → File Array → Dict Array → Dict Array → String → Array → Type 0
  Displayed t file filtered visible name x =
      ((array : Array) × (encrypted : Bool) × (tags : List String) × (Dict.get name filtered
          ≡ some array)
        × IsFlag (map (λ (f : Field). f.name) file.fields) file.first_group name encrypted
        × IsTags file.key_value_metadata name tags
        × (apply_rls lower arrow hash array t.user_ctx t.merged_policy name t.assumed_role
              (some t.purpose) t.fail_closed_mode encrypted tags
            ≡ ok x))
      ⊎ ((Dict.get name filtered ≡ none)
          × (x
              ≡ null_array (missing_type t.unified_schema name)
                  (num_rows arrow kernels chrono compute visible)))

  abbrev pub AllDisplayed :
      Task → File Array → Dict Array → Dict Array → List String → List Array → Type 0
  AllDisplayed t file filtered visible [] [] = Unit
  AllDisplayed t file filtered visible (name ∷ names) (x ∷ xs) =
      Displayed t file filtered visible name x × AllDisplayed t file filtered visible names xs
  AllDisplayed t file filtered visible names xs = ⊥

  Shown-Displayed :
      (t : Task) (file : File Array) (opened : ScanFile) (filtered visible : Dict Array)
      (name : String) (x : Array)
      → IsMapped t file opened
      → Has name t.projected_cols
      → Shown lower arrow kernels chrono compute hash outlet t opened filtered visible name x
      → Displayed t file filtered visible name x
  unfolding flag_of tags_of
  Shown-Displayed t file opened filtered visible name x maps c (inr nulls) = inr nulls
  Shown-Displayed t file opened filtered visible name x maps c (inl (array, got, masked)) =
      let flag =
        ap (Dict.get name) maps.flags
        ∙ get-map_columns (is_encrypted (field_names file.fields) file.first_group) t.projected_cols
            [] name (inl c) in
      let tags =
        ap (Dict.get name) maps.tags
        ∙ get-map_columns (column_tags file.key_value_metadata) t.projected_cols [] name (inl c) in
      inl (
        array,
        is_encrypted (field_names file.fields) file.first_group name,
        column_tags file.key_value_metadata name,
        got,
        subst
            (λ names.
              IsFlag names file.first_group name
                (is_encrypted (field_names file.fields) file.first_group name))
            (field_names_lem file.fields)
            (is_encrypted-IsFlag (field_names file.fields) file.first_group name),
        column_tags-IsTags file.key_value_metadata name,
        ground (arith, masked, flag, tags),
      )

  AllShown-AllDisplayed :
      (t : Task) (file : File Array) (opened : ScanFile) (filtered visible : Dict Array)
      (names : List String) (xs : List Array)
      → IsMapped t file opened
      → ((name : String) → Has name names → Has name t.projected_cols)
      → AllShown lower arrow kernels chrono compute hash outlet t opened filtered visible names xs
      → AllDisplayed t file filtered visible names xs
  AllShown-AllDisplayed t file opened filtered visible [] [] maps among h = tt
  AllShown-AllDisplayed t file opened filtered visible [] (x ∷ xs) maps among h = elim h [ ]
  AllShown-AllDisplayed t file opened filtered visible (n ∷ ns) [] maps among h = elim h [ ]
  AllShown-AllDisplayed t file opened filtered visible (n ∷ ns) (x ∷ xs) maps among (here, later) =
      (
        Shown-Displayed t file opened filtered visible n x maps (among n (inl refl)) here,
        AllShown-AllDisplayed t file opened filtered visible ns xs maps (λ m k. among m (inr k))
            later,
      )

  -- What stands behind a batch that is sent.
  pub record IsDisplayed (i : Inputs) (t : Task) (props : out.Props) (sent : Dict Array)
      : Type 0 where
    pub file : File Array
    pub stream : List (Result ArrowError (Dict Array))
    pub batch : Dict Array
    pub filtered : Dict Array
    pub visible : Dict Array
    pub arrays : List Array
    pub source : IsSource i t props file stream
    pub streamed : Has (ok batch) stream
    pub passed : filter_batch arrow kernels chrono compute t.policy_predicates batch ≡ ok filtered
    pub shown : AllDisplayed t file filtered visible t.requested_cols arrays
    pub built : outlet.try_new_schema t.schema arrays ≡ ok sent

  pub IsSent-IsDisplayed :
      (i : Inputs) (t : Task) (props : out.Props) (first : File Array) (target : String)
      (sent : Dict Array)
      → first_target lower arrow engine policy kernels chrono compute hash outlet out manager
          i.targets
        ≡ ok target
      → out.open_file props target ≡ ok first
      → ((name : String) → Has name t.requested_cols → Has name t.projected_cols)
      → IsSent lower arrow kernels chrono compute hash outlet t
          (opened_files lower arrow engine policy kernels chrono compute hash outlet out manager i t
            props first)
          sent
      → IsDisplayed i t props sent
  IsSent-IsDisplayed i t props first target sent at found among s =
      let (file, source, maps) =
        opened_files-Found i t props first target s.file at found s.among in
      record {
        file = file;
        stream = s.file.stream;
        batch = s.batch;
        filtered = s.filtered;
        visible = s.visible;
        arrays = s.arrays;
        source = source;
        streamed = s.streamed;
        passed = s.passed;
        shown =
            AllShown-AllDisplayed t file s.file s.filtered s.visible t.requested_cols s.arrays maps
              among s.shown;
        built = s.built;
      }
