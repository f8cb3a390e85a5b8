-- ===== src/Read.antt =====
-- holonomy-core/src/manager/read_orchestrator.rs: the parts of `ReadOrchestrator::read` that decide
-- which rows and columns are read.
pub mod Batches
pub mod Orchestrator
pub mod Plan
pub mod Tags
pub mod Layers
pub mod Pick
pub mod Rows
pub mod Samples
pub mod Kept
pub mod Errors
pub mod Gate
pub mod Account
mod Tests
use Prim.Native.Char.{code}
use holonomy_source.Common.{
  ℕ, String, ◌≡◌, refl, Bool, true, false, Option, none, some, List, [], ◌∷◌, ◌++◌, map, ltb, ◌==◌,
  get_elem?, member, str_eq, trim, cons, ◌<>◌, if◌then◌else◌,
}
use holonomy_source.Common.Dict
use holonomy_source.Common.Dict.{Dict}
use holonomy_source.Common.Result.{Result, ok, err, ok_or, map_err, and_then}
use holonomy_source.Arrow.{Arrow}
use holonomy_source.Auth.{UserContext}
use holonomy_source.Policy.{PrincipalPolicy, PolicyManifest}
use holonomy_source.Policy.Manager.{PolicyError}
use holonomy_source.Governance.{GovernanceError, access_denied, resolve_active_role}
use holonomy_source.Crypto.{CryptoError}
use holonomy_source.Predicate.{Predicate, column, position}
use holonomy_source.Predicate.Parse.{Outcome, panics, returns, parse_filter}
use holonomy_source.Filter.{Kernels, Chrono, FilterError, filter_error, evaluate_filter}

-- An error of the crate reqwest or parquet is its text.
pub data IngestionError : Type 0 where
  http parquet parse_failed : String → IngestionError
  invalid_footer content_length_missing : IngestionError

pub data ReadError : Type 0 where
  missing_purpose audit_failed : ReadError
  policy_failed : PolicyError → ReadError
  governance_failed : GovernanceError → ReadError
  ingestion_failed : IngestionError → ReadError
  crypto_failed : CryptoError → ReadError

-- The result of a call that may panic.
abbrev pub Answer : Type 0 → Type 0 → Type 0
Answer E A = Outcome (Result E A)

-- A call that may panic and has no error.
abbrev pub lift : {E A : Type 0} → Outcome A → Answer E A
lift panics = panics
lift (returns a) = returns (ok a)

infixl 5 ◌>>=◌
abbrev pub ◌>>=◌ : {E A B : Type 0} → Answer E A → (A → Answer E B) → Answer E B
panics >>= k = panics
returns (err e) >>= k = returns (err e)
returns (ok a) >>= k = k a

-- If a chain succeeds, its first part does, and the rest does on the value of it.
pub >>=-eq-ok :
    {E A B : Type 0} {b : B} (r : Answer E A) (k : A → Answer E B)
    → (r >>= k) ≡ returns (ok b)
    → (a : A) × (r ≡ returns (ok a)) × (k a ≡ returns (ok b))
>>=-eq-ok panics k chain = cc
>>=-eq-ok (returns (err e)) k chain = cc
>>=-eq-ok (returns (ok a)) k chain = (a, refl, chain)

pub returns-injective : {A : Type 0} {a b : A} → ◌≡◌ {A = Outcome A} (returns a) (returns b) → a ≡ b
returns-injective h = cc

-- An answer whose error, if it has one, is not one of the keys.
abbrev pub KeepsKeys : {A : Type 0} → Answer ReadError A → Type 0
KeepsKeys (returns (err (crypto_failed e))) = ⊥
KeepsKeys answer = Unit

pub >>=-KeepsKeys :
    {A B : Type 0} (r : Answer ReadError A) (k : A → Answer ReadError B)
    → KeepsKeys r
    → ((a : A) → KeepsKeys (k a))
    → KeepsKeys (r >>= k)
>>=-KeepsKeys panics k first next = first
>>=-KeepsKeys (returns (err e)) k first next = first
>>=-KeepsKeys (returns (ok a)) k first next = next a

pub and_then-KeepsKeys :
    {A B : Type 0} (r : Result ReadError A) (k : A → Result ReadError B)
    → KeepsKeys (returns r)
    → ((a : A) → KeepsKeys (returns (k a)))
    → KeepsKeys (returns (and_then r k))
and_then-KeepsKeys (err e) k first next = first
and_then-KeepsKeys (ok a) k first next = next a

pub lift-KeepsKeys : {A : Type 0} (o : Outcome A) → KeepsKeys (lift o)
lift-KeepsKeys panics = tt
lift-KeepsKeys (returns a) = tt

-- The policy of the role that the reader acts in: nothing if no role resolves, or if the policy does
-- not have it.
unfoldable pub active_policy :
    UserContext → PolicyManifest → Option String → String → Option PrincipalPolicy
active_policy user merged assumed_role purpose =
    elim (resolve_active_role user merged assumed_role (some purpose)) [
      | err e ↦ none
      | ok role ↦ Dict.get role merged.principals
    ]

-- The error of `read` for a global row filter on a column that the file does not have.
abbrev pub missing_filter_column : String → ReadError
missing_filter_column col =
    governance_failed
      (access_denied ("Global row filter references missing column '" <> (col <> "'")))

-- The body of the loop over the global row filters: a text that is no filter is left out. The error
-- for a missing column is that of the caller.
unfoldable pub global_filter :
    {E : Type 0} → (String → E) → List String → Option Predicate → Result E (List Predicate)
global_filter missing file_cols none = ok []
global_filter missing file_cols (some pred) =
    if member (column pred) file_cols then ok (pred ∷ []) else err (missing (column pred))

unfoldable pub global_filters :
    {E : Type 0} → (String → E) → List String → List String → Answer E (List Predicate)
global_filters missing file_cols [] = returns (ok [])
global_filters missing file_cols (f ∷ fs) = do
  parsed ← lift (parse_filter f)
  found ← returns (global_filter missing file_cols parsed)
  rest ← global_filters missing file_cols fs
  returns (ok (found ++ rest))

-- The body of the loop over the selective row filters.
unfoldable pub selective_filter : List String → Option Predicate → List Predicate
selective_filter file_cols none = []
selective_filter file_cols (some pred) = if member (column pred) file_cols then pred ∷ [] else []

unfoldable pub selective_filters :
    {E : Type 0} → List String → List String → Answer E (List Predicate)
selective_filters file_cols [] = returns (ok [])
selective_filters file_cols (f ∷ fs) = do
  parsed ← lift (parse_filter f)
  rest ← selective_filters file_cols fs
  returns (ok (selective_filter file_cols parsed ++ rest))

-- `policy_predicates`.
unfoldable pub policy_predicates :
    {E : Type 0} → (String → E) → List String → Option PrincipalPolicy → Answer E (List Predicate)
policy_predicates missing file_cols none = returns (ok [])
policy_predicates missing file_cols (some role_policy) = do
  global ← global_filters missing file_cols role_policy.global_row_filters
  selective ← selective_filters file_cols role_policy.selective_row_filters
  returns (ok (global ++ selective))

-- `hidden_cols`, which grows with `policy_predicates`.
unfoldable pub hidden_cols : List Predicate → List String
hidden_cols [] = []
hidden_cols (p ∷ ps) = column p ∷ hidden_cols ps

unfoldable pub contains_index : ℕ → List ℕ → Bool
contains_index i [] = false
contains_index i (j ∷ js) = if j == i then true else contains_index i js

-- The loop that adds the hidden columns to the projection.
unfoldable pub project : List String → List String → List ℕ → List ℕ
project fields [] indices = indices
project fields (col ∷ cols) indices = project fields cols (elim (position 0 col fields) [
  | none ↦ indices
  | some idx ↦ if contains_index idx indices then indices else indices ++ idx ∷ []
])

-- `s.split(',')`
unfoldable pub split_commas : String → List String
split_commas String.[] = "" ∷ []
split_commas (String.◌∷◌ c s) =
    let rest = split_commas s in
    if code c == 44 then "" ∷ rest else elim rest [ [] ↦ cons c "" ∷ [] | (t ∷ ts) ↦ cons c t ∷ ts ]

-- The loop over the metadata of the file: the last entry of the key that has a value counts.
unfoldable pub tags_from : String → List (String × Option String) → List String → List String
tags_from tag_key [] tags = tags
tags_from tag_key ((key, none) ∷ kvs) tags = tags_from tag_key kvs tags
tags_from tag_key ((key, some val) ∷ kvs) tags =
    tags_from tag_key kvs (if str_eq key tag_key then map trim (split_commas val) else tags)

unfoldable pub column_tags : Option (List (String × Option String)) → String → List String
column_tags none name = []
column_tags (some kv_meta) name = tags_from ("holonomy.tags." <> name) kv_meta []

-- Is the chunk of the column in the first row group encrypted? An index past its end panics.
unfoldable pub is_physically_encrypted : List (List Bool) → ℕ → Answer ReadError Bool
is_physically_encrypted [] idx = returns (ok false)
is_physically_encrypted (group ∷ groups) idx = elim (get_elem? group idx) [
  | none ↦ panics
  | some encrypted ↦ returns (ok encrypted)
]

-- Why the rows of a batch cannot be filtered: the batch does not have the column, or the predicate or
-- the filter fails, with the text of the error.
pub data FilterFailure : Type 0 where
  missing_column not_evaluated not_filtered : String → FilterFailure

-- The errors of `read` for them.
unfoldable pub read_failure : FilterFailure → ReadError
read_failure (missing_column col) =
    governance_failed
      (access_denied ("Access Denied: Row filter references missing column '" <> (col <> "'")))
read_failure (not_evaluated e) = governance_failed (access_denied e)
read_failure (not_filtered e) = ingestion_failed (parse_failed e)
