-- ===== src/Crypto.antt =====
-- holonomy-core/src/manager/crypto_manager.rs, crypto/kms_admin.rs and the keys of
-- crypto/pme_encrypt.rs: how data keys are made, wrapped, noted in the file and unwrapped. SHA-256,
-- hex, base64, serde_json, the cache of moka and the key service are parameters; a clock is read by
-- each call. An answer of the key service is a function of what it is asked.
pub mod Metadata
pub mod Unwrap
pub mod Shred
mod Tests
use holonomy_source.Common.{
  ℕ, String, Bool, true, false, Option, none, some, List, [], ◌∷◌, ◌++◌, bytes_le, as_bytes, ◌<>◌,
  str_eq, if◌then◌else◌,
}
use holonomy_source.Common.Dict.{Dict}
use holonomy_source.Common.Result.{Result, ok, err, ok_or, map_err, ◌>>=◌, ◌>>◌}
use holonomy_source.Audit.{AuditEvent, shred}
use holonomy_source.DekCache.{PlaintextKey, DekCache}
use holonomy_source.DekCache

pub data CryptoError : Type 0 where
  kms_failed : String → CryptoError
  decryption_failed : CryptoError

-- `BTreeMap<String, String>`: the entries in the order of their keys.
abbrev pub Context : Type 0
Context = List (String × String)

-- `m.insert(k, v)` of a `BTreeMap`.
unfoldable pub btree_insert : String → String → Context → Context
btree_insert k v [] = (k, v) ∷ []
btree_insert k v ((j, w) ∷ m) =
    let rest = btree_insert k v m in
    if str_eq j k
    then (j, v) ∷ m
    else if bytes_le (as_bytes k) (as_bytes j)
    then (k, v) ∷ (j, w) ∷ m
    else (j, w) ∷ rest

-- The trait `KmsProvider`.
pub record KmsProvider : Type 0 where
  pub decrypt_dek : List ℕ → Option Context → Result CryptoError (List ℕ)
  pub wrap_key : List ℕ → Option Context → Result CryptoError (List ℕ)

-- JSON values, as far as the metadata of keys has them; a map of serde_json keeps its keys in order.
mutual
  pub data Json : Type 0 where
    text : String → Json
    object : Fields → Json
    other : Json

  pub data Fields : Type 0 where
    end : Fields
    field : String → Json → Fields → Fields

-- `json.get(k)`, on the fields of an object.
unfoldable pub find_field : String → Fields → Option Json
find_field k end = none
find_field k (field j v fields) = if str_eq j k then some v else find_field k fields

unfoldable pub get_field : String → Json → Option Json
get_field k (object fields) = find_field k fields
get_field k _ = none

-- `v.as_str()`.
unfoldable pub as_str : Json → Option String
as_str (text s) = some s
as_str _ = none

-- `json.get(k).and_then(|v| v.as_str())`
unfoldable pub get_str : String → Json → Option String
get_str k json = elim (get_field k json) [ none ↦ none | some v ↦ as_str v ]

-- The loop of `retrieve_key` over the entries of `aad`.
unfoldable pub read_aad : Fields → Context → Context
read_aad end aad = aad
read_aad (field k v fields) aad =
    read_aad fields (elim (as_str v) [ none ↦ aad | some s ↦ btree_insert k s aad ])

-- The context in the metadata: that of `aad`, if it is an object.
unfoldable pub context_of : Option Json → Context
context_of (some (object fields)) = read_aad fields []
context_of _ = []

-- SHA-256 in hex, base64 and serde_json.
pub record Codec : Type 0 where
  pub sha256_hex : List ℕ → String
  pub encode : List ℕ → String
  pub decode : String → Option (List ℕ)
  pub to_string : Json → String
  pub from_str : String → Option Json
  pub from_utf8 : List ℕ → Result String String
  -- `{:?}` of a text.
  pub debug : String → String

-- The cache of moka, with a time to live of its own.
pub record Moka (V : Type 0) : Type 1 where
  pub Cache : Type 0
  pub get : ℕ → String → Cache → Option V
  pub insert : ℕ → String → V → Cache → Cache

pub record CachedDek : Type 0 where
  pub plaintext : List ℕ
  pub wrapped : List ℕ

-- The text of the user that `unwrap_key` hashes behind the ciphertext.
abbrev pub user_bytes : Option String → List ℕ
user_bytes none = []
user_bytes (some user) = as_bytes user

-- `format!("{}|{}|{}|{}", dataset_name, purpose, column_name, user_ctx)`
abbrev pub cache_key : String → String → String → String → String
cache_key dataset purpose column user =
    dataset <> ("|" <> (purpose <> ("|" <> (column <> ("|" <> user)))))

-- The context under which the key of a column is wrapped.
unfoldable pub aad_context : String → String → Context
aad_context dataset column =
    btree_insert "column" column
      (btree_insert "dataset" dataset (btree_insert "tool" "holonomy" []))

-- The metadata of a key, of `get_writer_properties_builder`.
unfoldable pub key_metadata : String → String → String → Json
key_metadata dataset column b64_wrapped = object (
    field "aad"
      (object (
        field "column" (text column)
          (field "dataset" (text dataset) (field "tool" (text "holonomy") end))))
      (field "wrapped_dek" (text b64_wrapped) end))

module _ (codec : Codec) (kms : KmsProvider) where
  open codec use {sha256_hex, encode, decode, to_string, from_str, from_utf8, debug}

  -- The key of the cache.
  unfoldable pub hash_of : String → Option String → String
  hash_of ciphertext_b64 user_ctx = sha256_hex (as_bytes ciphertext_b64 ++ user_bytes user_ctx)

  -- What `unwrap_key` asks the key service when the cache has no key.
  unfoldable pub ask : String → Option Context → Result CryptoError PlaintextKey
  ask ciphertext_b64 context = do
    bytes ← ok_or (decode ciphertext_b64) decryption_failed
    kms.decrypt_dek bytes context

  -- `CryptoManager::unwrap_key`, at the time `now`, with the answer at the time `later`.
  unfoldable pub unwrap_key :
      ℕ
      → ℕ
      → String
      → Option Context
      → Option String
      → DekCache
      → DekCache × Result CryptoError PlaintextKey
  unwrap_key now later ciphertext_b64 context user_ctx cache =
      let hash = hash_of ciphertext_b64 user_ctx in
      let (read, hit) = DekCache.get now hash cache in
      elim hit [
        | some key ↦ (read, ok key)
        | none ↦ elim (ask ciphertext_b64 context) [
          | err e ↦ (read, err e)
          | ok key ↦ (DekCache.insert later hash key read, ok key)
        ]
      ]

  -- The ciphertext and the context that the metadata of a key gives.
  unfoldable pub parse_metadata : List ℕ → Result String (String × Option Context)
  parse_metadata key_metadata = do
    metadata_str ← map_err (λ e. "Invalid metadata utf8: " <> e) (from_utf8 key_metadata)
    elim (from_str metadata_str) [
      | none ↦ ok (metadata_str, none)
      | some json ↦ elim (get_str "wrapped_dek" json) [
        | none ↦ err "Missing wrapped_dek in metadata JSON"
        | some wrapped_dek ↦ ok (wrapped_dek, some (context_of (get_field "aad" json)))
      ]
    ]

  -- `format!("KMS Failed: {:?}", e)`
  unfoldable pub kms_failure : CryptoError → String
  kms_failure (kms_failed e) = "KMS Failed: KmsFailed(" <> (debug e <> ")")
  kms_failure decryption_failed = "KMS Failed: DecryptionFailed"

  -- `ParquetKmsBridge::retrieve_key`, for the user and the context that the bridge was made with.
  unfoldable pub retrieve_key :
      ℕ
      → ℕ
      → List ℕ
      → Option Context
      → Option String
      → DekCache
      → DekCache × Result String PlaintextKey
  retrieve_key now later key_metadata context user_ctx cache = elim (parse_metadata key_metadata) [
    | err e ↦ (cache, err e)
    | ok (ciphertext_b64, parsed_context) ↦
        let (after, r) =
          unwrap_key now later ciphertext_b64
            (elim parsed_context [ none ↦ context | some parsed ↦ some parsed ]) user_ctx cache in
        (after, map_err kms_failure r)
  ]

  -- `CryptoManager::decrypt_chunks`: the chunks themselves, once a key is unwrapped.
  unfoldable pub decrypt_chunks :
      ℕ
      → ℕ
      → String
      → List (List ℕ)
      → Option String
      → DekCache
      → DekCache × Result CryptoError (List (List ℕ))
  decrypt_chunks now later dek_id chunks user_ctx cache =
      let (after, r) = unwrap_key now later dek_id none user_ctx cache in
      (after, do key ← r; elim chunks [ [] ↦ err decryption_failed | (c ∷ cs) ↦ ok (c ∷ cs) ])

  -- `CryptoManager::warm_dek_cache`, one key after the other; its errors are dropped.
  unfoldable pub warm_dek_cache :
      ℕ → ℕ → List String → Option String → Option Context → DekCache → DekCache
  warm_dek_cache now later [] user_ctx context cache = cache
  warm_dek_cache now later (wrapped_dek ∷ keys) user_ctx context cache =
      warm_dek_cache now later keys user_ctx context
        (unwrap_key now later wrapped_dek context user_ctx cache).0

  module _ (moka : Moka CachedDek) where
    -- `PmeEncryptor::generate_or_get_dek`, with the bytes of the random number generator.
    unfoldable pub generate_or_get_dek :
        ℕ
        → List ℕ
        → String
        → String
        → String
        → String
        → moka.Cache
        → moka.Cache × Result CryptoError CachedDek
    generate_or_get_dek now raw_key dataset purpose column user_ctx cache =
        let key = cache_key dataset purpose column user_ctx in
        elim (moka.get now key cache) [
          | some dek ↦ (cache, ok dek)
          | none ↦ elim (kms.wrap_key raw_key (some (aad_context dataset column))) [
            | err e ↦ (cache, err e)
            | ok wrapped ↦
                let dek : CachedDek = record { plaintext = raw_key; wrapped = wrapped } in
                (moka.insert now key dek cache, ok dek)
          ]
        ]

  -- The metadata that `get_writer_properties_builder` gives to a key.
  unfoldable pub metadata_bytes : String → String → List ℕ → List ℕ
  metadata_bytes dataset column wrapped =
      as_bytes (to_string (key_metadata dataset column (encode wrapped)))

-- `KmsAdmin::shred_partition`: what it does, in order.
pub data Effect : Type 0 where
  pushed : AuditEvent → Effect
  deleted : String → Effect

-- `response` is the error of the request, or the status and whether it is a success.
unfoldable pub shred_partition :
    ℕ
    → String
    → String
    → String
    → String
    → Result String (String × Bool)
    → DekCache
    → List Effect × DekCache × Result String (Unit {0})
shred_partition now endpoint dek_id user_hash purpose response cache =
    let event : AuditEvent = record {
      timestamp = now;
      user_hash = user_hash;
      file_signature = dek_id;
      accessed_columns = none;
      business_purpose = purpose;
      action = shred;
    } in
    let effects = pushed event ∷ deleted (endpoint <> ("/keys/" <> dek_id)) ∷ [] in
    elim response [
      | err e ↦ (effects, cache, err e)
      | ok (status, is_success) ↦
          if is_success
          then (effects, DekCache.remove dek_id cache, ok tt)
          else (effects, cache, err ("KMS API error: " <> status))
    ]
