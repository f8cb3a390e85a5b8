-- ===== src/Crypto/Metadata.antt =====
-- holonomy-core/src/crypto/pme_encrypt.rs with manager/crypto_manager.rs: the reader unwraps a key as
-- the writer has wrapped it.
use holonomy_source.Common.{
  ℕ, ◌≡◌, refl, String, Option, none, some, List, arith, as_bytes, bytes_le,
}
use holonomy_source.Common.Result.{ok}
use holonomy_source.DekCache.{DekCache}
use holonomy_source.DekCache
use holonomy_source.Crypto.{
  Codec, KmsProvider, Moka, CachedDek, Json, Context, btree_insert, aad_context, cache_key,
  find_field, get_field, get_str, as_str, read_aad, context_of, key_metadata, metadata_bytes,
  hash_of, ask, unwrap_key, parse_metadata, retrieve_key, generate_or_get_dek,
}

-- A wrapped key survives base64, and a text of JSON survives serde_json and UTF-8.
pub record RoundTrips (codec : Codec) (wrapped : List ℕ) (json : Json) : Type 0 where
  pub decode-encode : codec.decode (codec.encode wrapped) ≡ some wrapped
  pub from_str-to_string : codec.from_str (codec.to_string json) ≡ some json
  pub from_utf8-as_bytes :
      codec.from_utf8 (as_bytes (codec.to_string json)) ≡ ok (codec.to_string json)

-- The context read back is the one that was written.
context_of_aad :
    (dataset column b64 : String)
    → context_of (get_field "aad" (key_metadata dataset column b64)) ≡ aad_context dataset column
unfolding context_of get_field find_field key_metadata read_aad as_str aad_context btree_insert
    as_bytes bytes_le
context_of_aad dataset column b64 = refl

wrapped_dek_of :
    (dataset column b64 : String)
    → get_str "wrapped_dek" (key_metadata dataset column b64) ≡ some b64
unfolding get_str get_field find_field key_metadata as_str
wrapped_dek_of dataset column b64 = refl

module _ (codec : Codec) (kms : KmsProvider) where
  parse_metadata-metadata_bytes :
      (dataset column : String) (wrapped : List ℕ)
      → RoundTrips codec wrapped (key_metadata dataset column (codec.encode wrapped))
      → parse_metadata codec kms (metadata_bytes codec kms dataset column wrapped)
        ≡ ok (codec.encode wrapped, some (aad_context dataset column))
  unfolding parse_metadata metadata_bytes
  parse_metadata-metadata_bytes dataset column wrapped laws =
      let json = key_metadata dataset column (codec.encode wrapped) in
      ground (
        arith,
        laws.from_utf8-as_bytes,
        laws.from_str-to_string,
        wrapped_dek_of dataset column (codec.encode wrapped),
        context_of_aad dataset column (codec.encode wrapped),
      )

  ask-encode :
      (wrapped : List ℕ) (context : Option Context)
      → codec.decode (codec.encode wrapped) ≡ some wrapped
      → ask codec kms (codec.encode wrapped) context ≡ kms.decrypt_dek wrapped context
  unfolding ask
  ask-encode wrapped context h = ground arith

  generated :
      (moka : Moka CachedDek) (now : ℕ) (raw_key : List ℕ) (dataset purpose column user : String)
      (cache : moka.Cache) {dek : CachedDek}
      → moka.get now (cache_key dataset purpose column user) cache ≡ none
      → (generate_or_get_dek codec kms moka now raw_key dataset purpose column user cache).1
        ≡ ok dek
      → kms.wrap_key dek.plaintext (some (aad_context dataset column)) ≡ ok dek.wrapped
  unfolding generate_or_get_dek
  generated moka now raw_key dataset purpose column user cache miss h = ground arith

  -- If base64, serde_json and UTF-8 give back what they were given for this key, and the key
  -- service unwraps a key under the context under which it was wrapped: the reader of the metadata
  -- that the writer notes for a new key of a column gets that key, provided that the reader's cache
  -- has none for the text.
  pub retrieve_key-generate_or_get_dek :
      (moka : Moka CachedDek) (now : ℕ) (raw_key : List ℕ) (dataset purpose column user : String)
      (cache : moka.Cache) {dek : CachedDek}
      → ((key : List ℕ) (context : Option Context) (w : List ℕ)
          → kms.wrap_key key context ≡ ok w
          → kms.decrypt_dek w context ≡ ok key)
      → RoundTrips codec dek.wrapped (key_metadata dataset column (codec.encode dek.wrapped))
      → moka.get now (cache_key dataset purpose column user) cache ≡ none
      → (generate_or_get_dek codec kms moka now raw_key dataset purpose column user cache).1
        ≡ ok dek
      → (then_ later : ℕ) (context : Option Context) (reader : Option String) (keys : DekCache)
      → (DekCache.get then_ (hash_of codec kms (codec.encode dek.wrapped) reader) keys).1 ≡ none
      → (retrieve_key codec kms then_ later
          (metadata_bytes codec kms dataset column dek.wrapped)
          context
          reader
          keys).1
        ≡ ok dek.plaintext
  unfolding retrieve_key unwrap_key
  retrieve_key-generate_or_get_dek moka now raw_key dataset purpose column user cache {dek} honest
        laws miss h then_ later context reader keys fresh =
      let wrapped = generated moka now raw_key dataset purpose column user cache miss h in
      let unwrapped =
        honest dek.plaintext (some (aad_context dataset column)) dek.wrapped wrapped in
      ground (
        arith,
        parse_metadata-metadata_bytes dataset column dek.wrapped laws,
        ask-encode dek.wrapped (some (aad_context dataset column)) laws.decode-encode,
        unwrapped,
        fresh,
      )
