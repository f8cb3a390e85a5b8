-- ===== src/Crypto/Tests.antt =====
-- Keys in a world where a key service keeps keys as they are.
use holonomy_source.Common.{
  ℕ, ◌≡◌, refl, true, none, some, List, [], ◌∷◌, arith, str_eq, if◌then◌else◌,
}
use holonomy_source.Common.Result.{Result, ok}
use holonomy_source.Common.Dict.{get}
use holonomy_source.DekCache.{DekCache}
use holonomy_source.DekCache
use holonomy_source.Crypto.{
  Codec, KmsProvider, CryptoError, Moka, CachedDek, key_metadata, hash_of, ask, unwrap_key,
  retrieve_key, generate_or_get_dek, metadata_bytes, shred_partition,
}
use holonomy_source.Crypto.Metadata.{retrieve_key-generate_or_get_dek}
use holonomy_source.Crypto.Unwrap.{Call, IsGiven, call, run, unwrap_key-IsGiven, unwrap_key_again}
use holonomy_source.Crypto.Shred.{unwrap_key-shred_partition}

abbrev codec : Codec
codec = record {
  sha256_hex = λ bytes. "h";
  encode = λ bytes. "b64";
  decode = λ s. if str_eq s "b64" then some (7 ∷ []) else none;
  to_string = λ json. "json";
  from_str = λ s. if str_eq s "json" then some (key_metadata "d" "c" "b64") else none;
  from_utf8 = λ bytes. ok "json";
  debug = λ s. s;
}

abbrev kms : KmsProvider
kms = record { decrypt_dek = λ w context. ok w; wrap_key = λ key context. ok key }

abbrev moka : Moka CachedDek
moka = record { Cache = Unit; get = λ now k c. none; insert = λ now k v c. c }

abbrev dek : CachedDek
dek = record { plaintext = 7 ∷ []; wrapped = 7 ∷ [] }

-- A cache with a key, of the texts "b64" and all others.
abbrev warm : DekCache
warm = (unwrap_key codec kms 3 4 "b64" none none (DekCache.new 10)).0

retrieve_key-generate_or_get_dek_example :
    (retrieve_key codec kms 3 4
      (metadata_bytes codec kms "d" "c" (7 ∷ []))
      none
      (some "u")
      (DekCache.new 10)).1
    ≡ ok (7 ∷ [])
unfolding generate_or_get_dek DekCache.get DekCache.new get
retrieve_key-generate_or_get_dek_example =
    retrieve_key-generate_or_get_dek codec kms moka 1 (7 ∷ []) "d" "p" "c" "u" tt {dek = dek}
      (λ key context w e. ok_back key w e)
      (record { decode-encode = refl; from_str-to_string = refl; from_utf8-as_bytes = refl }) refl
      refl 3 4 none (some "u") (DekCache.new 10) refl
  where
    ok_back :
        (key w : List ℕ)
        → ◌≡◌ {A = Result CryptoError (List ℕ)} (ok key) (ok w)
        → ◌≡◌ {A = Result CryptoError (List ℕ)} (ok w) (ok key)
    ok_back key w e = cc

abbrev first_call : Call
first_call = record { now = 3; later = 4; ciphertext_b64 = "b64"; context = none; user_ctx = none }

-- The same text for the same user, under another context.
abbrev second_call : Call
second_call = record {
  now = 5;
  later = 6;
  ciphertext_b64 = "b64";
  context = some [];
  user_ctx = none;
}

unwrap_key-IsGiven_example : IsGiven codec kms (hash_of codec kms "b64" none) (7 ∷ [])
unfolding run unwrap_key ask DekCache.get DekCache.new DekCache.insert get
unwrap_key-IsGiven_example = unwrap_key-IsGiven codec kms 10 [] first_call refl

unwrap_key_again_example :
    (call codec kms second_call (call codec kms first_call (DekCache.new 10)).0).1 ≡ ok (7 ∷ [])
unfolding run unwrap_key ask DekCache.get DekCache.new DekCache.insert get
unwrap_key_again_example =
    unwrap_key_again codec kms first_call second_call (DekCache.new 10) refl refl refl refl
      (omega arith)

unwrap_key-shred_partition_example :
    (unwrap_key codec kms 5 6 "b64" none none
      (shred_partition 4 "e" "partition" "u" "p" (ok ("200", true)) warm).1).1
    ≡ (unwrap_key codec kms 5 6 "b64" none none warm).1
unfolding hash_of
unwrap_key-shred_partition_example =
    unwrap_key-shred_partition codec kms 4 "e" "partition" "u" "p" (ok ("200", true)) 5 6 "b64" none
      none warm (λ e. cc)
