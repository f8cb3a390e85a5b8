-- ===== src/Crypto/Shred.antt =====
-- holonomy-core/src/crypto/kms_admin.rs with manager/crypto_manager.rs: what a shredded partition leaves
-- in the key cache.
use holonomy_source.Common.{ℕ, ◌≡◌, ◌≢◌, refl, String, Bool, true, false, Option, arith, eq_iff}
use holonomy_source.Common.Result.{Result, ok, err}
use holonomy_source.Common.Dict.{get-remove}
use holonomy_source.DekCache.{PlaintextKey, DekCache}
use holonomy_source.DekCache
use holonomy_source.DekCache.Expiry.{read, read-eq_alive}
use holonomy_source.Crypto.{Codec, KmsProvider, Context, hash_of, unwrap_key, shred_partition}

-- A removal of another name cannot be seen.
read-remove :
    (now : ℕ) (k j : String) (c : DekCache)
    → k ≢ j
    → read now j (DekCache.remove k c) ≡ read now j c
unfolding DekCache.remove
read-remove now k j c differs = ground (
  arith,
  read-eq_alive now j (DekCache.remove k c),
  read-eq_alive now j c,
  get-remove k j c.cache,
  eq_iff k j,
)

module _ (codec : Codec) (kms : KmsProvider) where
  unwrap_key-read :
      (now later : ℕ) (ciphertext_b64 : String) (context : Option Context) (user : Option String)
      (c d : DekCache)
      → read now (hash_of codec kms ciphertext_b64 user) c
        ≡ read now (hash_of codec kms ciphertext_b64 user) d
      → (unwrap_key codec kms now later ciphertext_b64 context user c).1
        ≡ (unwrap_key codec kms now later ciphertext_b64 context user d).1
  unfolding unwrap_key
  unwrap_key-read now later ciphertext_b64 context user c d h = ground arith

  -- Shredding a partition, whether the request succeeds or not, changes no later unwrap of a text
  -- whose hash is not the id of the partition: a cached key is still served.
  pub unwrap_key-shred_partition :
      (at : ℕ) (endpoint dek_id user_hash purpose : String)
      (response : Result String (String × Bool)) (now later : ℕ) (ciphertext_b64 : String)
      (context : Option Context) (user : Option String) (cache : DekCache)
      → dek_id ≢ hash_of codec kms ciphertext_b64 user
      → (unwrap_key codec kms now later ciphertext_b64 context user
          (shred_partition at endpoint dek_id user_hash purpose response cache).1).1
        ≡ (unwrap_key codec kms now later ciphertext_b64 context user cache).1
  unfolding shred_partition
  unwrap_key-shred_partition at endpoint dek_id user_hash purpose (err e) now later ct context user
        cache differs =
      refl
  unwrap_key-shred_partition at endpoint dek_id user_hash purpose (ok (status, false)) now later ct
        context user cache differs =
      refl
  unwrap_key-shred_partition at endpoint dek_id user_hash purpose (ok (status, true)) now later ct
        context user cache differs =
      unwrap_key-read now later ct context user (DekCache.remove dek_id cache) cache
        (read-remove now dek_id (hash_of codec kms ct user) cache differs)
