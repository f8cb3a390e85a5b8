-- ===== src/Crypto/Unwrap.antt =====
-- holonomy-core/src/manager/crypto_manager.rs: what `unwrap_key` returns over a run of calls.
use holonomy_source.Common.{
  ℕ, ◌+◌, ◌<◌, ◌≡◌, refl, sym, ap, ◌∙◌, String, Option, none, some, List, [], ◌∷◌, arith, str_eq,
  eq_iff, eq_refl, Option-cases, inl, inr, ◌⊎◌, Bool-cases, subst,
}
use holonomy_source.Common.Result.{Result, ok, err, Result-cases, ok-injective}
use holonomy_source.Common.Dict
use holonomy_source.Common.Dict.{get-insert, get-remove}
use holonomy_source.DekCache.{PlaintextKey, CacheEntry, DekCache, remove}
use holonomy_source.DekCache
use holonomy_source.DekCache.Expiry.{read, read-insert}
use holonomy_source.Crypto.{Codec, KmsProvider, CryptoError, Context, hash_of, ask, unwrap_key}

-- A call of `unwrap_key`, with the times at which it starts and at which the key service answers.
pub record Call : Type 0 where
  pub now : ℕ
  pub later : ℕ
  pub ciphertext_b64 : String
  pub context : Option Context
  pub user_ctx : Option String

get_kept :
    (now : ℕ) (k j : String) (c : DekCache) {e : CacheEntry}
    → Dict.get j (DekCache.get now k c).0.cache ≡ some e
    → Dict.get j c.cache ≡ some e
unfolding DekCache.get remove
get_kept now k j c h = elim (Option-cases (Dict.get k c.cache)) [
  | inl e ↦ ground (arith, e)
  | inr (entry, e) ↦ ground (arith, e, eq_iff k j, get-remove k j c.cache)
]

insert_kept :
    (later : ℕ) (k j : String) (key : PlaintextKey) (c : DekCache) {e : CacheEntry}
    → Dict.get j (DekCache.insert later k key c).cache ≡ some e
    → ((k ≡ j) × (e.key ≡ key)) ⊎ (Dict.get j c.cache ≡ some e)
unfolding DekCache.insert
insert_kept later k j key c {e} h = elim (Bool-cases (str_eq k j)) [
  | inl same ↦ inl (
    (eq_iff k j).0 same,
    ground (
      arith,
      same,
      get-insert k j (record { key = key; expires_at = later + c.default_ttl }) c.cache,
    ),
  )
  | inr differs ↦ inr (
      ground (
        arith,
        differs,
        get-insert k j (record { key = key; expires_at = later + c.default_ttl }) c.cache,
      ))
]

hit_entry :
    (now : ℕ) (k : String) (c : DekCache) {key : PlaintextKey}
    → (DekCache.get now k c).1 ≡ some key
    → (e : CacheEntry) × (Dict.get k c.cache ≡ some e) × (e.key ≡ key)
unfolding DekCache.get
hit_entry now k c h = elim (Option-cases (Dict.get k c.cache)) [
  | inl e ↦ absurd (ground (arith, e, h))
  | inr (entry, e) ↦ (entry, e, ground (arith, e, h))
]

get-default_ttl :
    (now : ℕ) (k : String) (c : DekCache) → (DekCache.get now k c).0.default_ttl ≡ c.default_ttl
unfolding DekCache.get remove
get-default_ttl now k c = ground arith

module _ (codec : Codec) (kms : KmsProvider) where
  -- The key service has given the key for a ciphertext and a user of this hash, under some context.
  pub record IsGiven (hash : String) (key : PlaintextKey) : Type 0 where
    pub ciphertext_b64 : String
    pub context : Option Context
    pub user_ctx : Option String
    pub same_hash : hash_of codec kms ciphertext_b64 user_ctx ≡ hash
    pub given : ask codec kms ciphertext_b64 context ≡ ok key

  -- All keys of the cache were given by the key service.
  abbrev pub IsCoherent : DekCache → Type 0
  IsCoherent cache =
      (hash : String) (e : CacheEntry) → Dict.get hash cache.cache ≡ some e → IsGiven hash e.key

  abbrev pub call : Call → DekCache → DekCache × Result CryptoError PlaintextKey
  call c cache = unwrap_key codec kms c.now c.later c.ciphertext_b64 c.context c.user_ctx cache

  -- The cache after a run of calls.
  unfoldable pub run : List Call → DekCache → DekCache
  run [] cache = cache
  run (c ∷ calls) cache = run calls (call c cache).0

  call_hit :
      (c : Call) (cache : DekCache) {key : PlaintextKey}
      → read c.now (hash_of codec kms c.ciphertext_b64 c.user_ctx) cache ≡ some key
      → (call c cache).1 ≡ ok key
  unfolding unwrap_key
  call_hit c cache h = ground arith

  call_again :
      (c : Call) (cache : DekCache) {key : PlaintextKey}
      → (DekCache.get c.now (hash_of codec kms c.ciphertext_b64 c.user_ctx) cache).1 ≡ some key
      → call c cache
        ≡ ((DekCache.get c.now (hash_of codec kms c.ciphertext_b64 c.user_ctx) cache).0, ok key)
  unfolding unwrap_key
  call_again c cache h = ground arith

  call_failed :
      (c : Call) (cache : DekCache) {e : CryptoError}
      → (DekCache.get c.now (hash_of codec kms c.ciphertext_b64 c.user_ctx) cache).1 ≡ none
      → ask codec kms c.ciphertext_b64 c.context ≡ err e
      → call c cache
        ≡ ((DekCache.get c.now (hash_of codec kms c.ciphertext_b64 c.user_ctx) cache).0, err e)
  unfolding unwrap_key
  call_failed c cache miss a = ground arith

  call_new :
      (c : Call) (cache : DekCache) {key : PlaintextKey}
      → (DekCache.get c.now (hash_of codec kms c.ciphertext_b64 c.user_ctx) cache).1 ≡ none
      → ask codec kms c.ciphertext_b64 c.context ≡ ok key
      → call c cache ≡ (
        DekCache.insert c.later
            (hash_of codec kms c.ciphertext_b64 c.user_ctx)
            key
            (DekCache.get c.now (hash_of codec kms c.ciphertext_b64 c.user_ctx) cache).0,
        ok key,
      )
  unfolding unwrap_key
  call_new c cache miss a = ground arith

  get-IsCoherent :
      (now : ℕ) (hash : String) (cache : DekCache)
      → IsCoherent cache
      → IsCoherent (DekCache.get now hash cache).0
  get-IsCoherent now hash cache coherent j e h = coherent j e (get_kept now hash j cache h)

  insert-IsCoherent :
      (later : ℕ) (hash : String) (key : PlaintextKey) (cache : DekCache)
      → IsGiven hash key
      → IsCoherent cache
      → IsCoherent (DekCache.insert later hash key cache)
  insert-IsCoherent later hash key cache given coherent j e h =
      elim (insert_kept later hash j key cache h) [
        | inl (same, is_key) ↦
            subst (λ k. IsGiven k e.key) same (subst (IsGiven hash) (sym is_key) given)
        | inr old ↦ coherent j e old
      ]

  -- The cache after a call, and the key that it returns.
  abbrev Good : Call → DekCache × Result CryptoError PlaintextKey → Type 0
  Good c (cache, r) =
      IsCoherent cache
      × ((key : PlaintextKey)
          → r ≡ ok key
          → IsGiven (hash_of codec kms c.ciphertext_b64 c.user_ctx) key)

  call-Good : (c : Call) (cache : DekCache) → IsCoherent cache → Good c (call c cache)
  call-Good c cache coherent =
      let hash = hash_of codec kms c.ciphertext_b64 c.user_ctx in
      let kept = get-IsCoherent c.now hash cache coherent in
      elim (Option-cases (DekCache.get c.now hash cache).1) [
        | inr (key, hit) ↦ subst (Good c) (sym (call_again c cache hit)) (
          kept,
          λ k e.
              let (entry, found, is_key) = hit_entry c.now hash cache hit in
              subst (IsGiven hash) (is_key ∙ ok-injective e) (coherent hash entry found),
        )
        | inl miss ↦ elim (Result-cases (ask codec kms c.ciphertext_b64 c.context)) [
          | inr (error, a) ↦ subst (Good c) (sym (call_failed c cache miss a)) (kept, λ k e. cc)
          | inl (key, a) ↦
              let given : IsGiven hash key = record {
                ciphertext_b64 = c.ciphertext_b64;
                context = c.context;
                user_ctx = c.user_ctx;
                same_hash = refl;
                given = a;
              } in
              subst (Good c) (sym (call_new c cache miss a)) (
                insert-IsCoherent c.later hash key _ given kept,
                λ k e. subst (IsGiven hash) (ok-injective e) given,
              )
        ]
      ]

  new-IsCoherent : (ttl : ℕ) → IsCoherent (DekCache.new ttl)
  unfolding DekCache.new Dict.get
  new-IsCoherent ttl hash e h = cc

  run-IsCoherent :
      (calls : List Call) (cache : DekCache) → IsCoherent cache → IsCoherent (run calls cache)
  unfolding run
  run-IsCoherent [] cache coherent = coherent
  run-IsCoherent (c ∷ calls) cache coherent =
      run-IsCoherent calls (call c cache).0 (call-Good c cache coherent).0

  -- From an empty cache on, over any run of calls: a key that unwrap_key returns is one that the
  -- key service has given for a ciphertext and a user of the same hash, under some context.
  pub unwrap_key-IsGiven :
      (ttl : ℕ) (calls : List Call) (c : Call) {key : PlaintextKey}
      → (call c (run calls (DekCache.new ttl))).1 ≡ ok key
      → IsGiven (hash_of codec kms c.ciphertext_b64 c.user_ctx) key
  unwrap_key-IsGiven ttl calls c {key} h =
      (call-Good c (run calls (DekCache.new ttl))
          (run-IsCoherent calls (DekCache.new ttl) (new-IsCoherent ttl))).1
        key h

  -- A second unwrap of the same text for the same user returns the same key until the time to live
  -- has passed, whatever the context that it names, and without the key service, if the first found
  -- no key in the cache.
  pub unwrap_key_again :
      (c d : Call) (cache : DekCache) {key : PlaintextKey}
      → d.ciphertext_b64 ≡ c.ciphertext_b64
      → d.user_ctx ≡ c.user_ctx
      → (call c cache).1 ≡ ok key
      → (DekCache.get c.now (hash_of codec kms c.ciphertext_b64 c.user_ctx) cache).1 ≡ none
      → d.now < c.later + cache.default_ttl
      → (call d (call c cache).0).1 ≡ ok key
  unwrap_key_again c d cache {key} same_text same_user h miss early =
      let hash = hash_of codec kms c.ciphertext_b64 c.user_ctx in
      let read_ = (DekCache.get c.now hash cache).0 in
      let same : hash_of codec kms d.ciphertext_b64 d.user_ctx ≡ hash =
        λ i. hash_of codec kms (same_text i) (same_user i) in
      elim (Result-cases (ask codec kms c.ciphertext_b64 c.context)) [
        | inr (error, a) ↦ absurd (ground (arith, call_failed c cache miss a, h))
        | inl (k, a) ↦
            let after = call_new c cache miss a in
            let is_key : k ≡ key =
              ok-injective
                (sym (ap (λ (x : DekCache × Result CryptoError PlaintextKey). x.1) after) ∙ h) in
            let inserted = DekCache.insert c.later hash k read_ in
            let hit : read d.now hash inserted ≡ some k = ground (
              arith,
              read-insert c.later d.now hash hash k read_,
              eq_refl hash,
              get-default_ttl c.now hash cache,
              early,
            ) in
            subst (λ (x : DekCache × Result CryptoError PlaintextKey). (call d x.0).1 ≡ ok key)
              (sym after)
              (call_hit d inserted (subst (λ s. read d.now s inserted ≡ some k) (sym same) hit)
                ∙ ap ok is_key)
      ]
