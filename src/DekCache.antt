-- ===== src/DekCache.antt =====
-- holonomy-core/src/crypto/dek_cache.rs: the cache of the data encryption keys. Instants are numbers
-- of a clock that each call reads; a method returns the new cache. A key is its bytes: the zeroing of
-- memory on drop is not modelled.
pub mod Expiry
mod Tests
use holonomy_source.Common.{
  ℕ, ◌+◌, String, Bool, true, false, Option, none, some, List, [], ltb, if◌then◌else◌,
}
use holonomy_source.Common.Dict
use holonomy_source.Common.Dict.{Dict}

abbrev pub PlaintextKey : Type 0
PlaintextKey = List ℕ

pub record CacheEntry : Type 0 where
  pub key : PlaintextKey
  pub expires_at : ℕ

pub record DekCache : Type 0 where
  pub cache : Dict CacheEntry
  pub default_ttl : ℕ

-- `DekCache::new`.
unfoldable pub new : ℕ → DekCache
new default_ttl = record { cache = []; default_ttl = default_ttl }

-- `DekCache::insert`, at the time `now`.
unfoldable pub insert : ℕ → String → PlaintextKey → DekCache → DekCache
insert now dek_id raw_key c = record c {
  cache = Dict.insert dek_id (record { key = raw_key; expires_at = now + c.default_ttl }) c.cache;
}

-- `DekCache::remove`.
unfoldable pub remove : String → DekCache → DekCache
remove dek_id c = record c { cache = Dict.remove dek_id c.cache }

-- `DekCache::get`, at the time `now`: an expired entry is removed and not returned.
unfoldable pub get : ℕ → String → DekCache → DekCache × Option PlaintextKey
get now dek_id c = elim (Dict.get dek_id c.cache) [
  | none ↦ (c, none)
  | some entry ↦ if ltb now entry.expires_at then (c, some entry.key) else (remove dek_id c, none)
]

-- `DekCache::sweep`, at the time `now`.
unfoldable pub sweep : ℕ → DekCache → DekCache
sweep now c = record c { cache = Dict.retain (λ entry. ltb now entry.expires_at) c.cache }
