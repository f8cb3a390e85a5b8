-- ===== src/DekCache/Expiry.antt =====
-- A key is served until its time to live has passed, and never later; and the removal of expired
-- entries, on a read or by a sweep, cannot be seen by a later read.
use holonomy_source.Common.{
  ℕ, ◌+◌, ◌≤◌, ◌<◌, String, ◌≡◌, inl, inr, false, Option, none, some, arith, eq_iff, str_eq, ltb,
  Option-cases, if◌then◌else◌,
}
use holonomy_source.Common.Dict
use holonomy_source.Common.Dict.{Distinct, get-insert, get-remove, get-retain, get-retain-none}
use holonomy_source.DekCache.{PlaintextKey, CacheEntry, DekCache, insert, remove, get, sweep}

-- What a read at the time `now` returns.
abbrev pub read : ℕ → String → DekCache → Option PlaintextKey
read now k c = (get now k c).1

-- The entry of a key that is still alive.
abbrev pub alive : ℕ → Option CacheEntry → Option PlaintextKey
alive now none = none
alive now (some e) = if ltb now e.expires_at then some e.key else none

pub read-eq_alive :
    (now : ℕ) (k : String) (c : DekCache) → read now k c ≡ alive now (Dict.get k c.cache)
unfolding get
read-eq_alive now k c = ground arith

-- A read after an insert returns the inserted key until its time to live has passed and nothing
-- from then on; every other key reads as before.
pub read-insert :
    (now later : ℕ) (k j : String) (key : PlaintextKey) (c : DekCache)
    → read later j (insert now k key c) ≡ (
        if str_eq k j
        then (if ltb later (now + c.default_ttl) then some key else none)
        else read later j c)
unfolding insert
read-insert now later k j key c = ground (
  arith,
  read-eq_alive later j (insert now k key c),
  read-eq_alive later j c,
  get-insert k j (record { key = key; expires_at = now + c.default_ttl }) c.cache,
)

alive_later :
    (now later : ℕ) (e : CacheEntry)
    → now ≤ later
    → ltb now e.expires_at ≡ false
    → alive later (some e) ≡ none
alive_later now later e h x = ground arith

-- The lazy removal of an expired entry by a read cannot be seen: every read at that time or later,
-- of any key, is as without it.
pub read-get :
    (now later : ℕ) (k j : String) (c : DekCache)
    → now ≤ later
    → read later j (get now k c).0 ≡ read later j c
unfolding get remove
read-get now later k j c h = elim (Option-cases (Dict.get k c.cache)) [
  | inl e ↦ ground (arith, e)
  | inr (entry, e) ↦
      ground (arith, e, eq_iff k j, get-remove k j c.cache, alive_later now later entry h)
]

-- A sweep of a cache with distinct keys cannot be seen by any read at that time or later.
pub read-sweep :
    (now later : ℕ) (j : String) (c : DekCache)
    → Distinct c.cache
    → now ≤ later
    → read later j (sweep now c) ≡ read later j c
unfolding sweep
read-sweep now later j c d h = ground (
  arith,
  read-eq_alive later j (sweep now c),
  read-eq_alive later j c,
  get-retain (λ (e : CacheEntry). ltb now e.expires_at) j c.cache d,
)

-- After a sweep of a cache with distinct keys no expired entry is left.
pub sweep_clears :
    (now : ℕ) (j : String) (c : DekCache) (e : CacheEntry)
    → Distinct c.cache
    → Dict.get j (sweep now c).cache ≡ some e
    → now < e.expires_at
unfolding sweep
sweep_clears now j c e d h =
    ground (arith, get-retain (λ (x : CacheEntry). ltb now x.expires_at) j c.cache d, h)
