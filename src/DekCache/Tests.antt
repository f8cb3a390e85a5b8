-- ===== src/DekCache/Tests.antt =====
-- The theorems of the key cache, on a cache with one key that lives for 10 ticks.
use holonomy_source.Common.{◌≡◌, some, [], ◌∷◌}
use holonomy_source.DekCache.{DekCache, new, insert}
use holonomy_source.DekCache.Expiry.{read, read-insert}

abbrev cached : DekCache
cached = record { cache = ("k", record { key = 7 ∷ []; expires_at = 15 }) ∷ []; default_ttl = 10 }

read-insert_example : read 14 "k" (insert 5 "k" (7 ∷ []) (new 10)) ≡ some (7 ∷ [])
unfolding new
read-insert_example = read-insert 5 14 "k" "k" (7 ∷ []) (new 10)
