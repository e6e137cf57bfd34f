-- ===== src/Cache.antt =====
-- internal/service/cache_store.go: a bounded map with expiring entries. The mutex makes each
-- method one step; `now` is the clock reading of the step, in the unit of the durations.
pub mod Invariant
pub mod Bounds
pub mod Updates
pub mod Reach
pub mod Lookup
pub mod Sweeping
pub mod Eviction
pub mod Refinement
use tinyauth.Base.{
  ℕ, ◌+◌, ◌≡◌, String, Bool, true, false, not, ◌&&◌, ◌||◌, List, [], ◌∷◌, ◌++◌, Option, none, some,
  ltb, leb, if◌then◌else◌, ◌==◌,
}
use tinyauth.Base.Lists.{length, contains, remove}
use tinyauth.Base.Dict.{lookup, insert, delete, has}

pub record CacheEntry {ℓ} (T : Type ℓ) : Type ℓ where
  pub value : T
  pub expires_at : Option ℕ

pub record CacheStore {ℓ} (T : Type ℓ) : Type ℓ where
  pub cache : List (String × CacheEntry T)
  pub order : List String
  pub max_size : ℕ

-- `expiresAt != nil && now.After(*expiresAt)`.
abbrev pub is_past : Option ℕ → ℕ → Bool
is_past none now = false
is_past (some exp) now = ltb exp now

-- `expiresAt != nil && (oldestExp == nil || expiresAt.Before(*oldestExp))`.
abbrev pub is_older : Option ℕ → Option ℕ → Bool
is_older none oldest = false
is_older (some exp) none = true
is_older (some exp) (some oldest) = ltb exp oldest

-- `expiresAt` of a new entry.
abbrev pub expiry : ℕ → ℕ → Option ℕ
expiry ttl now = if ltb 0 ttl then some (now + ttl) else none

-- What the loop of `evictOne` ends with: an expired key, or the key of the oldest expiry.
pub data Scan : Type 0 where
  expired : String → Scan
  oldest : String → Scan

module _ {ℓ} {T : Type ℓ} where
  unfoldable pub new_cache_store : ℕ → CacheStore T
  new_cache_store max_size = record { cache = []; order = []; max_size = max_size }

  unfoldable pub delete_callback : String → CacheStore T → CacheStore T
  delete_callback key cs = record cs { cache = delete key cs.cache; order = remove key cs.order }

  unfoldable pub scan : ℕ → List (String × CacheEntry T) → String → Option ℕ → Scan
  scan now [] oldest_key oldest_exp = oldest oldest_key
  scan now ((k, e) ∷ rest) oldest_key oldest_exp =
      let stay = scan now rest oldest_key oldest_exp in
      let move = scan now rest k e.expires_at in
      if is_past e.expires_at now
      then expired k
      else (if is_older e.expires_at oldest_exp then move else stay)

  evict_first : List String → CacheStore T → CacheStore T × Bool
  evict_first [] cs = (cs, false)
  evict_first (k ∷ _) cs = (delete_callback k cs, true)

  evict_scanned : Scan → CacheStore T → CacheStore T × Bool
  unfolding evict_first
  evict_scanned (expired k) cs = (delete_callback k cs, true)
  evict_scanned (oldest k) cs =
      if not (k == "") then (delete_callback k cs, true) else evict_first cs.order cs

  unfoldable pub evict_one : ℕ → CacheStore T → CacheStore T × Bool
  unfolding evict_scanned
  evict_one now cs = evict_scanned (scan now cs.cache "" none) cs

  -- `setCallback` from the line after the eviction on.
  unfoldable pub put : String → T → ℕ → ℕ → CacheStore T → CacheStore T
  put key value ttl now cs = record cs {
    cache = insert key (record { value = value; expires_at = expiry ttl now }) cs.cache;
    order = if contains key cs.order then cs.order else cs.order ++ key ∷ [];
  }

  abbrev pub must_evict : String → CacheStore T → Bool
  must_evict key cs =
      ltb 0 cs.max_size && (not (has key cs.cache) && leb cs.max_size (length cs.cache))

  unfoldable pub set_callback : String → T → ℕ → ℕ → CacheStore T → CacheStore T
  set_callback key value ttl now cs =
      put key value ttl now (if must_evict key cs then (evict_one now cs).0 else cs)

  update_entry : Option (CacheEntry T) → String → T → ℕ → ℕ → CacheStore T → CacheStore T × Bool
  update_entry none key value ttl now cs = (cs, false)
  update_entry (some current) key value ttl now cs =
      if is_past current.expires_at now then (cs, false) else (
        record cs {
          cache =
              insert key
                (record {
                  value = value;
                  expires_at = if ltb 0 ttl then some (now + ttl) else current.expires_at;
                })
                cs.cache;
        },
        true,
      )

  unfoldable pub update_callback : String → T → ℕ → ℕ → CacheStore T → CacheStore T × Bool
  unfolding update_entry
  update_callback key value ttl now cs = update_entry (lookup key cs.cache) key value ttl now cs

  abbrev pub live_value : Option (CacheEntry T) → ℕ → Option T
  live_value none now = none
  live_value (some entry) now = if is_past entry.expires_at now then none else some entry.value

  unfoldable pub get_callback : String → ℕ → CacheStore T → Option T
  get_callback key now cs = live_value (lookup key cs.cache) now

  -- The range of `Sweep` over the entries that it met.
  unfoldable pub sweep_entries : ℕ → List (String × CacheEntry T) → CacheStore T → CacheStore T
  sweep_entries now [] cs = cs
  sweep_entries now ((k, e) ∷ rest) cs =
      sweep_entries now rest (if is_past e.expires_at now then delete_callback k cs else cs)

  unfoldable pub sweep : ℕ → CacheStore T → CacheStore T
  sweep now cs = sweep_entries now cs.cache cs

  unfoldable pub size : CacheStore T → ℕ
  size cs = length cs.cache

  unfoldable pub clear : CacheStore T → CacheStore T
  clear cs = record cs { cache = []; order = [] }
