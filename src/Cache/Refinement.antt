-- ===== src/Cache/Refinement.antt =====
-- internal/service/cache_store.go: what a cache promises its clients, and that it keeps it. The
-- promise is a map from each key and time to what a reader sees there, written down without
-- entries, expiries or an order; a client's calls follow each other in time.
pub mod Room
pub mod Answers
use tinyauth.Base.{
  ℕ, suc, ◌+◌, ◌≤◌, ◌≡◌, refl, sym, ap, ◌∙◌, ◌⊎◌, inl, inr, String, Bool, true, false, List, [],
  ◌∷◌, Option, none, some, arith, ltb, ◌==◌, ◌&&◌, if◌then◌else◌, Bool-cases, String-cases,
  Option-cases,
}
use tinyauth.Base.Lists.{length}
use tinyauth.Base.Dict.{lookup, has_of_lookup, length-insert, length-delete-le}
use tinyauth.Cache.{
  CacheEntry, CacheStore, is_past, expiry, new_cache_store, delete_callback, set_callback, put,
  must_evict, update_callback, get_callback, sweep_entries, sweep, clear,
}
use tinyauth.Cache.Invariant.{IsValid, set_callback-IsValid}
use tinyauth.Cache.Updates.{
  update_callback-IsValid, max_size-update_callback, max_size-sweep_entries,
}
use tinyauth.Cache.Reach.{
  Step-IsValid, sets, updates, deletes, sweeps, clears, new_cache_store-IsValid,
}
use tinyauth.Cache.Lookup.{
  get_callback-delete_callback, get_callback-set_callback, get_callback-set_callback_self,
  update_callback-dead, get_callback-update_callback,
}
use tinyauth.Cache.Sweeping.{get_callback-sweep}

-- A call of a client.
pub data Call {ℓ} (T : Type ℓ) : Type ℓ where
  set : String → T → ℕ → Call T
  update : String → T → ℕ → Call T
  remove : String → Call T
  sweep_all : Call T
  clear_all : Call T
  get : String → Call T

pub data Answer {ℓ} (T : Type ℓ) : Type ℓ where
  done : Answer T
  updated : Bool → Answer T
  found : Option T → Answer T

-- What is under a key at a time.
abbrev pub View {ℓ} : Type ℓ → Type ℓ
View T = String → ℕ → Option T

module _ {ℓ} {T : Type ℓ} where
  abbrev pub under : String → (ℕ → Option T) → View T → View T
  under key seen view j later = if key == j then seen later else view j later

  -- A value that is seen up to the end of its time to live.
  abbrev pub until : T → ℕ → ℕ → ℕ → Option T
  until value ttl now later = if ltb 0 ttl && ltb (now + ttl) later then none else some value

  -- Another value for as long as the first is seen.
  abbrev pub replaced : T → Option T → Option T
  replaced value none = none
  replaced value (some _) = some value

  abbrev pub is_seen : Option T → Bool
  is_seen none = false
  is_seen (some _) = true

  -- The promise: the effect of a call on the map, and its answer.
  unfoldable pub promise : Call T → ℕ → View T → View T × Answer T
  promise (set key value ttl) now view = (under key (until value ttl now) view, done)
  promise (update key value ttl) now view =
      let seen : ℕ → Option T =
        λ later. if ltb 0 ttl then until value ttl now later else replaced value (view key later) in
      if is_seen (view key now) then (under key seen view, updated true) else (view, updated false)
  promise (remove key) now view = (under key (λ _. none) view, done)
  promise sweep_all now view = (view, done)
  promise clear_all now view = (λ _ _. none, done)
  promise (get key) now view = (view, found (view key now))

  -- The cache's own operations.
  unfoldable pub perform : Call T → ℕ → CacheStore T → CacheStore T × Answer T
  perform (set key value ttl) now cs = (set_callback key value ttl now cs, done)
  perform (update key value ttl) now cs =
      let (cs', ok) = update_callback key value ttl now cs in (cs', updated ok)
  perform (remove key) now cs = (delete_callback key cs, done)
  perform sweep_all now cs = (sweep now cs, done)
  perform clear_all now cs = (clear cs, done)
  perform (get key) now cs = (cs, found (get_callback key now cs))

  -- The answers to calls, each made some time after the one before.
  unfoldable pub answers_of {ℓs} :
      {S : Type ℓs} → (Call T → ℕ → S → S × Answer T) → ℕ → List (ℕ × Call T) → S → List (Answer T)
  answers_of act now [] s = []
  answers_of act now ((wait, c) ∷ calls) s =
      let (s', answer) = act c (now + wait) s in answer ∷ answers_of act (now + wait) calls s'
