-- ===== src/Cache/Sweeping.antt =====
-- internal/service/cache_store.go: what a reader sees after a sweep.
use tinyauth.Base.{
  ℕ, ◌≤◌, ◌≡◌, refl, ◌∙◌, inl, inr, String, Bool, true, false, List, [], ◌∷◌, Option, none, some,
  arith, Bool-cases, String-cases, ◌==◌, ◌&&◌, if◌then◌else◌,
}
use tinyauth.Base.Dict.{lookup, has, HasDistinctKeys}
use tinyauth.Cache.{
  CacheEntry, CacheStore, is_past, delete_callback, get_callback, live_value, sweep_entries, sweep,
}
use tinyauth.Cache.Invariant.{IsValid}
use tinyauth.Cache.Lookup.{lookup-delete_callback}

module _ {ℓ} {T : Type ℓ} where
  -- The entry under a key that a sweep at `now` keeps.
  abbrev pub kept_entry : Option (CacheEntry T) → ℕ → Option (CacheEntry T)
  kept_entry none now = none
  kept_entry (some e) now = if is_past e.expires_at now then none else some e

  -- Some entry of the list is under this key and expired.
  abbrev drops : String → ℕ → List (String × CacheEntry T) → Bool
  drops j now [] = false
  drops j now ((k, e) ∷ es) = if is_past e.expires_at now && k == j then true else drops j now es

  lookup-sweep_entries :
      (j : String) (now : ℕ) (es : List (String × CacheEntry T)) (cs : CacheStore T)
      → lookup j (sweep_entries now es cs).cache
        ≡ (if drops j now es then none else lookup j cs.cache)
  unfolding sweep_entries
  lookup-sweep_entries j now [] cs = refl
  lookup-sweep_entries j now ((k, e) ∷ es) cs = elim (Bool-cases (is_past e.expires_at now)) [
    | inl p ↦
        rw (p, sweep_entries)
          (ground (
            arith,
            lookup-sweep_entries j now es (delete_callback k cs),
            lookup-delete_callback k j cs,
          ))
    | inr p ↦ rw (p, sweep_entries) (lookup-sweep_entries j now es cs)
  ]

  drops-has :
      (j : String) (now : ℕ) (es : List (String × CacheEntry T))
      → has j es ≡ false
      → drops j now es ≡ false
  unfolding has
  drops-has j now [] h = refl
  drops-has j now ((k, e) ∷ es) h = ground (arith, drops-has j now es)

  drops-lookup :
      (j : String) (now : ℕ) (es : List (String × CacheEntry T))
      → HasDistinctKeys es
      → (if drops j now es then none else lookup j es) ≡ kept_entry (lookup j es) now
  unfolding lookup
  drops-lookup j now [] d = refl
  drops-lookup j now ((k, e) ∷ es) d = elim (String-cases k j) [
    | inl (same, p) ↦ ground (arith, drops-has k now es d.0)
    | inr (other, q) ↦ rw other (ground (arith, drops-lookup j now es d.1))
  ]

  live-kept_entry :
      (o : Option (CacheEntry T)) (now later : ℕ)
      → now ≤ later
      → live_value (kept_entry o now) later ≡ live_value o later
  live-kept_entry none now later h = refl
  live-kept_entry (some e) now later h = ground arith

  -- In a valid cache, `Sweep` drops exactly the entries that have expired, and a reader never notices: at every
  -- time from then on each key reads as it would have without the sweep.
  pub get_callback-sweep :
      (j : String) (now later : ℕ) (cs : CacheStore T)
      → IsValid cs
      → now ≤ later
      → (lookup j (sweep now cs).cache ≡ kept_entry (lookup j cs.cache) now)
        × (get_callback j later (sweep now cs) ≡ get_callback j later cs)
  unfolding sweep get_callback
  get_callback-sweep j now later cs v h =
      let kept = lookup-sweep_entries j now cs.cache cs ∙ drops-lookup j now cs.cache v.keys in
      (kept, rw kept (live-kept_entry (lookup j cs.cache) now later h))
