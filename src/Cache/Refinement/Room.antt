-- ===== src/Cache/Refinement/Room.antt =====
-- internal/service/cache_store.go: calls that a cache has room for, so that none evicts.
use tinyauth.Base.{
  ℕ, suc, ◌+◌, ◌≤◌, ◌≡◌, refl, ◌⊎◌, inl, inr, String, false, List, [], ◌∷◌, some, arith, ltb,
  if◌then◌else◌, Bool-cases, Option-cases,
}
use tinyauth.Base.Lists.{length}
use tinyauth.Base.Dict.{lookup, has_of_lookup, length-insert, length-delete-le}
use tinyauth.Cache.{
  CacheEntry, CacheStore, is_past, expiry, delete_callback, set_callback, put, must_evict,
  update_callback, sweep_entries, sweep, clear,
}
use tinyauth.Cache.Invariant.{IsValid}
use tinyauth.Cache.Updates.{max_size-update_callback, max_size-sweep_entries}
use tinyauth.Cache.Refinement.{Call, set, update, remove, sweep_all, clear_all, get, perform}

module _ {ℓ} {T : Type ℓ} where
  -- Room for so many new keys.
  abbrev pub HasRoom : ℕ → CacheStore T → Type 0
  HasRoom n cs = (cs.max_size ≡ 0) ⊎ (length cs.cache + n ≤ cs.max_size)

  pub HasRoom-must_evict :
      (key : String) (n : ℕ) (cs : CacheStore T) → HasRoom (suc n) cs → must_evict key cs ≡ false
  HasRoom-must_evict key n cs (inl unbounded) = ground (arith, unbounded)
  HasRoom-must_evict key n cs (inr room) = ground (arith, room)

  length-update_callback :
      (key : String) (value : T) (ttl now : ℕ) (cs : CacheStore T)
      → length (update_callback key value ttl now cs).0.cache ≡ length cs.cache
  unfolding update_callback
  length-update_callback key value ttl now cs = elim (Option-cases (lookup key cs.cache)) [
    | inl e ↦ rw e refl
    | inr (c, e) ↦ rw e (elim (Bool-cases (is_past c.expires_at now)) [
      | inl p ↦ rw p refl
      | inr p ↦
          let entry : CacheEntry T = record {
            value = value;
            expires_at = if ltb 0 ttl then some (now + ttl) else c.expires_at;
          } in
          rw p (ground (arith, length-insert key entry cs.cache, has_of_lookup key cs.cache c e))
    ])
  ]

  length-sweep_entries :
      (now : ℕ) (es : List (String × CacheEntry T)) (cs : CacheStore T)
      → length (sweep_entries now es cs).cache ≤ length cs.cache
  unfolding sweep_entries delete_callback
  length-sweep_entries now [] cs = omega arith
  length-sweep_entries now ((k, e) ∷ es) cs = elim (Bool-cases (is_past e.expires_at now)) [
    | inl p ↦
        rw (p, sweep_entries)
          (omega (
            arith,
            length-sweep_entries now es (delete_callback k cs),
            length-delete-le k cs.cache,
          ))
    | inr p ↦ rw (p, sweep_entries) (length-sweep_entries now es cs)
  ]

  pub perform-HasRoom :
      (c : Call T) (now n : ℕ) (cs : CacheStore T)
      → IsValid cs
      → HasRoom (suc n) cs
      → HasRoom n (perform c now cs).0
  unfolding perform set_callback put delete_callback sweep clear
  perform-HasRoom (set key value ttl) now n cs v room = rw (HasRoom-must_evict key n cs room) (
      ground (
        arith,
        length-insert {V = CacheEntry T} key (record { value = value; expires_at = expiry ttl now })
            cs.cache,
        room,
      ))
  perform-HasRoom (update key value ttl) now n cs v room = ground (
    arith,
    length-update_callback key value ttl now cs,
    max_size-update_callback key value ttl now cs,
    room,
  )
  perform-HasRoom (remove key) now n cs v room = ground (arith, length-delete-le key cs.cache, room)
  perform-HasRoom sweep_all now n cs v room =
      ground
        (arith, length-sweep_entries now cs.cache cs, max_size-sweep_entries now cs.cache cs, room)
  perform-HasRoom clear_all now n cs v room = ground (arith, room)
  perform-HasRoom (get key) now n cs v room = ground (arith, room)
