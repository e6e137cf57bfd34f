-- ===== src/Cache/Lookup.antt =====
-- internal/service/cache_store.go: what a reader sees after a write, a deletion or a sweep.
use tinyauth.Base.{
  ℕ, ◌+◌, ◌≡◌, refl, ◌≢◌, ◌⊎◌, inl, inr, String, true, false, none, some, arith, eq_iff, eq_refl,
  Bool-cases, String-cases, Option-cases, ltb, ◌==◌, ◌&&◌, if◌then◌else◌,
}
use tinyauth.Base.Dict.{lookup, lookup-insert, lookup-delete}
use tinyauth.Cache.{
  CacheEntry, CacheStore, is_past, expiry, delete_callback, put, must_evict, set_callback,
  update_callback, get_callback,
}
use tinyauth.Cache.Invariant.{IsValid, evict_one-Evicts}

module _ {ℓ} {T : Type ℓ} where
  lookup-put :
      (key j : String) (value : T) (ttl now : ℕ) (cs : CacheStore T)
      → lookup j (put key value ttl now cs).cache ≡ (
          if key == j
          then some (record { value = value; expires_at = expiry ttl now })
          else lookup j cs.cache)
  unfolding put
  lookup-put key j value ttl now cs = lookup-insert key j _ cs.cache

  pub lookup-delete_callback :
      (key j : String) (cs : CacheStore T)
      → lookup j (delete_callback key cs).cache ≡ (if key == j then none else lookup j cs.cache)
  unfolding delete_callback
  lookup-delete_callback key j cs = lookup-delete key j cs.cache

  -- After `Delete` the key is unreadable, and every other key reads as before.
  pub get_callback-delete_callback :
      (key j : String) (now : ℕ) (cs : CacheStore T)
      → get_callback j now (delete_callback key cs)
        ≡ (if key == j then none else get_callback j now cs)
  unfolding get_callback delete_callback
  get_callback-delete_callback key j now cs = rw (lookup-delete key j cs.cache) (ground arith)

  pub get_callback-set_callback_self :
      (key : String) (value : T) (ttl now later : ℕ) (cs : CacheStore T)
      → get_callback key later (set_callback key value ttl now cs)
        ≡ (if ltb 0 ttl && ltb (now + ttl) later then none else some value)
  unfolding get_callback set_callback
  get_callback-set_callback_self key value ttl now later cs =
      rw (lookup-put key key value ttl now _) (rw (eq_refl key) (ground arith))

  -- In a valid cache, `Set` makes the key readable until its time to live is over (for ever if that is zero). Under
  -- any other key a reader sees what it saw before, except that a full cache may have dropped
  -- that entry; it drops nothing if it has room or if the key is there already.
  pub get_callback-set_callback :
      (key j : String) (value : T) (ttl now later : ℕ) (cs : CacheStore T)
      → IsValid cs
      → key ≢ j
      → let cs' = set_callback key value ttl now cs in
        (get_callback key later cs'
          ≡ (if ltb 0 ttl && ltb (now + ttl) later then none else some value))
        × ((get_callback j later cs' ≡ get_callback j later cs)
            ⊎ ((must_evict key cs ≡ true) × (get_callback j later cs' ≡ none)))
  unfolding get_callback set_callback
  get_callback-set_callback key j value ttl now later cs v ne = (
    get_callback-set_callback_self key value ttl now later cs,
    elim (Bool-cases (must_evict key cs)) [
      | inl e ↦
          let (k, there, evicted) = evict_one-Evicts now cs v (ground arith) in
          rw (e, lookup-put key j value ttl now _, evicted)
            (elim (String-cases key j) [
              | inl (same, p) ↦ absurd (ne p)
              | inr (other, q) ↦ rw other (elim (String-cases k j) [
                | inl (hit, p) ↦ inr (refl, rw (lookup-delete_callback k j cs, hit) refl)
                | inr (miss, p) ↦ inl (rw (lookup-delete_callback k j cs, miss) refl)
              ])
            ])
      | inr e ↦ rw (e, lookup-put key j value ttl now cs) (inl (ground (arith, eq_iff key j)))
    ],
  )

  -- `Update` never revives a key: on one that no reader sees, missing or expired, it reports false
  -- and changes nothing.
  pub update_callback-dead :
      (key : String) (value : T) (ttl now : ℕ) (cs : CacheStore T)
      → get_callback key now cs ≡ none
      → update_callback key value ttl now cs ≡ (cs, false)
  unfolding get_callback update_callback
  update_callback-dead key value ttl now cs h = elim (Option-cases (lookup key cs.cache)) [
    | inl e ↦ rw e refl
    | inr (c, e) ↦ rw e (ground arith)
  ]

  -- On a live key `Update` stores the value, under a new time to live if one is given and under
  -- the old expiry if it is zero, and no other key is touched.
  pub get_callback-update_callback :
      (key j : String) (value : T) (ttl now later : ℕ) (cs : CacheStore T) (entry : CacheEntry T)
      → lookup key cs.cache ≡ some entry
      → is_past entry.expires_at now ≡ false
      → let (cs', done) = update_callback key value ttl now cs in
        let expires_at = if ltb 0 ttl then some (now + ttl) else entry.expires_at in
        (done ≡ true)
        × (get_callback j later cs' ≡ (
            if key == j
            then (if is_past expires_at later then none else some value)
            else get_callback j later cs))
  unfolding get_callback update_callback
  get_callback-update_callback key j value ttl now later cs entry e live =
      rw (e, live) (refl, rw (lookup-insert key j _ cs.cache) (ground arith))
