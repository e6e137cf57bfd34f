-- ===== src/Cache/Updates.antt =====
-- internal/service/cache_store.go: the invariant under `Update` and `Sweep`.
use tinyauth.Base.{
  ℕ, ◌+◌, ◌≡◌, refl, inl, inr, String, List, [], ◌∷◌, some, arith, ltb, if◌then◌else◌, eq_iff,
  Bool-cases, Option-cases,
}
use tinyauth.Base.Dict.{
  lookup, has-insert, has_of_lookup, insert-HasDistinctKeys, length-insert, length-delete-le,
}
use tinyauth.Cache.{
  CacheEntry, CacheStore, is_past, delete_callback, update_callback, sweep_entries,
}
use tinyauth.Cache.Invariant.{IsValid, IsBounded, delete_callback-IsValid}

module _ {ℓ} {T : Type ℓ} where
  pub update_callback-IsValid :
      (key : String) (value : T) (ttl now : ℕ) (cs : CacheStore T)
      → IsValid cs
      → IsValid (update_callback key value ttl now cs).0
  unfolding update_callback
  update_callback-IsValid key value ttl now cs v = elim (Option-cases (lookup key cs.cache)) [
    | inl e ↦ rw e v
    | inr (c, e) ↦ rw e (elim (Bool-cases (is_past c.expires_at now)) [
      | inl p ↦ rw p v
      | inr p ↦
          let entry : CacheEntry T = record {
            value = value;
            expires_at = if ltb 0 ttl then some (now + ttl) else c.expires_at;
          } in
          rw p (record {
            keys = insert-HasDistinctKeys key entry cs.cache v.keys;
            ordered = v.ordered;
            synced = λ k. ground (
              arith,
              v.synced k,
              has-insert key k entry cs.cache,
              eq_iff key k,
              has_of_lookup key cs.cache c e,
            );
          })
    ])
  ]

  pub sweep_entries-IsValid :
      (now : ℕ) (es : List (String × CacheEntry T)) (cs : CacheStore T)
      → IsValid cs
      → IsValid (sweep_entries now es cs)
  unfolding sweep_entries
  sweep_entries-IsValid now [] cs v = v
  sweep_entries-IsValid now ((k, e) ∷ es) cs v = elim (Bool-cases (is_past e.expires_at now)) [
    | inl p ↦ rw p (sweep_entries-IsValid now es _ (delete_callback-IsValid k cs v))
    | inr p ↦ rw p (sweep_entries-IsValid now es cs v)
  ]

  pub sweep_entries-IsBounded :
      (now : ℕ) (es : List (String × CacheEntry T)) (cs : CacheStore T)
      → IsBounded cs
      → IsBounded (sweep_entries now es cs)
  unfolding sweep_entries delete_callback
  sweep_entries-IsBounded now [] cs b = b
  sweep_entries-IsBounded now ((k, e) ∷ es) cs b = elim (Bool-cases (is_past e.expires_at now)) [
    | inl p ↦
        rw (p, sweep_entries)
          (sweep_entries-IsBounded now es _
            (λ pos. omega (arith, length-delete-le k cs.cache, b pos)))
    | inr p ↦ rw (p, sweep_entries) (sweep_entries-IsBounded now es cs b)
  ]

  pub update_callback-IsBounded :
      (key : String) (value : T) (ttl now : ℕ) (cs : CacheStore T)
      → IsBounded cs
      → IsBounded (update_callback key value ttl now cs).0
  unfolding update_callback
  update_callback-IsBounded key value ttl now cs b = elim (Option-cases (lookup key cs.cache)) [
    | inl e ↦ rw e b
    | inr (c, e) ↦ rw e (elim (Bool-cases (is_past c.expires_at now)) [
      | inl p ↦ rw p b
      | inr p ↦
          let entry : CacheEntry T = record {
            value = value;
            expires_at = if ltb 0 ttl then some (now + ttl) else c.expires_at;
          } in
          rw p (λ pos.
            ground (arith, b pos, length-insert key entry cs.cache, has_of_lookup key cs.cache c e))
    ])
  ]

  pub max_size-update_callback :
      (key : String) (value : T) (ttl now : ℕ) (cs : CacheStore T)
      → (update_callback key value ttl now cs).0.max_size ≡ cs.max_size
  unfolding update_callback
  max_size-update_callback key value ttl now cs = elim (Option-cases (lookup key cs.cache)) [
    | inl e ↦ rw e
    | inr (c, e) ↦ rw e (ground arith)
  ]

  pub max_size-sweep_entries :
      (now : ℕ) (es : List (String × CacheEntry T)) (cs : CacheStore T)
      → (sweep_entries now es cs).max_size ≡ cs.max_size
  unfolding sweep_entries delete_callback
  max_size-sweep_entries now [] cs = refl
  max_size-sweep_entries now ((k, e) ∷ es) cs = elim (Bool-cases (is_past e.expires_at now)) [
    | inl p ↦ rw (p, sweep_entries) (max_size-sweep_entries now es (delete_callback k cs))
    | inr p ↦ rw (p, sweep_entries) (max_size-sweep_entries now es cs)
  ]
