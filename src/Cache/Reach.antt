-- ===== src/Cache/Reach.antt =====
-- internal/service/cache_store.go: the states that a sequence of locked calls reaches.
use tinyauth.Base.{ℕ, ◌≤◌, ◌≡◌, refl, sym, ap, ◌∙◌, String, arith, ltb, Bool-cases, inl, inr, ◌⊎◌}
use tinyauth.Base.Lists.{length, contains}
use tinyauth.Base.Dict.{lookup, has, HasDistinctKeys, length-delete-le}
use tinyauth.Cache.{
  CacheStore, new_cache_store, delete_callback, set_callback, update_callback, sweep, clear,
}
use tinyauth.Cache.Invariant.{IsValid, IsBounded, delete_callback-IsValid, set_callback-IsValid}
use tinyauth.Cache.Bounds.{set_callback-IsBounded, max_size-set_callback}
use tinyauth.Cache.Updates.{
  update_callback-IsValid, update_callback-IsBounded, sweep_entries-IsValid,
  sweep_entries-IsBounded, max_size-update_callback, max_size-sweep_entries,
}

module _ {ℓ} {T : Type ℓ} where
  -- The same map under another order of its entries: Go fixes no order of a range.
  pub record Reordered (cs cs' : CacheStore T) : Type ℓ where
    pub order : cs'.order ≡ cs.order
    pub max_size : cs'.max_size ≡ cs.max_size
    pub count : length cs'.cache ≡ length cs.cache
    pub keys : HasDistinctKeys cs'.cache
    pub same : (k : String) → lookup k cs'.cache ≡ lookup k cs.cache
    pub holds : (k : String) → has k cs'.cache ≡ has k cs.cache

  -- One locked operation, at any clock reading.
  pub data Step (cs : CacheStore T) : CacheStore T → Type ℓ where
    sets : (key : String) (value : T) (ttl now : ℕ) → Step cs (set_callback key value ttl now cs)
    updates :
        (key : String) (value : T) (ttl now : ℕ) → Step cs (update_callback key value ttl now cs).0
    deletes : (key : String) → Step cs (delete_callback key cs)
    sweeps : (now : ℕ) → Step cs (sweep now cs)
    clears : Step cs (clear cs)
    reorders : (cs' : CacheStore T) → Reordered cs cs' → Step cs cs'

  pub data Reach (cs : CacheStore T) : CacheStore T → Type ℓ where
    here : Reach cs cs
    next : {cs' cs'' : CacheStore T} → Reach cs cs' → Step cs' cs'' → Reach cs cs''

  pub Step-IsValid : {cs cs' : CacheStore T} → Step cs cs' → IsValid cs → IsValid cs'
  unfolding sweep clear contains has
  Step-IsValid (sets key value ttl now) v = set_callback-IsValid key value ttl now _ v
  Step-IsValid (updates key value ttl now) v = update_callback-IsValid key value ttl now _ v
  Step-IsValid (deletes key) v = delete_callback-IsValid key _ v
  Step-IsValid (sweeps now) v = sweep_entries-IsValid now _ _ v
  Step-IsValid clears v = record { keys = tt; ordered = tt; synced = λ k. refl }
  Step-IsValid (reorders cs' r) v = record {
    keys = r.keys;
    ordered = rw r.order v.ordered;
    synced = λ k. ap (contains k) r.order ∙ v.synced k ∙ sym (r.holds k);
  }

  Step-IsBounded : {cs cs' : CacheStore T} → Step cs cs' → IsValid cs → IsBounded cs → IsBounded cs'
  unfolding sweep clear delete_callback
  Step-IsBounded (sets key value ttl now) v b = set_callback-IsBounded key value ttl now _ v b
  Step-IsBounded (updates key value ttl now) v b = update_callback-IsBounded key value ttl now _ b
  Step-IsBounded {cs} (deletes key) v b = λ pos. omega (arith, length-delete-le key cs.cache, b pos)
  Step-IsBounded (sweeps now) v b = sweep_entries-IsBounded now _ _ b
  Step-IsBounded clears v b = λ pos. omega arith
  Step-IsBounded (reorders cs' r) v b =
      λ pos. omega (arith, r.count, r.max_size, b (omega (arith, r.max_size)))

  Reach-IsValid : {cs cs' : CacheStore T} → IsValid cs → Reach cs cs' → IsValid cs'
  Reach-IsValid v here = v
  Reach-IsValid v (next r s) = Step-IsValid s (Reach-IsValid v r)

  Reach-IsBounded :
      {cs cs' : CacheStore T} → IsValid cs → IsBounded cs → Reach cs cs' → IsBounded cs'
  Reach-IsBounded v b here = b
  Reach-IsBounded v b (next r s) = Step-IsBounded s (Reach-IsValid v r) (Reach-IsBounded v b r)

  pub new_cache_store-IsValid : (max_size : ℕ) → IsValid (new_cache_store {T = T} max_size)
  unfolding new_cache_store contains has
  new_cache_store-IsValid max_size = record { keys = tt; ordered = tt; synced = λ k. refl }

  pub Step-max_size :
      {cs cs' : CacheStore T} → Step cs cs' → IsValid cs → cs'.max_size ≡ cs.max_size
  unfolding sweep clear delete_callback
  Step-max_size (sets key value ttl now) v = max_size-set_callback key value ttl now _ v
  Step-max_size {cs} (updates key value ttl now) v = max_size-update_callback key value ttl now cs
  Step-max_size (deletes key) v = refl
  Step-max_size {cs} (sweeps now) v = max_size-sweep_entries now cs.cache cs
  Step-max_size clears v = refl
  Step-max_size (reorders cs' r) v = r.max_size

  Reach-max_size : {cs cs' : CacheStore T} → IsValid cs → Reach cs cs' → cs'.max_size ≡ cs.max_size
  Reach-max_size v here = refl
  Reach-max_size v (next r s) = Step-max_size s (Reach-IsValid v r) ∙ Reach-max_size v r

  -- Whatever the calls, the clock and the order of the ranges, a cache made with `maxSize` has no
  -- key twice, lists in `order` exactly the keys of the map, each once, and if `maxSize` is
  -- not zero it holds at most `maxSize` entries.
  pub Reach-new_cache_store :
      (max_size : ℕ) (cs : CacheStore T)
      → Reach (new_cache_store max_size) cs
      → IsValid cs × ((max_size ≡ 0) ⊎ (length cs.cache ≤ max_size))
  unfolding new_cache_store
  Reach-new_cache_store max_size cs r =
      let start = new_cache_store-IsValid max_size in
      let same = Reach-max_size start r in
      (
        Reach-IsValid start r,
        elim (Bool-cases (ltb 0 max_size)) [
          | inl pos ↦ inr (
              omega
                (arith, same, Reach-IsBounded start (λ p. omega arith) r (ground (arith, same))))
          | inr nil ↦ inl (ground arith)
        ],
      )
