-- ===== src/Cache/Bounds.antt =====
-- internal/service/cache_store.go: `Set` keeps the bound of the cache.
use tinyauth.Base.{ℕ, suc, ◌≤◌, ◌<◌, ◌≡◌, refl, ◌⊎◌, inl, inr, String, true, arith, Bool-cases}
use tinyauth.Base.Lists.{length}
use tinyauth.Base.Dict.{has, length-insert}
use tinyauth.Cache.{CacheStore, expiry, delete_callback, evict_one, put, must_evict, set_callback}
use tinyauth.Cache.Invariant.{IsBounded, IsValid, evict_one-Evicts, evict_one-lt}

module _ {ℓ} {T : Type ℓ} where
  put-le :
      (key : String) (value : T) (ttl now n : ℕ) (cs : CacheStore T)
      → (has key cs.cache ≡ true) × (length cs.cache ≤ n) ⊎ (length cs.cache < n)
      → length (put key value ttl now cs).cache ≤ n
  unfolding put
  put-le key value ttl now n cs h =
      ground
        (arith, length-insert key (record { value = value; expires_at = expiry ttl now }) cs.cache)

  max_size-evict_one :
      (now : ℕ) (cs : CacheStore T)
      → IsValid cs
      → 0 < length cs.cache
      → (evict_one now cs).0.max_size ≡ cs.max_size
  unfolding delete_callback
  max_size-evict_one now cs v h = let (k, there, e) = evict_one-Evicts now cs v h in rw e refl

  max_size-put :
      (key : String) (value : T) (ttl now : ℕ) (cs : CacheStore T)
      → (put key value ttl now cs).max_size ≡ cs.max_size
  unfolding put
  max_size-put key value ttl now cs = refl

  pub max_size-set_callback :
      (key : String) (value : T) (ttl now : ℕ) (cs : CacheStore T)
      → IsValid cs
      → (set_callback key value ttl now cs).max_size ≡ cs.max_size
  unfolding set_callback
  max_size-set_callback key value ttl now cs v = elim (Bool-cases (must_evict key cs)) [
    | inl e ↦
        rw (e, max_size-put key value ttl now (evict_one now cs).0)
          (max_size-evict_one now cs v (ground arith))
    | inr e ↦ rw (e, max_size-put key value ttl now cs) refl
  ]

  set_callback-le :
      (key : String) (value : T) (ttl now : ℕ) (cs : CacheStore T)
      → IsValid cs
      → 0 < cs.max_size
      → length cs.cache ≤ cs.max_size
      → length (set_callback key value ttl now cs).cache ≤ cs.max_size
  unfolding set_callback
  set_callback-le key value ttl now cs v pos b = elim (Bool-cases (must_evict key cs)) [
    | inl e ↦
        let shrunk : length (evict_one now cs).0.cache < length cs.cache =
          evict_one-lt now cs v (ground arith) in
        rw e (put-le key value ttl now cs.max_size (evict_one now cs).0 (inr (omega arith)))
    | inr e ↦ rw e (put-le key value ttl now cs.max_size cs (ground arith))
  ]

  pub set_callback-IsBounded :
      (key : String) (value : T) (ttl now : ℕ) (cs : CacheStore T)
      → IsValid cs
      → IsBounded cs
      → IsBounded (set_callback key value ttl now cs)
  set_callback-IsBounded key value ttl now cs v b pos =
      let same = max_size-set_callback key value ttl now cs v in
      let room : 0 < cs.max_size = omega arith in
      omega (arith, set_callback-le key value ttl now cs v room (b room))

  pub length-set_callback-le :
      (key : String) (value : T) (ttl now : ℕ) (cs : CacheStore T)
      → IsValid cs
      → length (set_callback key value ttl now cs).cache ≤ suc (length cs.cache)
  unfolding set_callback
  length-set_callback-le key value ttl now cs v = elim (Bool-cases (must_evict key cs)) [
    | inl e ↦
        let shrunk : length (evict_one now cs).0.cache < length cs.cache =
          evict_one-lt now cs v (ground arith) in
        rw e (put-le key value ttl now _ (evict_one now cs).0 (inr (omega arith)))
    | inr e ↦ rw e (put-le key value ttl now _ cs (inr (omega arith)))
  ]
