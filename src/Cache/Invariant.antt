-- ===== src/Cache/Invariant.antt =====
-- internal/service/cache_store.go: the invariant of the cache (no key twice, the order list holds
-- the keys of the map, the bound is kept) under deletion, insertion and eviction.
use tinyauth.Base.{
  ℕ, ◌≤◌, ◌<◌, ◌≡◌, refl, sym, ap, ◌∙◌, ◌⊎◌, inl, inr, String, true, List, [], ◌∷◌, Option, none,
  arith, eq_iff, Bool-cases, String-cases,
}
use tinyauth.Base.Lists.{
  length, contains, IsDistinct, contains-append, contains-remove_other, contains-remove_self,
  remove-IsDistinct, append-IsDistinct,
}
use tinyauth.Base.Dict.{
  has, HasDistinctKeys, has-insert, has-delete, insert-HasDistinctKeys, delete-HasDistinctKeys,
  length-delete-lt,
}
use tinyauth.Cache.{
  CacheEntry, CacheStore, Scan, expired, oldest, is_past, is_older, expiry, delete_callback, scan,
  evict_first, evict_scanned, evict_one, put, must_evict, set_callback,
}

module _ {ℓ} {T : Type ℓ} where
  -- Keys are unique and ordered.
  pub record IsValid (cs : CacheStore T) : Type 0 where
    pub keys : HasDistinctKeys cs.cache
    pub ordered : IsDistinct cs.order
    pub synced : (k : String) → contains k cs.order ≡ has k cs.cache

  abbrev pub IsBounded : CacheStore T → Type 0
  IsBounded cs = 0 < cs.max_size → length cs.cache ≤ cs.max_size

  pub delete_callback-IsValid :
      (key : String) (cs : CacheStore T) → IsValid cs → IsValid (delete_callback key cs)
  unfolding delete_callback
  delete_callback-IsValid key cs v = record {
    keys = delete-HasDistinctKeys key cs.cache v.keys;
    ordered = remove-IsDistinct key cs.order v.ordered;
    synced = λ k. elim (String-cases key k) [
      | inl (e, p) ↦
          ground (arith, contains-remove_self key cs.order v.ordered, has-delete key k cs.cache)
      | inr (e, ne) ↦
          ground
            (arith, contains-remove_other key k cs.order ne, has-delete key k cs.cache, v.synced k)
    ];
  }

  pub put-IsValid :
      (key : String) (value : T) (ttl now : ℕ) (cs : CacheStore T)
      → IsValid cs
      → IsValid (put key value ttl now cs)
  unfolding put contains
  put-IsValid key value ttl now cs v = record {
    keys = insert-HasDistinctKeys key _ cs.cache v.keys;
    ordered = elim (Bool-cases (contains key cs.order)) [
      | inl e ↦ rw e v.ordered
      | inr e ↦ rw e (append-IsDistinct key cs.order v.ordered e)
    ];
    synced = λ k. elim (Bool-cases (contains key cs.order)) [
      | inl e ↦
          rw e (
            ground (arith, has-insert key k entry cs.cache, v.synced k, v.synced key, eq_iff key k))
      | inr e ↦ rw e (
          ground (
            arith,
            contains-append k cs.order (key ∷ []),
            has-insert key k entry cs.cache,
            v.synced k,
            v.synced key,
            eq_iff key k,
          ))
    ];
  }
    where
      entry : CacheEntry T
      entry = record { value = value; expires_at = expiry ttl now }

  -- The key that a scan ends with is that of an entry, or the one it began with.
  abbrev ScanHas : Scan → String → List (String × CacheEntry T) → Type 0
  ScanHas (expired k) k0 es = has k es ≡ true
  ScanHas (oldest k) k0 es = (k ≡ k0) ⊎ (has k es ≡ true)

  ScanHas-stay :
      (r : Scan) (k0 : String) (x : String × CacheEntry T) (es : List (String × CacheEntry T))
      → ScanHas r k0 es
      → ScanHas r k0 (x ∷ es)
  unfolding has
  ScanHas-stay (expired k) k0 (j, w) es h = ground arith
  ScanHas-stay (oldest k) k0 (j, w) es h = ground arith

  ScanHas-move :
      (r : Scan) (k0 j : String) (w : CacheEntry T) (es : List (String × CacheEntry T))
      → ScanHas r j es
      → ScanHas r k0 ((j, w) ∷ es)
  unfolding has
  ScanHas-move (expired k) k0 j w es h = ground arith
  ScanHas-move (oldest k) k0 j w es h = ground (arith, eq_iff j k)

  scan-has :
      (now : ℕ) (es : List (String × CacheEntry T)) (k0 : String) (exp : Option ℕ)
      → ScanHas (scan now es k0 exp) k0 es
  unfolding scan has
  scan-has now [] k0 exp = inl refl
  scan-has now ((k, e) ∷ es) k0 exp = elim (Bool-cases (is_past e.expires_at now)) [
    | inl p ↦ rw p (ground (arith, eq_iff k k))
    | inr p ↦ rw p (elim (Bool-cases (is_older e.expires_at exp)) [
      | inl o ↦ rw o (ScanHas-move _ k0 k e es (scan-has now es k e.expires_at))
      | inr o ↦ rw o (ScanHas-stay _ k0 (k, e) es (scan-has now es k0 exp))
    ])
  ]

  -- The key that `evictOne` removes from a cache that holds one.
  abbrev pub Evicts : CacheStore T → CacheStore T → Type ℓ
  Evicts cs cs' = (k : String) × (has k cs.cache ≡ true) × (cs' ≡ delete_callback k cs)

  some_key : (es : List (String × CacheEntry T)) → 0 < length es → (k : String) × (has k es ≡ true)
  unfolding has
  some_key [] h = absurd (omega arith)
  some_key ((k, e) ∷ es) h = (k, ground (arith, eq_iff k k))

  evict_first-Evicts :
      (order : List String) (cs : CacheStore T)
      → order ≡ cs.order
      → IsValid cs
      → 0 < length cs.cache
      → Evicts cs (evict_first order cs).0
  unfolding evict_first contains
  evict_first-Evicts [] cs e v h =
      let (k, there) = some_key cs.cache h in absurd (ground (arith, v.synced k, ap (contains k) e))
  evict_first-Evicts (k ∷ ks) cs e v h =
      (k, sym (v.synced k) ∙ ground (arith, ap (contains k) e, eq_iff k k), refl)

  evict_scanned-Evicts :
      (r : Scan) (cs : CacheStore T)
      → ScanHas r "" cs.cache
      → IsValid cs
      → 0 < length cs.cache
      → Evicts cs (evict_scanned r cs).0
  unfolding evict_scanned
  evict_scanned-Evicts (expired k) cs s v h = (k, s, refl)
  evict_scanned-Evicts (oldest k) cs s v h = elim (String-cases k "") [
    | inl (e, p) ↦ rw e (evict_first-Evicts cs.order cs refl v h)
    | inr (e, p) ↦ rw e (k, ground arith, refl)
  ]

  pub evict_one-Evicts :
      (now : ℕ) (cs : CacheStore T)
      → IsValid cs
      → 0 < length cs.cache
      → Evicts cs (evict_one now cs).0
  unfolding evict_one
  evict_one-Evicts now cs v h = evict_scanned-Evicts _ cs (scan-has now cs.cache "" none) v h

  pub evict_one-IsValid :
      (now : ℕ) (cs : CacheStore T)
      → IsValid cs
      → 0 < length cs.cache
      → IsValid (evict_one now cs).0
  evict_one-IsValid now cs v h =
      let (k, there, e) = evict_one-Evicts now cs v h in rw e (delete_callback-IsValid k cs v)

  pub evict_one-lt :
      (now : ℕ) (cs : CacheStore T)
      → IsValid cs
      → 0 < length cs.cache
      → length (evict_one now cs).0.cache < length cs.cache
  unfolding delete_callback
  evict_one-lt now cs v h =
      let (k, there, e) = evict_one-Evicts now cs v h in rw e (length-delete-lt k cs.cache there)

  pub set_callback-IsValid :
      (key : String) (value : T) (ttl now : ℕ) (cs : CacheStore T)
      → IsValid cs
      → IsValid (set_callback key value ttl now cs)
  unfolding set_callback
  set_callback-IsValid key value ttl now cs v = elim (Bool-cases (must_evict key cs)) [
    | inl e ↦ rw e (put-IsValid key value ttl now _ (evict_one-IsValid now cs v (ground arith)))
    | inr e ↦ rw e (put-IsValid key value ttl now cs v)
  ]
