-- ===== src/Cache/Eviction.antt =====
-- internal/service/cache_store.go: which entry `evictOne` removes.
use tinyauth.Base.{
  ℕ, ◌≤◌, ◌<◌, ◌≡◌, refl, sym, ◌≢◌, ◌⊎◌, inl, inr, String, true, false, List, [], ◌∷◌, Option, none,
  some, arith, eq_iff, eq_refl, Bool-cases, String-cases, Option-cases, ◌==◌,
}
use tinyauth.Base.Dict.{lookup, has, HasDistinctKeys, has_of_lookup}
use tinyauth.Cache.{CacheEntry, CacheStore, is_past, delete_callback, evict_one}
use tinyauth.Cache.Invariant.{IsValid}
use mathlib.Core.Path.{subst}
use tinyauth.Base.Lists.{All}
use tinyauth.Cache.{Scan, expired, oldest, is_older, scan, evict_scanned, evict_first}

abbrev Below : ℕ → Option ℕ → Type 0
Below t none = Unit
Below t (some exp) = t < exp

module _ {ℓ} {T : Type ℓ} where
  -- The expiry of the entry, if it has one, is not before `t`.
  abbrev pub NotBefore : ℕ → String × CacheEntry T → Type 0
  NotBefore t (k, e) = elim e.expires_at [ none ↦ Unit {0} | some exp ↦ t ≤ exp ]

  abbrev pub IsLive : ℕ → String × CacheEntry T → Type 0
  IsLive now (k, e) = is_past e.expires_at now ≡ false

  abbrev pub HasNoExpiry : String × CacheEntry T → Type 0
  HasNoExpiry (k, e) = e.expires_at ≡ none

  -- An entry under `k` that expires at `t`, before every other one.
  pub record IsOldest (k : String) (t : ℕ) (es : List (String × CacheEntry T)) : Type ℓ where
    pub entry : CacheEntry T
    pub found : lookup k es ≡ some entry
    pub expires : entry.expires_at ≡ some t
    pub first : All (NotBefore t) es

  -- What a scan that began with `exp` says of the entries that it met.
  abbrev Fits : ℕ → List (String × CacheEntry T) → String → Option ℕ → Scan → Type ℓ
  Fits now es k0 exp (expired k) =
      (e : CacheEntry T) × (lookup k es ≡ some e) × (is_past e.expires_at now ≡ true)
  Fits now es k0 exp (oldest k) =
      All (IsLive now) es
      × (((k ≡ k0) × All (λ (j, e). is_older e.expires_at exp ≡ false) es)
          ⊎ ((t : ℕ) × IsOldest k t es × Below t exp))

  lookup-cons :
      (j k : String) (w e : CacheEntry T) (es : List (String × CacheEntry T))
      → has j es ≡ false
      → lookup k es ≡ some e
      → lookup k ((j, w) ∷ es) ≡ some e
  unfolding lookup
  lookup-cons j k w e es fresh found = ground (arith, eq_iff j k, has_of_lookup k es e found)

  Fits-stay :
      (now : ℕ) (j : String) (w : CacheEntry T) (es : List (String × CacheEntry T)) (k0 : String)
      (exp : Option ℕ) (r : Scan)
      → has j es ≡ false
      → is_past w.expires_at now ≡ false
      → is_older w.expires_at exp ≡ false
      → Fits now es k0 exp r
      → Fits now ((j, w) ∷ es) k0 exp r
  Fits-stay now j w es k0 exp (expired k) fresh live late (e, found, past) =
      (e, lookup-cons j k w e es fresh found, past)
  Fits-stay now j w es k0 exp (oldest k) fresh live late (lives, inl (same, lates)) =
      ((live, lives), inl (same, (late, lates)))
  Fits-stay now j w es k0 exp (oldest k) fresh live late (lives, inr (t, o, below)) = (
    (live, lives),
    inr (
      t,
      record {
        entry = o.entry;
        found = lookup-cons j k w o.entry es fresh o.found;
        expires = o.expires;
        first = (ground arith, o.first);
      },
      below,
    ),
  )

  first_of_older :
      (t : ℕ) (o : Option ℕ) (es : List (String × CacheEntry T))
      → o ≡ some t
      → All (λ (k, e). is_older e.expires_at o ≡ false) es
      → All (NotBefore t) es
  first_of_older t o [] p h = tt
  first_of_older t o ((k, e) ∷ es) p h = (ground arith, first_of_older t o es p h.1)

  Fits-move :
      (now : ℕ) (j : String) (w : CacheEntry T) (es : List (String × CacheEntry T)) (k0 : String)
      (exp : Option ℕ) (r : Scan)
      → has j es ≡ false
      → is_past w.expires_at now ≡ false
      → is_older w.expires_at exp ≡ true
      → Fits now es j w.expires_at r
      → Fits now ((j, w) ∷ es) k0 exp r
  unfolding lookup
  Fits-move now j w es k0 exp (expired k) fresh live late (e, found, past) =
      (e, lookup-cons j k w e es fresh found, past)
  Fits-move now j w es k0 exp (oldest k) fresh live late (lives, inl (same, lates)) =
      elim (Option-cases w.expires_at) [
        | inl p ↦ absurd (ground arith)
        | inr (t, p) ↦ (
          (live, lives),
          inr (
            t,
            record {
              entry = w;
              found = ground (arith, eq_iff j k);
              expires = p;
              first = (ground arith, first_of_older t w.expires_at es p lates);
            },
            ground arith,
          ),
        )
      ]
  Fits-move now j w es k0 exp (oldest k) fresh live late (lives, inr (t, o, below)) = (
    (live, lives),
    inr (
      t,
      record {
        entry = o.entry;
        found = lookup-cons j k w o.entry es fresh o.found;
        expires = o.expires;
        first = (ground arith, o.first);
      },
      ground arith,
    ),
  )

  scan-Fits :
      (now : ℕ) (es : List (String × CacheEntry T)) (k0 : String) (exp : Option ℕ)
      → HasDistinctKeys es
      → Fits now es k0 exp (scan now es k0 exp)
  unfolding scan lookup
  scan-Fits now [] k0 exp d = (tt, inl (refl, tt))
  scan-Fits now ((k, e) ∷ es) k0 exp d = elim (Bool-cases (is_past e.expires_at now)) [
    | inl p ↦ rw p (e, rw (eq_refl k) refl, p)
    | inr p ↦ rw p (elim (Bool-cases (is_older e.expires_at exp)) [
      | inl o ↦ rw o (Fits-move now k e es k0 exp _ d.0 p o (scan-Fits now es k e.expires_at d.1))
      | inr o ↦ rw o (Fits-stay now k e es k0 exp _ d.0 p o (scan-Fits now es k0 exp d.1))
    ])
  ]

  -- Why `evictOne` chose the key `k`.
  pub data IsVictim (now : ℕ) (cs : CacheStore T) (k : String) : Type ℓ where
    is_expired :
        (e : CacheEntry T)
        → lookup k cs.cache ≡ some e
        → is_past e.expires_at now ≡ true
        → IsVictim now cs k
    is_oldest :
        (t : ℕ) → k ≢ "" → All (IsLive now) cs.cache → IsOldest k t cs.cache → IsVictim now cs k
    is_first :
        (ks : List String)
        → cs.order ≡ k ∷ ks
        → All (IsLive now) cs.cache
        → All HasNoExpiry cs.cache ⊎ ((t : ℕ) × IsOldest "" t cs.cache)
        → IsVictim now cs k

  no_expiry :
      (es : List (String × CacheEntry T))
      → All (λ (k, e). is_older e.expires_at none ≡ false) es
      → All HasNoExpiry es
  no_expiry [] h = tt
  no_expiry ((k, e) ∷ es) h = (ground arith, no_expiry es h.1)

  evict_first-IsVictim :
      (now : ℕ) (cs : CacheStore T) (order : List String)
      → order ≡ cs.order
      → (evict_first order cs).1 ≡ true
      → All (IsLive now) cs.cache
      → All HasNoExpiry cs.cache ⊎ ((t : ℕ) × IsOldest "" t cs.cache)
      → (k : String) × (evict_first order cs ≡ (delete_callback k cs, true)) × IsVictim now cs k
  unfolding evict_first
  evict_first-IsVictim now cs [] e h live why = absurd (ground arith)
  evict_first-IsVictim now cs (k ∷ ks) e h live why = (k, refl, is_first ks (sym e) live why)

  evict_scanned-IsVictim :
      (now : ℕ) (cs : CacheStore T) (r : Scan)
      → Fits now cs.cache "" none r
      → (evict_scanned r cs).1 ≡ true
      → (k : String) × (evict_scanned r cs ≡ (delete_callback k cs, true)) × IsVictim now cs k
  unfolding evict_scanned
  evict_scanned-IsVictim now cs (expired k) (e, found, past) h = (k, refl, is_expired e found past)
  evict_scanned-IsVictim now cs (oldest k) (live, inl (same, none_older)) h =
      let e : (k == "") ≡ true = (eq_iff k "").1 same in
      rw e (
        evict_first-IsVictim now cs cs.order refl (rw (e, evict_scanned) at h) live
          (inl (no_expiry cs.cache none_older)))
  evict_scanned-IsVictim now cs (oldest k) (live, inr (t, o, _)) h = elim (String-cases k "") [
    | inl (e, p) ↦ rw e (
        evict_first-IsVictim now cs cs.order refl (rw (e, evict_scanned) at h) live
          (inr (t, subst (λ x. IsOldest x t cs.cache) p o)))
    | inr (e, ne) ↦ rw e (k, refl, is_oldest t ne live o)
  ]

  -- In a valid cache, an eviction that succeeds removes one entry, and not just any: an expired one if there is one; otherwise the
  -- one that expires first, if any expires; and the key that was set first only if no entry
  -- expires at all (or if the entry that expires first is under the empty key, which the code
  -- takes for "none found").
  pub evict_one-IsVictim :
      (now : ℕ) (cs : CacheStore T)
      → IsValid cs
      → (evict_one now cs).1 ≡ true
      → (k : String) × (evict_one now cs ≡ (delete_callback k cs, true)) × IsVictim now cs k
  unfolding evict_one
  evict_one-IsVictim now cs v h =
      evict_scanned-IsVictim now cs _ (scan-Fits now cs.cache "" none v.keys) h
