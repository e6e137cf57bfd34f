-- ===== src/Cache/Refinement/Answers.antt =====
-- internal/service/cache_store.go: the cache keeps the promise that Cache/Refinement writes down.
use tinyauth.Base.{
  ℕ, suc, ◌+◌, ◌≤◌, ◌≡◌, refl, sym, ap, ◌∙◌, ◌⊎◌, inl, inr, String, false, List, [], ◌∷◌, none,
  some, arith, ltb, if◌then◌else◌, String-cases, Option-cases,
}
use tinyauth.Base.Lists.{length}
use tinyauth.Base.Dict.{lookup}
use tinyauth.Cache.{
  CacheEntry, CacheStore, is_past, new_cache_store, set_callback, update_callback, get_callback,
  clear,
}
use tinyauth.Cache.Invariant.{IsValid, set_callback-IsValid}
use tinyauth.Cache.Updates.{update_callback-IsValid}
use tinyauth.Cache.Reach.{
  Step-IsValid, sets, updates, deletes, sweeps, clears, new_cache_store-IsValid,
}
use tinyauth.Cache.Lookup.{
  get_callback-delete_callback, get_callback-set_callback, get_callback-set_callback_self,
  update_callback-dead, get_callback-update_callback,
}
use tinyauth.Cache.Sweeping.{get_callback-sweep}
use tinyauth.Cache.Refinement.{
  Call, set, update, remove, sweep_all, clear_all, get, updated, found, View, under, until,
  replaced, promise, perform, answers_of,
}
use tinyauth.Cache.Refinement.Room.{HasRoom, HasRoom-must_evict, perform-HasRoom}

module _ {ℓ} {T : Type ℓ} where
  -- From a time on, a reader of the cache sees what the map says.
  record Shows (now : ℕ) (cs : CacheStore T) (view : View T) : Type ℓ where
    valid : IsValid cs
    same : (key : String) (later : ℕ) → now ≤ later → get_callback key later cs ≡ view key later

  perform-IsValid :
      (c : Call T) (now : ℕ) (cs : CacheStore T) → IsValid cs → IsValid (perform c now cs).0
  unfolding perform
  perform-IsValid (set key value ttl) now cs v = Step-IsValid (sets key value ttl now) v
  perform-IsValid (update key value ttl) now cs v = Step-IsValid (updates key value ttl now) v
  perform-IsValid (remove key) now cs v = Step-IsValid (deletes key) v
  perform-IsValid sweep_all now cs v = Step-IsValid (sweeps now) v
  perform-IsValid clear_all now cs v = Step-IsValid clears v
  perform-IsValid (get key) now cs v = v

  set_callback-Shows :
      (key : String) (value : T) (ttl now n : ℕ) (cs : CacheStore T) (view : View T)
      → HasRoom (suc n) cs
      → Shows now cs view
      → Shows now (set_callback key value ttl now cs) (under key (until value ttl now) view)
  set_callback-Shows key value ttl now n cs view room s = record {
    valid = set_callback-IsValid key value ttl now cs s.valid;
    same = λ j later h. elim (String-cases key j) [
      | inl (eq, p) ↦ rw (eq, ← p) (get_callback-set_callback_self key value ttl now later cs)
      | inr (ne, q) ↦ rw ne (
          ground (
            arith,
            (get_callback-set_callback key j value ttl now later cs s.valid q).1,
            HasRoom-must_evict key n cs room,
            s.same j later h,
          ))
    ];
  }

  get_callback-some :
      (key : String) (now : ℕ) (cs : CacheStore T) (value : T)
      → get_callback key now cs ≡ some value
      → (entry : CacheEntry T) × (lookup key cs.cache ≡ some entry)
        × (is_past entry.expires_at now ≡ false)
  unfolding get_callback
  get_callback-some key now cs value h = elim (Option-cases (lookup key cs.cache)) [
    | inl e ↦ absurd (ground (arith, h, e))
    | inr (entry, e) ↦ (entry, e, ground (arith, h, e))
  ]

  view-entry :
      (key : String) (now later : ℕ) (cs : CacheStore T) (view : View T) (entry : CacheEntry T)
      → Shows now cs view
      → lookup key cs.cache ≡ some entry
      → now ≤ later
      → view key later ≡ (if is_past entry.expires_at later then none else some entry.value)
  unfolding get_callback
  view-entry key now later cs view entry s e h = sym (s.same key later h) ∙ rw e refl

  -- `Update` on a key that is seen, in both views of it.
  seen_update-Shows :
      (key : String) (value : T) (ttl now : ℕ) (cs : CacheStore T) (view : View T)
      (entry : CacheEntry T)
      → Shows now cs view
      → lookup key cs.cache ≡ some entry
      → is_past entry.expires_at now ≡ false
      → Shows now (update_callback key value ttl now cs).0 (
          under key
            (λ later.
              if ltb 0 ttl then until value ttl now later else replaced value (view key later))
            view)
  seen_update-Shows key value ttl now cs view entry s e live = record {
    valid = update_callback-IsValid key value ttl now cs s.valid;
    same = λ j later h.
        (get_callback-update_callback key j value ttl now later cs entry e live).1
        ∙ ground (arith, s.same j later h, view-entry key now later cs view entry s e h);
  }

  get_callback-clear :
      (key : String) (now : ℕ) (cs : CacheStore T) → get_callback key now (clear cs) ≡ none
  unfolding get_callback clear lookup
  get_callback-clear key now cs = refl

  -- One call: the same answer, and the cache shows the changed map from then on.
  perform-Shows :
      (c : Call T) (now n : ℕ) (cs : CacheStore T) (view : View T)
      → HasRoom (suc n) cs
      → Shows now cs view
      → ((perform c now cs).1 ≡ (promise c now view).1)
        × Shows now (perform c now cs).0 (promise c now view).0
  unfolding perform promise
  perform-Shows (set key value ttl) now n cs view room s =
      (refl, set_callback-Shows key value ttl now n cs view room s)
  perform-Shows (update key value ttl) now n cs view room s =
      let here = s.same key now (omega arith) in
      elim (Option-cases (get_callback key now cs)) [
        | inl gone ↦ rw (update_callback-dead key value ttl now cs gone, ← here, gone) (refl, s)
        | inr (old, seen) ↦
            let (entry, e, live) = get_callback-some key now cs old seen in
            rw (← here, seen)
              (
                ap updated
                    (get_callback-update_callback key key value ttl now now cs entry e live).0,
                seen_update-Shows key value ttl now cs view entry s e live,
              )
      ]
  perform-Shows (remove key) now n cs view room s = (
    refl,
    record {
      valid = perform-IsValid (remove key) now cs s.valid;
      same = λ j later h.
          ground (arith, get_callback-delete_callback key j later cs, s.same j later h);
    },
  )
  perform-Shows sweep_all now n cs view room s = (
    refl,
    record {
      valid = perform-IsValid sweep_all now cs s.valid;
      same = λ j later h. (get_callback-sweep j now later cs s.valid h).1 ∙ s.same j later h;
    },
  )
  perform-Shows clear_all now n cs view room s = (
    refl,
    record {
      valid = perform-IsValid clear_all now cs s.valid;
      same = λ j later h. get_callback-clear j later cs;
    },
  )
  perform-Shows (get key) now n cs view room s = (ap found (s.same key now (omega arith)), s)

  answers_of-Shows :
      (calls : List (ℕ × Call T)) (now : ℕ) (cs : CacheStore T) (view : View T)
      → HasRoom (length calls) cs
      → Shows now cs view
      → answers_of perform now calls cs ≡ answers_of promise now calls view
  unfolding answers_of
  answers_of-Shows [] now cs view room s = refl
  answers_of-Shows ((wait, c) ∷ calls) now cs view room s =
      let (answer, after) =
        perform-Shows c (now + wait) (length calls) cs view room
          (record { valid = s.valid; same = λ key later h. s.same key later (omega arith) }) in
      let room' = perform-HasRoom c (now + wait) (length calls) cs s.valid room in
      rw (answer, answers_of-Shows calls (now + wait) _ _ room' after) refl

  -- A new cache without a bound, or with a bound that the calls cannot exceed, keeps its promise:
  -- calls made one after the other, at any distances in time, get the answers that the map of the
  -- promise gives, which starts empty. So what `Set`, `Update`, `Delete`, `Sweep`, `Clear` and `Get`
  -- do with entries, expiries and the order of insertion cannot be told from outside.
  pub answers_of-new_cache_store :
      (max_size start : ℕ) (calls : List (ℕ × Call T))
      → (max_size ≡ 0) ⊎ (length calls ≤ max_size)
      → answers_of perform start calls (new_cache_store max_size)
        ≡ answers_of promise start calls (λ _ _. none)
  unfolding new_cache_store clear
  answers_of-new_cache_store max_size start calls room =
      answers_of-Shows calls start (new_cache_store max_size) (λ _ _. none) (ground (arith, room))
        (record {
          valid = new_cache_store-IsValid max_size;
          same = λ key later h. get_callback-clear key later (new_cache_store max_size);
        })
