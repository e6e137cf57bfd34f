-- ===== src/Tests/Caches.antt =====
-- internal/service/cache_store.go on a cache of two entries.
use tinyauth.Base.{
  ℕ, ◌≤◌, ◌≡◌, refl, ◌⊎◌, String, true, [], none, some, arith, List, ◌∷◌, inr, false,
}
use tinyauth.Base.Lists.{length}
use tinyauth.Base.Dict.{lookup, insert, has, delete}
use tinyauth.Cache.{
  CacheStore, new_cache_store, set_callback, put, get_callback, delete_callback, sweep, evict_one,
  scan, update_callback, sweep_entries,
}
use tinyauth.Cache.Invariant.{IsValid}
use tinyauth.Cache.Reach.{Reach, here, next, sets, Reach-new_cache_store}
use tinyauth.Cache.Eviction.{IsVictim, evict_one-IsVictim}
use tinyauth.Cache.Refinement.{
  Call, set, update, get, sweep_all, done, updated, found, promise, perform, answers_of,
}
use tinyauth.Cache.Refinement.Answers.{answers_of-new_cache_store}

abbrev empty : CacheStore ℕ
empty = record { cache = []; order = []; max_size = 2 }

-- Two keys with an expiry, set in turn.
abbrev one_key : CacheStore ℕ
one_key = set_callback "a" 1 30 0 empty

abbrev two_keys : CacheStore ℕ
two_keys = set_callback "b" 2 10 0 one_key

two_keys-Reach : Reach (new_cache_store 2) two_keys
unfolding new_cache_store
two_keys-Reach = next (next here (sets "a" 1 30 0)) (sets "b" 2 10 0)

two_keys-IsValid : IsValid two_keys
two_keys-IsValid = (Reach-new_cache_store 2 two_keys two_keys-Reach).0

Reach-new_cache_store_example : IsValid two_keys × ((◌≡◌ {A = ℕ} 2 0) ⊎ (length two_keys.cache ≤ 2))
Reach-new_cache_store_example = Reach-new_cache_store 2 two_keys two_keys-Reach

evict_one-IsVictim_example :
    (k : String) × (evict_one 5 two_keys ≡ (delete_callback k two_keys, true))
    × IsVictim 5 two_keys k
unfolding evict_one scan set_callback put insert has
evict_one-IsVictim_example = evict_one-IsVictim 5 two_keys two_keys-IsValid refl

-- A value that expires, an update after its end, and a reader before and after.
abbrev short_life : List (ℕ × Call ℕ)
short_life =
    (1, set "a" 1 10)
    ∷ (4, get "a")
    ∷ (2, update "a" 5 0)
    ∷ (3, get "a")
    ∷ (9, sweep_all)
    ∷ (1, update "a" 6 0)
    ∷ (0, get "a")
    ∷ []

short_life-answers :
    answers_of perform 0 short_life (new_cache_store 7)
    ≡ done ∷ found (some 1) ∷ updated true ∷ found (some 5) ∷ done ∷ updated false ∷ found none ∷ []
unfolding answers_of perform get_callback update_callback lookup set_callback sweep put
    sweep_entries insert new_cache_store has delete_callback delete
short_life-answers = refl

answers_of-new_cache_store_example :
    answers_of perform 0 short_life (new_cache_store 7)
    ≡ answers_of promise 0 short_life (λ _ _. none)
answers_of-new_cache_store_example = answers_of-new_cache_store 7 0 short_life (inr (omega arith))
