-- ===== src/Base/Dict.antt =====
-- A Go map with string keys, as an association list with one entry for a key. The order of the
-- list is the order in which a range statement meets the entries.
use Prim.Native.Nat.{suc, ◌≤◌, ◌<◌}
use Prim.Native.String.{String}
use mathlib.Core.Path.{◌≡◌, refl}
use mathlib.Core.Logic.{◌↔◌}
use mathlib.Core.Bool.{Bool, true, false}
use mathlib.Core.Option.{Option, none, some}
use mathlib.Core.List.{List, [], ◌∷◌}
use native.Mathlib.Omega.{arith}
use text.Mathlib.Text.{◌==◌}
use text.Mathlib.TextEquality.{eq_iff}
use tinyauth.Base.Tests.{if◌then◌else◌}
use tinyauth.Base.Lists.{length}

module _ {ℓ} {V : Type ℓ} where
  -- `value, ok := m[key]`.
  unfoldable pub lookup : String → List (String × V) → Option V
  lookup key ((name, value) ∷ rest) = if name == key then some value else lookup key rest
  lookup _ [] = none

  -- `m[key] = value`: in place, or behind the other entries.
  unfoldable pub insert : String → V → List (String × V) → List (String × V)
  insert key value ((name, old) ∷ rest) =
      if name == key then (key, value) ∷ rest else (name, old) ∷ insert key value rest
  insert key value [] = (key, value) ∷ []

  unfoldable pub delete : String → List (String × V) → List (String × V)
  delete k [] = []
  delete k ((j, w) ∷ m) = if j == k then delete k m else (j, w) ∷ delete k m

  unfoldable pub has : String → List (String × V) → Bool
  has k [] = false
  has k ((j, w) ∷ m) = if j == k then true else has k m

  abbrev pub HasDistinctKeys : List (String × V) → Type 0
  HasDistinctKeys [] = Unit
  HasDistinctKeys ((j, w) ∷ m) = (has j m ≡ false) × HasDistinctKeys m

  pub lookup-insert :
      (key other : String) (value : V) (entries : List (String × V))
      → lookup other (insert key value entries)
        ≡ (if key == other then some value else lookup other entries)
  unfolding insert lookup
  lookup-insert key other value ((name, old) ∷ rest) =
      let later = lookup-insert key other value rest in
      ground (arith, later, eq_iff name other, eq_iff key other, eq_iff name key)
  lookup-insert key other value [] = refl

  pub lookup-delete :
      (k j : String) (m : List (String × V))
      → lookup j (delete k m) ≡ (if k == j then none else lookup j m)
  unfolding lookup delete
  lookup-delete k j [] = ground arith
  lookup-delete k j ((i, w) ∷ m) =
      ground (arith, eq_iff k j, eq_iff i k, eq_iff i j, lookup-delete k j m)

  pub has-insert :
      (k j : String) (v : V) (m : List (String × V))
      → has j (insert k v m) ≡ (if k == j then true else has j m)
  unfolding has insert
  has-insert k j v [] = refl
  has-insert k j v ((i, w) ∷ m) =
      ground (arith, eq_iff k j, eq_iff i k, eq_iff i j, has-insert k j v m)

  pub has-delete :
      (k j : String) (m : List (String × V))
      → has j (delete k m) ≡ (if k == j then false else has j m)
  unfolding has delete
  has-delete k j [] = ground arith
  has-delete k j ((i, w) ∷ m) = ground (arith, eq_iff k j, eq_iff i k, eq_iff i j, has-delete k j m)

  pub has_iff_lookup :
      (k : String) (m : List (String × V)) → (has k m ≡ false) ↔ (lookup k m ≡ none)
  unfolding has lookup
  has_iff_lookup k [] = (λ h. refl, λ h. refl)
  has_iff_lookup k ((j, w) ∷ m) = ground (arith, has_iff_lookup k m)

  pub has_of_lookup :
      (k : String) (m : List (String × V)) (v : V) → lookup k m ≡ some v → has k m ≡ true
  unfolding has lookup
  has_of_lookup k [] v e = ground arith
  has_of_lookup k ((j, w) ∷ m) v e = ground (arith, has_of_lookup k m v)

  pub insert-HasDistinctKeys :
      (k : String) (v : V) (m : List (String × V))
      → HasDistinctKeys m
      → HasDistinctKeys (insert k v m)
  unfolding insert has
  insert-HasDistinctKeys k v [] d = (refl, tt)
  insert-HasDistinctKeys k v ((j, w) ∷ m) d =
      ground (arith, eq_iff j k, eq_iff k j, has-insert k j v m, insert-HasDistinctKeys k v m d.1)

  pub delete-HasDistinctKeys :
      (k : String) (m : List (String × V)) → HasDistinctKeys m → HasDistinctKeys (delete k m)
  unfolding delete
  delete-HasDistinctKeys k [] d = tt
  delete-HasDistinctKeys k ((j, w) ∷ m) d =
      ground (arith, has-delete k j m, delete-HasDistinctKeys k m d.1)

  pub length-insert :
      (k : String) (v : V) (m : List (String × V))
      → length (insert k v m) ≡ (if has k m then length m else suc (length m))
  unfolding insert has
  length-insert k v [] = refl
  length-insert k v ((j, w) ∷ m) = ground (arith, length-insert k v m)

  pub length-delete-le : (k : String) (m : List (String × V)) → length (delete k m) ≤ length m
  unfolding delete
  length-delete-le k [] = omega arith
  length-delete-le k ((j, w) ∷ m) = ground (arith, length-delete-le k m)

  pub length-delete-lt :
      (k : String) (m : List (String × V)) → has k m ≡ true → length (delete k m) < length m
  unfolding delete has
  length-delete-lt k [] h = ground arith
  length-delete-lt k ((j, w) ∷ m) h = ground (arith, length-delete-le k m, length-delete-lt k m)
