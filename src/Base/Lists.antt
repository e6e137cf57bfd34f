-- ===== src/Base/Lists.antt =====
-- Slices: length, membership of a string, quantified predicates.
use Prim.Native.Nat.{ℕ, suc}
use Prim.Native.String.{String}
use mathlib.Core.Path.{◌≡◌, refl}
use mathlib.Core.Logic.{◌≢◌, inl, inr}
use mathlib.Core.Bool.{Bool, true, false, ◌||◌}
use mathlib.Core.List.{List, [], ◌∷◌, ◌++◌}
use native.Mathlib.Omega.{arith}
use text.Mathlib.Text.{◌==◌}
use text.Mathlib.TextEquality.{eq_iff}
use tinyauth.Base.Tests.{if◌then◌else◌, Bool-cases}

module _ {ℓ} {A : Type ℓ} where
  abbrev pub length : List A → ℕ
  length [] = 0
  length (x ∷ xs) = suc (length xs)

  abbrev pub any : (A → Bool) → List A → Bool
  any p [] = false
  any p (x ∷ xs) = p x || any p xs

  abbrev pub filter : (A → Bool) → List A → List A
  filter p [] = []
  filter p (x ∷ xs) = if p x then x ∷ filter p xs else filter p xs

  abbrev pub All {κ} : (A → Type κ) → List A → Type κ
  All P [] = Unit
  All P (x ∷ xs) = P x × All P xs

-- `slices.Contains`.
unfoldable pub contains : String → List String → Bool
contains k [] = false
contains k (x ∷ xs) = if x == k then true else contains k xs

-- A slice with its first occurrence of `k` cut out: `slices.Index` and the two appends.
unfoldable pub remove : String → List String → List String
remove k [] = []
remove k (x ∷ xs) = if x == k then xs else x ∷ remove k xs

abbrev pub IsDistinct : List String → Type 0
IsDistinct [] = Unit
IsDistinct (x ∷ xs) = (contains x xs ≡ false) × IsDistinct xs

pub contains-append :
    (k : String) (xs ys : List String) → contains k (xs ++ ys) ≡ contains k xs || contains k ys
unfolding contains
contains-append k [] ys = refl
contains-append k (x ∷ xs) ys = ground (arith, contains-append k xs ys)

pub contains-remove_other :
    (j k : String) (xs : List String) → j ≢ k → contains k (remove j xs) ≡ contains k xs
unfolding contains remove
contains-remove_other j k [] ne = refl
contains-remove_other j k (x ∷ xs) ne =
    ground (arith, eq_iff x j, eq_iff x k, contains-remove_other j k xs ne)

pub contains-remove_self :
    (k : String) (xs : List String) → IsDistinct xs → contains k (remove k xs) ≡ false
unfolding contains remove
contains-remove_self k [] d = refl
contains-remove_self k (x ∷ xs) d = ground (arith, eq_iff x k, contains-remove_self k xs d.1)

pub remove-IsDistinct : (k : String) (xs : List String) → IsDistinct xs → IsDistinct (remove k xs)
unfolding remove
remove-IsDistinct k [] d = tt
remove-IsDistinct k (x ∷ xs) d = elim (Bool-cases (x == k)) [
  | inl e ↦ rw e d.1
  | inr e ↦ rw e (
    rw (contains-remove_other k x xs (λ p. ground (arith, eq_iff x k))) d.0,
    remove-IsDistinct k xs d.1,
  )
]

pub append-IsDistinct :
    (k : String) (xs : List String)
    → IsDistinct xs
    → contains k xs ≡ false
    → IsDistinct (xs ++ k ∷ [])
unfolding contains
append-IsDistinct k [] d h = (refl, tt)
append-IsDistinct k (x ∷ xs) d h = (
  ground (arith, contains-append x xs (k ∷ []), eq_iff x k, eq_iff k x),
  append-IsDistinct k xs d.1 (ground arith),
)
