-- ===== src/Text/Laws.antt =====
-- Laws of the text functions.
use Prim.Native.Char.{Char, code}
use Prim.Native.String.{[], ◌∷◌, ◌++◌}
use mathlib.Core.List.{[], ◌∷◌}
use tinyauth.Base.{suc, ℕ, String, ◌≡◌, refl, true, false, none, some, arith, nat_eq}
use tinyauth.Text.{has_char, cut, split_n}
use text.Mathlib.TextLemmas.{nil-append, cons-append}

-- Cutting a text at the separator put behind a part that does not hold it.
pub cut-append :
    (c : ℕ) (d : Char) (s t : String)
    → nat_eq (code d) c ≡ true
    → has_char c s ≡ false
    → cut c (s ++ (d ∷ t)) ≡ (s, some t)
unfolding cut has_char
cut-append c d [] t e h = rw (nil-append, cut) (ground arith)
cut-append c d (x ∷ s) t e h = rw (cons-append, cut) (ground (arith, cut-append c d s t e))

pub cut-none : (c : ℕ) (s : String) → has_char c s ≡ false → cut c s ≡ (s, none)
unfolding cut has_char
cut-none c [] h = refl
cut-none c (x ∷ s) h = ground (arith, cut-none c s)

-- The pieces of a text whose first piece does not hold the separator.
pub split_n-append :
    (c n : ℕ) (d : Char) (s t : String)
    → nat_eq (code d) c ≡ true
    → has_char c s ≡ false
    → split_n c (suc (suc n)) (s ++ (d ∷ t)) ≡ s ∷ split_n c (suc n) t
unfolding split_n
split_n-append c n d s t e h = rw (cut-append c d s t e h) refl

pub split_n_whole :
    (c n : ℕ) (s : String) → has_char c s ≡ false → split_n c (suc (suc n)) s ≡ s ∷ []
unfolding split_n
split_n_whole c n s h = rw (cut-none c s h) refl
