-- ===== src/Text.antt =====
-- Go's `strings` functions as the program uses them, over code points.
use Prim.Native.Char.{Char, code}
use Prim.Native.String.{String, [], ◌∷◌, ◌++◌}
use mathlib.Core.Bool.{Bool, true, false, ◌&&◌, ◌||◌}
use mathlib.Core.List.{List, [], ◌∷◌}
use mathlib.Core.Option.{Option, none, some}
use text.Mathlib.Text.{◌==◌}
use tinyauth.Base.{ℕ, zero, suc, leb, nat_eq, if◌then◌else◌}
pub mod Laws

-- `unicode.IsSpace`.
unfoldable pub is_space : ℕ → Bool
is_space c =
    (leb 9 c && leb c 13)
    || nat_eq c 32
    || nat_eq c 0x85
    || nat_eq c 0xa0
    || nat_eq c 0x1680
    || (leb 0x2000 c && leb c 0x200a)
    || nat_eq c 0x2028
    || nat_eq c 0x2029
    || nat_eq c 0x202f
    || nat_eq c 0x205f
    || nat_eq c 0x3000

trim_left : String → String
trim_left [] = []
trim_left (c ∷ s) = if is_space (code c) then trim_left s else c ∷ s

-- A space is dropped if nothing but spaces follows.
keep : Char → String → String
keep c [] = if is_space (code c) then [] else c ∷ []
keep c (d ∷ s) = c ∷ d ∷ s

trim_right : String → String
trim_right [] = []
trim_right (c ∷ s) = keep c (trim_right s)

-- `strings.TrimSpace`.
unfoldable pub trim_space : String → String
unfolding trim_left trim_right keep is_space
trim_space s = trim_right (trim_left s)

-- `strings.Contains` of one character.
unfoldable pub has_char : ℕ → String → Bool
has_char c [] = false
has_char c (d ∷ s) = if nat_eq (code d) c then true else has_char c s

-- `strings.Cut` at a character: what stands before its first occurrence, and what after.
unfoldable pub cut : ℕ → String → String × Option String
cut c [] = ([], none)
cut c (d ∷ s) =
    let (before, after) = cut c s in if nat_eq (code d) c then ([], some s) else (d ∷ before, after)

extend : Char → List String → List String
extend c [] = (c ∷ []) ∷ []
extend c (p ∷ ps) = (c ∷ p) ∷ ps

-- `strings.Split` and `strings.SplitSeq` at a character.
unfoldable pub split : ℕ → String → List String
unfolding extend
split c [] = [] ∷ []
split c (d ∷ s) = let rest = split c s in if nat_eq (code d) c then [] ∷ rest else extend d rest

pieces : (String → List String) → String × Option String → List String
pieces rest (before, none) = before ∷ []
pieces rest (before, some after) = before ∷ rest after

-- `strings.SplitN` at a character: at most `n` pieces.
unfoldable pub split_n : ℕ → ℕ → String → List String
unfolding cut pieces
split_n c zero s = []
split_n c (suc zero) s = s ∷ []
split_n c (suc (suc n)) s = pieces (split_n c (suc n)) (cut c s)

-- `strings.Join`.
unfoldable pub join : String → List String → String
join sep [] = []
join sep (p ∷ []) = p
join sep (p ∷ q ∷ ps) = p ++ (sep ++ join sep (q ∷ ps))

-- `strings.ReplaceAll` of one character by another.
unfoldable pub replace_char : ℕ → Char → String → String
replace_char c d [] = []
replace_char c d (x ∷ s) = (if nat_eq (code x) c then d else x) ∷ replace_char c d s

-- `strings.Map` that drops what the test refuses.
unfoldable pub keep_chars : (ℕ → Bool) → String → String
keep_chars p [] = []
keep_chars p (c ∷ s) = if p (code c) then c ∷ keep_chars p s else keep_chars p s

-- `strings.HasPrefix` and `strings.HasSuffix` of one character.
unfoldable pub first_is : ℕ → String → Bool
first_is c [] = false
first_is c (d ∷ s) = nat_eq (code d) c

unfoldable pub last_is : ℕ → String → Bool
last_is c [] = false
last_is c (d ∷ []) = nat_eq (code d) c
last_is c (d ∷ e ∷ s) = last_is c (e ∷ s)

-- `s[:len(s)-1]`, for a one-byte last character.
unfoldable pub drop_last : String → String
drop_last [] = []
drop_last (d ∷ []) = []
drop_last (d ∷ e ∷ s) = d ∷ drop_last (e ∷ s)

-- `strings.HasPrefix`.
unfoldable pub has_prefix : String → String → Bool
has_prefix [] s = true
has_prefix (c ∷ p) [] = false
has_prefix (c ∷ p) (d ∷ s) = nat_eq (code c) (code d) && has_prefix p s

-- `strings.HasSuffix`.
unfoldable pub has_suffix : String → String → Bool
has_suffix suffix [] = suffix == []
has_suffix suffix (c ∷ s) = suffix == (c ∷ s) || has_suffix suffix s

-- `strings.Contains`.
unfoldable pub has_part : String → String → Bool
unfolding has_prefix
has_part p [] = has_prefix p []
has_part p (c ∷ s) = has_prefix p (c ∷ s) || has_part p s

-- `strings.ReplaceAll(s, "$$", "$")`.
unfoldable pub halve_dollars : String → String
halve_dollars [] = []
halve_dollars (c ∷ []) = c ∷ []
halve_dollars (c ∷ d ∷ s) =
    let pair = halve_dollars s in
    let single = halve_dollars (d ∷ s) in
    if nat_eq (code c) b'$' && nat_eq (code d) b'$' then c ∷ pair else c ∷ single

abbrev pub first_of : List String → String
first_of [] = []
first_of (p ∷ ps) = p
