-- ===== src/Utils/Headers/Laws.antt =====
-- internal/utils/label_utils.go: no header carries a control character into a response.
use Prim.Native.Char.{code}
use Prim.Native.String.{[], ◌∷◌}
use mathlib.Core.List.{[], ◌∷◌}
use tinyauth.Base.{
  String, ◌≡◌, refl, ◌↔◌, Bool, true, false, ◌&&◌, ◌||◌, List, ◌==◌, arith, Bool-cases, inl, inr,
  sym,
}
use tinyauth.Base.Lists.{All}
use tinyauth.Base.Dict.{insert}
use tinyauth.Text.{trim_space, has_char, keep_chars}
use tinyauth.Utils.Headers.{is_header_char, sanitize_header, add_header, parse_from, parse_headers}

-- Nothing but tabs, spaces and printable ASCII.
unfoldable pub is_clean : String → Bool
is_clean [] = true
is_clean (c ∷ s) = is_header_char (code c) && is_clean s

keep_chars-is_clean : (s : String) → is_clean (keep_chars is_header_char s) ≡ true
unfolding is_clean keep_chars
keep_chars-is_clean [] = refl
keep_chars-is_clean (c ∷ s) = elim (Bool-cases (is_header_char (code c))) [
  | inl e ↦ rw (e, e) (keep_chars-is_clean s)
  | inr e ↦ rw e (keep_chars-is_clean s)
]

is_clean-keep_chars : (s : String) → is_clean s ≡ true → keep_chars is_header_char s ≡ s
unfolding is_clean keep_chars
is_clean-keep_chars [] h = refl
is_clean-keep_chars (c ∷ s) h = elim (Bool-cases (is_header_char (code c))) [
  | inl e ↦ ground (arith, is_clean-keep_chars s)
  | inr e ↦ absurd (ground arith)
]

-- A sanitized header holds nothing but tabs, spaces and printable ASCII, so no line break; and
-- what holds nothing else is kept as it is.
pub sanitize_header-is_clean :
    (header : String)
    → (is_clean (sanitize_header header) ≡ true)
      × ((is_clean header ≡ true) ↔ (sanitize_header header ≡ header))
unfolding sanitize_header
sanitize_header-is_clean header = (
  keep_chars-is_clean header,
  (is_clean-keep_chars header, λ e. rw (sym e) (keep_chars-is_clean header)),
)

-- A header that is sent: the spelling of a clean name without tab and space, and a clean value.
abbrev pub IsSendable : (String → String) → String × String → Type 0
IsSendable canonical (name, value) =
    (is_clean value ≡ true)
    × (key : String) × (name ≡ canonical key)
    × (is_clean key ≡ true)
    × (has_char 32 key ≡ false)
    × (has_char 9 key ≡ false)

insert-All :
    (P : String × String → Type 0) (k v : String) (m : List (String × String))
    → P (k, v)
    → All P m
    → All P (insert k v m)
unfolding insert
insert-All P k v [] p all = (p, tt)
insert-All P k v ((j, w) ∷ m) p all = elim (Bool-cases (j == k)) [
  | inl e ↦ rw e (p, all.1)
  | inr e ↦ rw e (all.0, insert-All P k v m p all.1)
]

add_header-All :
    (canonical : String → String) (parts : List String) (found : List (String × String))
    → All (IsSendable canonical) found
    → All (IsSendable canonical) (add_header canonical parts found)
unfolding add_header
add_header-All canonical (name ∷ value ∷ []) found all =
    let key = sanitize_header (trim_space name) in
    elim (Bool-cases (trim_space name == "" || trim_space value == "")) [
      | inl e ↦ rw e all
      | inr e ↦ rw e (elim (Bool-cases (has_char 32 key || has_char 9 key)) [
        | inl f ↦ rw f all
        | inr f ↦ rw f (
            insert-All (IsSendable canonical) _ _ found
              (
                (sanitize_header-is_clean (trim_space value)).0,
                key,
                refl,
                (sanitize_header-is_clean (trim_space name)).0,
                ground arith,
                ground arith,
              )
              all)
      ])
    ]
add_header-All canonical [] found all = all
add_header-All canonical (name ∷ []) found all = all
add_header-All canonical (name ∷ value ∷ more ∷ rest) found all = all

parse_from-All :
    (canonical : String → String) (headers : List String) (found : List (String × String))
    → All (IsSendable canonical) found
    → All (IsSendable canonical) (parse_from canonical headers found)
unfolding parse_from
parse_from-All canonical [] found all = all
parse_from-All canonical (header ∷ headers) found all =
    parse_from-All canonical headers _ (add_header-All canonical _ found all)

-- Every header that is parsed from an app's labels has a value of tabs, spaces and printable
-- ASCII, and a name that is the canonical spelling of such a text without tab and space.
pub parse_headers-IsSendable :
    (canonical : String → String) (headers : List String)
    → All (IsSendable canonical) (parse_headers canonical headers)
unfolding parse_headers
parse_headers-IsSendable canonical headers = parse_from-All canonical headers [] tt
