-- ===== src/Utils/Headers.antt =====
-- internal/utils/label_utils.go. The canonical spelling of a header's name is a parameter.
pub mod Laws
use Prim.Native.String.{[], ◌∷◌}
use tinyauth.Base.{
  ℕ, String, ◌≡◌, refl, ◌≢◌, Bool, true, false, ◌&&◌, ◌||◌, List, [], ◌∷◌, ◌==◌, leb, nat_eq,
  if◌then◌else◌,
}
use tinyauth.Base.Dict.{insert}
use tinyauth.Text.{trim_space, split_n, has_char, keep_chars}

abbrev pub is_header_char : ℕ → Bool
is_header_char r = nat_eq r 32 || nat_eq r 9 || (leb 32 r && leb r 126)

unfoldable pub sanitize_header : String → String
sanitize_header header = keep_chars is_header_char header

add_header : (String → String) → List String → List (String × String) → List (String × String)
add_header canonical (name ∷ value ∷ []) headers =
    let key = sanitize_header (trim_space name) in
    if trim_space name == "" || trim_space value == ""
    then headers
    else (if has_char 32 key || has_char 9 key
        then headers
        else insert (canonical key) (sanitize_header (trim_space value)) headers)
add_header canonical _ headers = headers

unfoldable pub parse_from :
    (String → String) → List String → List (String × String) → List (String × String)
unfolding add_header
parse_from canonical [] found = found
parse_from canonical (header ∷ headers) found =
    parse_from canonical headers (add_header canonical (split_n b'=' 2 header) found)

unfoldable pub parse_headers : (String → String) → List String → List (String × String)
unfolding parse_from
parse_headers canonical headers = parse_from canonical headers []
