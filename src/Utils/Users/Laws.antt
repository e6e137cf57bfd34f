-- ===== src/Utils/Users/Laws.antt =====
-- internal/utils/user_utils.go: what a parsed list of users is like.
use Prim.Native.String.{◌++◌, ◌∷◌}
use tinyauth.Base.{String, ◌≡◌, refl, ◌≢◌, false, ok, ==-ne}
use tinyauth.Text.{trim_space, has_char, has_part}
use tinyauth.Text.Laws.{split_n-append, split_n_whole}
use tinyauth.Model.{empty_attributes}
use tinyauth.Utils.Users.{parse_user}

-- A field that survives printing and parsing: not blank, trimmed, without ':' and "$$".
pub record IsField (s : String) : Type 0 where
  pub filled : s ≢ ""
  pub trimmed : trim_space s ≡ s
  pub no_colon : has_char b':' s ≡ false

abbrev pub user_line : String → String → String
user_line username password = username ++ (":" ∷ password)

abbrev pub totp_line : String → String → String → String
totp_line username password totp = username ++ (":" ∷ (password ++ (":" ∷ totp)))

-- The formats `username:password` and `username:password:totp` are read back as they were written,
-- for trimmed fields that are not blank and hold no ':', and a line without "$$".
pub parse_user-user_line :
    (username password totp : String)
    → IsField username
    → IsField password
    → IsField totp
    → has_part "$$" (user_line username password) ≡ false
    → has_part "$$" (totp_line username password totp) ≡ false
    → (parse_user (user_line username password)
        ≡ ok (record {
          username = username;
          password = password;
          totp_secret = "";
          attributes = empty_attributes;
        }))
      × (parse_user (totp_line username password totp)
          ≡ ok (record {
            username = username;
            password = password;
            totp_secret = totp;
            attributes = empty_attributes;
          }))
unfolding parse_user
parse_user-user_line username password totp u p t plain plain_totp = (
  rw
      (
        plain,
        split_n-append b':' 2 ":" username password refl u.no_colon,
        split_n_whole b':' 1 password p.no_colon,
        u.trimmed,
        p.trimmed,
        ==-ne _ "" u.filled,
        ==-ne _ "" p.filled,
      )
      (rw u.trimmed refl),
  rw
      (
        plain_totp,
        split_n-append b':' 2 ":" username (password ++ (":" ∷ totp)) refl u.no_colon,
        split_n-append b':' 1 ":" password totp refl p.no_colon,
        split_n_whole b':' 0 totp t.no_colon,
        u.trimmed,
        p.trimmed,
        t.trimmed,
        ==-ne _ "" u.filled,
        ==-ne _ "" p.filled,
        ==-ne _ "" t.filled,
      )
      (rw (u.trimmed, p.trimmed) refl),
)
