-- ===== src/Tests/Filters.antt =====
-- internal/utils: filters, headers and users on short texts.
use tinyauth.Base.{◌≡◌, refl, ◌≢◌, [], ◌∷◌, none, some, ok, arith, eq_iff, ◌==◌}
use tinyauth.Base.Lists.{All}
use tinyauth.Text.{is_space, trim_space, has_char, has_part}
use tinyauth.Model.{empty_attributes}
use tinyauth.Utils.Filter.{Compile, check_filter}
use tinyauth.Utils.Filter.Laws.{check_filter-eq-none_iff}
use tinyauth.Utils.Headers.{parse_headers}
use tinyauth.Utils.Headers.Laws.{IsSendable, parse_headers-IsSendable}
use tinyauth.Utils.Users.{parse_user}
use tinyauth.Utils.Users.Laws.{IsField, user_line, parse_user-user_line}

-- An engine that knows only literal patterns.
abbrev literal : Compile
literal pattern = some (λ s. s == pattern)

check_filter-eq-none_iff_example : check_filter literal "/" "alice" ≡ none
check_filter-eq-none_iff_example = (check_filter-eq-none_iff literal "/" "alice").1 refl

filled : trim_space "/alice/" ≢ ""
unfolding trim_space is_space
filled p = absurd (ground (arith, eq_iff "/alice/" ""))

parse_headers-IsSendable_example :
    All (IsSendable (λ s. s)) (parse_headers (λ s. s) ("x-role = admin" ∷ "bad header" ∷ []))
parse_headers-IsSendable_example =
    parse_headers-IsSendable (λ s. s) ("x-role = admin" ∷ "bad header" ∷ [])

alice-IsField : IsField "alice"
unfolding trim_space is_space has_char
alice-IsField = record {
  filled = λ p. absurd (ground (arith, eq_iff "alice" ""));
  trimmed = refl;
  no_colon = refl;
}

secret-IsField : IsField "$2a$10"
unfolding trim_space is_space has_char
secret-IsField = record {
  filled = λ p. absurd (ground (arith, eq_iff "$2a$10" ""));
  trimmed = refl;
  no_colon = refl;
}

parse_user-user_line_example :
    parse_user (user_line "alice" "$2a$10")
    ≡ ok (record {
      username = "alice";
      password = "$2a$10";
      totp_secret = "";
      attributes = empty_attributes;
    })
unfolding has_part
parse_user-user_line_example =
    (parse_user-user_line "alice" "$2a$10" "alice" alice-IsField secret-IsField alice-IsField refl
      refl).0
