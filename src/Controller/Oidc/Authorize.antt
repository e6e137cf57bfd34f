-- ===== src/Controller/Oidc/Authorize.antt =====
-- internal/controller/oidc_controller.go: `authorize`, up to the consent screen.
pub mod Trusted
use Prim.Native.String.{[], ◌++◌, ◌∷◌}
use Prim.Native.Char.{Char, code}
use Prim.Native.Nat.{◌%◌, ◌^◌}
use tinyauth.Base.{
  ℕ, ◌+◌, ◌-◌, ◌*◌, String, Bool, true, false, not, ◌&&◌, ◌||◌, List, Option, none, some, Result,
  ok, err, ◌==◌, if◌then◌else◌, ltb, leb, nat_eq,
}
use tinyauth.Base.Int.{ℤ, pos, negsuc, neg}
use tinyauth.Base.Lists.{contains, length}
use tinyauth.Model.Context.{UserContext, Carried, new_from_gin}
use tinyauth.Auth.{second}
use tinyauth.Oidc.{
  OidcClientConfig, AuthorizeRequest, AuthorizeError, access_denied, invalid_request_uri,
  invalid_scope, unsupported_response_type, invalid_request, get_client, validate_authorize_params,
  get_prompt, create_authorize_request_ticket,
}
use tinyauth.Controller.Oidc.{
  ScreenParams, Provider, OidcState, OidcAnswer, redirect_to, ErrorParams, authorize_error,
  AuthorizeInput, resolve_authorize_request,
}

-- The number that decimal digits stand for, after the digits before them.
digits : ℕ → String → Option ℕ
digits n [] = some n
digits n (c ∷ s) =
    let rest = digits (n * 10 + (code c - b'0')) s in
    if leb b'0' (code c) && leb (code c) b'9' then rest else none

some_digits : String → Option ℕ
unfolding digits
some_digits [] = none
some_digits (c ∷ s) = digits 0 (c ∷ s)

in_range : (ℕ → ℤ) → ℕ → Option ℕ → Option ℤ
in_range sign limit none = none
in_range sign limit (some n) = if ltb limit n then none else some (sign n)

-- `strconv.Atoi`, for 64 bits.
unfoldable pub atoi : String → Option ℤ
unfolding some_digits in_range
atoi [] = none
atoi (c ∷ s) =
    if nat_eq (code c) b'-'
    then in_range neg (2 ^ 63) (some_digits s)
    else (if nat_eq (code c) b'+'
        then in_range pos (2 ^ 63 - 1) (some_digits s)
        else in_range pos (2 ^ 63 - 1) (some_digits (c ∷ s)))

-- `t.Add(time.Duration(n) * time.Second).Before(now)` for the Unix second `t`: the product wraps
-- around at 64 bits.
is_before : ℕ → ℕ → ℕ → Bool
is_before t d now =
    if ltb d (2 ^ 63) then ltb (t * second + d) now else ltb (t * second) (now + (2 ^ 64 - d))

unfoldable pub is_stale : ℕ → ℤ → ℕ → Bool
unfolding is_before
is_stale t (pos n) now = is_before t ((n * second) % 2 ^ 64) now
is_stale t (negsuc n) now = is_before t ((2 ^ 64 - ((n + 1) * second) % 2 ^ 64) % 2 ^ 64) now

-- An error that the frontend shows, and one that goes back to the client.
abbrev pub shown : Provider → String → OidcAnswer
shown provider reason = authorize_error provider provider.issuer (record {
  reason_public = reason;
  callback = "";
  callback_error = "";
  state = "";
  json = false;
})

abbrev pub returned : Provider → AuthorizeRequest → String → String → OidcAnswer
returned provider req error reason = authorize_error provider provider.issuer (record {
  reason_public = reason;
  callback = req.redirect_uri;
  callback_error = error;
  state = req.state;
  json = false;
})

-- `err.Error()`.
error_text : AuthorizeError → String
error_text access_denied = "access_denied"
error_text invalid_request_uri = "invalid_request_uri"
error_text invalid_scope = "invalid_scope"
error_text unsupported_response_type = "unsupported_response_type"
error_text invalid_request = "invalid_request"

invalid_answer : Provider → AuthorizeRequest → AuthorizeError → OidcAnswer
unfolding error_text
invalid_answer provider req invalid_request_uri =
    shown provider "The provided redirect URI is not trusted"
invalid_answer provider req e = returned provider req (error_text e) "Invalid request parameters"

abbrev pub is_logged_in {ℓ} : {E : Type ℓ} → Result E UserContext → Bool
is_logged_in (ok c) = c.authenticated
is_logged_in (err e) = false

first_prompt : List String → String
first_prompt prompts =
    if contains "login" prompts then "login" else (if contains "none" prompts then "none" else "")

-- The prompt of the screen; `none` is a "max_age" that is no number. A request without a context
-- is not looked at.
unfoldable pub screen_prompt :
    {E : Type 0} → Result E UserContext → AuthorizeRequest → ℕ → Option String
unfolding first_prompt
screen_prompt (err e) req now = some (first_prompt (get_prompt req.prompt))
screen_prompt (ok c) req now =
    if req.max_age == ""
    then some (first_prompt (get_prompt req.prompt))
    else elim (atoi req.max_age) [
      | none ↦ none
      | some n ↦
          if c.authenticated && is_stale c.auth_time n now
          then some "login"
          else some (first_prompt (get_prompt req.prompt))
    ]

screen : Provider → AuthorizeRequest → OidcClientConfig → String → Option String → OidcAnswer
screen provider req client ticket none =
    returned provider req "invalid_request" "The max_age parameter is invalid"
screen provider req client ticket (some prompt) =
    elim (provider.screen_query
      (record { ticket = ticket; scope = req.scope; name = client.name; prompt = prompt })) [
        | none ↦
            returned provider req "server_error"
              "An internal error occured while processing your request"
        | some query ↦ redirect_to (provider.issuer ++ ("/oidc/authorize?" ++ query))
      ]

with_client :
    OidcClientConfig
    → Provider
    → AuthorizeRequest
    → Carried
    → String
    → ℕ
    → OidcState
    → OidcAnswer × OidcState
unfolding screen
with_client client provider req carried ticket now st =
    let prompts = get_prompt req.prompt in
    let context = new_from_gin carried in
    if contains "none" prompts && ltb 1 (length prompts)
    then (returned provider req "invalid_request" "The prompt parameters are invalid", st)
    else (if not (is_logged_in context) && contains "none" prompts
        then (returned provider req "login_required" "The user is not logged in", st)
        else (
          screen provider req client ticket (screen_prompt context req now),
          record st { caches = create_authorize_request_ticket req ticket now st.caches },
        ))

with_request :
    Option AuthorizeRequest → Provider → Carried → String → ℕ → OidcState → OidcAnswer × OidcState
unfolding with_client invalid_answer
with_request none provider carried ticket now st =
    (shown provider "The authorization request is invalid", st)
with_request (some req) provider carried ticket now st =
    elim (get_client provider.clients req.client_id) [
      | none ↦ (shown provider "The client ID is invalid", st)
      | some client ↦ elim (validate_authorize_params provider.clients req) [
        | some e ↦ (invalid_answer provider req e, st)
        | none ↦ with_client client provider req carried ticket now st
      ]
    ]

-- `authorize`; the ticket is random.
unfoldable pub authorize :
    AuthorizeInput → Provider → Carried → String → ℕ → OidcState → OidcAnswer × OidcState
unfolding with_request
authorize input provider carried ticket now st =
    with_request (resolve_authorize_request provider input) provider carried ticket now st
