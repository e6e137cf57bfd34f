-- ===== src/Controller/Oidc/Userinfo.antt =====
-- internal/controller/oidc_controller.go: `Userinfo`.
pub mod Laws
use Prim.Native.String.{[], ◌++◌}
use tinyauth.Base.{
  ℕ, String, Bool, true, false, not, ◌&&◌, ◌||◌, Option, none, some, Result, ok, err, ◌==◌,
  if◌then◌else◌,
}
use tinyauth.Base.Lists.{contains}
use tinyauth.Text.{cut, split}
use tinyauth.Store.{OidcSession}
use tinyauth.Store.Memory.{Store, delete_oidc_session_by_sub}
use tinyauth.Oidc.{
  OidcClientConfig, UserinfoResponse, AuthorizeCodeEntry, Caches, get_client, validate_grant_type,
  get_code_entry, validate_pkce, is_code_used, mark_code_as_used,
}
use tinyauth.Oidc.Scopes.{compile_userinfo}
use tinyauth.Oidc.Tokens.{
  TokenResponse, TokenError, token_not_found, token_expired, invalid_client, generate_access_token,
  refresh_access_token, get_session_by_token,
}
use tinyauth.Controller.Oidc.{Provider, OidcState}

-- What `Userinfo` reads of a request.
pub record UserinfoRequest : Type 0 where
  pub authorization : String
  pub is_post : Bool
  pub content_type : String
  pub form_token : String

pub data UserinfoAnswer : Type 0 where
  userinfo_refused : ℕ → String → UserinfoAnswer
  userinfo : UserinfoResponse → UserinfoAnswer

bearer : (String → String) → String × Option String → Result (ℕ × String) String
bearer to_lower (type, none) = err (401, "invalid_request")
bearer to_lower (type, some token) =
    if to_lower type == "bearer" then ok token else err (401, "invalid_request")

-- The access token of a request, or the status and the error.
unfoldable pub access_token : (String → String) → UserinfoRequest → Result (ℕ × String) String
unfolding bearer
access_token to_lower req =
    if not (req.authorization == "")
    then bearer to_lower (cut b' ' req.authorization)
    else (if req.is_post
        then (if not (req.content_type == "application/x-www-form-urlencoded")
            then err (400, "invalid_request")
            else (if req.form_token == "" then err (401, "invalid_request") else ok req.form_token))
        else err (401, "invalid_request"))

session_answer : Result TokenError OidcSession → Provider → UserinfoAnswer
session_answer (err token_not_found) provider = userinfo_refused 401 "invalid_grant"
session_answer (err _) provider = userinfo_refused 401 "server_error"
session_answer (ok entry) provider =
    if not (contains "openid" (split b' ' entry.scope))
    then userinfo_refused 401 "invalid_scope"
    else elim (provider.codec.unmarshal entry.userinfo_json) [
      | none ↦ userinfo_refused 401 "server_error"
      | some info ↦ userinfo (compile_userinfo info entry.scope)
    ]

-- `Userinfo` of a configured service.
unfoldable pub userinfo_handler :
    UserinfoRequest → Provider → (String → String) → ℕ → OidcState → UserinfoAnswer × OidcState
unfolding session_answer
userinfo_handler req provider to_lower now st = elim (access_token to_lower req) [
  | err (status, error) ↦ (userinfo_refused status error, st)
  | ok token ↦
      let (r, rows) = get_session_by_token (provider.digests.hash token) now st.rows in
      (session_answer r provider, record st { rows = rows })
]
