-- ===== src/Controller/Oidc/Token.antt =====
-- internal/controller/oidc_controller.go: `Token`.
pub mod Exchange
pub mod Replay
pub mod Issuing
use Prim.Native.String.{[], ◌++◌}
use tinyauth.Base.{
  ℕ, String, Bool, true, false, not, ◌&&◌, ◌||◌, Option, none, some, Result, ok, err, ◌==◌,
  if◌then◌else◌,
}
use tinyauth.Base.Lists.{contains}
use tinyauth.Text.{cut, split}
use tinyauth.Store.{OidcSession}
use tinyauth.Store.Memory.{Store, delete_oidc_session_by_sub}
use tinyauth.Oidc.{
  OidcClientConfig, UserinfoResponse, AuthorizeCodeEntry, Caches, get_client, validate_grant_type,
  get_code_entry, validate_pkce, is_code_used, mark_code_as_used,
}
use tinyauth.Oidc.Scopes.{compile_userinfo}
use tinyauth.Oidc.Tokens.{
  TokenResponse, TokenError, token_not_found, token_expired, invalid_client, generate_access_token,
  refresh_access_token, get_session_by_token,
}
use tinyauth.Controller.Oidc.{Provider, OidcState}

pub record TokenRequest : Type 0 where
  pub grant_type : String
  pub code : String
  pub redirect_uri : String
  pub refresh_token : String
  pub client_secret : String
  pub client_id : String
  pub code_verifier : String

-- An error with its status, the 400 that asks for basic authentication, or the tokens, which may
-- not be stored.
pub data TokenAnswer : Type 0 where
  refused : ℕ → String → TokenAnswer
  challenged : TokenAnswer
  tokens : TokenResponse → TokenAnswer

-- The client's credentials: from the form, if both are there, else from basic authentication.
unfoldable pub credentials : TokenRequest → Option (String × String) → Option (String × String)
credentials req basic =
    if req.client_id == "" || req.client_secret == ""
    then basic
    else some (req.client_id, req.client_secret)

abbrev pub revoke : String → OidcState → OidcState
revoke sub st = record st { rows = (delete_oidc_session_by_sub sub st.rows).1 }

-- A code that is not there: was it used before?
code_missing : Option String → OidcState → TokenAnswer × OidcState
code_missing none st = (refused 400 "invalid_grant", st)
code_missing (some sub) st = (refused 400 "invalid_grant", revoke sub st)

generated : Result TokenError TokenResponse × Store → OidcState → TokenAnswer × OidcState
generated (err e, rows) st = (refused 400 "server_error", record st { rows = rows })
generated (ok response, rows) st = (tokens response, record st { rows = rows })

code_found :
    AuthorizeCodeEntry
    → TokenRequest
    → OidcClientConfig
    → Provider
    → String
    → String
    → ℕ
    → OidcState
    → TokenAnswer × OidcState
unfolding generated
code_found entry req client provider access refresh now st =
    let hash = provider.digests.hash req.code in
    let st' : OidcState = record st {
      caches = mark_code_as_used hash entry.userinfo.sub now st.caches;
    } in
    if not (entry.redirect_uri == req.redirect_uri)
    then (refused 400 "invalid_grant", st')
    else (if not (validate_pkce provider.digests entry.code_challenge req.code_verifier)
        then (refused 400 "invalid_grant", st')
        else generated
            (generate_access_token provider.digests provider.codec provider.issuer
              provider.session_expiry client.client_id entry entry.auth_time access refresh now
              st.rows)
            st')

pub exchange_code :
    TokenRequest
    → OidcClientConfig
    → Provider
    → String
    → String
    → ℕ
    → OidcState
    → TokenAnswer × OidcState
unfolding code_found code_missing
exchange_code req client provider access refresh now st =
    let hash = provider.digests.hash req.code in
    let (entry, caches) = get_code_entry hash client.client_id now st.caches in
    let st' : OidcState = record st { caches = caches } in
    elim entry [
      | none ↦ code_missing (is_code_used hash now caches) st'
      | some e ↦ code_found e req client provider access refresh now st'
    ]

refreshed_answer : Result TokenError TokenResponse → TokenAnswer
refreshed_answer (ok response) = tokens response
refreshed_answer (err token_expired) = refused 400 "invalid_grant"
refreshed_answer (err invalid_client) = refused 400 "invalid_grant"
refreshed_answer (err _) = refused 400 "server_error"

exchange_refresh :
    TokenRequest → String → Provider → String → String → ℕ → OidcState → TokenAnswer × OidcState
unfolding refreshed_answer
exchange_refresh req client_id provider access refresh now st =
    let (r, rows) =
      refresh_access_token provider.digests provider.codec provider.issuer provider.session_expiry
        req.refresh_token client_id access refresh now st.rows in
    (refreshed_answer r, record st { rows = rows })

with_client :
    Option OidcClientConfig
    → String
    → String
    → TokenRequest
    → Provider
    → String
    → String
    → ℕ
    → OidcState
    → TokenAnswer × OidcState
unfolding exchange_code exchange_refresh
with_client none id secret req provider access refresh now st = (refused 400 "invalid_client", st)
with_client (some client) id secret req provider access refresh now st =
    if not (client.client_secret == secret)
    then (refused 400 "invalid_client", st)
    else (if req.grant_type == "authorization_code"
        then exchange_code req client provider access refresh now st
        else exchange_refresh req id provider access refresh now st)

with_credentials :
    Option (String × String)
    → TokenRequest
    → Provider
    → String
    → String
    → ℕ
    → OidcState
    → TokenAnswer × OidcState
unfolding with_client
with_credentials none req provider access refresh now st = (challenged, st)
with_credentials (some (id, secret)) req provider access refresh now st =
    with_client (get_client provider.clients id) id secret req provider access refresh now st

-- `Token` of a configured service: the form, `none` if it cannot be read, and the basic
-- authentication; the tokens are random. A grant type that is valid is one of the two.
unfoldable pub token_handler :
    Option TokenRequest
    → Option (String × String)
    → Provider
    → String
    → String
    → ℕ
    → OidcState
    → TokenAnswer × OidcState
unfolding with_credentials
token_handler none basic provider access refresh now st = (refused 400 "invalid_request", st)
token_handler (some req) basic provider access refresh now st =
    if validate_grant_type req.grant_type
    then with_credentials (credentials req basic) req provider access refresh now st
    else (refused 400 "unsupported_grant_type", st)
