-- ===== src/Controller/Oidc.antt =====
-- internal/controller/oidc_controller.go: the OpenID Connect provider. This file has what the
-- handlers share, and `resolveAuthorizeRequest`.
pub mod Authorize
pub mod Complete
pub mod Token
pub mod Userinfo
pub mod Flow
use Prim.Native.String.{[], ◌++◌}
use tinyauth.Base.{
  ℕ, String, Bool, true, false, not, ◌&&◌, List, Option, none, some, Result, ok, err, ◌==◌,
  if◌then◌else◌,
}
use tinyauth.Store.Memory.{Store}
use tinyauth.Oidc.{Digests, Clients, Caches, AuthorizeRequest}
use tinyauth.Oidc.Tokens.{Codec}

-- AuthorizeScreenParams, without the constant `login_for`.
pub record ScreenParams : Type 0 where
  pub ticket : String
  pub scope : String
  pub name : String
  pub prompt : String

-- CallbackError.
pub record CallbackError : Type 0 where
  pub error : String
  pub description : String
  pub state : String

-- What golang-jwt reads of a token, without a look at its signature: the header "alg" and the
-- claims, as far as they are texts.
pub record Jwt : Type 0 where
  pub alg : Option String
  pub signature : String
  pub claim : String → Option String

-- The service, as the configuration makes it, and the libraries: `none` is an error.
pub record Provider : Type 0 where
  pub issuer : String
  pub clients : Clients
  pub digests : Digests
  pub codec : Codec
  pub session_expiry : ℕ
  pub parse_jwt : String → Option Jwt
  pub screen_query : ScreenParams → Option String
  pub callback_error_query : CallbackError → Option String
  pub error_query : String → Option String
  pub callback_query : String → String → Option String

-- The caches of the service, and the store in memory.
pub record OidcState : Type 0 where
  pub caches : Caches
  pub rows : Store

-- `c.Redirect`, the JSON answer with an address, or a status alone.
pub data OidcAnswer : Type 0 where
  redirect_to json_redirect : String → OidcAnswer
  aborted : ℕ → OidcAnswer

-- authorizeErrorParams, as far as it is not for the log.
pub record ErrorParams : Type 0 where
  pub reason_public : String
  pub callback : String
  pub callback_error : String
  pub state : String
  pub json : Bool

abbrev pub by_json : Bool → String → OidcAnswer
by_json json url = if json then json_redirect url else redirect_to url

located : Option String → Bool → String → OidcAnswer
located none json base = aborted 500
located (some query) json base = by_json json (base ++ ("?" ++ query))

-- `authorizeError`, with the address that the error page is on.
unfoldable pub authorize_error : Provider → String → ErrorParams → OidcAnswer
unfolding located
authorize_error provider home params =
    if not (params.callback == "")
    then located
        (provider.callback_error_query (record {
          error = params.callback_error;
          description = params.reason_public;
          state = params.state;
        }))
        params.json params.callback
    else located (provider.error_query params.reason_public) params.json (home ++ "/error")

-- `authorizeError` without the service.
unfoldable pub unconfigured : (String → Option String) → String → Bool → OidcAnswer
unfolding located
unconfigured error_query app_url json =
    located (error_query "This instance is not configured for OIDC") json (app_url ++ "/error")

abbrev or_blank : Option String → String
or_blank none = ""
or_blank (some s) = s

abbrev pub request_of : (String → Option String) → AuthorizeRequest
request_of claim = record {
  scope = or_blank (claim "scope");
  response_type = or_blank (claim "response_type");
  client_id = or_blank (claim "client_id");
  redirect_uri = or_blank (claim "redirect_uri");
  state = or_blank (claim "state");
  nonce = or_blank (claim "nonce");
  code_challenge = or_blank (claim "code_challenge");
  code_challenge_method = or_blank (claim "code_challenge_method");
  prompt = or_blank (claim "prompt");
  max_age = "";
}

decode_parsed : Option Jwt → Option AuthorizeRequest
decode_parsed none = none
decode_parsed (some jwt) = elim jwt.alg [
  | none ↦ none
  | some alg ↦ if alg == "none" && jwt.signature == "" then some (request_of jwt.claim) else none
]

-- `DecodeAuthorizeJWT`; `none` is an error.
unfoldable pub decode_authorize_jwt : Provider → String → Option AuthorizeRequest
unfolding decode_parsed
decode_authorize_jwt provider raw = decode_parsed (provider.parse_jwt raw)

-- What the handler reads of a request to authorize: the parameter "request" of the query and of
-- the form, and the parameters bound from the query or, for a POST, from the form.
pub record AuthorizeInput : Type 0 where
  pub is_post : Bool
  pub query_request : String
  pub form_request : String
  pub bound : Option AuthorizeRequest

-- `resolveAuthorizeRequest`.
unfoldable pub resolve_authorize_request : Provider → AuthorizeInput → Option AuthorizeRequest
resolve_authorize_request provider input =
    let raw =
      if input.query_request == "" && input.is_post
      then input.form_request
      else input.query_request in
    if raw == "" then input.bound else decode_authorize_jwt provider raw
