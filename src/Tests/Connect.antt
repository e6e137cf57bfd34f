-- ===== src/Tests/Connect.antt =====
-- internal/controller/oidc_controller.go: one client, its code and its tokens.
use tinyauth.Base.{
  String, ◌≡◌, refl, ◌⊎◌, ◌↔◌, true, false, [], ◌∷◌, none, some, ok, err, arith, ◌*◌, ◌≤◌, eq_iff,
  Option,
}
use tinyauth.Base.Dict.{lookup}
use tinyauth.Base.Lists.{contains}
use tinyauth.Text.{split, replace_char, trim_space, cut, join}
use tinyauth.Model.Context.{absent, carries, new_from_gin, is_local}
use tinyauth.Auth.{second, unix}
use tinyauth.Cache.{get_callback}
use tinyauth.Store.{OidcSession, not_found}
use tinyauth.Store.Memory.{
  get_oidc_session_by_sub, get_oidc_session_by_access_token_hash, create_oidc_session,
  find_conflict,
}
use tinyauth.Oidc.{
  OidcClientConfig, AuthorizeRequest, AuthorizeCodeEntry, UserinfoResponse, empty_userinfo,
  get_client, get_code_entry, validate_pkce, validate_authorize_params, validate_grant_type,
  userinfo_from_context, create_sub, get_authorize_request_by_ticket, code_entry, kept_challenge,
  filter_scopes,
}
use tinyauth.Oidc.Scopes.{compile_userinfo}
use tinyauth.Oidc.Tokens.{TokenResponse, generate_access_token}
use tinyauth.Controller.Oidc.{
  Provider, OidcState, AuthorizeInput, resolve_authorize_request, authorize_error,
}
use tinyauth.Controller.Oidc.Authorize.{authorize}
use tinyauth.Controller.Oidc.Authorize.Trusted.{IsHome, IsRegistered, authorize-IsSafe}
use tinyauth.Controller.Oidc.Token.{TokenRequest, credentials, token_handler, tokens}
use tinyauth.Controller.Oidc.Token.Exchange.{Presents, Exchanges, token_handler-Exchanges}
use tinyauth.Controller.Oidc.Token.Replay.{token_handler-replay}
use tinyauth.Controller.Oidc.Userinfo.{UserinfoRequest, access_token, userinfo, userinfo_handler}
use tinyauth.Controller.Oidc.Userinfo.Laws.{userinfo_handler_iff}
use tinyauth.Tests.Tokens.{digests, request, client, no_codes, codec, one_row, erin}
use tinyauth.Oidc.Tokens.Issuing.{Works, AreNew}
use tinyauth.Controller.Oidc.Complete.{authorize_complete}
use tinyauth.Controller.Oidc.Complete.Codes.{Consents}
use tinyauth.Controller.Oidc.Flow.{Redeems, userinfo_handler-token_handler}

abbrev provider : Provider
provider = record {
  issuer = "https://auth.example.com";
  clients = ("app", client) ∷ [];
  digests = digests;
  codec = codec;
  session_expiry = 7200;
  parse_jwt = λ s. none;
  screen_query = λ p. some p.ticket;
  callback_error_query = λ e. some e.error;
  error_query = λ e. some "oops";
  callback_query = λ c s. some c;
}

abbrev idle : OidcState
idle = record { caches = no_codes; rows = one_row }

abbrev asking : AuthorizeInput
asking = record {
  is_post = false;
  query_request = "";
  form_request = "";
  bound = some (record request { response_type = "token" });
}

authorize-IsSafe_example :
    IsHome provider "https://app.example.com/callback?unsupported_response_type"
    ⊎ ((req : AuthorizeRequest) × (resolve_authorize_request provider asking ≡ some req)
        × IsRegistered provider req "https://app.example.com/callback?unsupported_response_type")
unfolding authorize resolve_authorize_request get_client lookup validate_authorize_params contains
    trim_space split authorize_error
authorize-IsSafe_example =
    authorize-IsSafe asking provider absent "ticket" second idle
      "https://app.example.com/callback?unsupported_response_type" refl

abbrev entry : AuthorizeCodeEntry
entry = record {
  code_hash = "hcode";
  scope = "openid";
  redirect_uri = "https://app.example.com/callback";
  client_id = "app";
  nonce = "n";
  code_challenge = "";
  userinfo = record empty_userinfo { sub = "sub-2" };
  auth_time = 1;
}

abbrev coded : OidcState
coded = record idle {
  caches = record no_codes {
    code = record {
      cache = ("hcode", record { value = entry; expires_at = some (60 * second) }) ∷ [];
      order = "hcode" ∷ [];
      max_size = 256;
    };
  };
}

abbrev exchange : TokenRequest
exchange = record {
  grant_type = "authorization_code";
  code = "code";
  redirect_uri = "https://app.example.com/callback";
  refresh_token = "";
  client_secret = "secret";
  client_id = "app";
  code_verifier = "";
}

client-Presents : Presents provider exchange none client
unfolding credentials get_client lookup
client-Presents = record { grant = refl; id = "app"; shown = refl; known = refl }

token_handler-replay_example :
    let st' = (token_handler (some exchange) none provider "a2" "r2" (2 * second) coded).1 in
    get_oidc_session_by_sub "sub-2"
      (token_handler (some exchange) none provider "a3" "r3" (3 * second) st').1.rows
    ≡ err not_found
unfolding get_code_entry get_callback lookup
token_handler-replay_example =
    (token_handler-replay exchange exchange none none provider client client "a2" "r2" "a3" "r3"
      (2 * second) (3 * second) coded entry client-Presents refl client-Presents refl
      (omega arith)).1

abbrev response : TokenResponse
response = record {
  access_token = "a2";
  refresh_token = "r2";
  token_type = "Bearer";
  expires_in = 7200;
  id_token = "jwt";
  scope = "openid";
}

token_handler-Exchanges_example :
    (shown : OidcClientConfig) × Presents provider exchange none shown
    × Exchanges provider exchange shown (2 * second) coded
unfolding token_handler validate_grant_type contains credentials get_client lookup get_code_entry
    get_callback validate_pkce generate_access_token create_oidc_session find_conflict replace_char
token_handler-Exchanges_example =
    token_handler-Exchanges exchange none provider "a2" "r2" (2 * second) coded response refl refl

abbrev bearing : UserinfoRequest
bearing = record {
  authorization = "Bearer a1";
  is_post = false;
  content_type = "";
  form_token = "";
}

userinfo_handler_iff_example :
    ((userinfo_handler bearing provider (λ s. "bearer") (50 * second) idle).0
      ≡ userinfo (compile_userinfo empty_userinfo "openid"))
    ↔ ((token : String) × (row : OidcSession) × (details : UserinfoResponse) × (access_token
            (λ s. "bearer")
            bearing
          ≡ ok token)
        × (get_oidc_session_by_access_token_hash (digests.hash token) one_row ≡ ok row)
        × (unix (50 * second) ≤ row.token_expires_at)
        × (contains "openid" (split b' ' row.scope) ≡ true)
        × (codec.unmarshal row.userinfo_json ≡ some details)
        × (compile_userinfo empty_userinfo "openid" ≡ compile_userinfo details row.scope))
userinfo_handler_iff_example =
    userinfo_handler_iff bearing provider (λ s. "bearer") (50 * second) idle
      (compile_userinfo empty_userinfo "openid")

abbrev info_of : Option UserinfoResponse → UserinfoResponse
info_of none = empty_userinfo
info_of (some info) = info

-- Erin consents to a request of the client, which then trades the code for tokens.
abbrev erin_info : UserinfoResponse
erin_info = info_of (userinfo_from_context erin (create_sub digests erin "app") second)

abbrev encoding : Provider
encoding = record provider {
  codec = record {
    sign = λ c. some "jwt";
    marshal = λ i. some "json";
    unmarshal = λ s. some erin_info;
  };
}

abbrev ticketed : OidcState
ticketed = record idle {
  caches = record no_codes {
    authorize = record {
      cache = ("ticket", record { value = request; expires_at = some (600 * second) }) ∷ [];
      order = "ticket" ∷ [];
      max_size = 256;
    };
  };
}

erin-Consents : Consents (carries erin) encoding "ticket" second ticketed
unfolding new_from_gin userinfo_from_context is_local get_authorize_request_by_ticket get_callback
    lookup
erin-Consents = record {
  user = erin;
  request = request;
  info = erin_info;
  present = refl;
  signed_in = refl;
  detailed = refl;
  held = refl;
}

abbrev redeeming : TokenRequest
redeeming = record exchange { code_verifier = "verifier" }

erin-Redeems : Redeems erin-Consents redeeming none (2 * second)
unfolding erin-Consents credentials get_client validate_pkce code_entry kept_challenge
erin-Redeems = record {
  client = client;
  presents = record { grant = refl; id = "app"; shown = refl; known = refl };
  asked = refl;
  address = refl;
  verified = refl;
  in_time = omega arith;
}

encoding-Works : Works encoding.codec erin_info "json"
encoding-Works = record { signs = λ c. ("jwt", refl); written = refl; read = refl }

one_row-AreNew : AreNew (digests.hash "a2") (digests.hash "r2") one_row.oidc_sessions
one_row-AreNew = (
  (
    (λ p. absurd (ground (arith, eq_iff "ha1" "ha2"))),
    λ p. absurd (ground (arith, eq_iff "hr1" "hr2")),
  ),
  tt,
)

userinfo_handler-token_handler_example :
    let consented =
      (authorize_complete (carries erin) (some "ticket") encoding "code" second ticketed).1 in
    let (answer, st') =
      token_handler (some redeeming) none encoding "a2" "r2" (2 * second) consented in
    ((given : TokenResponse) × (answer ≡ tokens given) × (given.access_token ≡ "a2"))
    × ((userinfo_handler
          (record bearing { authorization = "Bearer a2" })
          encoding
          (λ s. "bearer")
          (50 * second)
          st').0
        ≡ userinfo (compile_userinfo erin_info "openid email"))
unfolding erin-Consents access_token cut contains split code_entry join filter_scopes
userinfo_handler-token_handler_example =
    userinfo_handler-token_handler (carries erin) "ticket" "code" encoding second (2 * second)
      (50 * second) ticketed redeeming none "a2" "r2" "json"
      (record bearing { authorization = "Bearer a2" }) (λ s. "bearer") erin-Consents erin-Redeems
      refl encoding-Works (refl, tt) one_row-AreNew refl (omega arith)
