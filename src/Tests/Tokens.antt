-- ===== src/Tests/Tokens.antt =====
-- internal/service/oidc_service.go: a code and a token of one client.
use Prim.Native.String.{◌++◌, ◌∷◌}
use tinyauth.Base.{
  ◌*◌, ◌≡◌, refl, ◌≢◌, ◌↔◌, String, true, false, [], ◌∷◌, Option, none, some, ok, err, arith,
  eq_iff,
}
use tinyauth.Base.Dict.{lookup, has, HasDistinctKeys}
use tinyauth.Text.{replace_char}
use tinyauth.Model.Context.{UserContext, empty_context, is_local}
use tinyauth.Model.{empty_attributes}
use tinyauth.Auth.{second}
use tinyauth.Store.{OidcSession}
use tinyauth.Store.Memory.{
  Store, find_row, get_oidc_session_by_refresh_token_hash, update_oidc_session,
}
use tinyauth.Oidc.{
  Digests, Caches, AuthorizeRequest, UserinfoResponse, empty_userinfo, OidcClientConfig,
  create_code, create_sub, userinfo_from_context, get_code_entry, validate_authorize_params,
}
use tinyauth.Oidc.Codes.{get_code_entry-create_code}
use tinyauth.Oidc.Scopes.{IsAcceptable, validate_authorize_params_iff}
use tinyauth.Oidc.Tokens.{Codec, TokenResponse, refresh_access_token, token_not_found}
use tinyauth.Oidc.Tokens.Rotation.{refresh_access_token_lem}
use tinyauth.Oidc.Tokens.Reuse.{HasUniqueRefresh, refresh_access_token-used}

-- Digests that can be told apart at a glance.
abbrev pub digests : Digests
digests = record {
  hash = λ s. "h" ++ s;
  hash_and_encode_pkce = λ s. "p" ∷ s;
  generate_uuid = λ s. "u" ++ s;
}

abbrev pub request : AuthorizeRequest
request = record {
  scope = "openid email";
  response_type = "code";
  client_id = "app";
  redirect_uri = "https://app.example.com/callback";
  state = "";
  nonce = "n";
  code_challenge = "pverifier";
  code_challenge_method = "S256";
  prompt = "";
  max_age = "";
}

abbrev pub client : OidcClientConfig
client = record {
  id = "app";
  client_id = "app";
  client_secret = "secret";
  client_secret_file = "";
  trusted_redirect_uris = "https://app.example.com/callback" ∷ [];
  name = "App";
}

abbrev pub no_codes : Caches
no_codes = record {
  code = record { cache = []; order = []; max_size = 256 };
  used_code = record { cache = []; order = []; max_size = 256 };
  authorize = record { cache = []; order = []; max_size = 256 };
}

-- A local user.
abbrev pub erin : UserContext
erin = record empty_context {
  authenticated = true;
  local = some (record {
    base = record { username = "erin"; name = "Erin"; email = "erin@example.com" };
    totp_pending = false;
    attributes = empty_attributes;
  });
}

abbrev with_code : Option Caches → Caches
with_code none = no_codes
with_code (some caches) = caches

abbrev info_or_empty : Option UserinfoResponse → UserinfoResponse
info_or_empty none = empty_userinfo
info_or_empty (some info) = info

info : UserinfoResponse
info = info_or_empty (userinfo_from_context erin (create_sub digests erin "app") second)

codes : Caches
codes = with_code (create_code digests request erin "code" second no_codes)

info-userinfo_from_context :
    userinfo_from_context erin (create_sub digests erin "app") second ≡ some info
unfolding info userinfo_from_context is_local
info-userinfo_from_context = refl

codes-create_code : create_code digests request erin "code" second no_codes ≡ some codes
unfolding codes create_code userinfo_from_context is_local
codes-create_code = refl

get_code_entry-create_code_example :
    ((get_code_entry "hcode" "other" (2 * second) codes).0 ≡ none)
    × ((get_code_entry "hcode" "app"
          (4 * second)
          (get_code_entry "hcode" "app" (2 * second) codes).1).0
        ≡ none)
get_code_entry-create_code_example =
    get_code_entry-create_code digests request erin "code" "other" "app" second (2 * second)
      (4 * second) no_codes codes info info-userinfo_from_context codes-create_code (omega arith)

validate_authorize_params_iff_example :
    (validate_authorize_params (("app", client) ∷ []) request ≡ none) ↔ (
      (c : OidcClientConfig) × (lookup "app" (("app", client) ∷ []) ≡ some c)
      × IsAcceptable c request)
validate_authorize_params_iff_example = validate_authorize_params_iff (("app", client) ∷ []) request

abbrev pub codec : Codec
codec = record {
  sign = λ c. some "jwt";
  marshal = λ i. some "{}";
  unmarshal = λ s. some empty_userinfo;
}

abbrev pub granted : OidcSession
granted = record {
  sub = "sub-1";
  access_token_hash = "ha1";
  refresh_token_hash = "hr1";
  scope = "openid";
  client_id = "app";
  token_expires_at = 100;
  refresh_token_expires_at = 200;
  nonce = "";
  userinfo_json = "{}";
}

abbrev pub one_row : Store
one_row = record { sessions = []; oidc_sessions = ("sub-1", granted) ∷ [] }

one_row-HasDistinctKeys : HasDistinctKeys one_row.oidc_sessions
unfolding has
one_row-HasDistinctKeys = (refl, tt)

one_row-HasUniqueRefresh : HasUniqueRefresh one_row.oidc_sessions
unfolding find_row
one_row-HasUniqueRefresh = (refl, tt)

abbrev pair : TokenResponse
pair = record {
  access_token = "a2";
  refresh_token = "r2";
  token_type = "Bearer";
  expires_in = 7200;
  id_token = "jwt";
  scope = "openid";
}

pair-refresh_access_token :
    (refresh_access_token digests codec "https://auth.example.com" 7200 "r1" "app" "a2" "r2"
      (150 * second)
      one_row).0
    ≡ ok pair
unfolding refresh_access_token get_oidc_session_by_refresh_token_hash find_row update_oidc_session
    lookup replace_char
pair-refresh_access_token = refl

refresh_access_token_lem_example :
    let st' =
      (refresh_access_token digests codec "https://auth.example.com" 7200 "r1" "app" "a2" "r2"
        (150 * second)
        one_row).1 in
    (entry : OidcSession) × (get_oidc_session_by_refresh_token_hash "hr1" one_row ≡ ok entry)
    × (entry.client_id ≡ "app")
refresh_access_token_lem_example =
    let (entry, found, same, in_time, row, a, r) =
      refresh_access_token_lem digests codec "https://auth.example.com" 7200 "r1" "app" "a2" "r2"
        "sub-1" (150 * second) one_row pair (refl, tt) one_row-HasDistinctKeys
        pair-refresh_access_token in
    (entry, found, same)

other_hash : ◌≢◌ {A = String} "hr2" "hr1"
other_hash p = absurd (ground (arith, eq_iff "hr2" "hr1"))

refresh_access_token-used_example :
    let st' =
      (refresh_access_token digests codec "https://auth.example.com" 7200 "r1" "app" "a2" "r2"
        (150 * second)
        one_row).1 in
    refresh_access_token digests codec "https://auth.example.com" 7200 "r1" "app" "a3" "r3"
      (160 * second)
      st'
    ≡ (err token_not_found, st')
refresh_access_token-used_example =
    refresh_access_token-used digests codec "https://auth.example.com" 7200 "r1" "app" "a2" "r2"
      "app" "a3" "r3" (150 * second) (160 * second) one_row pair (refl, tt) one_row-HasDistinctKeys
      one_row-HasUniqueRefresh other_hash pair-refresh_access_token
