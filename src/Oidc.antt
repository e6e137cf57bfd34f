-- ===== src/Oidc.antt =====
-- internal/service/oidc_service.go: authorization codes, tickets, scopes. SHA-256 in hexadecimal,
-- its Base64 form for PKCE and the UUID of a text are parameters, and so is every random string.
mod Data
pub mod Codes
pub mod Scopes
pub mod Tokens
pub use Data.*
use Prim.Native.String.{◌++◌}
use tinyauth.Base.{
  ℕ, ◌*◌, String, Bool, true, false, not, ◌&&◌, ◌||◌, List, [], ◌∷◌, Option, none, some, ◌==◌,
  if◌then◌else◌,
}
use tinyauth.Base.Dict.{lookup}
use tinyauth.Base.Lists.{any, filter, contains}
use tinyauth.Text.{trim_space, split, join}
use tinyauth.Model.{AddressClaim, UserAttributes, empty_attributes}
use tinyauth.Model.Context.{
  UserContext, LocalContext, LdapContext, OAuthContext, get_name, get_email, get_username, is_local,
  is_ldap, is_oauth,
}
use tinyauth.Cache.{CacheStore, set_callback, get_callback, delete_callback}
use tinyauth.Auth.{second, unix}

unfoldable pub get_client : Clients → String → Option OidcClientConfig
get_client clients id = lookup id clients

-- The checks on a request whose client is known; an unsupported scope is only logged.
check_request : OidcClientConfig → AuthorizeRequest → Option AuthorizeError
check_request client req =
    if not (contains req.redirect_uri client.trusted_redirect_uris)
    then some invalid_request_uri
    else (if trim_space req.scope == ""
        then some invalid_scope
        else (if any (λ scope. trim_space scope == "") (split 32 req.scope)
            then some invalid_scope
            else (if not (contains req.response_type supported_response_types)
                then some unsupported_response_type
                else (if not (req.code_challenge == "")
                      && (not (req.code_challenge_method == "")
                          && (not (req.code_challenge_method == "S256")
                              && not (req.code_challenge_method == "plain")))
                    then some invalid_request
                    else none))))

check_client : Option OidcClientConfig → AuthorizeRequest → Option AuthorizeError
unfolding check_request
check_client none req = some access_denied
check_client (some client) req = check_request client req

-- `none` is no error.
unfoldable pub validate_authorize_params : Clients → AuthorizeRequest → Option AuthorizeError
unfolding check_client get_client
validate_authorize_params clients req = check_client (get_client clients req.client_id) req

unfoldable pub filter_scopes : List String → List String
filter_scopes scopes = filter (λ scope. contains scope supported_scopes) scopes

unfoldable pub create_sub : Digests → UserContext → String → String
create_sub digests user client_id = digests.generate_uuid (get_username user ++ (":" ++ client_id))

with_local : Option LocalContext → UserinfoResponse → Option UserinfoResponse
with_local none info = none
with_local (some local) info = some (record info {
  given_name = local.attributes.given_name;
  family_name = local.attributes.family_name;
  middle_name = local.attributes.middle_name;
  nickname = local.attributes.nickname;
  profile = local.attributes.profile;
  picture = local.attributes.picture;
  website = local.attributes.website;
  gender = local.attributes.gender;
  birthdate = local.attributes.birthdate;
  zoneinfo = local.attributes.zoneinfo;
  locale = local.attributes.locale;
  phone_number = local.attributes.phone_number;
  address = some local.attributes.address;
})

with_groups {ℓ} :
    {A : Type ℓ} → (A → List String) → Option A → UserinfoResponse → Option UserinfoResponse
with_groups f none info = none
with_groups f (some a) info = some (record info { groups = f a })

details_of : UserContext → UserinfoResponse → Option UserinfoResponse
unfolding with_local with_groups
details_of user info =
    if is_local user
    then with_local user.local info
    else (if is_ldap user
        then with_groups (λ l. l.groups) user.ldap info
        else (if is_oauth user then with_groups (λ o. o.groups) user.oauth info else some info))

-- `none`: the context that the provider selects is nil.
unfoldable pub userinfo_from_context : UserContext → String → ℕ → Option UserinfoResponse
unfolding details_of
userinfo_from_context user sub now = details_of user (record empty_userinfo {
  sub = sub;
  name = get_name user;
  email = get_email user;
  preferred_username = get_username user;
  updated_at = unix now;
})

-- The challenge that is kept: an "S256" one as it is, any other as the digest of the text.
unfoldable pub kept_challenge : Digests → AuthorizeRequest → String
kept_challenge digests req =
    if not (req.code_challenge == "")
    then (if req.code_challenge_method == "S256"
        then req.code_challenge
        else digests.hash_and_encode_pkce req.code_challenge)
    else ""

unfoldable pub code_entry :
    Digests → AuthorizeRequest → UserContext → String → UserinfoResponse → AuthorizeCodeEntry
code_entry digests req user code info = record {
  code_hash = digests.hash code;
  scope = join " " (filter_scopes (split 32 req.scope));
  redirect_uri = req.redirect_uri;
  client_id = req.client_id;
  nonce = req.nonce;
  code_challenge = kept_challenge digests req;
  userinfo = info;
  auth_time = user.auth_time;
}

create_with :
    Digests
    → AuthorizeRequest
    → UserContext
    → String
    → ℕ
    → Caches
    → Option UserinfoResponse
    → Option Caches
create_with digests req user code now caches none = none
create_with digests req user code now caches (some info) = some (record caches {
  code =
      set_callback (digests.hash code) (code_entry digests req user code info) (60 * second) now
        caches.code;
})

-- The random code is an argument; `none` is a panic.
unfoldable pub create_code :
    Digests → AuthorizeRequest → UserContext → String → ℕ → Caches → Option Caches
unfolding create_with
create_code digests req user code now caches =
    create_with digests req user code now caches
      (userinfo_from_context user (create_sub digests user req.client_id) now)

unfoldable pub validate_grant_type : String → Bool
validate_grant_type grant_type = contains grant_type supported_grant_types

-- One locked section: the entry is read, checked against the client and deleted.
take_entry :
    Option AuthorizeCodeEntry → String → String → Caches → Option AuthorizeCodeEntry × Caches
take_entry none code_hash client_id caches = (none, caches)
take_entry (some entry) code_hash client_id caches =
    if not (entry.client_id == client_id)
    then (none, caches)
    else (some entry, record caches { code = delete_callback code_hash caches.code })

unfoldable pub get_code_entry : String → String → ℕ → Caches → Option AuthorizeCodeEntry × Caches
unfolding take_entry
get_code_entry code_hash client_id now caches =
    take_entry (get_callback code_hash now caches.code) code_hash client_id caches

unfoldable pub validate_pkce : Digests → String → String → Bool
validate_pkce digests code_challenge code_verifier =
    if code_challenge == ""
    then true
    else code_challenge == digests.hash_and_encode_pkce code_verifier

unfoldable pub is_code_used : String → ℕ → Caches → Option String
is_code_used code_hash now caches = get_callback code_hash now caches.used_code

unfoldable pub mark_code_as_used : String → String → ℕ → Caches → Caches
mark_code_as_used code_hash sub now caches = record caches {
  used_code = set_callback code_hash sub (120 * second) now caches.used_code;
}

unfoldable pub create_authorize_request_ticket : AuthorizeRequest → String → ℕ → Caches → Caches
create_authorize_request_ticket req ticket now caches = record caches {
  authorize = set_callback ticket req (600 * second) now caches.authorize;
}

unfoldable pub get_authorize_request_by_ticket : String → ℕ → Caches → Option AuthorizeRequest
get_authorize_request_by_ticket ticket now caches = get_callback ticket now caches.authorize

unfoldable pub delete_authorize_request_ticket : String → Caches → Caches
delete_authorize_request_ticket ticket caches = record caches {
  authorize = delete_callback ticket caches.authorize;
}

unfoldable pub get_prompt : String → List String
get_prompt prompt =
    if prompt == "" then [] else filter (λ p. contains p supported_prompts) (split 32 prompt)
