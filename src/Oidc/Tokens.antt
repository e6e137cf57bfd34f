-- ===== src/Oidc/Tokens.antt =====
-- internal/service/oidc_service.go: access tokens and refresh tokens, on the store in memory. The
-- signature of an ID token and the encoding of the user's data are parameters, as are the random
-- tokens.
pub mod Rotation
pub mod Access
pub mod Reuse
pub mod Issuing
use tinyauth.Base.{
  ℕ, ◌+◌, ◌*◌, String, Bool, true, false, not, ◌&&◌, List, [], ◌∷◌, Option, none, some, Result, ok,
  err, ◌==◌, ltb, if◌then◌else◌,
}
use tinyauth.Text.{replace_char}
use tinyauth.Store.{StoreError, not_found, unavailable, unique_failed, OidcSession}
use tinyauth.Store.Memory.{
  Store, create_oidc_session, get_oidc_session_by_access_token_hash,
  get_oidc_session_by_refresh_token_hash, update_oidc_session, delete_oidc_session_by_sub,
}
use tinyauth.Auth.{unix}
use tinyauth.Oidc.{Digests, UserinfoResponse, AuthorizeCodeEntry}
use tinyauth.Oidc.Scopes.{compile_userinfo}

pub record ClaimSet : Type 0 where
  pub iss : String
  pub aud : String
  pub sub : String
  pub iat : ℕ
  pub exp : ℕ
  pub auth_time : ℕ
  pub name : String
  pub email : String
  pub email_verified : Bool
  pub preferred_username : String
  pub groups : List String
  pub nonce : String

pub record TokenResponse : Type 0 where
  pub access_token : String
  pub refresh_token : String
  pub token_type : String
  pub expires_in : ℕ
  pub id_token : String
  pub scope : String

pub data TokenError : Type 0 where
  token_not_found token_expired invalid_client not_signed not_encoded not_decoded : TokenError
  store_failed : StoreError → TokenError

-- `jose.Signer` on the JSON of the claims, `json.Marshal` and `json.Unmarshal` of the user's data;
-- `none` is an error.
pub record Codec : Type 0 where
  pub sign : ClaimSet → Option String
  pub marshal : UserinfoResponse → Option String
  pub unmarshal : String → Option UserinfoResponse

abbrev or_zero : Option ℕ → ℕ
or_zero none = 0
or_zero (some t) = t

token_error : StoreError → TokenError
token_error not_found = token_not_found
token_error unavailable = store_failed unavailable
token_error (unique_failed column) = store_failed (unique_failed column)

module _ (digests : Digests) (codec : Codec) (issuer : String) (session_expiry : ℕ) where
  -- Both readings of the clock are the time of the call.
  unfoldable pub generate_id_token :
      String → UserinfoResponse → String → String → Option ℕ → ℕ → Option String
  generate_id_token client_id user scope nonce auth_time now =
      let info = compile_userinfo user scope in
      codec.sign (record {
        iss = issuer;
        aud = client_id;
        sub = user.sub;
        iat = unix now;
        exp = unix now + session_expiry;
        auth_time = or_zero auth_time;
        name = info.name;
        email = info.email;
        email_verified = info.email_verified;
        preferred_username = info.preferred_username;
        groups = info.groups;
        nonce = nonce;
      })

  abbrev pub token_response : String → String → String → String → TokenResponse
  token_response access refresh id_token scope = record {
    access_token = access;
    refresh_token = refresh;
    token_type = "Bearer";
    expires_in = session_expiry;
    id_token = id_token;
    scope = replace_char b',' " " scope;
  }

  abbrev pub new_row : String → String → AuthorizeCodeEntry → String → String → ℕ → OidcSession
  new_row access refresh entry client_id json now = record {
    sub = entry.userinfo.sub;
    access_token_hash = digests.hash access;
    refresh_token_hash = digests.hash refresh;
    scope = entry.scope;
    client_id = client_id;
    token_expires_at = unix now + session_expiry;
    refresh_token_expires_at = unix now + session_expiry * 2;
    nonce = entry.nonce;
    userinfo_json = json;
  }

  stored :
      {A : Type 0}
      → TokenResponse
      → Result StoreError OidcSession × A
      → Result TokenError TokenResponse × A
  stored response (ok row, st) = (ok response, st)
  stored response (err e, st) = (err (store_failed e), st)

  generate_from :
      Option String
      → Option String
      → String
      → AuthorizeCodeEntry
      → String
      → String
      → ℕ
      → Store
      → Result TokenError TokenResponse × Store
  unfolding stored
  generate_from none json client_id entry access refresh now st = (err not_signed, st)
  generate_from (some token) none client_id entry access refresh now st = (err not_encoded, st)
  generate_from (some token) (some json) client_id entry access refresh now st =
      stored (token_response access refresh token entry.scope)
        (create_oidc_session (new_row access refresh entry client_id json now) st)

  unfoldable pub generate_access_token :
      String
      → AuthorizeCodeEntry
      → ℕ
      → String
      → String
      → ℕ
      → Store
      → Result TokenError TokenResponse × Store
  unfolding generate_from generate_id_token
  generate_access_token client_id entry auth_time access refresh now st =
      generate_from
        (generate_id_token client_id entry.userinfo entry.scope entry.nonce (some auth_time) now)
        (codec.marshal entry.userinfo) client_id entry access refresh now st

  -- The row of the session with the new pair of tokens.
  abbrev pub rotated : OidcSession → String → String → ℕ → OidcSession
  rotated entry access refresh now = record entry {
    access_token_hash = digests.hash access;
    refresh_token_hash = digests.hash refresh;
    token_expires_at = unix now + session_expiry;
    refresh_token_expires_at = unix now + session_expiry * 2;
  }

  rotate_signed :
      OidcSession
      → Option String
      → String
      → String
      → ℕ
      → Store
      → Result TokenError TokenResponse × Store
  unfolding stored
  rotate_signed entry none access refresh now st = (err not_signed, st)
  rotate_signed entry (some token) access refresh now st =
      stored (token_response access refresh token entry.scope)
        (update_oidc_session (rotated entry access refresh now) st)

  pub rotate :
      OidcSession
      → Option UserinfoResponse
      → String
      → String
      → ℕ
      → Store
      → Result TokenError TokenResponse × Store
  unfolding rotate_signed generate_id_token
  rotate entry none access refresh now st = (err not_decoded, st)
  rotate entry (some info) access refresh now st =
      rotate_signed entry (generate_id_token entry.client_id info entry.scope entry.nonce none now)
        access refresh now st

  pub refresh_found :
      Result StoreError OidcSession
      → String
      → String
      → String
      → ℕ
      → Store
      → Result TokenError TokenResponse × Store
  unfolding rotate token_error
  refresh_found (err e) client_id access refresh now st = (err (token_error e), st)
  refresh_found (ok entry) client_id access refresh now st =
      if ltb entry.refresh_token_expires_at (unix now)
      then (err token_expired, st)
      else (if not (entry.client_id == client_id)
          then (err invalid_client, st)
          else rotate entry (codec.unmarshal entry.userinfo_json) access refresh now st)

  unfoldable pub refresh_access_token :
      String → String → String → String → ℕ → Store → Result TokenError TokenResponse × Store
  unfolding refresh_found
  refresh_access_token token client_id access refresh now st =
      refresh_found (get_oidc_session_by_refresh_token_hash (digests.hash token) st) client_id
        access refresh now st

-- The delete cannot fail on this store.
session_of : Result StoreError OidcSession → ℕ → Store → Result TokenError OidcSession × Store
unfolding token_error
session_of (err e) now st = (err (token_error e), st)
session_of (ok entry) now st =
    if ltb entry.token_expires_at (unix now)
    then (if ltb entry.refresh_token_expires_at (unix now)
        then (err token_expired, (delete_oidc_session_by_sub entry.sub st).1)
        else (err token_expired, st))
    else (ok entry, st)

unfoldable pub get_session_by_token : String → ℕ → Store → Result TokenError OidcSession × Store
unfolding session_of
get_session_by_token token_hash now st =
    session_of (get_oidc_session_by_access_token_hash token_hash st) now st

unfoldable pub delete_old_session : String → Store → Store
delete_old_session sub st = (delete_oidc_session_by_sub sub st).1
