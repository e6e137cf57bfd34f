-- ===== src/Oidc/Data.antt =====
-- internal/service/oidc_service.go: its constants, its types, and the client of internal/model.
use tinyauth.Base.{ℕ, String, Bool, false, List, [], ◌∷◌, Option, none}
use tinyauth.Model.{AddressClaim}
use tinyauth.Cache.{CacheStore}

abbrev pub supported_scopes : List String
supported_scopes = "openid" ∷ "profile" ∷ "email" ∷ "phone" ∷ "address" ∷ "groups" ∷ []

abbrev pub supported_response_types : List String
supported_response_types = "code" ∷ []

abbrev pub supported_grant_types : List String
supported_grant_types = "authorization_code" ∷ "refresh_token" ∷ []

abbrev pub supported_prompts : List String
supported_prompts = "login" ∷ "none" ∷ []

-- internal/model/config.go.
pub record OidcClientConfig : Type 0 where
  pub id : String
  pub client_id : String
  pub client_secret : String
  pub client_secret_file : String
  pub trusted_redirect_uris : List String
  pub name : String

pub record UserinfoResponse : Type 0 where
  pub sub : String
  pub name : String
  pub given_name : String
  pub family_name : String
  pub middle_name : String
  pub nickname : String
  pub profile : String
  pub picture : String
  pub website : String
  pub gender : String
  pub birthdate : String
  pub zoneinfo : String
  pub locale : String
  pub email : String
  pub preferred_username : String
  pub groups : List String
  pub email_verified : Bool
  pub phone_number : String
  pub phone_number_verified : Option Bool
  pub address : Option AddressClaim
  pub updated_at : ℕ

abbrev pub empty_userinfo : UserinfoResponse
empty_userinfo = record {
  sub = "";
  name = "";
  given_name = "";
  family_name = "";
  middle_name = "";
  nickname = "";
  profile = "";
  picture = "";
  website = "";
  gender = "";
  birthdate = "";
  zoneinfo = "";
  locale = "";
  email = "";
  preferred_username = "";
  groups = [];
  email_verified = false;
  phone_number = "";
  phone_number_verified = none;
  address = none;
  updated_at = 0;
}

pub record AuthorizeRequest : Type 0 where
  pub scope : String
  pub response_type : String
  pub client_id : String
  pub redirect_uri : String
  pub state : String
  pub nonce : String
  pub code_challenge : String
  pub code_challenge_method : String
  pub prompt : String
  pub max_age : String

pub record AuthorizeCodeEntry : Type 0 where
  pub code_hash : String
  pub scope : String
  pub redirect_uri : String
  pub client_id : String
  pub nonce : String
  pub code_challenge : String
  pub userinfo : UserinfoResponse
  pub auth_time : ℕ

-- `UsedCodeEntry` is its one field, `Sub`.
pub record Caches : Type 0 where
  pub code : CacheStore AuthorizeCodeEntry
  pub used_code : CacheStore String
  pub authorize : CacheStore AuthorizeRequest

pub record Digests : Type 0 where
  pub hash : String → String
  pub hash_and_encode_pkce : String → String
  pub generate_uuid : String → String

pub data AuthorizeError : Type 0 where
  access_denied invalid_request_uri invalid_scope unsupported_response_type invalid_request :
      AuthorizeError

-- The clients by their id.
abbrev pub Clients : Type 0
Clients = List (String × OidcClientConfig)
