-- ===== src/Model.antt =====
-- internal/model and internal/repository/models.go: the records that the components share.
pub mod Context
use tinyauth.Base.{ℕ, String, Bool, List, Option}

-- internal/model/config.go, the access controls of one app.
pub record AppConfig : Type 0 where
  pub domain : String

pub record AppUsers : Type 0 where
  pub allow : String
  pub block : String

pub record AppOAuth : Type 0 where
  pub whitelist : String
  pub groups : String

pub record AppLdap : Type 0 where
  pub groups : String

pub record AppIp : Type 0 where
  pub allow : List String
  pub block : List String
  pub bypass : List String

pub record AppBasicAuth : Type 0 where
  pub username : String
  pub password : String
  pub password_file : String

pub record AppResponse : Type 0 where
  pub headers : List String
  pub basic_auth : AppBasicAuth

pub record AppPath : Type 0 where
  pub allow : String
  pub block : String

pub record App : Type 0 where
  pub config : AppConfig
  pub users : AppUsers
  pub oauth : AppOAuth
  pub ip : AppIp
  pub response : AppResponse
  pub path : AppPath
  pub ldap : AppLdap

pub record IpConfig : Type 0 where
  pub allow : List String
  pub block : List String
  pub bypass : List String

pub record AddressClaim : Type 0 where
  pub formatted : String
  pub street_address : String
  pub locality : String
  pub region : String
  pub postal_code : String
  pub country : String

pub record UserAttributes : Type 0 where
  pub name : String
  pub given_name : String
  pub family_name : String
  pub middle_name : String
  pub nickname : String
  pub profile : String
  pub picture : String
  pub website : String
  pub email : String
  pub gender : String
  pub birthdate : String
  pub zoneinfo : String
  pub locale : String
  pub phone_number : String
  pub address : AddressClaim

-- internal/model/users.go
pub record LocalUser : Type 0 where
  pub username : String
  pub password : String
  pub totp_secret : String
  pub attributes : UserAttributes

pub record LdapUser : Type 0 where
  pub dn : String
  pub groups : List String

pub data UserSearchType : Type 0 where
  user_local user_ldap : UserSearchType

pub record UserSearch : Type 0 where
  pub username : String
  pub email : String
  pub search_type : UserSearchType

-- internal/repository/models.go. `CreateSessionParams` has the fields of `Session`.
pub record Session : Type 0 where
  pub uuid : String
  pub username : String
  pub email : String
  pub name : String
  pub provider : String
  pub totp_pending : Bool
  pub oauth_groups : String
  pub expiry : ℕ
  pub created_at : ℕ
  pub oauth_name : String
  pub oauth_sub : String

abbrev pub empty_address : AddressClaim
empty_address = record {
  formatted = "";
  street_address = "";
  locality = "";
  region = "";
  postal_code = "";
  country = "";
}

-- The zero value of the Go struct.
abbrev pub empty_attributes : UserAttributes
empty_attributes = record {
  name = "";
  given_name = "";
  family_name = "";
  middle_name = "";
  nickname = "";
  profile = "";
  picture = "";
  website = "";
  email = "";
  gender = "";
  birthdate = "";
  zoneinfo = "";
  locale = "";
  phone_number = "";
  address = empty_address;
}
