-- ===== src/Store.antt =====
-- internal/repository: the store's interface as its clients use it (store.go, models.go).
pub mod Memory
use tinyauth.Base.{
  ℕ, String, ◌≡◌, ◌≢◌, Bool, Option, none, some, Result, ok, err, ◌==◌, if◌then◌else◌,
}
use tinyauth.Model.{Session}

-- `ErrNotFound`, a broken UNIQUE constraint, and any other failure of a driver.
pub data StoreError : Type 0 where
  not_found unavailable : StoreError
  unique_failed : String → StoreError

pub record UpdateSessionParams : Type 0 where
  pub username : String
  pub email : String
  pub name : String
  pub provider : String
  pub totp_pending : Bool
  pub oauth_groups : String
  pub expiry : ℕ
  pub oauth_name : String
  pub oauth_sub : String
  pub uuid : String

-- The row that an update leaves: the key and the creation time stay.
abbrev pub updated : UpdateSessionParams → Session → Session
updated arg sess = record sess {
  username = arg.username;
  email = arg.email;
  name = arg.name;
  provider = arg.provider;
  totp_pending = arg.totp_pending;
  oauth_groups = arg.oauth_groups;
  expiry = arg.expiry;
  oauth_name = arg.oauth_name;
  oauth_sub = arg.oauth_sub;
}

-- The session half of `repository.Store`, with what its clients rely on: a write that succeeds is
-- read back under its key and touches no other, and one that fails changes nothing.
pub record SessionStore : Type 1 where
  pub State : Type 0
  pub create_session : Session → State → Result StoreError Session × State
  pub get_session : String → State → Result StoreError Session
  pub update_session : UpdateSessionParams → State → Result StoreError Session × State
  pub delete_session : String → State → Option StoreError × State
  pub get-create :
      (s : Session) (k : String) (st : State)
      → get_session k (create_session s st).1
        ≡ elim (create_session s st).0 as (λ r. Result StoreError Session) [
          | ok s' ↦ if s.uuid == k then ok s else get_session k st
          | err e ↦ get_session k st
        ]
  pub get-update :
      (arg : UpdateSessionParams) (old : Session) (k : String) (st : State)
      → get_session arg.uuid st ≡ ok old
      → get_session k (update_session arg st).1
        ≡ elim (update_session arg st).0 as (λ r. Result StoreError Session) [
          | ok s' ↦ if arg.uuid == k then ok (updated arg old) else get_session k st
          | err e ↦ get_session k st
        ]
  pub get-delete :
      (uuid k : String) (st : State)
      → get_session k (delete_session uuid st).1
        ≡ elim (delete_session uuid st).0 as (λ r. Result StoreError Session) [
          | none ↦ if uuid == k then err not_found else get_session k st
          | some e ↦ get_session k st
        ]

pub record OidcSession : Type 0 where
  pub sub : String
  pub access_token_hash : String
  pub refresh_token_hash : String
  pub scope : String
  pub client_id : String
  pub token_expires_at : ℕ
  pub refresh_token_expires_at : ℕ
  pub nonce : String
  pub userinfo_json : String
