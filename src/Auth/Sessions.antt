-- ===== src/Auth/Sessions.antt =====
-- internal/service/auth_service.go: the login sessions, over any session store.
pub mod Laws
pub mod Issuing
use tinyauth.Base.{
  ℕ, ◌+◌, ◌-◌, ◌*◌, ◌/◌, String, Bool, true, false, not, ◌&&◌, ◌||◌, Option, none, some, Result, ok,
  err, ltb, leb, nat_eq, ◌==◌, if◌then◌else◌,
}
use tinyauth.Base.Int.{ℤ, pos, negsuc, sub_ℕ}
use tinyauth.Auth.{second, unix, AuthConfig}
use tinyauth.Model.{Session}
use tinyauth.Store.{
  StoreError, not_found, unavailable, unique_failed, UpdateSessionParams, SessionStore,
}

-- internal/model/runtime.go, as far as the cookies go.
pub record CookieRuntime : Type 0 where
  pub cookie_domain : String
  pub session_cookie_name : String

-- `http.Cookie`, with `HttpOnly` and `SameSite` fixed to true and Lax by the code.
pub record Cookie : Type 0 where
  pub name : String
  pub value : String
  pub path : String
  pub domain : String
  pub expires : ℕ
  pub max_age : ℤ
  pub secure : Bool
  pub http_only : Bool

pub data SessionError : Type 0 where
  tailscale_not_configured uuid_failed session_not_found max_lifetime_exceeded session_expired :
      SessionError
  store_failed : StoreError → SessionError

unfoldable pub get_cookie_domain : AuthConfig → CookieRuntime → String
get_cookie_domain config runtime =
    if not config.subdomains_enabled then "" else runtime.cookie_domain

abbrev pub session_cookie : AuthConfig → CookieRuntime → String → ℕ → ℤ → Cookie
session_cookie config runtime value expires max_age = record {
  name = runtime.session_cookie_name;
  value = value;
  path = "/";
  domain = get_cookie_domain config runtime;
  expires = expires;
  max_age = max_age;
  secure = config.secure_cookie;
  http_only = true;
}

-- The time that a new session lives, in seconds.
abbrev pub session_time : AuthConfig → Bool → ℕ
session_time config pending = if pending then 3600 else config.session_expiry

unfoldable pub refresh_threshold : AuthConfig → ℕ
refresh_threshold config =
    if leb config.session_expiry 3600 then config.session_expiry / 2 else 3600

-- The row that `CreateSession` writes.
unfoldable pub session_row : AuthConfig → Session → String → ℕ → Session
session_row config input uuid now = record input {
  uuid = uuid;
  expiry = unix (now + session_time config input.totp_pending * second);
  created_at = unix now;
}

create_cookie :
    Result StoreError Session
    → AuthConfig
    → CookieRuntime
    → Session
    → String
    → ℕ
    → Result SessionError Cookie
create_cookie (err e) config runtime input uuid now = err (store_failed e)
create_cookie (ok s) config runtime input uuid now = ok (
    session_cookie config runtime uuid (now + session_time config input.totp_pending * second)
      (pos (session_time config input.totp_pending)))

-- The arguments of the update that moves the expiry.
abbrev pub refreshed : Session → ℕ → UpdateSessionParams
refreshed s expiry = record {
  username = s.username;
  email = s.email;
  name = s.name;
  provider = s.provider;
  totp_pending = s.totp_pending;
  oauth_groups = s.oauth_groups;
  expiry = expiry;
  oauth_name = s.oauth_name;
  oauth_sub = s.oauth_sub;
  uuid = s.uuid;
}

refresh_cookie :
    Result StoreError Session
    → AuthConfig
    → CookieRuntime
    → Session
    → ℕ
    → ℕ
    → Result SessionError (Option Cookie)
refresh_cookie (err e) config runtime s new_expiry now = err (store_failed e)
refresh_cookie (ok _) config runtime s new_expiry now = ok (
    some (
      session_cookie config runtime s.uuid ((now + new_expiry * second) - unix now * second)
        (sub_ℕ new_expiry (unix now))))

-- Why a session that the store holds is refused at the Unix time `now`.
unfoldable pub refusal : AuthConfig → Session → ℕ → Option SessionError
refusal config s now =
    if not (nat_eq config.session_max_lifetime 0)
      && (not (nat_eq s.created_at 0) && ltb (s.created_at + config.session_max_lifetime) now)
    then some max_lifetime_exceeded
    else (if ltb s.expiry now then some session_expired else none)

after_delete : Option StoreError → SessionError → SessionError
after_delete none why = why
after_delete (some e) why = store_failed e

abbrev pub get_error : StoreError → SessionError
get_error not_found = session_not_found
get_error unavailable = store_failed unavailable
get_error (unique_failed column) = store_failed (unique_failed column)

module _ (store : SessionStore) where
  open store use {State}

  -- `uuid` is `none` where the random source fails.
  unfoldable pub create_session :
      AuthConfig
      → CookieRuntime
      → Bool
      → Option String
      → Session
      → ℕ
      → State
      → Result SessionError Cookie × State
  unfolding create_cookie
  create_session config runtime has_tailscale none input now st =
      if input.provider == "tailscale" && not has_tailscale
      then (err tailscale_not_configured, st)
      else (err uuid_failed, st)
  create_session config runtime has_tailscale (some uuid) input now st =
      if input.provider == "tailscale" && not has_tailscale
      then (err tailscale_not_configured, st)
      else (let (r, st') = store.create_session (session_row config input uuid now) st in
          (create_cookie r config runtime input uuid now, st'))

  refresh_found :
      Session → AuthConfig → CookieRuntime → ℕ → State → Result SessionError (Option Cookie) × State
  unfolding refresh_cookie
  refresh_found s config runtime now st =
      let new_expiry = s.expiry + refresh_threshold config in
      let (r, st') = store.update_session (refreshed s new_expiry) st in
      if ltb (unix now + refresh_threshold config) s.expiry
      then (ok none, st)
      else (refresh_cookie r config runtime s new_expiry now, st')

  refresh_of :
      Result StoreError Session
      → AuthConfig
      → CookieRuntime
      → ℕ
      → State
      → Result SessionError (Option Cookie) × State
  unfolding refresh_found
  refresh_of (err e) config runtime now st = (err (store_failed e), st)
  refresh_of (ok s) config runtime now st = refresh_found s config runtime now st

  -- `ok none`: it is too early to refresh.
  unfoldable pub refresh_session :
      AuthConfig → CookieRuntime → String → ℕ → State → Result SessionError (Option Cookie) × State
  unfolding refresh_of
  refresh_session config runtime uuid now st =
      refresh_of (store.get_session uuid st) config runtime now st

  -- A failure of the store is only logged.
  unfoldable pub delete_session : AuthConfig → CookieRuntime → String → ℕ → State → Cookie × State
  delete_session config runtime uuid now st =
      (session_cookie config runtime "" now (negsuc 0), (store.delete_session uuid st).1)

  get_found : Option SessionError → Session → String → State → Result SessionError Session × State
  unfolding after_delete
  get_found none s uuid st = (ok s, st)
  get_found (some why) s uuid st =
      let (e, st') = store.delete_session uuid st in (err (after_delete e why), st')

  get_of :
      Result StoreError Session
      → AuthConfig
      → String
      → ℕ
      → State
      → Result SessionError Session × State
  unfolding get_found
  get_of (err e) config uuid now st = (err (get_error e), st)
  get_of (ok s) config uuid now st = get_found (refusal config s (unix now)) s uuid st

  unfoldable pub get_session : AuthConfig → String → ℕ → State → Result SessionError Session × State
  unfolding get_of
  get_session config uuid now st = get_of (store.get_session uuid st) config uuid now st
