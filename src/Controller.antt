-- ===== src/Controller.antt =====
-- internal/controller: what the handlers that log users in and out share.
pub mod Sessions
pub mod User
pub mod Totp
pub mod OAuth
pub mod Oidc
pub mod Context
use tinyauth.Base.{
  ℕ, String, Bool, true, false, not, Option, none, some, Result, ok, err, ◌==◌, if◌then◌else◌,
}
use tinyauth.Base.Int.{ℤ}
use tinyauth.Model.{
  Session, LocalUser, UserAttributes, UserSearchType, user_local, user_ldap, UserSearch,
}
use tinyauth.Model.Context.{
  UserContext, TailscaleContext, Carried, ContextError, context_not_found, new_from_gin,
  totp_pending, get_username, is_some,
}
use tinyauth.Store.{SessionStore}
use tinyauth.Auth.Login.{is_account_locked}
use tinyauth.Auth.Sessions.{Cookie, SessionError, create_session, delete_session}
use tinyauth.Auth.Users.{
  UserFault, user_not_found, get_local_user, search_user, check_user_password,
}
use tinyauth.Auth.Service.{Services, AuthState, display_name, compile_user_email}
use tinyauth.Middleware.{record_attempt}

-- An error of `c.Cookie`.
pub data CookieError : Type 0 where
  no_cookie other_cookie_error : CookieError

-- The JSON answers, with what goes into the headers: a cookie, or the seconds of a lock.
pub data Answer : Type 0 where
  bad_request unauthorized internal_error : Answer
  too_many : ℤ → Answer
  totp_required login_successful : Cookie → Answer
  logout_successful : Option Cookie → Answer

unfoldable pub status : Answer → ℕ
status bad_request = 400
status unauthorized = 401
status internal_error = 500
status (too_many remaining) = 429
status (totp_required cookie) = 200
status (login_successful cookie) = 200
status (logout_successful cookie) = 200

-- A `repository.Session{}` with the fields that a handler fills in.
abbrev pub session_input : String → String → String → String → Bool → Session
session_input username name email provider pending = record {
  uuid = "";
  username = username;
  email = email;
  name = name;
  provider = provider;
  totp_pending = pending;
  oauth_groups = "";
  expiry = 0;
  created_at = 0;
  oauth_name = "";
  oauth_sub = "";
}

abbrev pub or_else : String → String → String
or_else value fallback = if value == "" then fallback else value

-- The session of a local user, by the name that the handler has for it.
unfoldable pub local_session : Services → String → UserAttributes → Bool → Session
local_session svc username attributes pending =
    session_input username (or_else attributes.name (display_name svc username))
      (or_else attributes.email (compile_user_email svc username)) "local" pending

-- The session of an LDAP user, by the name that was typed.
unfoldable pub ldap_session : Services → String → String → Session
ldap_session svc username email =
    session_input username (display_name svc username)
      (or_else email (compile_user_email svc username)) "ldap" false

module _ (store : SessionStore) where
  open store use {State}

  -- `CreateSession` on the state of a request.
  unfoldable pub open_session :
      Services
      → Option String
      → Session
      → ℕ
      → AuthState State
      → Result SessionError Cookie × AuthState State
  open_session svc uuid input now st =
      let (r, sessions) =
        create_session store svc.config svc.runtime (is_some svc.whois) uuid input now
          st.sessions in
      (r, record st { sessions = sessions })

  unfoldable pub close_session : Services → String → ℕ → AuthState State → Cookie × AuthState State
  close_session svc uuid now st =
      let (cookie, sessions) = delete_session store svc.config svc.runtime uuid now st.sessions in
      (cookie, record st { sessions = sessions })
