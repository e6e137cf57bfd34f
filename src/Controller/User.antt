-- ===== src/Controller/User.antt =====
-- internal/controller/user_controller.go: login with a password.
pub mod Login
pub mod Factors
pub mod Flow
use tinyauth.Base.{
  ℕ, String, true, false, not, Option, none, some, Result, ok, err, ◌==◌, if◌then◌else◌,
}
use tinyauth.Model.{Session, LocalUser, user_local, user_ldap, UserSearch}
use tinyauth.Store.{SessionStore}
use tinyauth.Auth.Login.{is_account_locked}
use tinyauth.Auth.Users.{
  UserFault, user_not_found, get_local_user, search_user, check_user_password,
}
use tinyauth.Auth.Service.{Services, AuthState}
use tinyauth.Middleware.{record_attempt}
use tinyauth.Controller.{
  Answer, bad_request, unauthorized, internal_error, too_many, totp_required, login_successful,
  local_session, ldap_session, open_session,
}

module _ (store : SessionStore) where
  open store use {State}

  -- The end of a login: the session, its cookie, and the attempts of the name reset.
  finish_login :
      Session → String → Services → Option String → ℕ → AuthState State → Answer × AuthState State
  finish_login input username svc uuid now st =
      let (r, st') = open_session store svc uuid input now st in
      elim r [
        | err e ↦ (internal_error, st')
        | ok cookie ↦ (login_successful cookie, record_attempt svc username true now st')
      ]

  ask_totp : LocalUser → Services → Option String → ℕ → AuthState State → Answer × AuthState State
  ask_totp user svc uuid now st =
      let (r, st') =
        open_session store svc uuid (local_session svc user.username user.attributes true) now st in
      elim r [ err e ↦ (internal_error, st') | ok cookie ↦ (totp_required cookie, st') ]

  login_local :
      Option LocalUser
      → String
      → Services
      → Option String
      → ℕ
      → AuthState State
      → Answer × AuthState State
  unfolding ask_totp finish_login
  login_local none username svc uuid now st = (unauthorized, st)
  login_local (some user) username svc uuid now st =
      if not (user.totp_secret == "")
      then ask_totp user svc uuid now st
      else finish_login (local_session svc username user.attributes false) username svc uuid now st

  login_found :
      UserSearch
      → String
      → Services
      → Option String
      → ℕ
      → AuthState State
      → Answer × AuthState State
  unfolding login_local finish_login
  login_found search username svc uuid now st = elim search.search_type [
    | user_local ↦ login_local (get_local_user svc.users username) username svc uuid now st
    | user_ldap ↦ finish_login (ldap_session svc username search.email) username svc uuid now st
  ]

  login_searched :
      Result UserFault UserSearch
      → String
      → String
      → Services
      → Option String
      → ℕ
      → AuthState State
      → Answer × AuthState State
  unfolding login_found
  login_searched (err user_not_found) username password svc uuid now st =
      (unauthorized, record_attempt svc username false now st)
  login_searched (err _) username password svc uuid now st = (internal_error, st)
  login_searched (ok search) username password svc uuid now st =
      elim (check_user_password svc.compare svc.users svc.ldap search password) [
        | some e ↦ (unauthorized, record_attempt svc username false now st)
        | none ↦ login_found search username svc uuid now st
      ]

  -- `loginHandler`; the request is `none` if it cannot be read.
  unfoldable pub login_handler :
      Option (String × String)
      → Services
      → Option String
      → ℕ
      → AuthState State
      → Answer × AuthState State
  unfolding login_searched
  login_handler none svc uuid now st = (bad_request, st)
  login_handler (some (username, password)) svc uuid now st =
      let (locked, remaining) = is_account_locked svc.config username now st.login in
      if locked
      then (too_many remaining, st)
      else login_searched (search_user svc.users svc.ldap username) username password svc uuid now
          st
