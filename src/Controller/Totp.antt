-- ===== src/Controller/Totp.antt =====
-- internal/controller/user_controller.go: logout, the second factor and Tailscale login.
pub mod Laws
use tinyauth.Base.{
  ℕ, String, Bool, true, false, not, Option, none, some, Result, ok, err, if◌then◌else◌,
}
use tinyauth.Model.{LocalUser}
use tinyauth.Model.Context.{
  UserContext, TailscaleContext, Carried, ContextError, context_not_found, new_from_gin,
  totp_pending, get_username,
}
use tinyauth.Store.{SessionStore}
use tinyauth.Auth.Login.{is_account_locked}
use tinyauth.Auth.Users.{get_local_user}
use tinyauth.Auth.Service.{Services, AuthState}
use tinyauth.Middleware.{record_attempt}
use tinyauth.Controller.{
  CookieError, no_cookie, other_cookie_error, Answer, bad_request, unauthorized, internal_error,
  too_many, login_successful, logout_successful, session_input, local_session, open_session,
  close_session,
}

module _ (store : SessionStore) where
  open store use {State}

  -- `logoutHandler`, which only logs who it was.
  unfoldable pub logout_handler :
      Result CookieError String → Services → ℕ → AuthState State → Answer × AuthState State
  unfolding close_session
  logout_handler (err no_cookie) svc now st = (logout_successful none, st)
  logout_handler (err other_cookie_error) svc now st = (internal_error, st)
  logout_handler (ok uuid) svc now st =
      let (cookie, st') = close_session store svc uuid now st in
      (logout_successful (some cookie), st')

  -- The pending session is deleted if the request names it, and a whole one is opened.
  close_pending : Option String → Services → ℕ → AuthState State → AuthState State
  unfolding close_session
  close_pending none svc now st = st
  close_pending (some uuid) svc now st = (close_session store svc uuid now st).1

  after_totp :
      LocalUser
      → String
      → Option String
      → Services
      → Option String
      → ℕ
      → AuthState State
      → Answer × AuthState State
  unfolding close_pending
  after_totp user username old svc uuid now st =
      let st1 = record_attempt svc username true now (close_pending old svc now st) in
      let (r, st2) =
        open_session store svc uuid (local_session svc user.username user.attributes false) now
          st1 in
      elim r [ err e ↦ (internal_error, st2) | ok cookie ↦ (login_successful cookie, st2) ]

  check_totp :
      Option LocalUser
      → (String → String → Bool)
      → String
      → String
      → Option String
      → Services
      → Option String
      → ℕ
      → AuthState State
      → Answer × AuthState State
  unfolding after_totp
  check_totp none validate totp_code username old svc uuid now st = (unauthorized, st)
  check_totp (some user) validate totp_code username old svc uuid now st =
      if validate totp_code user.totp_secret
      then after_totp user username old svc uuid now st
      else (unauthorized, record_attempt svc username false now st)

  totp_with :
      Result ContextError UserContext
      → (String → String → Bool)
      → String
      → Option String
      → Services
      → Option String
      → ℕ
      → AuthState State
      → Answer × AuthState State
  unfolding check_totp
  totp_with (err context_not_found) validate totp_code old svc uuid now st = (unauthorized, st)
  totp_with (err _) validate totp_code old svc uuid now st = (internal_error, st)
  totp_with (ok c) validate totp_code old svc uuid now st =
      let username = get_username c in
      let (locked, remaining) = is_account_locked svc.config username now st.login in
      let checked =
        check_totp (get_local_user svc.users username) validate totp_code username old svc uuid now
          st in
      if not (totp_pending c)
      then (unauthorized, st)
      else (if locked then (too_many remaining, st) else checked)

  -- `totpHandler`. `validate` is `totp.Validate` at the time of the request, `old` the cookie.
  unfoldable pub totp_handler :
      Option String
      → Carried
      → (String → String → Bool)
      → Option String
      → Services
      → Option String
      → ℕ
      → AuthState State
      → Answer × AuthState State
  unfolding totp_with
  totp_handler none carried validate old svc uuid now st = (bad_request, st)
  totp_handler (some totp_code) carried validate old svc uuid now st =
      totp_with (new_from_gin carried) validate totp_code old svc uuid now st

  tailscale_with :
      Option TailscaleContext
      → Services
      → Option String
      → ℕ
      → AuthState State
      → Answer × AuthState State
  tailscale_with none svc uuid now st = (unauthorized, st)
  tailscale_with (some t) svc uuid now st =
      let (r, st') =
        open_session store svc uuid
          (session_input t.base.username t.base.name t.base.email "tailscale" false) now st in
      elim r [ err e ↦ (internal_error, st') | ok cookie ↦ (login_successful cookie, st') ]

  -- `tailscaleHandler`.
  unfoldable pub tailscale_handler :
      Carried → Services → Option String → ℕ → AuthState State → Answer × AuthState State
  unfolding tailscale_with
  tailscale_handler carried svc uuid now st = elim (new_from_gin carried) [
    | err e ↦ (unauthorized, st)
    | ok c ↦ tailscale_with c.tailscale svc uuid now st
  ]
