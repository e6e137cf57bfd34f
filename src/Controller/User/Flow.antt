-- ===== src/Controller/User/Flow.antt =====
-- internal/controller/user_controller.go and internal/middleware/context_middleware.go: a login,
-- and the requests that follow it.
use tinyauth.Base.{
  ℕ, ◌+◌, ◌≤◌, ◌<◌, ◌≡◌, refl, ◌⊎◌, String, true, false, Option, none, some, ok, eq_refl, arith, ap,
  ◌∙◌,
}
use tinyauth.Model.{LocalUser}
use tinyauth.Model.Context.{UserContext, get_base_context, get_username, is_some}
use tinyauth.Store.{SessionStore}
use tinyauth.Auth.{unix}
use tinyauth.Auth.Login.{is_account_locked}
use tinyauth.Auth.Sessions.{Cookie, session_row, refresh_threshold}
use tinyauth.Auth.Sessions.Issuing.{create_session_lem, refresh_session-early, expiry-session_row}
use tinyauth.Auth.Users.{get_local_user}
use tinyauth.Auth.Users.Passwords.{search_user-local, check_user_password-local}
use tinyauth.Auth.Service.{Services, AuthState}
use tinyauth.Middleware.{
  record_attempt, Request, middleware, is_ignore_path, with_context, fill_attributes,
}
use tinyauth.Middleware.Cookies.{local_context, cookie_auth-local, middleware-cookie}
use tinyauth.Controller.{login_successful, open_session, local_session}
use tinyauth.Controller.User.{finish_login, login_local, login_found, login_searched, login_handler}

-- The account can be used: it is a local one without a second factor, it is not locked, and the
-- password fits.
pub record CanSignIn {State : Type 0} (svc : Services) (username password : String) (now : ℕ)
    (st : AuthState State) (user : LocalUser) : Type 0 where
  pub known : get_local_user svc.users username ≡ some user
  pub single : user.totp_secret ≡ ""
  pub fits : svc.compare user.password password ≡ true
  pub unlocked : (is_account_locked svc.config username now st.login).0 ≡ false

module _ (store : SessionStore) where
  open store use {State}

  login_handler-CanSignIn :
      (username password : String) (svc : Services) (id : Option String) (now : ℕ)
      (st : AuthState State) (user : LocalUser) (cookie : Cookie)
      → CanSignIn svc username password now st user
      → let opened =
          open_session store svc id (local_session svc username user.attributes false) now st in
        opened.0 ≡ ok cookie
        → login_handler store (some (username, password)) svc id now st
          ≡ (login_successful cookie, record_attempt svc username true now opened.1)
  unfolding login_handler login_searched login_found login_local finish_login
  login_handler-CanSignIn username password svc id now st user cookie can done =
      let found = search_user-local svc.users svc.ldap username user can.known in
      let fits =
        check_user_password-local svc.compare svc.users svc.ldap username password user can.known
          can.fits in
      rw
        (
          can.unlocked, found, login_searched, fits, login_found, can.known, login_local,
          can.single, finish_login, done,
        )
        refl

  -- After the Unix second 0, a local user without a second factor who gives the right password to
  -- an account that is not locked is signed in, if the store takes the session: until the session's
  -- last stretch, and within the maximum lifetime, every request with the cookie to a path that
  -- the middleware does not skip is authenticated as that user, and changes nothing.
  pub login_handler-middleware :
      (username password : String) (svc : Services) (uuid : String) (now later : ℕ)
      (st : AuthState State) (user : LocalUser) (cookie : Cookie) (req : Request)
      → 0 < unix now
      → CanSignIn svc username password now st user
      → (open_session store svc
          (some uuid)
          (local_session svc username user.attributes false)
          now
          st).0
        ≡ ok cookie
      → is_ignore_path req.method_path ≡ false
      → req.session_cookie ≡ some cookie.value
      → unix later + refresh_threshold svc.config < unix now + svc.config.session_expiry
      → (svc.config.session_max_lifetime ≡ 0)
        ⊎ (unix later ≤ unix now + svc.config.session_max_lifetime)
      → let (answer, st') =
          login_handler store (some (username, password)) svc (some uuid) now st in
        (answer ≡ login_successful cookie)
        × ((c : UserContext) × (middleware store req svc later st'
              ≡ (some (with_context c none), st'))
            × (c.authenticated ≡ true)
            × (get_username c ≡ username))
  unfolding open_session session_row local_session get_username get_base_context
  login_handler-middleware username password svc uuid now later st user cookie req clock can done
        path sent early young =
      let input = local_session svc username user.attributes false in
      let row = session_row svc.config input uuid now in
      let opened = open_session store svc (some uuid) input now st in
      let (same, usable, others) =
        create_session_lem store svc.config svc.runtime (is_some svc.whois) uuid uuid input now
          later st.sessions cookie clock done in
      let made = expiry-session_row svc.config input uuid now in
      let there = usable.1 (ground (arith, early), young) in
      let held : store.get_session uuid opened.1.sessions ≡ ok row =
        rw others (rw (eq_refl uuid) refl) in
      let st' = record_attempt svc username true now opened.1 in
      let waits =
        refresh_session-early store svc.config svc.runtime uuid later opened.1.sessions row held
          (rw made early) in
      let auth =
        cookie_auth-local store svc uuid req.client_ip later st' row user there refl refl can.known
          waits in
      rw (login_handler-CanSignIn username password svc (some uuid) now st user cookie can done) (
        refl,
        (
          local_context row (fill_attributes svc user),
          middleware-cookie store req svc uuid later st' st' _ none path (sent ∙ ap some same) auth,
          refl,
          refl,
        ),
      )
