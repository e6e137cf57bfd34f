-- ===== src/Controller/Totp/Laws.antt =====
-- internal/controller/user_controller.go: what a second factor and a logout do to the sessions.
use tinyauth.Base.{
  ℕ, ◌≡◌, inl, inr, String, Bool, true, false, Option, none, some, ok, eq_refl, arith, Bool-cases,
  Option-cases, Result-cases,
}
use tinyauth.Model.{LocalUser}
use tinyauth.Model.Context.{UserContext, Carried, carries, new_from_gin, totp_pending, get_username}
use tinyauth.Store.{SessionStore}
use tinyauth.Auth.Login.{is_account_locked}
use tinyauth.Auth.Sessions.{Cookie}
use tinyauth.Auth.Users.{get_local_user}
use tinyauth.Auth.Service.{Services, AuthState}
use tinyauth.Middleware.{Request, Outcome, middleware, record_attempt}
use tinyauth.Middleware.Trust.{middleware-IsTrusted}
use tinyauth.Controller.{login_successful, open_session, local_session}
use tinyauth.Controller.Sessions.{SignedIn, open_session-SignedIn, get_session-close_session}
use tinyauth.Controller.User.Login.{username-local_session}
use tinyauth.Controller.Totp.{
  close_pending, after_totp, check_totp, totp_with, totp_handler, logout_handler,
}

-- The request carries a user whose second factor is pending, and the code is right for it.
pub record HasCode {State : Type 0} (carried : Carried) (validate : String → String → Bool)
    (totp_code : String) (svc : Services) (now : ℕ) (st : AuthState State) (user : LocalUser)
    : Type 0 where
  pub context : UserContext
  pub known : new_from_gin carried ≡ ok context
  pub pending : totp_pending context ≡ true
  pub unlocked : (is_account_locked svc.config (get_username context) now st.login).0 ≡ false
  pub found : get_local_user svc.users (get_username context) ≡ some user
  pub right : validate totp_code user.totp_secret ≡ true

module _ (store : SessionStore) where
  open store use {State}

  after_totp-SignedIn :
      (user : LocalUser) (username : String) (old : Option String) (svc : Services)
      (id : Option String) (now : ℕ) (st : AuthState State) (cookie : Cookie)
      → (after_totp store user username old svc id now st).0 ≡ login_successful cookie
      → SignedIn store user.username id cookie
          (after_totp store user username old svc id now st).1.sessions
  unfolding after_totp local_session
  after_totp-SignedIn user username old svc id now st cookie h =
      let st1 = record_attempt svc username true now (close_pending store old svc now st) in
      let input = local_session svc user.username user.attributes false in
      let named = username-local_session svc user user.username false in
      elim (Result-cases (open_session store svc id input now st1).0) [
        | inl (c, e) ↦
            let same : c ≡ cookie = ground arith in
            rw (after_totp, e)
              (rw (← named.0)
                (rw (← same) (open_session-SignedIn store svc id input now st1 c named.1 e)))
        | inr (x, e) ↦ absurd (ground arith)
      ]

  -- The second factor is passed only by a request whose context is pending for a local user that is
  -- not locked, with a code that is right for the user's secret. Then the cookie holds the id of a
  -- session of that user in the store, which nothing is pending for.
  pub totp_handler-SignedIn :
      (totp_code : String) (carried : Carried) (validate : String → String → Bool)
      (old : Option String) (svc : Services) (id : Option String) (now : ℕ) (st : AuthState State)
      (cookie : Cookie)
      → (totp_handler store (some totp_code) carried validate old svc id now st).0
        ≡ login_successful cookie
      → (user : LocalUser) × HasCode carried validate totp_code svc now st user
        × SignedIn store user.username id cookie
            (totp_handler store (some totp_code) carried validate old svc id now st).1.sessions
  unfolding totp_handler totp_with check_totp
  totp_handler-SignedIn totp_code carried validate old svc id now st cookie h =
      elim (Result-cases (new_from_gin carried)) [
        | inr (e, f) ↦ absurd (ground (arith, f))
        | inl (c, f) ↦ elim (Bool-cases (totp_pending c)) [
          | inr p ↦ absurd (ground (arith, f))
          | inl p ↦
              elim (Bool-cases (is_account_locked svc.config (get_username c) now st.login).0) [
                | inl k ↦ absurd (ground (arith, f, p))
                | inr k ↦ elim (Option-cases (get_local_user svc.users (get_username c))) [
                  | inl n ↦ absurd (ground (arith, f, p, k))
                  | inr (user, n) ↦ elim (Bool-cases (validate totp_code user.totp_secret)) [
                    | inr v ↦ absurd (ground (arith, f, p, k, n))
                    | inl v ↦ (
                      user,
                      record {
                        context = c;
                        known = f;
                        pending = p;
                        unlocked = k;
                        found = n;
                        right = v;
                      },
                      rw (totp_handler, f, totp_with, p, k, check_totp, n, v)
                          (after_totp-SignedIn user (get_username c) old svc id now st cookie
                            (ground (arith, f, p, k, n, v))),
                    )
                  ]
                ]
              ]
        ]
      ]

  -- After a logout whose deletion the store took, the cookie is worth nothing: a request with it
  -- and without basic authentication is not authenticated, at any time.
  pub logout_handler-middleware :
      (uuid : String) (svc : Services) (now later : ℕ) (st : AuthState State) (req : Request)
      (o : Outcome) (c : UserContext)
      → (store.delete_session uuid st.sessions).0 ≡ none
      → req.session_cookie ≡ some uuid
      → req.basic_auth ≡ none
      → (middleware store req svc later (logout_handler store (ok uuid) svc now st).1).0 ≡ some o
      → o.context ≡ carries c
      → c.authenticated ≡ false
  unfolding logout_handler
  logout_handler-middleware uuid svc now later st req o c gone sent plain h k =
      let st' = (logout_handler store (ok uuid) svc now st).1 in
      elim (Bool-cases c.authenticated) [
        | inr e ↦ e
        | inl e ↦ absurd (elim (middleware-IsTrusted store req svc later st' o c h k e) [
          | inl (other, same, has) ↦
              let missing = get_session-close_session store svc uuid uuid now st gone in
              ground (arith, same, has.held, missing, eq_refl uuid)
          | inr (username, password, basic, has) ↦ ground (arith, basic)
        ])
      ]
