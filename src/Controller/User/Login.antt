-- ===== src/Controller/User/Login.antt =====
-- internal/controller/user_controller.go: what a login with a password does to the sessions.
use tinyauth.Base.{
  ℕ, ◌≡◌, refl, ◌⊎◌, inl, inr, String, Bool, true, false, Option, none, some, ◌==◌, eq_iff, arith,
  Bool-cases, Option-cases, Result-cases,
}
use tinyauth.Model.{Session, LocalUser, UserSearch, UserSearchType, user_local, user_ldap}
use tinyauth.Store.{SessionStore}
use tinyauth.Auth.Login.{is_account_locked}
use tinyauth.Auth.Sessions.{Cookie}
use tinyauth.Auth.Users.{get_local_user, search_user, check_user_password}
use tinyauth.Auth.Service.{Services, AuthState}
use tinyauth.Middleware.Trust.{HasPassword}
use tinyauth.Controller.{login_successful, open_session, local_session, ldap_session}
use tinyauth.Controller.Sessions.{SignedIn, open_session-SignedIn}
use tinyauth.Controller.User.{
  finish_login, ask_totp, login_local, login_found, login_searched, login_handler,
}

pub UserSearchType-cases : (t : UserSearchType) → (t ≡ user_local) ⊎ (t ≡ user_ldap)
UserSearchType-cases user_local = inl refl
UserSearchType-cases user_ldap = inr refl

pub username-local_session :
    (svc : Services) (user : LocalUser) (username : String) (pending : Bool)
    → ((local_session svc username user.attributes pending).username ≡ username)
      × ((local_session svc username user.attributes pending).totp_pending ≡ pending)
unfolding local_session
username-local_session svc user username pending = (refl, refl)

module _ (store : SessionStore) where
  open store use {State}

  finish_login-SignedIn :
      (input : Session) (username : String) (svc : Services) (id : Option String) (now : ℕ)
      (st : AuthState State) (cookie : Cookie)
      → input.totp_pending ≡ false
      → input.username ≡ username
      → (finish_login store input username svc id now st).0 ≡ login_successful cookie
      → SignedIn store username id cookie
          (finish_login store input username svc id now st).1.sessions
  unfolding finish_login
  finish_login-SignedIn input username svc id now st cookie whole name h =
      elim (Result-cases (open_session store svc id input now st).0) [
        | inl (c, e) ↦
            let same : c ≡ cookie = ground arith in
            rw (finish_login, e)
              (rw (← name)
                (rw (← same) (open_session-SignedIn store svc id input now st c whole e)))
        | inr (x, e) ↦ absurd (ground arith)
      ]

  login_local-SignedIn :
      (found : Option LocalUser) (username : String) (svc : Services) (id : Option String) (now : ℕ)
      (st : AuthState State) (cookie : Cookie)
      → (login_local store found username svc id now st).0 ≡ login_successful cookie
      → ((user : LocalUser) × (found ≡ some user) × (user.totp_secret ≡ ""))
        × SignedIn store username id cookie
            (login_local store found username svc id now st).1.sessions
  unfolding login_local ask_totp
  login_local-SignedIn none username svc id now st cookie h = absurd (ground arith)
  login_local-SignedIn (some user) username svc id now st cookie h =
      let row = username-local_session svc user username false in
      elim (Bool-cases (user.totp_secret == "")) [
        | inl e ↦ (
          (user, refl, (eq_iff user.totp_secret "").0 e),
          rw (login_local, e)
              (finish_login-SignedIn (local_session svc username user.attributes false) username svc
                id now st cookie row.1 row.0 (ground (arith, e))),
        )
        | inr e ↦
            elim (Result-cases
              (open_session store svc id (local_session svc user.username user.attributes true) now
                st).0) [
                  | inl (c, f) ↦ absurd (ground (arith, e))
                  | inr (x, f) ↦ absurd (ground (arith, e))
                ]
      ]

  login_found-SignedIn :
      (search : UserSearch) (username : String) (svc : Services) (id : Option String) (now : ℕ)
      (st : AuthState State) (cookie : Cookie)
      → (login_found store search username svc id now st).0 ≡ login_successful cookie
      → ((search.search_type ≡ user_ldap)
          ⊎ ((user : LocalUser) × (get_local_user svc.users username ≡ some user)
              × (user.totp_secret ≡ "")))
        × SignedIn store username id cookie
            (login_found store search username svc id now st).1.sessions
  unfolding login_found ldap_session
  login_found-SignedIn search username svc id now st cookie h =
      elim (UserSearchType-cases search.search_type) [
        | inl e ↦
            let (whole, signed) =
              login_local-SignedIn (get_local_user svc.users username) username svc id now st cookie
                (ground (arith, e)) in
            (inr whole, rw (login_found, e) signed)
        | inr e ↦
            let input = ldap_session svc username search.email in
            (
              inl e,
              rw (login_found, e)
                  (finish_login-SignedIn input username svc id now st cookie refl refl
                    (ground (arith, e))),
            )
      ]

  -- A login succeeds only for an account that is not locked, with its password and, if it is
  -- local, no second factor. Then the cookie holds the id of a session of that user in the store,
  -- which no second factor is pending for.
  pub login_handler-SignedIn :
      (username password : String) (svc : Services) (id : Option String) (now : ℕ)
      (st : AuthState State) (cookie : Cookie)
      → (login_handler store (some (username, password)) svc id now st).0 ≡ login_successful cookie
      → HasPassword svc username password now st
        × SignedIn store username id cookie
            (login_handler store (some (username, password)) svc id now st).1.sessions
  unfolding login_handler login_searched
  login_handler-SignedIn username password svc id now st cookie h =
      elim (Bool-cases (is_account_locked svc.config username now st.login).0) [
        | inl k ↦ absurd (ground arith)
        | inr k ↦ elim (Result-cases (search_user svc.users svc.ldap username)) [
          | inr (e, f) ↦ absurd (ground (arith, f, k))
          | inl (search, f) ↦
              elim (Option-cases
                (check_user_password svc.compare svc.users svc.ldap search password)) [
                  | inr (e, a) ↦ absurd (ground arith)
                  | inl a ↦
                      let (whole, signed) =
                        login_found-SignedIn search username svc id now st cookie
                          (ground (arith, k, f)) in
                      (
                        record {
                          unlocked = k;
                          search = search;
                          found = f;
                          accepted = a;
                          no_totp = whole;
                        },
                        rw (login_handler, k, f, login_searched, a) signed,
                      )
                ]
        ]
      ]
