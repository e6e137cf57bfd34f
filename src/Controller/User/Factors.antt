-- ===== src/Controller/User/Factors.antt =====
-- internal/controller/user_controller.go: a password alone never signs in a user with a second
-- factor, and a login that fails leaves the sessions alone.
use tinyauth.Base.{
  ℕ, ◌≡◌, refl, ◌≢◌, ◌⊎◌, inl, inr, String, true, Option, some, ok, ==-ne, arith, Bool-cases,
  Option-cases, Result-cases, sym, ap, ◌∙◌,
}
use tinyauth.Model.{Session, LocalUser, UserSearch, user_local}
use tinyauth.Store.{SessionStore}
use tinyauth.Auth.Login.{is_account_locked}
use tinyauth.Auth.Sessions.{session_row}
use tinyauth.Auth.Users.{get_local_user, check_user_password}
use tinyauth.Auth.Users.Passwords.{search_user-local}
use tinyauth.Auth.Service.{Services, AuthState}
use tinyauth.Controller.{open_session, local_session}
use tinyauth.Controller.Sessions.{open_session_cases}
use tinyauth.Controller.User.{ask_totp, login_local, login_found, login_searched, login_handler}

pending-session_row :
    (svc : Services) (username uuid : String) (user : LocalUser) (now : ℕ)
    → (session_row svc.config
        (local_session svc username user.attributes true)
        uuid
        now).totp_pending
      ≡ true
unfolding session_row local_session
pending-session_row svc username uuid user now = refl

module _ (store : SessionStore) where
  open store use {State}

  -- No session has been added but such that a second factor is pending for.
  abbrev pub OnlyPending : State → State → Type 0
  OnlyPending old new =
      (k : String) (s : Session)
      → store.get_session k new ≡ ok s
      → (s.totp_pending ≡ true) ⊎ (store.get_session k old ≡ ok s)

  ask_totp-OnlyPending :
      (user : LocalUser) (svc : Services) (id : Option String) (now : ℕ) (st : AuthState State)
      → OnlyPending st.sessions (ask_totp store user svc id now st).1.sessions
  unfolding ask_totp
  ask_totp-OnlyPending user svc id now st k s h =
      let input = local_session svc user.username user.attributes true in
      let opened = open_session store svc id input now st in
      let same : (ask_totp store user svc id now st).1.sessions ≡ opened.1.sessions =
        elim (Result-cases opened.0) [
          | inl (c, e) ↦ rw (ask_totp, e) refl
          | inr (x, e) ↦ rw (ask_totp, e) refl
        ] in
      elim (open_session_cases store svc id k input now st) [
        | inl kept ↦ inr (sym kept ∙ (ap (store.get_session k) (sym same) ∙ h))
        | inr (uuid, made) ↦
            inl (ground (arith, h, same, made, pending-session_row svc user.username uuid user now))
      ]

  -- A request for a login by the name of a configured user who has a second factor leaves no
  -- session in the store that was not there before, but such that the second factor is pending.
  pub login_handler-OnlyPending :
      (username password : String) (svc : Services) (id : Option String) (now : ℕ)
      (st : AuthState State) (user : LocalUser)
      → get_local_user svc.users username ≡ some user
      → user.totp_secret ≢ ""
      → OnlyPending st.sessions
          (login_handler store (some (username, password)) svc id now st).1.sessions
  unfolding login_handler login_searched login_found login_local
  login_handler-OnlyPending username password svc id now st user found secret k s h =
      let here = search_user-local svc.users svc.ldap username user found in
      let shut = ==-ne user.totp_secret "" secret in
      elim (Bool-cases (is_account_locked svc.config username now st.login).0) [
        | inl b ↦ inr (ground arith)
        | inr b ↦
            let search : UserSearch = record {
              username = username;
              email = "";
              search_type = user_local;
            } in
            elim (Option-cases
              (check_user_password svc.compare svc.users svc.ldap search password)) [
                | inr (e, a) ↦ inr (ground (arith, b, found, here))
                | inl a ↦
                    ask_totp-OnlyPending user svc id now st k s
                      (ground (arith, b, found, here, a, shut))
              ]
      ]
