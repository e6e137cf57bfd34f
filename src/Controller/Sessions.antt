-- ===== src/Controller/Sessions.antt =====
-- internal/controller: what a handler's calls of the session service leave in the store.
use tinyauth.Base.{
  false, arith, Bool-cases, Result-cases, inl, inr, ◌⊎◌, ◌∙◌, ℕ, ◌≡◌, refl, String, eq_refl, Option,
  none, some, ok, err, ◌==◌, if◌then◌else◌,
}
use tinyauth.Model.{Session}
use tinyauth.Model.Context.{is_some}
use tinyauth.Store.{SessionStore, not_found}
use tinyauth.Auth.Sessions.{Cookie, SessionError, session_row, delete_session, create_session}
use tinyauth.Auth.Sessions.Issuing.{get_session-create_session, get_session-create_session_failed}
use tinyauth.Auth.Service.{Services, AuthState}
use tinyauth.Controller.{open_session, close_session}

username-session_row :
    (svc : Services) (input : Session) (uuid : String) (now : ℕ)
    → ((session_row svc.config input uuid now).username ≡ input.username)
      × ((session_row svc.config input uuid now).totp_pending ≡ input.totp_pending)
unfolding session_row
username-session_row svc input uuid now = (refl, refl)

module _ (store : SessionStore) where
  open store use {State}

  pub get_session-open_session :
      (svc : Services) (uuid k : String) (input : Session) (now : ℕ) (st : AuthState State)
      (cookie : Cookie)
      → (open_session store svc (some uuid) input now st).0 ≡ ok cookie
      → (cookie.value ≡ uuid)
        × (store.get_session k (open_session store svc (some uuid) input now st).1.sessions ≡ (
            if uuid == k
            then ok (session_row svc.config input uuid now)
            else store.get_session k st.sessions))
  unfolding open_session
  get_session-open_session svc uuid k input now st cookie h =
      get_session-create_session store svc.config svc.runtime (is_some svc.whois) uuid k input now
        st.sessions cookie h

  pub get_session-open_session_failed :
      (svc : Services) (id : Option String) (k : String) (input : Session) (now : ℕ)
      (st : AuthState State) (e : SessionError)
      → (open_session store svc id input now st).0 ≡ err e
      → store.get_session k (open_session store svc id input now st).1.sessions
        ≡ store.get_session k st.sessions
  unfolding open_session
  get_session-open_session_failed svc id k input now st e h =
      get_session-create_session_failed store svc.config svc.runtime (is_some svc.whois) id k input
        now st.sessions e h

  -- The rest of the state is not the session service's.
  pub login-open_session :
      (svc : Services) (id : Option String) (input : Session) (now : ℕ) (st : AuthState State)
      → (open_session store svc id input now st).1.login ≡ st.login
  unfolding open_session
  login-open_session svc id input now st = refl

  -- What is stored under an id was there before, or it is the new session.
  pub open_session_cases :
      (svc : Services) (id : Option String) (k : String) (input : Session) (now : ℕ)
      (st : AuthState State)
      → (store.get_session k (open_session store svc id input now st).1.sessions
          ≡ store.get_session k st.sessions)
        ⊎ ((uuid : String) × (store.get_session k
                (open_session store svc id input now st).1.sessions
              ≡ ok (session_row svc.config input uuid now)))
  unfolding open_session create_session
  open_session_cases svc none k input now st = inl (ground arith)
  open_session_cases svc (some uuid) k input now st =
      elim (Result-cases (open_session store svc (some uuid) input now st).0) [
        | inr (x, e) ↦ inl (get_session-open_session_failed svc (some uuid) k input now st x e)
        | inl (c, e) ↦
            let held = (get_session-open_session svc uuid k input now st c e).1 in
            elim (Bool-cases (uuid == k)) [
              | inl same ↦ inr (uuid, held ∙ rw same refl)
              | inr other ↦ inl (held ∙ rw other refl)
            ]
      ]

  -- The whole session that a login leaves, under the id in its cookie.
  pub record SignedIn (username : String) (id : Option String) (cookie : Cookie) (sessions : State)
      : Type 0 where
    pub uuid : String
    pub given : id ≡ some uuid
    pub named : cookie.value ≡ uuid
    pub session : Session
    pub held : store.get_session uuid sessions ≡ ok session
    pub owner : session.username ≡ username
    pub complete : session.totp_pending ≡ false

  pub open_session-SignedIn :
      (svc : Services) (id : Option String) (input : Session) (now : ℕ) (st : AuthState State)
      (cookie : Cookie)
      → input.totp_pending ≡ false
      → (open_session store svc id input now st).0 ≡ ok cookie
      → SignedIn input.username id cookie (open_session store svc id input now st).1.sessions
  unfolding open_session create_session
  open_session-SignedIn svc none input now st cookie whole h = absurd (ground arith)
  open_session-SignedIn svc (some uuid) input now st cookie whole h =
      let (named, held) = get_session-open_session svc uuid uuid input now st cookie h in
      let row = username-session_row svc input uuid now in
      record {
        uuid = uuid;
        given = refl;
        named = named;
        session = session_row svc.config input uuid now;
        held = rw held (rw (eq_refl uuid) refl);
        owner = row.0;
        complete = row.1 ∙ whole;
      }

  -- A session that was closed is not found.
  pub get_session-close_session :
      (svc : Services) (uuid k : String) (now : ℕ) (st : AuthState State)
      → (store.delete_session uuid st.sessions).0 ≡ none
      → store.get_session k (close_session store svc uuid now st).1.sessions
        ≡ (if uuid == k then err not_found else store.get_session k st.sessions)
  unfolding close_session delete_session
  get_session-close_session svc uuid k now st gone =
      rw (store.get-delete uuid k st.sessions) (rw gone refl)
