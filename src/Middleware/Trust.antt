-- ===== src/Middleware/Trust.antt =====
-- internal/middleware/context_middleware.go: what stands behind an authenticated context.
use tinyauth.Base.{
  ℕ, ◌≡◌, refl, ◌⊎◌, inl, inr, String, true, false, not, Option, none, some, Result, ok, err,
  eq_iff, arith, Bool-cases, Option-cases, Result-cases, sym, ◌∙◌,
}
use tinyauth.Auth.{unix}
use tinyauth.Model.{Session, LocalUser, UserSearch, user_ldap}
use tinyauth.Model.Context.{
  ProviderType, provider_local, provider_basic_auth, provider_oauth, provider_ldap,
  provider_tailscale, UserContext, LocalContext, LdapContext, OAuthContext, new_from_session,
  totp_pending, carries,
}
use tinyauth.Store.{SessionStore}
use tinyauth.Auth.Login.{is_account_locked}
use tinyauth.Auth.Sessions.{Cookie, get_session}
use tinyauth.Auth.Sessions.Laws.{IsCurrent, get_session-held}
use tinyauth.Auth.Users.{get_local_user, search_user, check_user_password}
use tinyauth.Auth.Service.{Services, AuthState}
use tinyauth.Middleware.{
  Fault, is_panic, fill_local, fill_tailscale, fill_ldap_found, fill_ldap_of, check_oauth,
  fill_oauth, fill_at, fill_context, refresh_after, cookie_auth_of, cookie_auth, basic_local,
  basic_user, check_basic, basic_auth, Request, middleware, with_session, after_cookie,
  without_cookie, basic_outcome, whois_outcome, Outcome, is_ignore_path, drop_session,
}

authenticated-new_from_session :
    (s : Session) → (new_from_session s).authenticated ≡ not s.totp_pending
unfolding new_from_session
authenticated-new_from_session s = ground arith

-- The session behind a cookie may be used, and its second factor is not pending.
pub record HasSession (store : SessionStore) (svc : Services) (uuid : String) (now : ℕ)
    (sessions : SessionStore.State store) : Type 0 where
  pub session : Session
  pub held : store.get_session uuid sessions ≡ ok session
  pub current : IsCurrent svc.config session (unix now)
  pub complete : session.totp_pending ≡ false

-- The account is not locked, and its password was given; a local user has no second factor.
pub record HasPassword {State : Type 0} (svc : Services) (username password : String) (now : ℕ)
    (st : AuthState State) : Type 0 where
  pub unlocked : (is_account_locked svc.config username now st.login).0 ≡ false
  pub search : UserSearch
  pub found : search_user svc.users svc.ldap username ≡ ok search
  pub accepted : check_user_password svc.compare svc.users svc.ldap search password ≡ none
  pub no_totp :
      (search.search_type ≡ user_ldap)
      ⊎ ((user : LocalUser) × (get_local_user svc.users username ≡ some user)
          × (user.totp_secret ≡ ""))

module _ (store : SessionStore) where
  open store use {State}

  login-fill_at :
      (p : ProviderType) (l : Option LocalContext) (d : Option LdapContext)
      (o : Option OAuthContext) (svc : Services) (uuid ip : String) (now : ℕ) (c : UserContext)
      (st : AuthState State)
      → (fill_at store p l d o svc uuid ip now c st).1.login ≡ st.login
  unfolding fill_at fill_ldap_of fill_oauth check_oauth drop_session
  login-fill_at provider_local none d o svc uuid ip now c st = refl
  login-fill_at provider_local (some l) d o svc uuid ip now c st = refl
  login-fill_at provider_basic_auth l d o svc uuid ip now c st = refl
  login-fill_at provider_tailscale l d o svc uuid ip now c st = refl
  login-fill_at provider_ldap l none o svc uuid ip now c st = refl
  login-fill_at provider_ldap l (some d) o svc uuid ip now c st = ground arith
  login-fill_at provider_oauth l d none svc uuid ip now c st = refl
  login-fill_at provider_oauth l d (some o) svc uuid ip now c st = ground arith

  authenticated-fill_at :
      (p : ProviderType) (l : Option LocalContext) (d : Option LdapContext)
      (o : Option OAuthContext) (svc : Services) (uuid ip : String) (now : ℕ) (c c' : UserContext)
      (st : AuthState State)
      → (fill_at store p l d o svc uuid ip now c st).0 ≡ ok c'
      → c'.authenticated ≡ c.authenticated
  unfolding fill_at fill_local fill_tailscale fill_ldap_of fill_ldap_found fill_oauth check_oauth
  authenticated-fill_at provider_local none d o svc uuid ip now c c' st h = absurd (ground arith)
  authenticated-fill_at provider_local (some l) d o svc uuid ip now c c' st h = ground arith
  authenticated-fill_at provider_basic_auth l d o svc uuid ip now c c' st h = ground arith
  authenticated-fill_at provider_tailscale l d o svc uuid ip now c c' st h = ground arith
  authenticated-fill_at provider_ldap l none o svc uuid ip now c c' st h = absurd (ground arith)
  authenticated-fill_at provider_ldap l (some d) o svc uuid ip now c c' st h = ground arith
  authenticated-fill_at provider_oauth l d none svc uuid ip now c c' st h = absurd (ground arith)
  authenticated-fill_at provider_oauth l d (some o) svc uuid ip now c c' st h = ground arith

  -- The login attempts are none of the cookie's business.
  login-cookie_auth :
      (svc : Services) (uuid ip : String) (now : ℕ) (st : AuthState State)
      → (cookie_auth store svc uuid ip now st).1.login ≡ st.login
  unfolding cookie_auth cookie_auth_of refresh_after fill_context
  login-cookie_auth svc uuid ip now st =
      elim (Result-cases (get_session store svc.config uuid now st.sessions).0) [
        | inr (e, h) ↦ rw h refl
        | inl (s, h) ↦
            let c = new_from_session s in
            let after : AuthState State = record st {
              sessions = (get_session store svc.config uuid now st.sessions).1;
            } in
            let fill = fill_at store c.provider c.local c.ldap c.oauth svc uuid ip now c after in
            let kept = login-fill_at c.provider c.local c.ldap c.oauth svc uuid ip now c after in
            elim (Bool-cases (totp_pending c)) [
              | inl p ↦ rw (h, p) refl
              | inr p ↦ elim (Result-cases fill.0) [
                | inl (c', f) ↦ rw (h, p, f) (ground (arith, kept))
                | inr (e, f) ↦ rw (h, p, f) kept
              ]
            ]
      ]

  cookie_auth-HasSession :
      (svc : Services) (uuid ip : String) (now : ℕ) (st : AuthState State) (c : UserContext)
      (cookie : Option Cookie)
      → (cookie_auth store svc uuid ip now st).0 ≡ ok (c, cookie)
      → c.authenticated ≡ true
      → HasSession store svc uuid now st.sessions
  unfolding cookie_auth cookie_auth_of refresh_after fill_context
  cookie_auth-HasSession svc uuid ip now st c cookie h t =
      elim (Result-cases (get_session store svc.config uuid now st.sessions).0) [
        | inr (e, g) ↦ absurd (ground (arith, g))
        | inl (s, g) ↦
            let start = new_from_session s in
            let after : AuthState State = record st {
              sessions = (get_session store svc.config uuid now st.sessions).1;
            } in
            let fill =
              fill_at store start.provider start.local start.ldap start.oauth svc uuid ip now start
                after in
            let (held, current) = get_session-held store svc.config uuid now st.sessions s g in
            let made = authenticated-new_from_session s in
            let trust : start.authenticated ≡ true → HasSession store svc uuid now st.sessions =
              λ a. record {
                session = s;
                held = held;
                current = current;
                complete = ground (arith, made);
              } in
            elim (Bool-cases (totp_pending start)) [
              | inl p ↦ trust (ground (arith, g))
              | inr p ↦ elim (Result-cases fill.0) [
                | inl (c', f) ↦ trust (
                    sym (
                      authenticated-fill_at start.provider start.local start.ldap start.oauth svc
                        uuid ip now start c' after f)
                    ∙ ground (arith, g))
                | inr (e, f) ↦ absurd (ground (arith, g))
              ]
            ]
      ]

module _ {State : Type 0} where
  basic_auth-HasPassword :
      (svc : Services) (username password : String) (now : ℕ) (st : AuthState State)
      (c : UserContext)
      → (basic_auth svc username password now st).0 ≡ ok (inl c)
      → HasPassword svc username password now st
  unfolding basic_auth check_basic basic_user basic_local
  basic_auth-HasPassword svc username password now st c h =
      elim (Bool-cases (is_account_locked svc.config username now st.login).0) [
        | inl k ↦ absurd (ground arith)
        | inr k ↦ elim (Result-cases (search_user svc.users svc.ldap username)) [
          | inr (e, f) ↦ absurd (ground arith)
          | inl (search, f) ↦
              elim (Option-cases
                (check_user_password svc.compare svc.users svc.ldap search password)) [
                  | inr (e, a) ↦ absurd (ground arith)
                  | inl a ↦ record {
                    unlocked = k;
                    search = search;
                    found = f;
                    accepted = a;
                    no_totp = elim (Option-cases (get_local_user svc.users username)) [
                      | inl n ↦ inl (ground arith)
                      | inr (user, n) ↦ ground (arith, eq_iff user.totp_secret "")
                    ];
                  }
                ]
        ]
      ]

  without_cookie-HasPassword :
      (basic : Option (String × String)) (svc : Services) (ip : String) (now : ℕ)
      (st : AuthState State) (c : UserContext)
      → (without_cookie basic svc ip now st).0.context ≡ carries c
      → c.authenticated ≡ true
      → (username : String) × (password : String) × (basic ≡ some (username, password))
        × HasPassword svc username password now st
  unfolding without_cookie basic_outcome whois_outcome
  without_cookie-HasPassword (some (username, password)) svc ip now st c h t =
      elim (Result-cases (basic_auth svc username password now st).0) [
        | inl (inl c', e) ↦
            (username, password, refl, basic_auth-HasPassword svc username password now st c' e)
        | inl (inr n, e) ↦ absurd (ground arith)
        | inr (x, e) ↦ absurd (ground arith)
      ]
  without_cookie-HasPassword none svc ip now st c h t = absurd (ground arith)

  without_cookie-kept :
      (basic : Option (String × String)) (svc : Services) (ip : String) (now : ℕ)
      (st st' : AuthState State) (c : UserContext)
      → st'.login ≡ st.login
      → (without_cookie basic svc ip now st').0.context ≡ carries c
      → c.authenticated ≡ true
      → (username : String) × (password : String) × (basic ≡ some (username, password))
        × HasPassword svc username password now st
  without_cookie-kept basic svc ip now st st' c same h t =
      let (username, password, e, p) = without_cookie-HasPassword basic svc ip now st' c h t in
      (
        username,
        password,
        e,
        record {
          unlocked = rw (← same) p.unlocked;
          search = p.search;
          found = p.found;
          accepted = p.accepted;
          no_totp = p.no_totp;
        },
      )

  -- If a cookie does not authenticate, basic authentication is tried.
  after_cookie-IsTrusted :
      (r : Result Fault (UserContext × Option Cookie)) (basic : Option (String × String))
      (svc : Services) (ip : String) (now : ℕ) (st : AuthState State) (o : Outcome)
      (c : UserContext)
      → (after_cookie r basic svc ip now st).0 ≡ some o
      → o.context ≡ carries c
      → ((cookie : Option Cookie) × (r ≡ ok (c, cookie)))
        ⊎ ((without_cookie basic svc ip now st).0.context ≡ carries c)
  unfolding after_cookie
  after_cookie-IsTrusted (ok (c', cookie)) basic svc ip now st o c h k = inl (cookie, ground arith)
  after_cookie-IsTrusted (err e) basic svc ip now st o c h k = elim (Bool-cases (is_panic e)) [
    | inl p ↦ absurd (ground arith)
    | inr p ↦ inr (ground arith)
  ]

-- An authenticated context is set only for a request with the cookie of a session that is stored,
-- current and past its second factor, or with the right name and password, by basic
-- authentication, of an account that is not locked and, if it is local, has no second factor.
pub middleware-IsTrusted :
    (store : SessionStore) (req : Request) (svc : Services) (now : ℕ)
    (st : AuthState (SessionStore.State store)) (o : Outcome) (c : UserContext)
    → (middleware store req svc now st).0 ≡ some o
    → o.context ≡ carries c
    → c.authenticated ≡ true
    → ((uuid : String) × (req.session_cookie ≡ some uuid)
        × HasSession store svc uuid now st.sessions)
      ⊎ ((username : String) × (password : String) × (req.basic_auth ≡ some (username, password))
          × HasPassword svc username password now st)
unfolding middleware with_session
middleware-IsTrusted store req svc now st o c h k t =
    elim (Bool-cases (is_ignore_path req.method_path)) [
      | inl i ↦ absurd (ground arith)
      | inr i ↦ elim (Option-cases req.session_cookie) [
        | inl e ↦ inr (
            without_cookie-HasPassword req.basic_auth svc req.client_ip now st c (ground (arith, i))
              t)
        | inr (uuid, e) ↦
            let tried = cookie_auth store svc uuid req.client_ip now st in
            let same = login-cookie_auth store svc uuid req.client_ip now st in
            elim (after_cookie-IsTrusted tried.0 req.basic_auth svc req.client_ip now tried.1 o c
              (ground (arith, i)) k) [
                | inl (cookie, r) ↦ inl (
                  uuid,
                  e,
                  cookie_auth-HasSession store svc uuid req.client_ip now st c cookie r t,
                )
                | inr r ↦
                    inr (
                      without_cookie-kept req.basic_auth svc req.client_ip now st tried.1 c same r
                        t)
              ]
      ]
    ]
