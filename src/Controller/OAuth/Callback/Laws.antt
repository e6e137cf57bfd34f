-- ===== src/Controller/OAuth/Callback/Laws.antt =====
-- internal/controller/oauth_controller.go: whom a callback signs in, and that it does so once.
use tinyauth.Base.{
  ℕ, ◌≡◌, refl, ◌≢◌, inl, inr, String, Bool, true, false, [], ◌∷◌, Option, none, some, ok, ◌==◌,
  eq_iff, eq_refl, arith, Bool-cases, Option-cases, Result-cases, ap, ◌∙◌,
}
use tinyauth.Store.{SessionStore}
use tinyauth.Auth.Sessions.{Cookie, session_row}
use tinyauth.Auth.Service.{
  Services, AuthState, OAuthService, OAuthPendingSession, Claims, is_whitelisted,
}
use tinyauth.Auth.Service.Pending.{
  PendingCache, get_oauth_pending_session, get_oauth_token, get_oauth_userinfo, get_oauth_service,
  end_oauth_session,
}
use tinyauth.Cache.Lookup.{get_callback-delete_callback}
use tinyauth.Controller.{open_session}
use tinyauth.Controller.Sessions.{get_session-open_session}
use tinyauth.Controller.OAuth.{Site, redirected, oauth_session, landing}
use tinyauth.Controller.OAuth.Callback.{
  Denial, failed, crashed, not_whitelisted, vouch, by_whitelist, denied, denial_answer, sign_in,
  after_token, with_pending, end_pending, with_cookie, oauth_callback_handler,
}

-- The provider of the path knows the user by an email that is let in.
pub record IsVouched (svc : Services) (provider id : String) (now : ℕ) (cache : PendingCache)
    (service : OAuthService) (user : Claims) : Type 0 where
  pub info : get_oauth_userinfo id now cache ≡ ok (some user)
  pub has_email : user.email ≢ ""
  pub from : get_oauth_service id now cache ≡ ok service
  pub same : service.id ≡ provider
  pub allowed : is_whitelisted svc provider user.email ≡ some true

by_whitelist-ok :
    (allowed : Option Bool) (s service : OAuthService) (c user : Claims)
    → by_whitelist allowed s c ≡ ok (service, user)
    → (allowed ≡ some true) × (s ≡ service) × (c ≡ user)
unfolding by_whitelist
by_whitelist-ok none s service c user h = absurd (ground arith)
by_whitelist-ok (some true) s service c user h = (refl, ground arith, ground arith)
by_whitelist-ok (some false) s service c user h = absurd (ground arith)

vouch-IsVouched :
    (svc : Services) (provider id : String) (now : ℕ) (cache : PendingCache)
    (service : OAuthService) (user : Claims)
    → vouch svc provider id now cache ≡ ok (service, user)
    → IsVouched svc provider id now cache service user
unfolding vouch by_whitelist
vouch-IsVouched svc provider id now cache service user h =
    elim (Result-cases (get_oauth_userinfo id now cache)) [
      | inr (e, f) ↦ absurd (ground (arith, f))
      | inl (info, f) ↦ elim (Option-cases info) [
        | inl g ↦ absurd (ground (arith, f))
        | inr (claims, g) ↦ elim (Bool-cases (claims.email == "")) [
          | inl b ↦ absurd (ground (arith, f, g))
          | inr b ↦ elim (Result-cases (get_oauth_service id now cache)) [
            | inr (e, k) ↦ absurd (ground (arith, f, g, b))
            | inl (s, k) ↦ elim (Bool-cases (s.id == provider)) [
              | inr w ↦ absurd (ground (arith, f, g, b, k))
              | inl w ↦
                  let (a, q, r) =
                    by_whitelist-ok (is_whitelisted svc s.id claims.email) s service claims user
                      (ground (arith, h, f, g, b, k, w)) in
                  let named = (eq_iff s.id provider).0 w in
                  rw (← q) (
                    rw (← r) (record {
                      info = f ∙ ap ok g;
                      has_email = λ e. ground (arith, b, eq_iff claims.email "");
                      from = k;
                      same = named;
                      allowed = rw (← named) a;
                    }))
            ]
          ]
        ]
      ]
    ]

module _ {State : Type 0} where
  -- A callback that signs a user in: the pending session that the cookie names, with its state, and
  -- a user that its provider vouches for once the code is exchanged.
  pub record Callback (provider : String) (id state login_code : String) (svc : Services) (now : ℕ)
      (st : AuthState State) : Type 0 where
    pub pending : OAuthPendingSession
    pub held : get_oauth_pending_session id now st.oauth ≡ ok pending
    pub same_state : state ≡ pending.state
    pub token : String
    pub exchanged : (get_oauth_token id login_code now st.oauth).0 ≡ ok token
    pub service : OAuthService
    pub user : Claims
    pub vouched :
        IsVouched svc provider id now (get_oauth_token id login_code now st.oauth).1 service user

denial_answer-single :
    (d : Denial) (svc : Services) (site : Site) (gone cookie : Cookie) (url : String)
    → denial_answer d svc site ≢ some (redirected (gone ∷ cookie ∷ []) url)
unfolding denial_answer
denial_answer-single failed svc site gone cookie url h = ground arith
denial_answer-single crashed svc site gone cookie url h = ground arith
denial_answer-single (not_whitelisted email) svc site gone cookie url h =
    elim (Option-cases (site.unauthorized_query email)) [
      | inl e ↦ ground arith
      | inr (q, e) ↦ ground arith
    ]

module _ (store : SessionStore) where
  open store use {State}

  sign_in-ok :
      (pending : OAuthPendingSession) (service : OAuthService) (user : Claims) (svc : Services)
      (site : Site) (uuid : String) (now : ℕ) (st : AuthState State) (gone cookie : Cookie)
      (url : String)
      → (sign_in store pending service user svc site (some uuid) now st).0
        ≡ redirected (gone ∷ cookie ∷ []) url
      → (url ≡ landing site pending.callback_params)
        × (cookie.value ≡ uuid)
        × (store.get_session uuid
              (sign_in store pending service user svc site (some uuid) now st).1.sessions
            ≡ ok (session_row svc.config (oauth_session svc service user) uuid now))
  unfolding sign_in
  sign_in-ok pending service user svc site uuid now st gone cookie url h =
      let input = oauth_session svc service user in
      elim (Result-cases (open_session store svc (some uuid) input now st).0) [
        | inr (x, e) ↦ absurd (ground arith)
        | inl (c, e) ↦
            let (named, held) = get_session-open_session store svc uuid uuid input now st c e in
            let same : c ≡ cookie = ground arith in
            (ground arith, rw (← same) named, rw (sign_in, e) (held ∙ rw (eq_refl uuid) refl))
      ]

  -- A callback sets a session cookie only if the cookie of the request names a pending session
  -- whose state the provider sent back, the provider takes its code, and vouches for a user by an
  -- email that is let in at the provider of the path. The session behind the new cookie is that
  -- user's, and the redirect leads where the pending session says.
  pub oauth_callback_handler-Callback :
      (provider id state login_code : String) (svc : Services) (site : Site) (uuid : String)
      (now : ℕ) (st : AuthState State) (gone cookie : Cookie) (url : String)
      → (oauth_callback_handler store
          (some provider)
          (some id)
          state
          login_code
          svc
          site
          (some uuid)
          now
          st).0
        ≡ some (redirected (gone ∷ cookie ∷ []) url)
      → (c : Callback provider id state login_code svc now st) × (url
          ≡ landing site c.pending.callback_params)
        × (cookie.value ≡ uuid)
        × (store.get_session uuid
              (oauth_callback_handler store
                (some provider)
                (some id)
                state
                login_code
                svc
                site
                (some uuid)
                now
                st).1.sessions
            ≡ ok (session_row svc.config (oauth_session svc c.service c.user) uuid now))
  unfolding oauth_callback_handler with_cookie with_pending after_token end_pending
  oauth_callback_handler-Callback provider id state login_code svc site uuid now st gone cookie url
        h =
      elim (Result-cases (get_oauth_pending_session id now st.oauth)) [
        | inr (e, f) ↦ absurd (ground (arith, f))
        | inl (pending, f) ↦ elim (Bool-cases (state == pending.state)) [
          | inr b ↦ absurd (ground (arith, f))
          | inl b ↦
              let exchange = get_oauth_token id login_code now st.oauth in
              elim (Result-cases exchange.0) [
                | inr (e, g) ↦ absurd (ground (arith, f, b))
                | inl (token, g) ↦
                    let st1 : AuthState State = record st { oauth = exchange.1 } in
                    elim (Result-cases (vouch svc provider id now exchange.1)) [
                      | inr (d, v) ↦ absurd (
                          denial_answer-single d svc site gone cookie url
                            (ground (arith, f, b, g, v)))
                      | inl ((service, user), v) ↦
                          let (a, c, d) =
                            sign_in-ok pending service user svc site uuid now st1 gone cookie url
                              (ground (arith, f, b, g, v)) in
                          (
                            record {
                              pending = pending;
                              held = f;
                              same_state = (eq_iff state pending.state).0 b;
                              token = token;
                              exchanged = g;
                              service = service;
                              user = user;
                              vouched =
                                  vouch-IsVouched svc provider id now exchange.1 service user v;
                            },
                            a,
                            c,
                            rw
                                (
                                  oauth_callback_handler, with_cookie, f, with_pending, b, g,
                                  after_token, v,
                                )
                                d,
                          )
                    ]
              ]
        ]
      ]

  -- A pending session serves one callback, however that ends: the next one with the cookie finds
  -- nothing, is sent to the error page, and changes nothing.
  pub oauth_callback_handler-once :
      (provider id state login_code provider' state' login_code' : String) (svc : Services)
      (site : Site) (uuid uuid' : Option String) (now later : ℕ) (st : AuthState State)
      (pending : OAuthPendingSession)
      → get_oauth_pending_session id now st.oauth ≡ ok pending
      → let st' =
          (oauth_callback_handler store
            (some provider)
            (some id)
            state
            login_code
            svc
            site
            uuid
            now
            st).1 in
        oauth_callback_handler store
          (some provider')
          (some id)
          state'
          login_code'
          svc
          site
          uuid'
          later
          st'
        ≡ (some (denied svc site), st')
  unfolding oauth_callback_handler with_cookie end_pending end_oauth_session
      get_oauth_pending_session
  oauth_callback_handler-once provider id state login_code provider' state' login_code' svc site
        uuid uuid' now later st pending f =
      let gone =
        get_callback-delete_callback id id later
          (with_pending store pending provider id state login_code svc site uuid now st).1.oauth in
      ground (arith, f, gone, eq_refl id)
