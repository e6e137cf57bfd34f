-- ===== src/Controller/OAuth/Redirects.antt =====
-- internal/controller/oauth_controller.go: where an OAuth login may lead.
use Prim.Native.String.{◌++◌}
use tinyauth.Base.{
  ℕ, ◌+◌, ◌*◌, ◌≡◌, refl, ◌≢◌, ◌↔◌, ◌⊎◌, inl, inr, String, true, Option, none, some, ok, err,
  eq_iff, if◌then◌else◌, arith, ltb, Bool-cases, Option-cases, Result-cases, ==-ne,
}
use tinyauth.Text.{has_suffix}
use tinyauth.Auth.{second}
use tinyauth.Auth.Sessions.{Cookie}
use tinyauth.Cache.Lookup.{get_callback-set_callback_self}
use tinyauth.Cache.{get_callback, set_callback}
use tinyauth.Auth.Service.{
  Services, AuthState, OAuthService, CallbackParams, OAuthPendingSession, get_service,
}
use tinyauth.Auth.Service.Pending.{
  PendingCache, pending_not_found, pending_session, new_session_of, new_oauth_session,
  get_oauth_url, get_oauth_pending_session,
}
use tinyauth.Controller.OAuth.{
  Url, Site, is_oidc_request, effective_port, safe_url, is_redirect_safe, kept_params, oauth_url,
  url_answer, oauth_url_handler,
}

-- The address is on the app's own host, or on a subdomain of the cookies' domain if those are
-- enabled, by the same scheme and port.
pub record IsSafe (svc : Services) (site : Site) (u au : Url) : Type 0 where
  pub scheme : u.scheme ≢ ""
  pub host : u.host ≢ ""
  pub same_scheme : u.scheme ≡ au.scheme
  pub same_port : effective_port u ≡ effective_port au
  pub near :
      (site.equal_fold u.hostname au.hostname ≡ true)
      ⊎ ((svc.config.subdomains_enabled ≡ true)
          × (has_suffix ("." ++ svc.to_lower svc.runtime.cookie_domain) (svc.to_lower u.hostname)
              ≡ true))

safe_url_iff :
    (svc : Services) (site : Site) (u au : Url)
    → (safe_url svc site u au ≡ true) ↔ IsSafe svc site u au
unfolding safe_url
safe_url_iff svc site u au = (
  λ h. record {
    scheme = λ e. ground (arith, eq_iff u.scheme "");
    host = λ e. ground (arith, eq_iff u.host "");
    same_scheme = ground (arith, eq_iff u.scheme au.scheme);
    same_port = ground (arith, eq_iff (effective_port u) (effective_port au));
    near = ground arith;
  },
  λ s.
      let a = ==-ne u.scheme "" s.scheme in
      let b = ==-ne u.host "" s.host in
      let c = (eq_iff u.scheme au.scheme).1 s.same_scheme in
      let d = (eq_iff (effective_port u) (effective_port au)).1 s.same_port in
      ground (arith, s.near, a, b, c, d),
)

-- A redirect is accepted exactly if its address and the app's can be parsed, it has a scheme and a
-- host, scheme and port are the app's, and so is the host name but for letter case, or subdomains
-- are enabled and the host name is one of the cookies' domain.
pub is_redirect_safe_iff :
    (svc : Services) (site : Site) (uri : String)
    → (is_redirect_safe svc site uri ≡ true) ↔ (
        (u : Url) × (au : Url) × (site.parse_url uri ≡ some u)
        × (site.parse_url site.app_url ≡ some au)
        × IsSafe svc site u au)
unfolding is_redirect_safe
is_redirect_safe_iff svc site uri = (
  λ h. elim (Option-cases (site.parse_url uri)) [
    | inl e ↦ absurd (ground arith)
    | inr (u, e) ↦ elim (Option-cases (site.parse_url site.app_url)) [
      | inl f ↦ absurd (ground arith)
      | inr (au, f) ↦ (u, au, e, f, (safe_url_iff svc site u au).0 (ground arith))
    ]
  ],
  λ (u, au, e, f, s). rw (is_redirect_safe, e, f) ((safe_url_iff svc site u au).1 s),
)

kept_params-IsKept :
    (svc : Services) (site : Site) (params : CallbackParams)
    → let kept = kept_params svc site params in
      (is_oidc_request kept ≡ true)
      ⊎ ((kept.redirect_uri ≡ "") ⊎ (is_redirect_safe svc site kept.redirect_uri ≡ true))
unfolding kept_params
kept_params-IsKept svc site params = elim (Bool-cases (is_oidc_request params)) [
  | inl o ↦ rw o (inl o)
  | inr o ↦ elim (Bool-cases (is_redirect_safe svc site params.redirect_uri)) [
    | inl s ↦ rw (o, s) (inr (inr s))
    | inr s ↦ rw (o, s) (inr (inl refl))
  ]
]

new_oauth_session-ok :
    (svc : Services) (id : Option String) (state verifier name : String) (params : CallbackParams)
    (now : ℕ) (cache : PendingCache) (key : String)
    → (new_oauth_session svc id state verifier name params now cache).0 ≡ ok key
    → (service : OAuthService) × (get_service svc name ≡ some service)
      × ((new_oauth_session svc id state verifier name params now cache).1
          ≡ set_callback key
              (pending_session state verifier service params now)
              (600 * second)
              now
              cache)
unfolding new_oauth_session new_session_of
new_oauth_session-ok svc id state verifier name params now cache key h =
    elim (Option-cases (get_service svc name)) [
      | inl e ↦ absurd (ground (arith, e))
      | inr (service, e) ↦ elim (Option-cases id) [
        | inl f ↦ absurd (ground (arith, e, f))
        | inr (k, f) ↦ (service, e, ground (arith, e, f))
      ]
    ]

module _ {State : Type 0} where
  -- An OAuth login that is given the provider's address has a pending session, by the id in its
  -- cookie, for ten minutes and no longer. The session has the state of the address, the service of
  -- the provider, and leads back to the authorization page, to a safe address or to none.
  pub oauth_url_handler-pending :
      (provider : String) (params : CallbackParams) (svc : Services) (site : Site)
      (id : Option String) (state verifier : String) (now later : ℕ) (st : AuthState State)
      (url : String) (cookie : Cookie)
      → (oauth_url_handler (some (provider, params)) svc site id state verifier now st).0
        ≡ oauth_url url cookie
      → let st' =
          (oauth_url_handler (some (provider, params)) svc site id state verifier now st).1 in
        (pending : OAuthPendingSession) × (get_oauth_pending_session cookie.value later st'.oauth
          ≡ (if ltb (now + 600 * second) later then err pending_not_found else ok pending))
        × (get_service svc provider ≡ some pending.service)
        × (url ≡ pending.service.get_auth_url state verifier)
        × (pending.state ≡ state)
        × ((is_oidc_request pending.callback_params ≡ true)
            ⊎ ((pending.callback_params.redirect_uri ≡ "")
                ⊎ (is_redirect_safe svc site pending.callback_params.redirect_uri ≡ true)))
  unfolding oauth_url_handler url_answer get_oauth_url get_oauth_pending_session
  oauth_url_handler-pending provider params svc site id state verifier now later st url cookie h =
      let kept = kept_params svc site params in
      let made = new_oauth_session svc id state verifier provider kept now st.oauth in
      elim (Result-cases made.0) [
        | inr (e, f) ↦ absurd (ground (arith, f))
        | inl (key, f) ↦
            let (service, g, q) =
              new_oauth_session-ok svc id state verifier provider kept now st.oauth key f in
            let pending = pending_session state verifier service kept now in
            let see : (t : ℕ)
                → get_callback key t made.1
                  ≡ (if ltb (now + 600 * second) t then none else some pending) =
              λ t.
                rw q (get_callback-set_callback_self key pending (600 * second) now t st.oauth) in
            let live : get_callback key now made.1 ≡ some pending = ground (arith, see now) in
            let named : cookie.value ≡ key = ground (arith, h, f, live) in
            let left : (oauth_url_handler (some (provider, params)) svc site id state verifier now
                  st).1.oauth
                ≡ made.1 =
              ground (arith, f, live) in
            (
              pending,
              rw (left, named) (ground (arith, see later)),
              g,
              ground (arith, h, f, live),
              refl,
              kept_params-IsKept svc site params,
            )
      ]
