-- ===== src/Middleware.antt =====
-- internal/middleware/context_middleware.go: who a request is taken to come from.
pub mod Trust
pub mod Cookies
use Prim.Native.String.{[]}
use tinyauth.Base.{
  ℕ, String, Bool, true, false, not, ◌⊎◌, inl, inr, List, [], ◌∷◌, Option, none, some, Result, ok,
  err, ◌==◌, if◌then◌else◌,
}
use tinyauth.Base.Int.{ℤ}
use tinyauth.Base.Lists.{any}
use tinyauth.Text.{has_prefix}
use tinyauth.Model.{
  Session, LocalUser, LdapUser, UserSearchType, user_local, user_ldap, UserSearch, UserAttributes,
}
use tinyauth.Model.Context.{
  ProviderType, provider_local, provider_basic_auth, provider_oauth, provider_ldap,
  provider_tailscale, LocalContext, LdapContext, OAuthContext, UserContext, TailscaleContext,
  empty_context, new_from_session, totp_pending, Carried, absent, foreign, carries,
}
use tinyauth.Store.{SessionStore}
use tinyauth.Auth.Login.{is_account_locked, record_login_attempt}
use tinyauth.Auth.Sessions.{Cookie, SessionError, get_session, refresh_session, delete_session}
use tinyauth.Auth.Users.{UserFault, get_local_user, search_user, check_user_password, get_ldap_user}
use tinyauth.Auth.Service.{
  Services, AuthState, display_name, compile_user_email, get_service, is_whitelisted,
  tailscale_whois,
}

-- What the code reads of a request. `session_cookie` is `none` without the cookie.
pub record Request : Type 0 where
  pub method_path : String
  pub session_cookie : Option String
  pub client_ip : String
  pub basic_auth : Option (String × String)

-- The errors of `cookieAuth` and `basicAuth`; `panicked` is a panic.
pub data Fault : Type 0 where
  session_lost session_not_refreshed : SessionError → Fault
  search_failed password_refused ldap_user_failed : UserFault → Fault
  local_user_missing whois_failed whois_empty not_ldap provider_missing email_refused totp_user
        panicked :
      Fault

-- `headers` of a locked account holds the seconds that remain.
pub record Outcome : Type 0 where
  pub context : Carried
  pub cookie : Option Cookie
  pub locked : Option ℤ

abbrev pub skipped : Outcome
skipped = record { context = absent; cookie = none; locked = none }

abbrev pub skip_prefixes : List String
skip_prefixes =
    "GET /api/context/app" ∷ "GET /api/healthz" ∷ "HEAD /api/healthz" ∷ "GET /api/oauth/url"
    ∷ "GET /api/oauth/callback" ∷ "GET /api/oidc/clients" ∷ "POST /api/oidc/token"
    ∷ "GET /api/oidc/userinfo" ∷ "POST /api/oidc/userinfo" ∷ "GET /resources"
    ∷ "POST /api/user/login" ∷ "GET /.well-known/openid-configuration"
    ∷ "GET /.well-known/jwks.json" ∷ []

unfoldable pub is_ignore_path : String → Bool
is_ignore_path path = any (λ prefix. has_prefix prefix path) skip_prefixes

-- The attributes of a local user, with the blanks filled.
abbrev pub fill_attributes : Services → LocalUser → UserAttributes
fill_attributes svc user = record user.attributes {
  name =
      if user.attributes.name == "" then display_name svc user.username else user.attributes.name;
  email =
      if user.attributes.email == ""
      then compile_user_email svc user.username
      else user.attributes.email;
}

-- The cases of the switch on the provider, up to the refresh.
fill_local : Option LocalUser → Services → LocalContext → UserContext → Result Fault UserContext
fill_local none svc l c = err local_user_missing
fill_local (some user) svc l c =
    ok (record c { local = some (record l { attributes = fill_attributes svc user }) })

fill_tailscale : Option (Option TailscaleContext) → UserContext → Result Fault UserContext
fill_tailscale none c = err whois_failed
fill_tailscale (some none) c = err whois_empty
fill_tailscale (some (some t)) c = ok (record c { tailscale = some t })

-- The email of an LDAP user: what the search found, else a made up one.
abbrev pub ldap_email : Services → String → String → String
ldap_email svc username found = if found == "" then compile_user_email svc username else found

fill_ldap_found :
    Result UserFault LdapUser
    → Services
    → String
    → LdapContext
    → UserContext
    → Result Fault UserContext
fill_ldap_found (err e) svc email l c = err (ldap_user_failed e)
fill_ldap_found (ok user) svc email l c = ok (record c {
  ldap = some (record {
    base = record {
      username = l.base.username;
      name = display_name svc l.base.username;
      email = ldap_email svc l.base.username email;
    };
    groups = user.groups;
  });
})

module _ {State : Type 0} where
  fill_ldap_of :
      Result UserFault UserSearch
      → Services
      → ℕ
      → LdapContext
      → UserContext
      → AuthState State
      → Result Fault UserContext × AuthState State
  unfolding fill_ldap_found
  fill_ldap_of (err e) svc now l c st = (err (search_failed e), st)
  fill_ldap_of (ok search) svc now l c st = elim search.search_type [
    | user_local ↦ (err not_ldap, st)
    | user_ldap ↦
        let (r, groups) = get_ldap_user svc.ldap svc.config search.username now st.groups in
        (fill_ldap_found r svc search.email l c, record st { groups = groups })
  ]

module _ (store : SessionStore) where
  open store use {State}

  drop_session : Services → String → ℕ → AuthState State → AuthState State
  drop_session svc uuid now st = record st {
    sessions = (delete_session store svc.config svc.runtime uuid now st.sessions).1;
  }

  check_oauth :
      Option Bool
      → Services
      → String
      → ℕ
      → UserContext
      → AuthState State
      → Result Fault UserContext × AuthState State
  unfolding drop_session
  check_oauth none svc uuid now c st = (err panicked, st)
  check_oauth (some true) svc uuid now c st = (ok c, st)
  check_oauth (some false) svc uuid now c st = (err email_refused, drop_session svc uuid now st)

  fill_oauth :
      OAuthContext
      → Services
      → String
      → ℕ
      → UserContext
      → AuthState State
      → Result Fault UserContext × AuthState State
  unfolding check_oauth
  fill_oauth o svc uuid now c st = elim (get_service svc o.id) [
    | none ↦ (err provider_missing, st)
    | some service ↦ check_oauth (is_whitelisted svc o.id o.base.email) svc uuid now c st
  ]

  -- A nil pointer is dereferenced in the last case only, which no session leads to.
  fill_at :
      ProviderType
      → Option LocalContext
      → Option LdapContext
      → Option OAuthContext
      → Services
      → String
      → String
      → ℕ
      → UserContext
      → AuthState State
      → Result Fault UserContext × AuthState State
  unfolding fill_local fill_ldap_of fill_tailscale fill_oauth
  fill_at provider_local (some l) _ _ svc uuid ip now c st =
      (fill_local (get_local_user svc.users l.base.username) svc l c, st)
  fill_at provider_tailscale _ _ _ svc uuid ip now c st =
      (fill_tailscale (tailscale_whois svc ip) c, st)
  fill_at provider_ldap _ (some l) _ svc uuid ip now c st =
      fill_ldap_of (search_user svc.users svc.ldap l.base.username) svc now l c st
  fill_at provider_oauth _ _ (some o) svc uuid ip now c st = fill_oauth o svc uuid now c st
  fill_at provider_basic_auth _ _ _ svc uuid ip now c st = (ok c, st)
  fill_at _ _ _ _ svc uuid ip now c st = (err panicked, st)

  fill_context :
      Services
      → String
      → String
      → ℕ
      → UserContext
      → AuthState State
      → Result Fault UserContext × AuthState State
  unfolding fill_at
  fill_context svc uuid ip now c st = fill_at c.provider c.local c.ldap c.oauth svc uuid ip now c st

  refresh_after :
      Result Fault UserContext
      → Services
      → String
      → ℕ
      → AuthState State
      → Result Fault (UserContext × Option Cookie) × AuthState State
  refresh_after (err e) svc uuid now st = (err e, st)
  refresh_after (ok c) svc uuid now st =
      let (r, sessions) = refresh_session store svc.config svc.runtime uuid now st.sessions in
      let st' : AuthState State = record st { sessions = sessions } in
      elim r [ err e ↦ (err (session_not_refreshed e), st') | ok cookie ↦ (ok (c, cookie), st') ]

  cookie_auth_of :
      Result SessionError Session
      → Services
      → String
      → String
      → ℕ
      → AuthState State
      → Result Fault (UserContext × Option Cookie) × AuthState State
  unfolding refresh_after fill_context
  cookie_auth_of (err e) svc uuid ip now st = (err (session_lost e), st)
  cookie_auth_of (ok session) svc uuid ip now st =
      let c = new_from_session session in
      let (filled, st') = fill_context svc uuid ip now c st in
      if totp_pending c then (ok (c, none), st) else refresh_after filled svc uuid now st'

  unfoldable pub cookie_auth :
      Services
      → String
      → String
      → ℕ
      → AuthState State
      → Result Fault (UserContext × Option Cookie) × AuthState State
  unfolding cookie_auth_of
  cookie_auth svc uuid ip now st =
      let (r, sessions) = get_session store svc.config uuid now st.sessions in
      cookie_auth_of r svc uuid ip now (record st { sessions = sessions })

-- What a user who gave the right password is: a context, or a fault.
basic_local : Option LocalUser → Services → Result Fault UserContext
basic_local none svc = err local_user_missing
basic_local (some user) svc =
    if not (user.totp_secret == "")
    then err totp_user
    else ok (record empty_context {
      authenticated = true;
      local = some (record {
        base = record {
          username = user.username;
          name = display_name svc user.username;
          email = compile_user_email svc user.username;
        };
        totp_pending = false;
        attributes = user.attributes;
      });
      provider = provider_local;
    })

basic_ldap : Result UserFault LdapUser → Services → String → String → Result Fault UserContext
basic_ldap (err e) svc username email = err (ldap_user_failed e)
basic_ldap (ok user) svc username email = ok (record empty_context {
  authenticated = true;
  ldap = some (record {
    base = record {
      username = username;
      name = display_name svc username;
      email = ldap_email svc username email;
    };
    groups = user.groups;
  });
  provider = provider_ldap;
})

module _ {State : Type 0} where
  abbrev pub record_attempt : Services → String → Bool → ℕ → AuthState State → AuthState State
  record_attempt svc username success now st = record st {
    login = record_login_attempt svc.config username success now st.login;
  }

  basic_user :
      UserSearch
      → Services
      → String
      → ℕ
      → AuthState State
      → Result Fault UserContext × AuthState State
  unfolding basic_local basic_ldap
  basic_user search svc username now st = elim search.search_type [
    | user_local ↦ (basic_local (get_local_user svc.users username) svc, st)
    | user_ldap ↦
        let (r, groups) = get_ldap_user svc.ldap svc.config username now st.groups in
        (basic_ldap r svc username search.email, record st { groups = groups })
  ]

  check_basic :
      UserSearch
      → Services
      → String
      → String
      → ℕ
      → AuthState State
      → Result Fault UserContext × AuthState State
  unfolding basic_user
  check_basic search svc username password now st =
      elim (check_user_password svc.compare svc.users svc.ldap search password) [
        | some e ↦ (err (password_refused e), record_attempt svc username false now st)
        | none ↦ basic_user search svc username now (record_attempt svc username true now st)
      ]

  -- `ok (inr remaining)`: the account is locked, and the context is a nil pointer.
  unfoldable pub basic_auth :
      Services
      → String
      → String
      → ℕ
      → AuthState State
      → Result Fault (UserContext ⊎ ℤ) × AuthState State
  unfolding check_basic
  basic_auth svc username password now st =
      let (locked, remaining) = is_account_locked svc.config username now st.login in
      let checked : Result Fault UserContext × AuthState State =
        elim (search_user svc.users svc.ldap username) [
          | err e ↦ (err (search_failed e), st)
          | ok search ↦ check_basic search svc username password now st
        ] in
      if locked
      then (ok (inr remaining), st)
      else (elim checked.0 [ err e ↦ err e | ok c ↦ ok (inl c) ], checked.1)

abbrev is_panic : Fault → Bool
is_panic panicked = true
is_panic _ = false

-- What the handler sets on the request.
abbrev pub with_context : UserContext → Option Cookie → Outcome
with_context c cookie = record { context = carries c; cookie = cookie; locked = none }

basic_outcome : Result Fault (UserContext ⊎ ℤ) → Outcome
basic_outcome (err e) = skipped
basic_outcome (ok (inl c)) = with_context c none
basic_outcome (ok (inr remaining)) = record {
  context = foreign;
  cookie = none;
  locked = some remaining;
}

whois_outcome : Option (Option TailscaleContext) → Outcome
whois_outcome (some (some t)) =
    with_context (record empty_context { provider = provider_tailscale; tailscale = some t }) none
whois_outcome _ = skipped

module _ {State : Type 0} where
  without_cookie :
      Option (String × String) → Services → String → ℕ → AuthState State → Outcome × AuthState State
  unfolding basic_outcome whois_outcome
  without_cookie (some (username, password)) svc ip now st =
      let (r, st') = basic_auth svc username password now st in (basic_outcome r, st')
  without_cookie none svc ip now st = (whois_outcome (tailscale_whois svc ip), st)

  after_cookie :
      Result Fault (UserContext × Option Cookie)
      → Option (String × String)
      → Services
      → String
      → ℕ
      → AuthState State
      → Option Outcome × AuthState State
  unfolding without_cookie
  after_cookie (ok (c, cookie)) basic svc ip now st = (some (with_context c cookie), st)
  after_cookie (err e) basic svc ip now st =
      let (o, st') = without_cookie basic svc ip now st in
      if is_panic e then (none, st) else (some o, st')

module _ (store : SessionStore) where
  open store use {State}

  with_session :
      Option String → Request → Services → ℕ → AuthState State → Option Outcome × AuthState State
  unfolding after_cookie without_cookie
  with_session none req svc now st =
      let (o, st') = without_cookie req.basic_auth svc req.client_ip now st in (some o, st')
  with_session (some uuid) req svc now st =
      let (r, st') = cookie_auth store svc uuid req.client_ip now st in
      after_cookie r req.basic_auth svc req.client_ip now st'

  -- `Middleware`. `none` is a panic.
  unfoldable pub middleware :
      Request → Services → ℕ → AuthState State → Option Outcome × AuthState State
  unfolding with_session
  middleware req svc now st =
      if is_ignore_path req.method_path
      then (some skipped, st)
      else with_session req.session_cookie req svc now st
