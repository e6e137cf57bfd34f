-- ===== src/Controller/OAuth/Callback.antt =====
-- internal/controller/oauth_controller.go: `oauthCallbackHandler`.
pub mod Laws
use Prim.Native.String.{[], ◌++◌}
use tinyauth.Base.{
  ℕ, String, Bool, true, false, not, List, [], ◌∷◌, Option, none, some, Result, ok, err, ◌==◌,
  if◌then◌else◌,
}
use tinyauth.Base.Int.{negsuc}
use tinyauth.Store.{SessionStore}
use tinyauth.Auth.Sessions.{Cookie}
use tinyauth.Auth.Service.{
  Services, AuthState, OAuthService, OAuthPendingSession, Claims, is_whitelisted,
}
use tinyauth.Auth.Service.Pending.{
  PendingCache, get_oauth_pending_session, get_oauth_token, get_oauth_userinfo, get_oauth_service,
  end_oauth_session,
}
use tinyauth.Controller.{open_session}
use tinyauth.Controller.OAuth.{
  Site, OAuthAnswer, oauth_bad_request, redirected, oauth_cookie, error_url, oauth_session, landing,
}

-- Why the callback ends without a session; `crashed` is a panic.
pub data Denial : Type 0 where
  failed crashed : Denial
  not_whitelisted : String → Denial

by_whitelist : Option Bool → OAuthService → Claims → Result Denial (OAuthService × Claims)
by_whitelist none service user = err crashed
by_whitelist (some true) service user = ok (service, user)
by_whitelist (some false) service user = err (not_whitelisted user.email)

-- From the token on: whom the provider vouches for.
unfoldable pub vouch :
    Services → String → String → ℕ → PendingCache → Result Denial (OAuthService × Claims)
unfolding by_whitelist
vouch svc provider id now cache = elim (get_oauth_userinfo id now cache) [
  | err e ↦ err failed
  | ok none ↦ err failed
  | ok (some user) ↦
      if user.email == "" then err failed else elim (get_oauth_service id now cache) [
        | err e ↦ err failed
        | ok service ↦
            if not (service.id == provider)
            then err failed
            else by_whitelist (is_whitelisted svc service.id user.email) service user
      ]
]

-- The cookie of the pending session is dropped in every redirect after it was read.
abbrev pub dropped : Services → Site → Cookie
dropped svc site = oauth_cookie svc site "" (negsuc 0)

abbrev pub denied : Services → Site → OAuthAnswer
denied svc site = redirected (dropped svc site ∷ []) (error_url site)

denial_answer : Denial → Services → Site → Option OAuthAnswer
denial_answer failed svc site = some (denied svc site)
denial_answer crashed svc site = none
denial_answer (not_whitelisted email) svc site = elim (site.unauthorized_query email) [
  | none ↦ some (denied svc site)
  | some query ↦
      some (redirected (dropped svc site ∷ []) (site.app_url ++ ("/unauthorized?" ++ query)))
]

module _ (store : SessionStore) where
  open store use {State}

  sign_in :
      OAuthPendingSession
      → OAuthService
      → Claims
      → Services
      → Site
      → Option String
      → ℕ
      → AuthState State
      → OAuthAnswer × AuthState State
  sign_in pending service user svc site uuid now st =
      let (r, st') = open_session store svc uuid (oauth_session svc service user) now st in
      elim r [
        | err e ↦ (denied svc site, st')
        | ok cookie ↦ (
          redirected (dropped svc site ∷ cookie ∷ []) (landing site pending.callback_params),
          st',
        )
      ]

  after_token :
      OAuthPendingSession
      → String
      → String
      → Services
      → Site
      → Option String
      → ℕ
      → AuthState State
      → Option OAuthAnswer × AuthState State
  unfolding sign_in denial_answer
  after_token pending provider id svc site uuid now st = elim (vouch svc provider id now st.oauth) [
    | err e ↦ (denial_answer e svc site, st)
    | ok (service, user) ↦
        let (answer, st') = sign_in pending service user svc site uuid now st in (some answer, st')
  ]

  with_pending :
      OAuthPendingSession
      → String
      → String
      → String
      → String
      → Services
      → Site
      → Option String
      → ℕ
      → AuthState State
      → Option OAuthAnswer × AuthState State
  unfolding after_token
  with_pending pending provider id state login_code svc site uuid now st =
      let (r, oauth) = get_oauth_token id login_code now st.oauth in
      let st' : AuthState State = record st { oauth = oauth } in
      let answered : Option OAuthAnswer × AuthState State = elim r [
        | err e ↦ (some (denied svc site), st')
        | ok token ↦ after_token pending provider id svc site uuid now st'
      ] in
      if not (state == pending.state) then (some (denied svc site), st) else answered

  -- The deferred `EndOAuthSession`.
  unfoldable pub end_pending : String → AuthState State → AuthState State
  end_pending id st = record st { oauth = end_oauth_session id st.oauth }

  with_cookie :
      Option String
      → String
      → String
      → String
      → Services
      → Site
      → Option String
      → ℕ
      → AuthState State
      → Option OAuthAnswer × AuthState State
  unfolding with_pending end_pending
  with_cookie none provider state login_code svc site uuid now st =
      (some (redirected [] (error_url site)), st)
  with_cookie (some id) provider state login_code svc site uuid now st =
      elim (get_oauth_pending_session id now st.oauth) [
        | err e ↦ (some (denied svc site), st)
        | ok pending ↦
            let (answer, st') =
              with_pending pending provider id state login_code svc site uuid now st in
            (answer, end_pending id st')
      ]

  -- `oauthCallbackHandler`: the provider in the path, `none` if it cannot be read, the cookie of
  -- the pending session, and the parameters "state" and "code" of the query. The answer `none` is
  -- a panic.
  unfoldable pub oauth_callback_handler :
      Option String
      → Option String
      → String
      → String
      → Services
      → Site
      → Option String
      → ℕ
      → AuthState State
      → Option OAuthAnswer × AuthState State
  unfolding with_cookie
  oauth_callback_handler none cookie state login_code svc site uuid now st =
      (some oauth_bad_request, st)
  oauth_callback_handler (some provider) cookie state login_code svc site uuid now st =
      with_cookie cookie provider state login_code svc site uuid now st
