-- ===== src/Auth/Service/Pending.antt =====
-- internal/service/auth_service.go: the OAuth sessions between the start of a login and its
-- callback. The random texts are parameters.
use tinyauth.Base.{ℕ, ◌+◌, ◌*◌, String, Option, none, some, Result, ok, err, if◌then◌else◌}
use tinyauth.Auth.{second}
use tinyauth.Cache.{CacheStore, get_callback, set_callback, update_callback, delete_callback}
use tinyauth.Auth.Service.{
  Services, OAuthService, CallbackParams, OAuthPendingSession, Claims, get_service,
}

pub data OAuthFault : Type 0 where
  service_not_found id_failed pending_not_found exchange_failed update_failed token_not_found
        userinfo_failed :
      OAuthFault

abbrev pub PendingCache : Type 0
PendingCache = CacheStore OAuthPendingSession

abbrev pub pending_session :
    String → String → OAuthService → CallbackParams → ℕ → OAuthPendingSession
pending_session state verifier service params now = record {
  state = state;
  verifier = verifier;
  token = none;
  service = service;
  expires_at = now + 3600 * second;
  callback_params = params;
}

unfoldable pub new_session_of :
    Option OAuthService
    → Option String
    → String
    → String
    → CallbackParams
    → ℕ
    → PendingCache
    → Result OAuthFault String × PendingCache
new_session_of none id state verifier params now cache = (err service_not_found, cache)
new_session_of (some service) none state verifier params now cache = (err id_failed, cache)
new_session_of (some service) (some id) state verifier params now cache = (
  ok id,
  set_callback id (pending_session state verifier service params now) (600 * second) now cache,
)

-- The id is `none` where the random source fails.
unfoldable pub new_oauth_session :
    Services
    → Option String
    → String
    → String
    → String
    → CallbackParams
    → ℕ
    → PendingCache
    → Result OAuthFault String × PendingCache
unfolding new_session_of
new_oauth_session svc id state verifier name params now cache =
    new_session_of (get_service svc name) id state verifier params now cache

unfoldable pub get_oauth_pending_session :
    String → ℕ → PendingCache → Result OAuthFault OAuthPendingSession
get_oauth_pending_session id now cache = elim (get_callback id now cache) [
  | none ↦ err pending_not_found
  | some session ↦ ok session
]

unfoldable pub get_oauth_url : String → ℕ → PendingCache → Result OAuthFault String
get_oauth_url id now cache = elim (get_oauth_pending_session id now cache) [
  | err e ↦ err e
  | ok session ↦ ok (session.service.get_auth_url session.state session.verifier)
]

keep_token :
    Option String
    → OAuthPendingSession
    → String
    → ℕ
    → PendingCache
    → Result OAuthFault String × PendingCache
keep_token none session id now cache = (err exchange_failed, cache)
keep_token (some token) session id now cache =
    let (cache', done) = update_callback id (record session { token = some token }) 0 now cache in
    (if done then ok token else err update_failed, cache')

token_of :
    Option OAuthPendingSession
    → String
    → String
    → ℕ
    → PendingCache
    → Result OAuthFault String × PendingCache
unfolding keep_token
token_of none id code now cache = (err pending_not_found, cache)
token_of (some session) id code now cache =
    keep_token (session.service.get_token code session.verifier) session id now cache

unfoldable pub get_oauth_token :
    String → String → ℕ → PendingCache → Result OAuthFault String × PendingCache
unfolding token_of
get_oauth_token id code now cache = token_of (get_callback id now cache) id code now cache

userinfo_of : OAuthPendingSession → Option String → Result OAuthFault (Option Claims)
userinfo_of session none = err token_not_found
userinfo_of session (some token) = elim (session.service.get_userinfo token) [
  | none ↦ err userinfo_failed
  | some claims ↦ ok claims
]

unfoldable pub get_oauth_userinfo : String → ℕ → PendingCache → Result OAuthFault (Option Claims)
unfolding userinfo_of
get_oauth_userinfo id now cache = elim (get_oauth_pending_session id now cache) [
  | err e ↦ err e
  | ok session ↦ userinfo_of session session.token
]

unfoldable pub get_oauth_service : String → ℕ → PendingCache → Result OAuthFault OAuthService
get_oauth_service id now cache = elim (get_oauth_pending_session id now cache) [
  | err e ↦ err e
  | ok session ↦ ok session.service
]

unfoldable pub end_oauth_session : String → PendingCache → PendingCache
end_oauth_session id cache = delete_callback id cache
