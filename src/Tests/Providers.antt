-- ===== src/Tests/Providers.antt =====
-- internal/controller/oauth_controller.go: carol logs in with an outside provider.
use Prim.Native.String.{◌++◌}
use tinyauth.Base.{
  ◌≡◌, refl, ◌⊎◌, true, [], ◌∷◌, none, some, ok, err, ◌*◌, ◌+◌, ◌==◌, if◌then◌else◌, ltb,
}
use tinyauth.Base.Int.{pos}
use tinyauth.Base.Dict.{lookup, insert, has}
use tinyauth.Store.{SessionStore}
use tinyauth.Store.Memory
use tinyauth.Store.Memory.Sessions.{memory_sessions}
use tinyauth.Auth.{second}
use tinyauth.Auth.Sessions.{session_row, create_session}
use tinyauth.Auth.Service.{
  Services, AuthState, OAuthService, Claims, other_groups, CallbackParams, OAuthPendingSession,
  get_service,
}
use tinyauth.Auth.Service.Pending.{
  pending_session, pending_not_found, get_oauth_pending_session, new_oauth_session, get_oauth_url,
  get_oauth_token, get_oauth_userinfo, get_oauth_service,
}
use tinyauth.Controller.OAuth.{
  Site, oauth_cookie, is_oidc_request, is_redirect_safe, oauth_session, landing, oauth_url_handler,
}
use tinyauth.Controller.OAuth.Redirects.{oauth_url_handler-pending}
use tinyauth.Controller.OAuth.Callback.{dropped, denied, oauth_callback_handler, vouch}
use tinyauth.Controller.OAuth.Callback.Laws.{
  Callback, oauth_callback_handler-Callback, oauth_callback_handler-once,
}
use tinyauth.Tests.Logins.{issued}
use tinyauth.Tests.Web.{services, state}
use tinyauth.Cache.{get_callback, set_callback, put, update_callback}
use tinyauth.Auth.Users.{is_email_whitelisted}
use tinyauth.Policy.{evaluate_func, effect_to_access}
use tinyauth.Utils.Filter.{check_filter}
use tinyauth.Text.{trim_space, is_space, join}
use tinyauth.Controller.{open_session}

abbrev carol : Claims
carol = record {
  sub = "7";
  name = "Carol";
  email = "carol@example.com";
  preferred_username = "carol";
  groups = other_groups;
}

abbrev idp : OAuthService
idp = record {
  id = "idp";
  name = "IdP";
  get_auth_url = λ state verifier. "https://idp.example.com/" ++ state;
  get_token = λ login_code verifier. if login_code == "good" then some "token" else none;
  get_userinfo = λ token. some (some carol);
}

abbrev with_idp : Services
with_idp = record services { broker = ("idp", idp) ∷ [] }

abbrev site : Site
site = record {
  app_url = "https://auth.example.com";
  oauth_session_cookie_name = "tinyauth-oauth";
  parse_url = λ s. none;
  equal_fold = λ s t. s == t;
  unauthorized_query = λ s. some s;
  callback_query = λ p. some p.oidc_ticket;
  redirect_query = λ s. some s;
}

abbrev params : CallbackParams
params = record {
  login_for = "app";
  oidc_ticket = "";
  oidc_scope = "";
  oidc_name = "";
  redirect_uri = "";
}

abbrev carol_pending : OAuthPendingSession
carol_pending = pending_session "s" "v" idp params (2 * second)

abbrev waiting : AuthState (SessionStore.State memory_sessions)
waiting = record state {
  oauth = record {
    cache = ("p-1", record { value = carol_pending; expires_at = some (602 * second) }) ∷ [];
    order = "p-1" ∷ [];
    max_size = 256;
  };
}

oauth_url_handler-pending_example :
    let st' =
      (oauth_url_handler
        (some ("idp", params))
        with_idp
        site
        (some "p-1")
        "s"
        "v"
        (2 * second)
        state).1 in
    (pending : OAuthPendingSession) × (get_oauth_pending_session "p-1" (3 * second) st'.oauth ≡ (
      if ltb (2 * second + 600 * second) (3 * second) then err pending_not_found else ok pending))
    × (get_service with_idp "idp" ≡ some pending.service)
    × ("https://idp.example.com/s" ≡ pending.service.get_auth_url "s" "v")
    × (pending.state ≡ "s")
    × ((is_oidc_request pending.callback_params ≡ true)
        ⊎ ((pending.callback_params.redirect_uri ≡ "")
            ⊎ (is_redirect_safe with_idp site pending.callback_params.redirect_uri ≡ true)))
unfolding oauth_url_handler new_oauth_session get_service lookup get_oauth_url
    get_oauth_pending_session get_callback set_callback put insert has
oauth_url_handler-pending_example =
    oauth_url_handler-pending "idp" params with_idp site (some "p-1") "s" "v" (2 * second)
      (3 * second) state "https://idp.example.com/s" (oauth_cookie with_idp site "p-1" (pos 3600))
      refl

oauth_callback_handler-Callback_example :
    (c : Callback "idp" "p-1" "s" "good" with_idp (5 * second) waiting)
    × ("https://auth.example.com" ≡ landing site c.pending.callback_params)
    × (issued.value ≡ "id-2")
    × (SessionStore.get_session memory_sessions "id-2"
          (oauth_callback_handler memory_sessions
            (some "idp")
            (some "p-1")
            "s"
            "good"
            with_idp
            site
            (some "id-2")
            (5 * second)
            waiting).1.sessions
        ≡ ok (
            session_row with_idp.config
              (oauth_session with_idp c.service c.user)
              "id-2"
              (5 * second)))
unfolding memory_sessions oauth_callback_handler get_oauth_pending_session get_callback lookup
    get_oauth_token update_callback vouch get_oauth_userinfo insert get_oauth_service
    is_email_whitelisted evaluate_func check_filter trim_space is_space join effect_to_access
    open_session create_session Memory.create_session is_oidc_request landing oauth_session
    get_service
oauth_callback_handler-Callback_example =
    oauth_callback_handler-Callback memory_sessions "idp" "p-1" "s" "good" with_idp site "id-2"
      (5 * second) waiting (dropped with_idp site) issued "https://auth.example.com" refl

oauth_callback_handler-once_example :
    let st' =
      (oauth_callback_handler memory_sessions
        (some "idp")
        (some "p-1")
        "s"
        "bad"
        with_idp
        site
        (some "id-2")
        (5 * second)
        waiting).1 in
    oauth_callback_handler memory_sessions
      (some "idp")
      (some "p-1")
      "s"
      "good"
      with_idp
      site
      (some "id-3")
      (6 * second)
      st'
    ≡ (some (denied with_idp site), st')
unfolding get_oauth_pending_session get_callback lookup
oauth_callback_handler-once_example =
    oauth_callback_handler-once memory_sessions "idp" "p-1" "s" "bad" "idp" "s" "good" with_idp site
      (some "id-2") (some "id-3") (5 * second) (6 * second) waiting carol_pending refl
