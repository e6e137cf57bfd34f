-- ===== src/Controller/OAuth.antt =====
-- internal/controller/oauth_controller.go: a login with an OAuth provider, from the address of the
-- provider to the callback.
pub mod Callback
pub mod Redirects
use Prim.Native.String.{[], ◌++◌}
use tinyauth.Base.{
  ℕ, String, Bool, true, false, not, ◌&&◌, ◌||◌, List, [], ◌∷◌, Option, none, some, Result, ok, err,
  ◌==◌, if◌then◌else◌,
}
use tinyauth.Base.Int.{ℤ, pos, negsuc}
use tinyauth.Text.{trim_space, split_n, cut, join, has_suffix}
use tinyauth.Model.{Session}
use tinyauth.Store.{SessionStore}
use tinyauth.Auth.{second}
use tinyauth.Auth.Sessions.{Cookie, get_cookie_domain}
use tinyauth.Auth.Service.{
  Services, AuthState, OAuthService, CallbackParams, OAuthPendingSession, Claims, Groups,
  group_list, group_text, other_groups, display_name, is_whitelisted,
}
use tinyauth.Auth.Service.Pending.{
  OAuthFault, new_oauth_session, get_oauth_url, get_oauth_pending_session, get_oauth_token,
  get_oauth_userinfo, get_oauth_service, end_oauth_session,
}
use tinyauth.Controller.{open_session}

-- A parsed URL, as far as the code looks at it.
pub record Url : Type 0 where
  pub scheme : String
  pub host : String
  pub hostname : String
  pub port : String

-- The configuration, and net/url and go-querystring: `none` is an error.
pub record Site : Type 0 where
  pub app_url : String
  pub oauth_session_cookie_name : String
  pub parse_url : String → Option Url
  pub equal_fold : String → String → Bool
  pub unauthorized_query : String → Option String
  pub callback_query : CallbackParams → Option String
  pub redirect_query : String → Option String

unfoldable pub is_oidc_request : CallbackParams → Bool
is_oidc_request params = params.login_for == "oidc"

unfoldable pub effective_port : Url → String
effective_port u =
    if not (u.port == "") then u.port else (if u.scheme == "https" then "443" else "80")

safe_url : Services → Site → Url → Url → Bool
safe_url svc site u au =
    if u.scheme == "" || u.host == ""
    then false
    else (if not (u.scheme == au.scheme)
        then false
        else (if not (effective_port u == effective_port au)
            then false
            else (if site.equal_fold u.hostname au.hostname
                then true
                else (if not svc.config.subdomains_enabled
                    then false
                    else has_suffix ("." ++ svc.to_lower svc.runtime.cookie_domain)
                        (svc.to_lower u.hostname)))))

-- `isRedirectSafe`. The order in which the two addresses are parsed shows in the log only.
unfoldable pub is_redirect_safe : Services → Site → String → Bool
unfolding safe_url
is_redirect_safe svc site uri = elim (site.parse_url uri) [
  | none ↦ false
  | some u ↦ elim (site.parse_url site.app_url) [ none ↦ false | some au ↦ safe_url svc site u au ]
]

-- The answers: JSON, or a redirect with the cookies that it sets.
pub data OAuthAnswer : Type 0 where
  oauth_bad_request oauth_internal_error : OAuthAnswer
  oauth_url : String → Cookie → OAuthAnswer
  redirected : List Cookie → String → OAuthAnswer

abbrev pub oauth_cookie : Services → Site → String → ℤ → Cookie
oauth_cookie svc site value max_age = record {
  name = site.oauth_session_cookie_name;
  value = value;
  path = "/";
  domain = get_cookie_domain svc.config svc.runtime;
  expires = 0;
  max_age = max_age;
  secure = svc.config.secure_cookie;
  http_only = true;
}

abbrev pub error_url : Site → String
error_url site = site.app_url ++ "/error"

-- The parameters that the session keeps: an unsafe address is dropped.
unfoldable pub kept_params : Services → Site → CallbackParams → CallbackParams
kept_params svc site params =
    if is_oidc_request params
    then params
    else (if is_redirect_safe svc site params.redirect_uri
        then params
        else record params { redirect_uri = "" })

module _ {State : Type 0} where
  url_answer :
      Result OAuthFault String
      → Services
      → Site
      → ℕ
      → AuthState State
      → OAuthAnswer × AuthState State
  url_answer (err e) svc site now st = (oauth_internal_error, st)
  url_answer (ok id) svc site now st = elim (get_oauth_url id now st.oauth) [
    | err e ↦ (oauth_internal_error, st)
    | ok url ↦ (oauth_url url (oauth_cookie svc site id (pos 3600)), st)
  ]

  -- `oauthURLHandler`: the provider and the parameters of the request, `none` if it cannot be read;
  -- the id, state and verifier are random.
  unfoldable pub oauth_url_handler :
      Option (String × CallbackParams)
      → Services
      → Site
      → Option String
      → String
      → String
      → ℕ
      → AuthState State
      → OAuthAnswer × AuthState State
  unfolding url_answer
  oauth_url_handler none svc site id state verifier now st = (oauth_bad_request, st)
  oauth_url_handler (some (provider, params)) svc site id state verifier now st =
      let (r, oauth) =
        new_oauth_session svc id state verifier provider (kept_params svc site params) now
          st.oauth in
      url_answer r svc site now (record st { oauth = oauth })

strings_of : List (Option String) → List String
strings_of [] = []
strings_of (none ∷ items) = strings_of items
strings_of (some s ∷ items) = s ∷ strings_of items

-- `utils.CoalesceToString`.
unfoldable pub coalesce_to_string : Groups → String
unfolding strings_of
coalesce_to_string (group_list items) = join "," (strings_of items)
coalesce_to_string (group_text s) = s
coalesce_to_string other_groups = ""

name_of_email : Services → String → List String → String
name_of_email svc email (local ∷ domain ∷ []) = display_name svc local ++ (" (" ++ (domain ++ ")"))
name_of_email svc email _ = display_name svc email

username_of_email : String × Option String → String
username_of_email (before, none) = before
username_of_email (before, some after) = before ++ ("_" ++ after)

-- The session of a user that a provider vouches for.
unfoldable pub oauth_session : Services → OAuthService → Claims → Session
unfolding name_of_email username_of_email
oauth_session svc service user = record {
  uuid = "";
  username =
      if not (trim_space user.preferred_username == "")
      then user.preferred_username
      else username_of_email (cut b'@' user.email);
  email = user.email;
  name =
      if not (trim_space user.name == "")
      then user.name
      else name_of_email svc user.email (split_n b'@' 2 user.email);
  provider = service.id;
  totp_pending = false;
  oauth_groups = coalesce_to_string user.groups;
  expiry = 0;
  created_at = 0;
  oauth_name = service.name;
  oauth_sub = user.sub;
}

-- Where a query goes, if it could be written.
abbrev with_query : Site → String → Option String → String
with_query site path none = error_url site
with_query site path (some query) = site.app_url ++ (path ++ query)

unfoldable pub landing : Site → CallbackParams → String
landing site params =
    if is_oidc_request params
    then with_query site "/oidc/authorize?" (site.callback_query params)
    else (if not (params.redirect_uri == "")
        then with_query site "/continue?" (site.redirect_query params.redirect_uri)
        else site.app_url)
