-- ===== src/Auth/Service.antt =====
-- internal/service/auth_service.go, oauth_service.go, oauth_broker_service.go and
-- tailscale_service.go: what an authentication service holds, for the code that calls several of
-- its methods in one request. A request reads one clock time for all of them.
pub mod Pending
use Prim.Native.String.{◌++◌, [], ◌∷◌}
use tinyauth.Base.{ℕ, String, Bool, List, Option, none, some, Result, ok, err, ◌==◌, if◌then◌else◌}
use tinyauth.Base.Dict.{lookup}
use tinyauth.Model.{LocalUser}
use tinyauth.Model.Context.{TailscaleContext}
use tinyauth.Utils.Filter.{Compile}
use tinyauth.Policy.{PolicyEngine}
use tinyauth.Cache.{CacheStore}
use tinyauth.Auth.{AuthConfig}
use tinyauth.Auth.Login.{LoginState}
use tinyauth.Auth.Sessions.{CookieRuntime}
use tinyauth.Auth.Users.{Ldap, is_email_whitelisted}

-- model.Claims. `groups` is a value of any JSON type: a list keeps its strings.
pub data Groups : Type 0 where
  group_list : List (Option String) → Groups
  group_text : String → Groups
  other_groups : Groups

pub record Claims : Type 0 where
  pub sub : String
  pub name : String
  pub email : String
  pub preferred_username : String
  pub groups : Groups

-- IOAuthService over `oauth2`, whose token is a text here. `none` is an error; a user info that is
-- a nil pointer is `some none`.
pub record OAuthService : Type 0 where
  pub id : String
  pub name : String
  pub get_auth_url : String → String → String
  pub get_token : String → String → Option String
  pub get_userinfo : String → Option (Option Claims)

-- TailscaleWhoisResponse.
pub record Whois : Type 0 where
  pub user_id : String
  pub login_name : String
  pub display_name : String
  pub node_name : String

-- What stays fixed while the program runs: the configuration, the users, the other services, and
-- what the code takes from bcrypt, net/mail and the Unicode tables.
pub record Services : Type 0 where
  pub config : AuthConfig
  pub runtime : CookieRuntime
  pub users : List LocalUser
  pub ldap : Option Ldap
  pub broker : List (String × OAuthService)
  pub oauth_whitelist : List String
  pub provider_whitelists : List (String × List String)
  pub engine : PolicyEngine
  pub compile : Compile
  pub whois : Option (String → Option (Option Whois))
  pub compare : String → String → Bool
  pub is_address : String → Bool
  pub to_upper : String → String
  pub to_lower : String → String

-- OAuthCallbackParams.
pub record CallbackParams : Type 0 where
  pub login_for : String
  pub oidc_ticket : String
  pub oidc_scope : String
  pub oidc_name : String
  pub redirect_uri : String

pub record OAuthPendingSession : Type 0 where
  pub state : String
  pub verifier : String
  pub token : Option String
  pub service : OAuthService
  pub expires_at : ℕ
  pub callback_params : CallbackParams

-- What changes, over the state of a session store.
pub record AuthState (State : Type 0) : Type 0 where
  pub login : LoginState
  pub groups : CacheStore (List String)
  pub oauth : CacheStore OAuthPendingSession
  pub sessions : State

-- `utils.Capitalize`.
unfoldable pub capitalize : (String → String) → String → String
capitalize to_upper [] = []
capitalize to_upper (c ∷ s) = to_upper (c ∷ []) ++ s

-- `utils.CompileUserEmail`.
unfoldable pub compile_user_email : Services → String → String
compile_user_email svc username =
    if svc.is_address username
    then username
    else svc.to_lower username ++ ("@" ++ svc.runtime.cookie_domain)

abbrev pub display_name : Services → String → String
display_name svc username = capitalize svc.to_upper username

-- `OAuthBrokerService.GetService`.
unfoldable pub get_service : Services → String → Option OAuthService
get_service svc name = lookup name svc.broker

-- `IsEmailWhitelisted` of the service; `none` is a panic.
abbrev pub is_whitelisted : Services → String → String → Option Bool
is_whitelisted svc provider email =
    is_email_whitelisted svc.compile svc.engine svc.oauth_whitelist svc.provider_whitelists provider
      email

whois_context : Option (Option Whois) → Option (Option TailscaleContext)
whois_context none = none
whois_context (some none) = some none
whois_context (some (some who)) = some (
    some (record {
      base = record { username = who.node_name; name = who.display_name; email = who.login_name };
      user_id = who.user_id;
    }))

whois_of : Option (String → Option (Option Whois)) → String → Option (Option TailscaleContext)
unfolding whois_context
whois_of none ip = some none
whois_of (some whois) ip = whois_context (whois ip)

-- `tailscaleWhois` of the middleware: `none` is an error, `some none` a peer that is not known.
unfoldable pub tailscale_whois : Services → String → Option (Option TailscaleContext)
unfolding whois_of
tailscale_whois svc ip = whois_of svc.whois ip
