-- ===== src/Proxy/Handler.antt =====
-- internal/controller/proxy_controller.go: `proxyHandler` and what it answers. The answer `none` is
-- a panic of the handler.
mod Data
pub mod Access
pub mod Unknown
pub use Data.*
use Prim.Native.String.{◌++◌}
use tinyauth.Base.{
  ℕ, String, Bool, true, false, not, ◌&&◌, List, [], ◌∷◌, Option, none, some, Result, ok, err, ◌==◌,
  ◌>>=◌, if◌then◌else◌,
}
use tinyauth.Base.Dict.{insert, delete}
use tinyauth.Text.{split, join, first_of}
use tinyauth.Model.{App}
use tinyauth.Model.Context.{
  UserContext, ContextError, OAuthContext, LdapContext, empty_context, new_from_gin, is_oauth,
  is_ldap, get_username, get_name, get_email,
}
use tinyauth.Utils.Filter.{Net}
use tinyauth.Utils.Headers.{sanitize_header, parse_headers}
use tinyauth.Utils.Secrets.{get_secret, encode_basic_auth}
use tinyauth.Policy.{
  AclContext, PolicyEngine, evaluate, rule_user_allowed, rule_oauth_group, rule_ldap_group,
  rule_auth_enabled, rule_ip_allowed, rule_ip_bypassed,
}
use tinyauth.Policy.Apps.{LabelProvider, get_access_controls}
use tinyauth.Proxy.{Url, Request, ProxyContext, ProxyError, get_proxy_context, use_browser_response}

module _ (calls : Calls) (net : Net) (controller : ProxyController) where
  -- `c.Header`: an empty value takes the header away.
  unfoldable pub set_header : String → String → Headers → Headers
  set_header key value headers =
      if value == ""
      then delete (calls.canonical key) headers
      else insert (calls.canonical key) value headers

  set_all : List (String × String) → Headers → Headers
  unfolding set_header
  set_all [] headers = headers
  set_all ((key, value) ∷ rest) headers = set_all rest (set_header key value headers)

  set_app_headers : App → Headers → Headers
  unfolding set_all set_header
  set_app_headers acls headers =
      let sent = set_all (parse_headers calls.canonical acls.response.headers) headers in
      let auth = acls.response.basic_auth in
      let password = get_secret calls.read_file auth.password auth.password_file in
      if not (auth.username == "") && not (password == "")
      then set_header "Authorization"
          ("Basic " ++ encode_basic_auth calls.base64 auth.username password) sent
      else sent

  unfoldable pub set_headers : Request → Option App → Headers → Headers
  unfolding set_header set_app_headers
  set_headers c none headers = set_header "Authorization" (c.header "Authorization") headers
  set_headers c (some acls) headers =
      set_app_headers acls (set_header "Authorization" (c.header "Authorization") headers)

  -- A redirection for a browser; for any other client a status and the address in a header.
  unfoldable pub answer : ProxyContext → ℕ → String → Response
  unfolding set_header
  answer ctx status url =
      if not (use_browser_response ctx)
      then record { headers = set_header "x-tinyauth-location" url []; reply = json status }
      else record { headers = []; reply = redirect url }

  unfoldable pub handle_error : ProxyContext → Response
  unfolding answer
  handle_error ctx = answer ctx 500 (controller.app_url ++ "/error")

  -- The answer with a page of the frontend and its query; an error if the query has no encoding.
  answer_page : ProxyContext → ℕ → String → Option Values → Response
  unfolding answer handle_error
  answer_page ctx status page none = handle_error ctx
  answer_page ctx status page (some values) =
      answer ctx status (controller.app_url ++ (page ++ calls.encode values))

  -- `queries.Set`.
  set_value : String → String → Option Values → Option Values
  set_value key value none = none
  set_value key value (some values) = some (insert key (value ∷ []) values)

  abbrev resource : ProxyContext → String
  resource ctx = first_of (split b'.' ctx.host)

  abbrev shown_name : UserContext → String
  shown_name user = if is_oauth user then get_email user else get_username user

  unfoldable pub refuse_ip : Request → ProxyContext → Response
  unfolding answer_page
  refuse_ip c ctx = answer_page ctx 403 "/unauthorized?" (
      calls.unauthorized_values
        (record { username = ""; resource = resource ctx; group_err = false; ip = c.client_ip }))

  unfoldable pub refuse_user : ProxyContext → Bool → UserContext → Response
  unfolding answer_page set_value
  refuse_user ctx group_err user = answer_page ctx 403 "/unauthorized?" (
      set_value "username" (shown_name user) (
        calls.unauthorized_values
          (record { username = ""; resource = resource ctx; group_err = group_err; ip = "" })))

  unfoldable pub ask_login : ProxyContext → Response
  unfolding answer_page
  ask_login ctx = answer_page ctx 401 "/login?" (
      calls.redirect_values (record {
        redirect_uri = ctx.proto ++ ("://" ++ (ctx.host ++ ctx.path));
        login_for = "app";
      }))

  ldap_headers : Option LdapContext → Headers → Option Headers
  unfolding set_header
  ldap_headers none headers = none
  ldap_headers (some ldap) headers =
      some (set_header "Remote-Groups" (sanitize_header (join "," ldap.groups)) headers)

  oauth_headers : Option OAuthContext → Headers → Option Headers
  unfolding set_header
  oauth_headers none headers = none
  oauth_headers (some oauth) headers = some (
      set_header "Remote-Sub" (sanitize_header oauth.sub)
        (set_header "Remote-Groups" (sanitize_header (join "," oauth.groups)) headers))

  -- The headers on the user; `none` where the LDAP or OAuth context is nil.
  unfoldable pub remote_headers : UserContext → Option Headers
  unfolding set_header ldap_headers oauth_headers
  remote_headers user = do
    let named = set_header "Remote-Email" (sanitize_header (get_email user)) (
        set_header "Remote-Name" (sanitize_header (get_name user))
          (set_header "Remote-User" (sanitize_header (get_username user)) []))
    with_ldap ← if is_ldap user then ldap_headers user.ldap named else some named
    if is_oauth user then oauth_headers user.oauth with_ldap else some with_ldap

  abbrev accept : Request → Option App → Headers → Response
  accept c acls headers = record { headers = set_headers c acls headers; reply = json 200 }

  -- `groupOK`, and true for a user without groups.
  unfoldable pub group_ok : AclContext → UserContext → Option Bool
  group_ok acls_ctx user =
      if is_oauth user
      then evaluate controller.policy_engine rule_oauth_group acls_ctx
      else (if is_ldap user
          then evaluate controller.policy_engine rule_ldap_group acls_ctx
          else some true)

  check_user : Request → ProxyContext → Option App → AclContext → UserContext → Option Response
  unfolding group_ok
  check_user c ctx acls acls_ctx user =
      evaluate controller.policy_engine rule_user_allowed acls_ctx >>= (λ user_allowed.
        if not user_allowed
        then some (refuse_user ctx false user)
        else (group_ok acls_ctx user >>= (λ ok_group.
            if not ok_group
            then some (refuse_user ctx true user)
            else (remote_headers user >>= (λ headers. some (accept c acls headers))))))

  -- A request without a usable context is not authenticated.
  abbrev pub user_or_nobody : Result ContextError UserContext → UserContext
  user_or_nobody (ok user) = user
  user_or_nobody (err e) = empty_context

  check_login : Request → ProxyContext → Option App → AclContext → Option Response
  unfolding check_user
  check_login c ctx acls acls_ctx =
      let user = user_or_nobody (new_from_gin c.user) in
      if user.authenticated
      then check_user c ctx acls (record acls_ctx { user_context = some user }) user
      else some (ask_login ctx)

  check_access : Request → ProxyContext → Option App → AclContext → Option Response
  unfolding check_login
  check_access c ctx acls acls_ctx =
      evaluate controller.policy_engine rule_ip_bypassed acls_ctx >>= (λ bypassed.
        if bypassed
        then some (accept c acls [])
        else (evaluate controller.policy_engine rule_auth_enabled acls_ctx >>= (λ disabled.
            if disabled
            then some (accept c acls [])
            else (evaluate controller.policy_engine rule_ip_allowed acls_ctx >>= (λ ip_allowed.
                if not ip_allowed
                then some (refuse_ip c ctx)
                else check_login c ctx acls acls_ctx)))))

  abbrev pub acls_context : Request → ProxyContext → Option App → AclContext
  acls_context c ctx acls = record {
    acls = acls;
    user_context = none;
    ip = net.parse_ip c.client_ip;
    path = ctx.path;
  }

  handle_acls : Request → ProxyContext → Result String (Option App) → Option Response
  unfolding check_access
  handle_acls c ctx (err e) = some (handle_error ctx)
  handle_acls c ctx (ok acls) = check_access c ctx acls (acls_context c ctx acls)

  handle_context : Request → Result ProxyError ProxyContext → Option Response
  unfolding handle_acls
  handle_context c (err e) = some (record { headers = []; reply = json 400 })
  handle_context c (ok ctx) =
      handle_acls c ctx (get_access_controls controller.apps controller.labels ctx.host)

  unfoldable pub proxy_handler : Request → Option Response
  unfolding handle_context
  proxy_handler c = handle_context c (get_proxy_context calls.parse_url c)
