-- ===== src/Proxy.antt =====
-- internal/controller/proxy_controller.go: what a proxy's request asks for. `url.Parse` is the
-- parameter `parse_url`.
pub mod Handler
pub mod Contexts
use tinyauth.Base.{
  ℕ, String, Bool, true, false, not, ◌||◌, List, [], ◌∷◌, Option, none, some, Result, ok, err, ◌==◌,
  if◌then◌else◌,
}
use tinyauth.Base.Lists.{any}
use tinyauth.Text.{trim_space, has_part}
use tinyauth.Model.Context.{Carried}

pub data AuthModuleType : Type 0 where
  auth_request ext_authz forward_auth : AuthModuleType

pub data ProxyType : Type 0 where
  traefik caddy envoy nginx : ProxyType

pub record ProxyContext : Type 0 where
  pub host : String
  pub proto : String
  pub path : String
  pub method : String
  pub type : AuthModuleType
  pub is_browser : Bool
  pub proxy_type : ProxyType

pub record Url : Type 0 where
  pub scheme : String
  pub host : String
  pub path : String

-- A request: `Header.Get`, `Request.Host`, `Request.Method`, the parameter `:proxy`, the query's
-- "path", `ClientIP`, and what the context middleware left.
pub record Request : Type 0 where
  pub header : String → String
  pub host : String
  pub method : String
  pub proxy : String
  pub query_path : String
  pub client_ip : String
  pub user : Carried

pub data ProxyError : Type 0 where
  not_bound : ProxyError
  unsupported_proxy : String → ProxyError
  not_found : String → ProxyError
  invalid_url : ProxyError

unfoldable pub get_header : Request → String → String × Bool
get_header c header = (c.header header, not (trim_space (c.header header) == ""))

unfoldable pub get_proxy_type : String → Result ProxyError ProxyType
get_proxy_type proxy =
    if proxy == "traefik"
    then ok traefik
    else (if proxy == "caddy"
        then ok caddy
        else (if proxy == "envoy"
            then ok envoy
            else (if proxy == "nginx" then ok nginx else err (unsupported_proxy proxy))))

unfoldable pub determine_auth_modules : ProxyType → List AuthModuleType
determine_auth_modules traefik = forward_auth ∷ []
determine_auth_modules caddy = forward_auth ∷ []
determine_auth_modules envoy = ext_authz ∷ forward_auth ∷ []
determine_auth_modules nginx = auth_request ∷ forward_auth ∷ []

-- The fields that `getProxyContext` sets later have Go's zero values.
abbrev start_context : AuthModuleType → String → String → String → String → ProxyContext
start_context type host proto path method = record {
  host = host;
  proto = proto;
  path = path;
  method = method;
  type = type;
  is_browser = false;
  proxy_type = traefik;
}

unfoldable pub get_forward_auth_context : Request → Result ProxyError ProxyContext
unfolding get_header
get_forward_auth_context c =
    let (host, host_ok) = get_header c "x-forwarded-host" in
    let (uri, uri_ok) = get_header c "x-forwarded-uri" in
    let (proto, proto_ok) = get_header c "x-forwarded-proto" in
    if not host_ok
    then err (not_found "x-forwarded-host")
    else (if not uri_ok
        then err (not_found "x-forwarded-uri")
        else (if not proto_ok
            then err (not_found "x-forwarded-proto")
            else ok (start_context forward_auth host proto uri c.method)))

url_context : String → Option Url → Result ProxyError ProxyContext
url_context method none = err invalid_url
url_context method (some url) =
    if trim_space url.host == ""
    then err (not_found "host")
    else (if trim_space url.scheme == ""
        then err (not_found "proto")
        else ok (start_context auth_request url.host url.scheme url.path method))

unfoldable pub get_auth_request_context :
    (String → Option Url) → Request → Result ProxyError ProxyContext
unfolding url_context get_header
get_auth_request_context parse_url c =
    let (original, original_ok) = get_header c "x-original-url" in
    if not original_ok
    then err (not_found "x-original-url")
    else url_context c.method (parse_url original)

unfoldable pub get_ext_authz_context : Request → Result ProxyError ProxyContext
unfolding get_header
get_ext_authz_context c =
    let (proto, proto_ok) = get_header c "x-forwarded-proto" in
    if not proto_ok
    then err (not_found "x-forwarded-proto")
    else (if trim_space c.host == ""
        then err (not_found "host")
        else ok (start_context ext_authz c.host proto c.query_path c.method))

unfoldable pub get_context_from_auth_module :
    (String → Option Url) → Request → AuthModuleType → Result ProxyError ProxyContext
get_context_from_auth_module parse_url c forward_auth = get_forward_auth_context c
get_context_from_auth_module parse_url c ext_authz = get_ext_authz_context c
get_context_from_auth_module parse_url c auth_request = get_auth_request_context parse_url c

-- The loop over the modules: the first context, or the error of the last module.
unfoldable pub first_context :
    (AuthModuleType → Result ProxyError ProxyContext)
    → ProxyError
    → List AuthModuleType
    → Result ProxyError ProxyContext
first_context try_module last [] = err last
first_context try_module last (module_type ∷ modules) = elim (try_module module_type) [
  | ok ctx ↦ ok ctx
  | err e ↦ first_context try_module e modules
]

-- `BrowserUserAgentRegex`: an alternation of five literals.
unfoldable pub is_browser_agent : String → Bool
is_browser_agent agent =
    any (λ word. has_part word agent) ("Chrome" ∷ "Gecko" ∷ "AppleWebKit" ∷ "Opera" ∷ "Edge" ∷ [])

with_browser : Request → ProxyType → Result ProxyError ProxyContext → Result ProxyError ProxyContext
unfolding get_header
with_browser c proxy (err e) = err e
with_browser c proxy (ok ctx) =
    ok (record ctx {
      is_browser = is_browser_agent (get_header c "user-agent").0;
      proxy_type = proxy;
    })

context_of :
    (String → Option Url) → Request → Result ProxyError ProxyType → Result ProxyError ProxyContext
unfolding with_browser
context_of parse_url c (err e) = err e
context_of parse_url c (ok proxy) = with_browser c proxy (
    first_context (get_context_from_auth_module parse_url c) (unsupported_proxy c.proxy)
      (determine_auth_modules proxy))

-- `BindUri` asks for a proxy that is not empty.
unfoldable pub get_proxy_context : (String → Option Url) → Request → Result ProxyError ProxyContext
unfolding context_of
get_proxy_context parse_url c =
    if c.proxy == "" then err not_bound else context_of parse_url c (get_proxy_type c.proxy)

use_browser_at : ProxyType → Bool → Bool
use_browser_at nginx is_browser = false
use_browser_at _ is_browser = is_browser

unfoldable pub use_browser_response : ProxyContext → Bool
unfolding use_browser_at
use_browser_response ctx = use_browser_at ctx.proxy_type ctx.is_browser
