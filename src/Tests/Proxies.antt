-- ===== src/Tests/Proxies.antt =====
-- internal/controller/proxy_controller.go: a request that Traefik forwards.
use tinyauth.Base.{◌≡◌, refl, ◌↔◌, inl, true, false, [], ◌∷◌, none, some, ok, ◌==◌, if◌then◌else◌}
use tinyauth.Text.{trim_space, is_space, has_char, replace_char, has_part}
use tinyauth.Model.{IpConfig}
use tinyauth.Model.Context.{absent}
use tinyauth.Policy.{policy_allow}
use tinyauth.Policy.Apps.{get_access_controls, lookup_static_acls}
use tinyauth.Proxy.{
  Request, ProxyContext, forward_auth, traefik, get_proxy_context, get_proxy_type,
  determine_auth_modules, is_browser_agent, first_context, get_context_from_auth_module,
  get_forward_auth_context,
}
use tinyauth.Proxy.Contexts.{IsAmong, get_proxy_context_lem}
use tinyauth.Proxy.Handler.{Calls, ProxyController, acls_context, proxy_handler}
use tinyauth.Proxy.Handler.Access.{is_accepted, IsPermitted, proxy_handler-is_accepted_iff}
use tinyauth.Proxy.Handler.Unknown.{started, proxy_handler-unknown_iff}
use tinyauth.Policy.Rules.Addresses.{Covers, here}
use tinyauth.Utils.Filter.{check_ip_filter}
use tinyauth.Tests.Policies.{literal, net}

-- The address 10.0.0.1 skips authentication.
abbrev open_config : IpConfig
open_config = record { allow = []; block = []; bypass = "10.0.0.1" ∷ [] }

abbrev calls : Calls
calls = record {
  parse_url = λ s. none;
  unauthorized_values = λ q. some [];
  redirect_values = λ q. some [];
  encode = λ v. "";
  canonical = λ s. s;
  base64 = λ s. s;
  read_file = λ s. none;
}

abbrev controller : ProxyController
controller = record {
  app_url = "https://auth.example.com";
  apps = [];
  labels = none;
  policy_engine = started literal net open_config policy_allow;
}

abbrev request : Request
request = record {
  header = λ name. if name == "user-agent" then "curl" else "wiki";
  host = "auth";
  method = "GET";
  proxy = "traefik";
  query_path = "";
  client_ip = "10.0.0.1";
  user = absent;
}

abbrev forwarded : ProxyContext
forwarded = record {
  host = "wiki";
  proto = "wiki";
  path = "wiki";
  method = "GET";
  type = forward_auth;
  is_browser = false;
  proxy_type = traefik;
}

request-forwarded : get_proxy_context calls.parse_url request ≡ ok forwarded
unfolding get_proxy_context get_proxy_type determine_auth_modules first_context
    get_context_from_auth_module get_forward_auth_context trim_space is_space is_browser_agent
    has_part
request-forwarded = refl

request-unknown : get_access_controls controller.apps controller.labels forwarded.host ≡ ok none
unfolding get_access_controls lookup_static_acls
request-unknown = refl

covered : Covers net "10.0.0.1" open_config.bypass
unfolding check_ip_filter has_char replace_char
covered = let e : check_ip_filter net "10.0.0.1" "10.0.0.1" ≡ ok true = refl in here e

proxy_handler-unknown_iff_example : is_accepted (proxy_handler calls net controller request) ≡ true
proxy_handler-unknown_iff_example =
    (proxy_handler-unknown_iff literal open_config policy_allow calls net controller request
        forwarded refl request-forwarded request-unknown).1
      (inl covered)

proxy_handler-is_accepted_iff_example :
    (is_accepted (proxy_handler calls net controller request) ≡ true)
    ↔ IsPermitted controller.policy_engine
        (acls_context calls net controller request forwarded none)
        absent
proxy_handler-is_accepted_iff_example =
    proxy_handler-is_accepted_iff calls net controller request forwarded none request-forwarded
      request-unknown

get_proxy_context_lem_example :
    (get_proxy_type "traefik" ≡ ok traefik) × IsAmong forward_auth (determine_auth_modules traefik)
get_proxy_context_lem_example =
    let (host, proto, method, proxy, among) =
      get_proxy_context_lem calls.parse_url request forwarded request-forwarded in
    (proxy, among)
