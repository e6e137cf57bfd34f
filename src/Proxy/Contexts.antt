-- ===== src/Proxy/Contexts.antt =====
-- internal/controller/proxy_controller.go: what a proxy context that is found is like.
use tinyauth.Base.{
  String, ◌≡◌, refl, ◌≢◌, inl, inr, Bool, false, List, [], ◌∷◌, Option, none, some, ok, ◌==◌,
  eq_iff, if◌then◌else◌, arith, Result-cases, String-cases, Bool-cases, sym,
}
use tinyauth.Text.{trim_space}
use tinyauth.Proxy.{
  AuthModuleType, auth_request, ext_authz, forward_auth, ProxyType, ProxyContext, Url, Request,
  ProxyError, get_header, get_proxy_type, determine_auth_modules, get_forward_auth_context,
  url_context, get_auth_request_context, get_ext_authz_context, get_context_from_auth_module,
  first_context, with_browser, context_of, unsupported_proxy, get_proxy_context, is_browser_agent,
  use_browser_at, use_browser_response,
}

-- The module stands in the list.
pub data IsAmong (type : AuthModuleType) : List AuthModuleType → Type 0 where
  here : {types : List AuthModuleType} → IsAmong type (type ∷ types)
  there :
      {other : AuthModuleType} {types : List AuthModuleType}
      → IsAmong type types
      → IsAmong type (other ∷ types)

abbrev is_blank : String → Bool
is_blank s = trim_space s == ""

-- A context with a host and a protocol, made by the module from the request.
abbrev IsOf : Request → AuthModuleType → ProxyContext → Type 0
IsOf c type ctx =
    (is_blank ctx.host ≡ false)
    × (is_blank ctx.proto ≡ false)
    × (ctx.method ≡ c.method)
    × (ctx.type ≡ type)

url_context-IsOf :
    (c : Request) (url : Option Url) (ctx : ProxyContext)
    → url_context c.method url ≡ ok ctx
    → IsOf c auth_request ctx
unfolding url_context
url_context-IsOf c none ctx h = absurd (ground arith)
url_context-IsOf c (some url) ctx h = ground arith

get_context-IsOf :
    (parse_url : String → Option Url) (c : Request) (type : AuthModuleType) (ctx : ProxyContext)
    → get_context_from_auth_module parse_url c type ≡ ok ctx
    → IsOf c type ctx
unfolding get_context_from_auth_module get_forward_auth_context get_ext_authz_context
    get_auth_request_context get_header
get_context-IsOf parse_url c forward_auth ctx h = ground arith
get_context-IsOf parse_url c ext_authz ctx h = ground arith
get_context-IsOf parse_url c auth_request ctx h =
    elim (Bool-cases (is_blank (c.header "x-original-url"))) [
      | inl e ↦ absurd (ground arith)
      | inr e ↦ url_context-IsOf c (parse_url (c.header "x-original-url")) ctx (ground arith)
    ]

first_context-IsOf :
    (parse_url : String → Option Url) (c : Request) (last : ProxyError)
    (modules : List AuthModuleType) (ctx : ProxyContext)
    → first_context (get_context_from_auth_module parse_url c) last modules ≡ ok ctx
    → IsOf c ctx.type ctx × IsAmong ctx.type modules
unfolding first_context
first_context-IsOf parse_url c last [] ctx h = absurd (ground arith)
first_context-IsOf parse_url c last (m ∷ ms) ctx h =
    elim (Result-cases (get_context_from_auth_module parse_url c m)) [
      | inl (found, e) ↦
          let same : get_context_from_auth_module parse_url c m ≡ ok ctx = ground arith in
          let (host, proto, method, type) = get_context-IsOf parse_url c m ctx same in
          ((host, proto, method, refl), rw type here)
      | inr (why, e) ↦
          let (of, among) = first_context-IsOf parse_url c why ms ctx (ground arith) in
          (of, there among)
    ]

get_proxy_context_form :
    (parse_url : String → Option Url) (c : Request) (ctx : ProxyContext)
    → get_proxy_context parse_url c ≡ ok ctx
    → (proxy : ProxyType) × (found : ProxyContext) × (get_proxy_type c.proxy ≡ ok proxy)
      × (first_context
            (get_context_from_auth_module parse_url c)
            (unsupported_proxy c.proxy)
            (determine_auth_modules proxy)
          ≡ ok found)
      × (record found { is_browser = is_browser_agent (c.header "user-agent"); proxy_type = proxy }
          ≡ ctx)
unfolding get_proxy_context context_of with_browser get_header
get_proxy_context_form parse_url c ctx h = elim (Bool-cases (c.proxy == "")) [
  | inl e ↦ absurd (ground arith)
  | inr e ↦ elim (Result-cases (get_proxy_type c.proxy)) [
    | inr (why, f) ↦ absurd (ground arith)
    | inl (proxy, f) ↦
        elim (Result-cases (
          first_context (get_context_from_auth_module parse_url c) (unsupported_proxy c.proxy)
            (determine_auth_modules proxy))) [
              | inr (why, g) ↦ absurd (ground arith)
              | inl (found, g) ↦ (proxy, found, f, g, ground arith)
            ]
  ]
]

-- A proxy context that is found has a host and a protocol that are not blank and the request's
-- method; its proxy is the one the path names, and one of that proxy's modules made it.
pub get_proxy_context_lem :
    (parse_url : String → Option Url) (c : Request) (ctx : ProxyContext)
    → get_proxy_context parse_url c ≡ ok ctx
    → (trim_space ctx.host ≢ "")
      × (trim_space ctx.proto ≢ "")
      × (ctx.method ≡ c.method)
      × (get_proxy_type c.proxy ≡ ok ctx.proxy_type)
      × IsAmong ctx.type (determine_auth_modules ctx.proxy_type)
get_proxy_context_lem parse_url c ctx h =
    let (proxy, found, f, g, same) = get_proxy_context_form parse_url c ctx h in
    let ((host, proto, method, type), among) =
      first_context-IsOf parse_url c (unsupported_proxy c.proxy) (determine_auth_modules proxy)
        found g in
    rw (sym same) (
      λ p. absurd (ground (arith, eq_iff (trim_space found.host) "")),
      λ p. absurd (ground (arith, eq_iff (trim_space found.proto) "")),
      method,
      f,
      among,
    )

get_proxy_type-use_browser_at :
    (s : String) (proxy : ProxyType) (b : Bool)
    → get_proxy_type s ≡ ok proxy
    → use_browser_at proxy b ≡ (if s == "nginx" then false else b)
unfolding use_browser_at get_proxy_type
get_proxy_type-use_browser_at s proxy b h = elim (String-cases s "traefik") [
  | inl (e, p) ↦ let n : (s == "nginx") ≡ false = rw p refl in ground arith
  | inr (e, p) ↦ elim (String-cases s "caddy") [
    | inl (f, q) ↦ let n : (s == "nginx") ≡ false = rw q refl in ground arith
    | inr (f, q) ↦ elim (String-cases s "envoy") [
      | inl (g, r) ↦ let n : (s == "nginx") ≡ false = rw r refl in ground arith
      | inr (g, r) ↦ ground arith
    ]
  ]
]

-- A browser is answered with a redirection exactly where the agent names one of five browsers and
-- the proxy is not nginx.
pub use_browser_response_lem :
    (parse_url : String → Option Url) (c : Request) (ctx : ProxyContext)
    → get_proxy_context parse_url c ≡ ok ctx
    → use_browser_response ctx
      ≡ (if c.proxy == "nginx" then false else is_browser_agent (c.header "user-agent"))
unfolding use_browser_response
use_browser_response_lem parse_url c ctx h =
    let (proxy, found, f, g, same) = get_proxy_context_form parse_url c ctx h in
    rw (sym same) (get_proxy_type-use_browser_at c.proxy proxy _ f)
