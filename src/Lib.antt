-- ===== src/Lib.antt =====
-- Tinyauth, an authentication server that a reverse proxy asks about each request: models of its
-- own logic and their theorems. Paths are from the root of the repository.
--
-- The parts and how they interact:
--
-- A proxy sends each request to the proxy controller (internal/controller/proxy_controller.go). It
-- finds out what was asked for, fetches the access controls of the host
-- (internal/service/access_controls_service.go) from the configuration or from the labels of a
-- provider (docker_service.go, kubernetes_service.go), puts them before the rules of the policy
-- engine (internal/service/policy_engine.go, access_controls_rules.go, registered by
-- internal/bootstrap), and answers with a status or a redirection. The user comes from a context
-- (internal/model/context.go) that the middleware (internal/middleware/context_middleware.go) makes
-- from a login session, from basic authentication or from a Tailscale address. The user, OAuth and
-- OIDC controllers (internal/controller) log users in and out, and let other applications do so by
-- OpenID Connect. The auth service (internal/service/auth_service.go) issues and checks those
-- sessions, which a store keeps (internal/repository), and counts failed logins in a cache
-- (internal/service/cache_store.go). The OIDC service (internal/service/oidc_service.go) keeps
-- codes in the same kind of cache and tokens in the same store.
--
--   Base, Text   association lists for maps, lists for slices, Go's strings functions, helpers
--   Cache        internal/service/cache_store.go: CacheStore[T]; Cache/Refinement what a cache
--                promises its clients, as a map without entries, clocks of entries or order
--   Utils        internal/utils: CheckFilter, CheckIPFilter, ParseHeaders, GetSecret, ParseUsers
--   Model        internal/model: App, UserContext and its constructors; repository.Session
--   Policy       internal/service: PolicyEngine; Policy/Rules the six rules; Policy/Apps the lookup
--                GetAccessControls
--   Store        internal/repository: the session half of the interface Store, with laws;
--                Store/Memory internal/repository/memory, which satisfies them
--   Auth         internal/service/auth_service.go: Auth/Login the attempts and the lockdown,
--                Auth/Sessions the login sessions, over any store with those laws, Auth/Users the
--                search for users, passwords, LDAP groups and email whitelists,
--                Auth/Service the state of the whole service and what it reads of a provider;
--                Auth/Service/Pending the OAuth logins under way
--   Middleware   internal/middleware/context_middleware.go: cookieAuth, basicAuth, tailscaleWhois and
--                the middleware itself
--   Controller   internal/controller: what a handler answers; Controller/User loginHandler,
--                Controller/Totp logoutHandler, totpHandler and tailscaleHandler, Controller/OAuth
--                oauthURLHandler and oauthCallbackHandler, Controller/Oidc the authorize, completion,
--                token and userinfo handlers, Controller/Context userContextHandler
--   Proxy        internal/controller/proxy_controller.go: getProxyContext and what it calls;
--                Proxy/Handler proxyHandler and its answers
--   Oidc         internal/service/oidc_service.go: requests, codes, PKCE, tickets; Oidc/Scopes
--                CompileUserinfo; Oidc/Tokens access and refresh tokens
--   Kubernetes   internal/service/kubernetes_service.go: the apps that ingresses declare, their indexes,
--                the events of the watch and GetLabels
--   Docker       internal/service/docker_service.go: the search of the containers' labels
--   Tests        runs on concrete inputs
--
-- How the code is modelled:
--
-- A state is a record, and an operation a function from state to state with its result. Error
-- values are a Result or an Option; where Go would panic (a nil context, a slice with crossed
-- bounds) the answer is `none`. A method that holds a lock is one step. A Go map is a list of
-- entries with distinct keys, in the order in which a range meets them; Cache/Reach has a step that
-- reorders the list, so its invariant holds whatever order a range takes. The maps of the
-- Kubernetes service, over which no operation ranges, are functions. Time is natural numbers of
-- nanoseconds, each operation and each handler takes one reading, and `Unix` divides by 10^9. The
-- settings that Go keeps as `int` are not negative, and the numbers are far from the bounds of an
-- int64, so no operation wraps around. The timer of a lockdown is a time in the state, before which
-- the goroutine that waits for it does nothing. All loops are structural recursion; nothing needs
-- fuel. A text is its code points. A random text is an argument of the operation that draws it.
-- What a handler binds from its request (form values, headers, cookies) is a record of its own, and
-- its answer is the status, the body and the cookies it sets.
--
-- Parameters: regular expressions, `net`, `url.Parse`, the encoding of queries, canonical header
-- names, Base64, digests, files, JSON, the parsing of a JWT, the signature of an ID token, TOTP
-- codes, the clients of a cluster and of Docker, the decoding of labels, the OAuth provider, the
-- whois of Tailscale, LDAP and bcrypt.
--
-- Not modelled: the SQL stores and generated queries, the LDAP, Tailscale and OAuth clients, the
-- waits of the Kubernetes watcher, the app context handler, the controllers for resources, health
-- and discovery, the construction of the services, the logs and the audit log, the commands and the
-- frontend.
pub mod Base
pub mod Text
pub mod Cache
pub mod Utils
pub mod Model
pub mod Policy
pub mod Store
pub mod Auth
pub mod Proxy
pub mod Oidc
pub mod Middleware
pub mod Controller
pub mod Kubernetes
pub mod Docker
pub mod Tests
