-- ===== src/Tests/Web.antt =====
-- internal/middleware/context_middleware.go and internal/controller/user_controller.go: alice logs
-- in, and bob, who has a second factor.
use tinyauth.Base.{
  String, ◌≡◌, refl, ◌⊎◌, inr, true, false, [], ◌∷◌, none, some, ok, arith, ◌*◌, ◌==◌, eq_iff,
}
use tinyauth.Base.Dict.{lookup, insert, delete}
use tinyauth.Model.{Session, LocalUser, empty_attributes}
use tinyauth.Model.Context.{
  UserContext, carries, new_from_gin, new_from_session, totp_pending, get_username,
  get_base_context, empty_context, provider_tailscale,
}
use tinyauth.Policy.{policy_allow}
use tinyauth.Cache.{get_callback}
use tinyauth.Store.{SessionStore}
use tinyauth.Store.Memory
use tinyauth.Store.Memory.Sessions.{memory_sessions}
use tinyauth.Auth.{second}
use tinyauth.Auth.Login.{is_account_locked, is_in_lockdown}
use tinyauth.Auth.Sessions.{
  create_session, get_session, refusal, refresh_session, refresh_threshold, session_row,
  delete_session,
}
use tinyauth.Auth.Users.{get_local_user, search_user, check_user_password}
use tinyauth.Auth.Service.{Services, AuthState, capitalize, compile_user_email, tailscale_whois}
use tinyauth.Middleware.{
  Request, middleware, cookie_auth, is_ignore_path, with_context, fill_attributes,
}
use tinyauth.Middleware.Trust.{HasSession, HasPassword, middleware-IsTrusted}
use tinyauth.Middleware.Cookies.{local_context}
use tinyauth.Controller.{open_session, local_session}
use tinyauth.Controller.User.{login_handler}
use tinyauth.Controller.Sessions.{SignedIn}
use tinyauth.Controller.User.Login.{login_handler-SignedIn}
use tinyauth.Controller.User.Factors.{login_handler-OnlyPending}
use tinyauth.Controller.User.Flow.{CanSignIn, login_handler-middleware}
use tinyauth.Controller.Totp.{totp_handler, logout_handler}
use tinyauth.Controller.Totp.Laws.{HasCode, totp_handler-SignedIn, logout_handler-middleware}
use tinyauth.Tests.Logins.{settings, quiet, runtime, alice, stored, local_alice, issued}
use tinyauth.Text.{has_prefix}

abbrev bob : LocalUser
bob = record local_alice { username = "bob"; totp_secret = "JBSWY3DP" }

abbrev pub services : Services
services = record {
  config = settings false;
  runtime = runtime;
  users = local_alice ∷ bob ∷ [];
  ldap = none;
  broker = [];
  oauth_whitelist = [];
  provider_whitelists = [];
  engine = record { rules = []; policy = policy_allow };
  compile = λ s. none;
  whois = none;
  compare = λ hash password. hash == password;
  is_address = λ s. false;
  to_upper = λ s. s;
  to_lower = λ s. s;
}

abbrev pub state : AuthState (SessionStore.State memory_sessions)
state = record {
  login = quiet;
  groups = record { cache = []; order = []; max_size = 1024 };
  oauth = record { cache = []; order = []; max_size = 256 };
  sessions = stored;
}

abbrev with_cookie : String → Request
with_cookie uuid = record {
  method_path = "GET /";
  session_cookie = some uuid;
  client_ip = "10.0.0.1";
  basic_auth = none;
}

abbrev alice_context : UserContext
alice_context = local_context alice (fill_attributes services local_alice)

middleware-IsTrusted_example :
    ((uuid : String) × ((with_cookie "id-1").session_cookie ≡ some uuid)
      × HasSession memory_sessions services uuid (5000 * second) stored)
    ⊎ ((username : String) × (password : String) × ((with_cookie "id-1").basic_auth
          ≡ some (username, password))
        × HasPassword services username password (5000 * second) state)
unfolding memory_sessions stored Memory.get_session lookup middleware cookie_auth get_session
    refusal refresh_session refresh_threshold is_ignore_path new_from_session totp_pending
    get_local_user capitalize compile_user_email has_prefix
middleware-IsTrusted_example =
    middleware-IsTrusted memory_sessions (with_cookie "id-1") services (5000 * second) state
      (with_context alice_context none) alice_context refl refl refl

alice-CanSignIn : CanSignIn services "alice" "secret" (5 * second) state local_alice
unfolding get_local_user is_account_locked is_in_lockdown get_callback lookup
alice-CanSignIn = record { known = refl; single = refl; fits = refl; unlocked = refl }

login_handler-middleware_example :
    let st' =
      (login_handler memory_sessions
        (some ("alice", "secret"))
        services
        (some "id-2")
        (5 * second)
        state).1 in
    (c : UserContext) × (middleware memory_sessions (with_cookie "id-2") services (100 * second) st'
      ≡ (some (with_context c none), st'))
    × (c.authenticated ≡ true)
    × (get_username c ≡ "alice")
unfolding memory_sessions create_session Memory.create_session open_session is_ignore_path
    local_session refresh_threshold has_prefix
login_handler-middleware_example =
    (login_handler-middleware memory_sessions "alice" "secret" services "id-2" (5 * second)
      (100 * second) state local_alice issued (with_cookie "id-2") (omega arith) alice-CanSignIn
      refl refl refl (omega arith) (inr (omega arith))).1

login_handler-SignedIn_example :
    SignedIn memory_sessions "alice"
      (some "id-2")
      issued
      (login_handler memory_sessions
        (some ("alice", "secret"))
        services
        (some "id-2")
        (5 * second)
        state).1.sessions
unfolding memory_sessions login_handler is_account_locked is_in_lockdown get_callback lookup
    search_user get_local_user check_user_password open_session create_session local_session
login_handler-SignedIn_example =
    (login_handler-SignedIn memory_sessions "alice" "secret" services (some "id-2") (5 * second)
      state issued refl).1

abbrev pending_row : Session
pending_row = record {
  uuid = "id-3";
  username = "bob";
  email = "bob@example.com";
  name = "bob";
  provider = "local";
  totp_pending = true;
  oauth_groups = "";
  expiry = 3605;
  created_at = 5;
  oauth_name = "";
  oauth_sub = "";
}

login_handler-OnlyPending_example :
    (pending_row.totp_pending ≡ true)
    ⊎ (SessionStore.get_session memory_sessions "id-3" stored ≡ ok pending_row)
unfolding memory_sessions get_local_user Memory.get_session lookup login_handler is_account_locked
    is_in_lockdown get_callback search_user check_user_password open_session create_session
    local_session insert stored session_row compile_user_email capitalize
login_handler-OnlyPending_example =
    login_handler-OnlyPending memory_sessions "bob" "secret" services (some "id-3") (5 * second)
      state bob refl (λ e. ground (arith, (eq_iff "JBSWY3DP" "").1 e)) "id-3" pending_row refl

abbrev bob_pending : UserContext
bob_pending = local_context pending_row empty_attributes

totp_handler-SignedIn_example :
    (user : LocalUser) × HasCode
      (carries bob_pending)
      (λ given secret. given == "123456")
      "123456"
      services
      (5 * second)
      state
      user
    × SignedIn memory_sessions user.username
        (some "id-2")
        issued
        (totp_handler memory_sessions
          (some "123456")
          (carries bob_pending)
          (λ given secret. given == "123456")
          none
          services
          (some "id-2")
          (5 * second)
          state).1.sessions
unfolding memory_sessions totp_handler new_from_gin totp_pending is_account_locked is_in_lockdown
    get_callback lookup get_local_user get_username get_base_context open_session create_session
    local_session
totp_handler-SignedIn_example =
    totp_handler-SignedIn memory_sessions "123456" (carries bob_pending)
      (λ given secret. given == "123456") none services (some "id-2") (5 * second) state issued refl

-- On a tailnet, the context that is left after the logout is that of the node.
abbrev on_tailnet : Services
on_tailnet = record services {
  whois = some (λ ip. some (
      some (record {
        user_id = "1";
        login_name = "alice@example.com";
        display_name = "Alice";
        node_name = "laptop";
      })));
}

abbrev node_context : UserContext
node_context = record empty_context {
  provider = provider_tailscale;
  tailscale = some (record {
    base = record { username = "laptop"; name = "Alice"; email = "alice@example.com" };
    user_id = "1";
  });
}

logout_handler-middleware_example : node_context.authenticated ≡ false
unfolding memory_sessions middleware is_ignore_path has_prefix cookie_auth get_session
    Memory.get_session lookup logout_handler delete_session delete stored tailscale_whois
logout_handler-middleware_example =
    logout_handler-middleware memory_sessions "id-1" on_tailnet (5000 * second) (5001 * second)
      state (with_cookie "id-1") (with_context node_context none) node_context refl refl refl refl
      refl
