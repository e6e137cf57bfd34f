-- ===== src/Tests/Logins.antt =====
-- internal/service/auth_service.go: three failures lock for five minutes; sessions of two hours.
use Prim.Native.String.{◌++◌}
use tinyauth.Base.{
  ◌≡◌, refl, ◌↔◌, inr, Bool, true, false, [], ◌∷◌, some, ok, err, arith, ◌*◌, ◌==◌, none, inl, ℕ,
  zero, suc, ◌+◌, ◌≤◌, ◌<◌, String, List,
}
use tinyauth.Base.Int.{pos}
use tinyauth.Base.Dict.{lookup, insert}
use tinyauth.Model.{Session, LocalUser, UserSearch, empty_attributes}
use tinyauth.Cache.{CacheStore, new_cache_store, CacheEntry, size}
use tinyauth.Cache.Invariant.{IsValid}
use tinyauth.Cache.Reach.{here, Reach-new_cache_store}
use tinyauth.Store.{SessionStore}
use tinyauth.Store.Memory
use tinyauth.Store.Memory.Sessions.{memory_sessions}
use tinyauth.Auth.{AuthConfig, second, unix, seconds_until}
use tinyauth.Auth.Login.{
  LoginAttempt, LoginState, is_account_locked, record_login_attempt, enter_lockdown,
  calculate_lockdown_limit, exit_lockdown,
}
use tinyauth.Auth.Login.Locking.{IsLimited, run_failures, lock_answer, failures-lock}
use tinyauth.Auth.Login.Flooding.{
  LoginEvent, attempted, started, timer_seen, cleared, run_events, lockdown_lasts,
}
use tinyauth.Auth.Sessions.{
  CookieRuntime, Cookie, session_not_found, create_session, refresh_session, refresh_threshold,
  get_session, session_row, session_cookie,
}
use tinyauth.Auth.Sessions.Laws.{IsCurrent, get_session-ok_iff, get_session-expires}
use tinyauth.Auth.Sessions.Issuing.{create_session_lem, refresh_session_lem}
use tinyauth.Auth.Users.{get_local_user, search_user, check_user_password}
use tinyauth.Auth.Users.Passwords.{check_user_password-search_user_iff}
use tinyauth.Base.Lists.{All}

abbrev pub settings : Bool → AuthConfig
settings lockdown = record {
  ip = record { allow = []; block = []; bypass = [] };
  subdomains_enabled = true;
  secure_cookie = true;
  session_expiry = 7200;
  session_max_lifetime = 86400;
  login_timeout = 300;
  login_max_retries = 3;
  lockdown_enabled = lockdown;
  group_cache_ttl = 900;
}

abbrev pub no_logins : CacheStore LoginAttempt
no_logins = record { cache = []; order = []; max_size = 0 }

no_logins-IsValid : IsValid no_logins
unfolding new_cache_store
no_logins-IsValid = (Reach-new_cache_store 0 no_logins here).0

abbrev pub quiet : LoginState
quiet = record {
  login = no_logins;
  lockdown = record { active = false; until = 0 };
  spawned = 0;
  timer = none;
  max_login_limits = 256;
}

quiet-IsLimited : IsLimited (settings false) quiet
quiet-IsLimited = record {
  retries = omega arith;
  timeout = omega arith;
  no_lockdown = refl;
  inactive = refl;
  valid = no_logins-IsValid;
}

failures-lock_example :
    is_account_locked (settings false) "alice" 5 (
      run_failures
        (settings false)
        "alice"
        (2 ∷ 3 ∷ 4 ∷ [])
        (record_login_attempt (settings false) "alice" true 1 quiet))
    ≡ lock_answer true 300000000004 5
failures-lock_example =
    failures-lock (settings false) "alice" 1 (2 ∷ 3 ∷ 4 ∷ []) 5 quiet quiet-IsLimited

abbrev a_times : ℕ → String
a_times zero = ""
a_times (suc n) = "a" ++ a_times n

abbrev names_under : ℕ → List String
names_under zero = []
names_under (suc n) = a_times n ∷ names_under n

-- A failed login under each of so many names.
abbrev failed_under : ℕ → List (String × CacheEntry LoginAttempt)
failed_under zero = []
failed_under (suc n) =
    (
      a_times n,
      record {
        value = record { failed_attempts = 1; last_attempt = 1; locked_until = 0 };
        expires_at = none;
      },
    )
    ∷ failed_under n

-- The least limit of a lockdown, reached.
flooded_login : CacheStore LoginAttempt
flooded_login = record { cache = failed_under 256; order = names_under 256; max_size = 0 }

abbrev flooded : LoginState
flooded = record quiet {
  login = flooded_login;
  max_login_limits = calculate_lockdown_limit (settings true) 3 none none;
}

-- During the lockdown: attempts, a second goroutine, a look at the timer, a reset.
abbrev meanwhile : List (ℕ × LoginEvent)
meanwhile =
    (3 * second, attempted "alice" false)
    ∷ (4 * second, started)
    ∷ (300 * second, timer_seen)
    ∷ (300 * second, cleared)
    ∷ (301 * second, attempted "bob" true)
    ∷ []

flooded-size : flooded.max_login_limits ≤ size flooded.login
unfolding flooded_login size calculate_lockdown_limit
flooded-size = omega arith

meanwhile-early :
    All (λ (time, event). time < 2 * second + (settings true).login_timeout * second) meanwhile
meanwhile-early = (omega arith, (omega arith, (omega arith, (omega arith, (omega arith, tt)))))

lockdown_lasts_example :
    let triggered = record_login_attempt (settings true) "mallory" false second flooded in
    let s' =
      run_events
        (settings true)
        meanwhile
        (enter_lockdown (settings true) (2 * second) triggered) in
    (triggered ≡ record flooded { spawned = 1 })
    × (is_account_locked (settings true) "alice" (100 * second) s'
        ≡ (true, seconds_until (302 * second) (100 * second)))
    × (s'.spawned ≤ 0)
    × (is_account_locked
          (settings true)
          "alice"
          (303 * second)
          (exit_lockdown false (302 * second) s')
        ≡ (false, pos 0))
lockdown_lasts_example =
    lockdown_lasts (settings true) "mallory" "alice" second (2 * second) (100 * second)
      (302 * second) (303 * second) meanwhile flooded (omega arith) (omega arith) refl refl
      flooded-size meanwhile-early (omega arith)

abbrev pub runtime : CookieRuntime
runtime = record { cookie_domain = "example.com"; session_cookie_name = "tinyauth-session" }

abbrev pub alice : Session
alice = record {
  uuid = "id-1";
  username = "alice";
  email = "alice@example.com";
  name = "Alice";
  provider = "local";
  totp_pending = false;
  oauth_groups = "";
  expiry = 9000;
  created_at = 2000;
  oauth_name = "";
  oauth_sub = "";
}

unfoldable pub stored : SessionStore.State memory_sessions
unfolding memory_sessions
stored = record { sessions = ("id-1", alice) ∷ []; oidc_sessions = [] }

alice-held : SessionStore.get_session memory_sessions "id-1" stored ≡ ok alice
unfolding memory_sessions stored Memory.get_session lookup
alice-held = refl

get_session-ok_iff_example :
    (get_session memory_sessions (settings false) "id-1" (5000 * second) stored
      ≡ (ok alice, stored))
    ↔ ((SessionStore.get_session memory_sessions "id-1" stored ≡ ok alice)
        × IsCurrent (settings false) alice (unix (5000 * second)))
get_session-ok_iff_example =
    get_session-ok_iff memory_sessions (settings false) "id-1" (5000 * second) stored alice

expired : ¬ IsCurrent (settings false) alice (unix (9001 * second))
expired c = absurd (omega (arith, c.unexpired))

get_session-expires_example :
    let after = (get_session memory_sessions (settings false) "id-1" (9001 * second) stored).1 in
    get_session memory_sessions (settings false) "id-1" (9002 * second) after
    ≡ (err session_not_found, after)
unfolding memory_sessions Memory.delete_session
get_session-expires_example =
    (get_session-expires memory_sessions (settings false) "id-1" "id-2" (9001 * second)
      (9002 * second) stored alice alice-held expired refl).1

abbrev pub issued : Cookie
issued = session_cookie (settings false) runtime "id-2" 7205000000000 (pos 7200)

-- A session that is made at the Unix time 5 can be used at the time 100.
create_session_lem_example :
    let made =
      (create_session memory_sessions
        (settings false)
        runtime
        false
        (some "id-2")
        alice
        (5 * second)
        stored).1 in
    get_session memory_sessions (settings false) "id-2" (100 * second) made
    ≡ (ok (session_row (settings false) alice "id-2" (5 * second)), made)
unfolding memory_sessions create_session Memory.create_session session_row
create_session_lem_example =
    (create_session_lem memory_sessions (settings false) runtime false "id-2" "id-1" alice
        (5 * second) (100 * second) stored issued (omega arith) refl).1.1
      (omega arith, inr (omega arith))

abbrev renewed : Cookie
renewed = session_cookie (settings false) runtime "id-1" 12600000000000 (pos 5000)

refresh_session_lem_example :
    SessionStore.get_session memory_sessions "id-1"
      (refresh_session memory_sessions (settings false) runtime "id-1" (7600 * second) stored).1
    ≡ ok (record alice { expiry = 12600 })
unfolding memory_sessions refresh_session stored Memory.get_session Memory.update_session lookup
    insert refresh_threshold
refresh_session_lem_example =
    (refresh_session_lem memory_sessions (settings false) runtime "id-1" "id-1" (7600 * second)
      stored alice renewed alice-held refl refl).1

abbrev pub local_alice : LocalUser
local_alice = record {
  username = "alice";
  password = "secret";
  totp_secret = "";
  attributes = empty_attributes;
}

-- Passwords that are kept as they are.
check_user_password-search_user_iff_example :
    (search : UserSearch) × (search_user (local_alice ∷ []) none "alice" ≡ ok search)
    × (check_user_password
          (λ hash password. hash == password)
          (local_alice ∷ [])
          none
          search
          "secret"
        ≡ none)
unfolding get_local_user
check_user_password-search_user_iff_example =
    (check_user_password-search_user_iff (λ hash password. hash == password) (local_alice ∷ []) none
        "alice" "secret").1
      (inl (local_alice, refl, refl))
