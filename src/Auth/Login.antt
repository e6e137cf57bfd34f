-- ===== src/Auth/Login.antt =====
-- internal/service/auth_service.go: login attempts, account locks and the lockdown.
pub mod Locking
pub mod Flooding
use tinyauth.Base.{
  ℕ, ◌+◌, ◌-◌, ◌*◌, String, Bool, true, false, not, ◌&&◌, ◌||◌, Option, none, some, ltb, leb,
  if◌then◌else◌,
}
use tinyauth.Base.Int.{ℤ, pos}
use tinyauth.Auth.{second, seconds_until, AuthConfig}
use tinyauth.Cache.{CacheStore, new_cache_store, get_callback, set_callback, size, clear}

pub record LoginAttempt : Type 0 where
  pub failed_attempts : ℕ
  pub last_attempt : ℕ
  pub locked_until : ℕ

pub record Lockdown : Type 0 where
  pub active : Bool
  pub until : ℕ

-- The login half of `AuthService`; `spawned` counts the goroutines that were started on
-- `lockdownMode` and have not taken the lock yet, and `timer` is when the timer of the one that
-- waits fires, `none` if none waits. The zero time is 0.
pub record LoginState : Type 0 where
  pub login : CacheStore LoginAttempt
  pub lockdown : Lockdown
  pub spawned : ℕ
  pub timer : Option ℕ
  pub max_login_limits : ℕ

-- `calculateLockdownLimit`: `ldap_users` is `none` without LDAP or on an error, `jitter` is `none`
-- if no random number could be read.
unfoldable pub calculate_lockdown_limit : AuthConfig → ℕ → Option ℕ → Option ℕ → ℕ
calculate_lockdown_limit config local_users ldap_users jitter =
    let or_zero : Option ℕ → ℕ = λ o. elim o [ none ↦ 0 | some n ↦ n ] in
    let limit = (local_users + or_zero ldap_users) * config.login_max_retries + or_zero jitter in
    if ltb limit 256 then 256 else limit

-- The login part of `NewAuthService`.
unfoldable pub new_login_state : AuthConfig → ℕ → LoginState
new_login_state config limit = record {
  login = new_cache_store (if not config.lockdown_enabled then limit else 0);
  lockdown = record { active = false; until = 0 };
  spawned = 0;
  timer = none;
  max_login_limits = limit;
}

unfoldable pub is_in_lockdown : ℕ → LoginState → Bool × ℤ
is_in_lockdown now s =
    if s.lockdown.active then (true, seconds_until s.lockdown.until now) else (false, pos 0)

-- The guard of both `IsAccountLocked` and `RecordLoginAttempt`.
abbrev pub is_unlimited : AuthConfig → Bool
is_unlimited config = leb config.login_max_retries 0 || leb config.login_timeout 0

abbrev attempt_lock : Option LoginAttempt → ℕ → Bool × ℤ
attempt_lock none now = (false, pos 0)
attempt_lock (some attempt) now =
    if ltb now attempt.locked_until
    then (true, seconds_until attempt.locked_until now)
    else (false, pos 0)

unfoldable pub is_account_locked : AuthConfig → String → ℕ → LoginState → Bool × ℤ
is_account_locked config identifier now s =
    let (locked, remaining) = is_in_lockdown now s in
    if locked
    then (true, remaining)
    else (if is_unlimited config
        then (false, pos 0)
        else attempt_lock (get_callback identifier now s.login) now)

abbrev pub lock_time : AuthConfig → ℕ → ℕ
lock_time config now = now + config.login_timeout * second

-- The entry that an attempt leaves.
unfoldable pub next_attempt : AuthConfig → Bool → ℕ → Option LoginAttempt → LoginAttempt
next_attempt config success now none = record {
  failed_attempts = if success then 0 else 1;
  last_attempt = now;
  locked_until = if not success && leb config.login_max_retries 1 then lock_time config now else 0;
}
next_attempt config success now (some entry) =
    if success
    then record { failed_attempts = 0; last_attempt = now; locked_until = 0 }
    else record {
      failed_attempts = entry.failed_attempts + 1;
      last_attempt = now;
      locked_until =
          if leb config.login_max_retries (entry.failed_attempts + 1)
          then lock_time config now
          else entry.locked_until;
    }

-- The function under the cache's lock.
unfoldable pub record_attempt :
    AuthConfig → String → Bool → ℕ → CacheStore LoginAttempt → CacheStore LoginAttempt
record_attempt config identifier success now cs =
    set_callback identifier (next_attempt config success now (get_callback identifier now cs)) 0 now
      cs

-- The cache holds as many identifiers as a lockdown takes, and the attempt failed.
abbrev pub is_flooded : AuthConfig → Bool → LoginState → Bool
is_flooded config success s =
    not success && (config.lockdown_enabled && leb s.max_login_limits (size s.login))

unfoldable pub record_login_attempt : AuthConfig → String → Bool → ℕ → LoginState → LoginState
record_login_attempt config identifier success now s =
    if is_unlimited config
    then s
    else (if is_flooded config success s
        then (if (is_in_lockdown now s).0 then s else record s { spawned = s.spawned + 1 })
        else record s { login = record_attempt config identifier success now s.login })

-- `lockdownMode` up to its wait. Both readings of the clock, for `until` and for the start of the
-- timer, are the time of the step.
unfoldable pub enter_lockdown : AuthConfig → ℕ → LoginState → LoginState
enter_lockdown config now s =
    if s.lockdown.active then record s { spawned = s.spawned - 1 } else record s {
      lockdown = record { active = true; until = lock_time config now };
      spawned = s.spawned - 1;
      timer = some (lock_time config now);
    }

-- The `select` of `lockdownMode`: the timer is due, or the service ends.
abbrev pub is_awake : Option ℕ → Bool → ℕ → Bool
is_awake none cancelled now = false
is_awake (some due) cancelled now = leb due now || cancelled

-- `lockdownMode` from its wait on, for the goroutine that waits: nothing happens while it does.
unfoldable pub exit_lockdown : Bool → ℕ → LoginState → LoginState
exit_lockdown cancelled now s =
    if is_awake s.timer cancelled now
    then record s {
      login = clear s.login;
      lockdown = record { active = false; until = 0 };
      timer = none;
    }
    else s

unfoldable pub clear_login_attempts : LoginState → LoginState
clear_login_attempts s = record s { login = clear s.login }
