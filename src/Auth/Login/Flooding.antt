-- ===== src/Auth/Login/Flooding.antt =====
-- internal/service/auth_service.go: the lockdown that many failed identifiers cause.
use tinyauth.Base.{
  ◌*◌, Bool, List, [], ◌∷◌, some, ℕ, ◌+◌, ◌≤◌, ◌<◌, ◌≡◌, refl, String, true, false, arith, le→leb,
}
use tinyauth.Base.Int.{pos}
use tinyauth.Base.Lists.{All}
use tinyauth.Base.Dict.{lookup}
use tinyauth.Auth.{second, seconds_until, AuthConfig}
use tinyauth.Cache.{get_callback, size, clear}
use tinyauth.Cache.Invariant.{IsValid}
use tinyauth.Cache.Bounds.{length-set_callback-le}
use tinyauth.Auth.Login.{
  LoginState, is_in_lockdown, is_unlimited, is_account_locked, next_attempt, record_attempt,
  is_flooded, record_login_attempt, enter_lockdown, is_awake, exit_lockdown, clear_login_attempts,
}

-- With lockdown mode on, failed logins never fill a valid cache that is within it beyond the limit of the lockdown: at the limit they are not
-- recorded any more.
pub size-record_login_attempt :
    (config : AuthConfig) (identifier : String) (now : ℕ) (s : LoginState)
    → config.lockdown_enabled ≡ true
    → IsValid s.login
    → size s.login ≤ s.max_login_limits
    → size (record_login_attempt config identifier false now s).login ≤ s.max_login_limits
unfolding record_login_attempt record_attempt size
size-record_login_attempt config identifier now s on v fits =
    let entry = next_attempt config false now (get_callback identifier now s.login) in
    ground (arith, length-set_callback-le identifier entry 0 now s.login v)

-- What may happen to the login state while the service runs: an attempt is recorded, a goroutine
-- that was started takes the lock, the goroutine that waits looks at its timer, the attempts are
-- cleared.
pub data LoginEvent : Type 0 where
  attempted : String → Bool → LoginEvent
  started timer_seen cleared : LoginEvent

abbrev pub handle : AuthConfig → ℕ → LoginEvent → LoginState → LoginState
handle config now (attempted identifier success) s =
    record_login_attempt config identifier success now s
handle config now started s = enter_lockdown config now s
handle config now timer_seen s = exit_lockdown false now s
handle config now cleared s = clear_login_attempts s

unfoldable pub run_events : AuthConfig → List (ℕ × LoginEvent) → LoginState → LoginState
run_events config [] s = s
run_events config ((now, event) ∷ events) s = run_events config events (handle config now event s)

-- A lockdown up to `due`, with at most so many goroutines that have not taken the lock.
record IsHeld (due bound : ℕ) (s : LoginState) : Type 0 where
  active : s.lockdown.active ≡ true
  until : s.lockdown.until ≡ due
  timer : s.timer ≡ some due
  few : s.spawned ≤ bound

handle-IsHeld :
    (config : AuthConfig) (now due bound : ℕ) (event : LoginEvent) (s : LoginState)
    → now < due
    → IsHeld due bound s
    → IsHeld due bound (handle config now event s)
unfolding record_login_attempt enter_lockdown exit_lockdown clear_login_attempts is_in_lockdown
handle-IsHeld config now due bound (attempted identifier success) s early h = record {
  active = ground (arith, h.active);
  until = ground (arith, h.active, h.until);
  timer = ground (arith, h.active, h.timer);
  few = ground (arith, h.active, h.few);
}
handle-IsHeld config now due bound started s early h = record {
  active = ground (arith, h.active);
  until = ground (arith, h.active, h.until);
  timer = ground (arith, h.active, h.timer);
  few = ground (arith, h.active, h.few);
}
handle-IsHeld config now due bound timer_seen s early h =
    let asleep : is_awake s.timer false now ≡ false = ground (arith, h.timer) in rw asleep h
handle-IsHeld config now due bound cleared s early h = record {
  active = h.active;
  until = h.until;
  timer = h.timer;
  few = h.few;
}

run_events-IsHeld :
    (config : AuthConfig) (due bound : ℕ) (events : List (ℕ × LoginEvent)) (s : LoginState)
    → All (λ (now, event). now < due) events
    → IsHeld due bound s
    → IsHeld due bound (run_events config events s)
unfolding run_events
run_events-IsHeld config due bound [] s early h = h
run_events-IsHeld config due bound ((now, event) ∷ events) s early h =
    run_events-IsHeld config due bound events _ early.1
      (handle-IsHeld config now due bound event s early.0 h)

is_account_locked-IsHeld :
    (config : AuthConfig) (identifier : String) (now due bound : ℕ) (s : LoginState)
    → IsHeld due bound s
    → is_account_locked config identifier now s ≡ (true, seconds_until due now)
unfolding is_account_locked is_in_lockdown
is_account_locked-IsHeld config identifier now due bound s h = ground (arith, h.active, h.until)

exit_lockdown-IsHeld :
    (config : AuthConfig) (identifier : String) (wake now due bound : ℕ) (s : LoginState)
    → due ≤ wake
    → IsHeld due bound s
    → is_account_locked config identifier now (exit_lockdown false wake s) ≡ (false, pos 0)
unfolding is_account_locked is_in_lockdown exit_lockdown clear get_callback lookup
exit_lockdown-IsHeld config identifier wake now due bound s late h =
    let awake : is_awake s.timer false wake ≡ true = ground (arith, h.timer) in
    rw awake (ground arith)

triggers :
    (config : AuthConfig) (identifier : String) (now : ℕ) (s : LoginState)
    → 0 < config.login_max_retries
    → 0 < config.login_timeout
    → config.lockdown_enabled ≡ true
    → s.lockdown.active ≡ false
    → s.max_login_limits ≤ size s.login
    → record_login_attempt config identifier false now s ≡ record s { spawned = s.spawned + 1 }
unfolding record_login_attempt is_in_lockdown
triggers config identifier now s retries timeout on inactive full =
    let limited : is_unlimited config ≡ false = ground arith in
    let flooded : is_flooded config false s ≡ true = rw on (le→leb _ _ full) in
    rw (limited, flooded, inactive) refl

-- The limits are set, lockdown mode is on, no lockdown is, and the cache is at its limit or over it.
-- Then a failed login is not recorded and starts a goroutine; and from the time at which that takes
-- the lock, through any events at times before the configured duration has passed since, every
-- account is locked, with the rest of that duration as the time that remains, and no more
-- goroutines are on their way to the lock than before that login. Once the timer is looked at when
-- the duration has passed, no account is locked. The service is not stopped meanwhile.
pub lockdown_lasts :
    (config : AuthConfig) (identifier other : String) (now start later wake last : ℕ)
    (events : List (ℕ × LoginEvent)) (s : LoginState)
    → 0 < config.login_max_retries
    → 0 < config.login_timeout
    → config.lockdown_enabled ≡ true
    → s.lockdown.active ≡ false
    → s.max_login_limits ≤ size s.login
    → All (λ (time, event). time < start + config.login_timeout * second) events
    → start + config.login_timeout * second ≤ wake
    → let triggered = record_login_attempt config identifier false now s in
      let s' = run_events config events (enter_lockdown config start triggered) in
      (triggered ≡ record s { spawned = s.spawned + 1 })
      × (is_account_locked config other later s'
          ≡ (true, seconds_until (start + config.login_timeout * second) later))
      × (s'.spawned ≤ s.spawned)
      × (is_account_locked config other last (exit_lockdown false wake s') ≡ (false, pos 0))
unfolding enter_lockdown
lockdown_lasts config identifier other now start later wake last events s retries timeout on
      inactive full early late =
    let due = start + config.login_timeout * second in
    let t = triggers config identifier now s retries timeout on inactive full in
    let held : IsHeld due s.spawned
        (enter_lockdown config start (record_login_attempt config identifier false now s)) =
      rw (t, inactive) (record { active = refl; until = refl; timer = refl; few = omega arith }) in
    let after = run_events-IsHeld config due s.spawned events _ early held in
    (
      t,
      is_account_locked-IsHeld config other later due s.spawned _ after,
      after.few,
      exit_lockdown-IsHeld config other wake last due s.spawned _ late after,
    )
