-- ===== src/Auth/Login/Locking.antt =====
-- internal/service/auth_service.go: when failed logins lock an account.
use tinyauth.Base.{
  ℕ, suc, ◌+◌, ◌<◌, ◌≡◌, refl, ◌∙◌, inl, inr, String, Bool, true, false, ◌&&◌, List, [], ◌∷◌, some,
  ltb, leb, if◌then◌else◌, arith, Bool-cases,
}
use tinyauth.Base.Int.{ℤ, pos}
use tinyauth.Base.Lists.{length}
use tinyauth.Auth.{seconds_until, AuthConfig}
use tinyauth.Cache.{CacheStore, get_callback}
use tinyauth.Cache.Invariant.{IsValid, set_callback-IsValid}
use tinyauth.Cache.Lookup.{get_callback-set_callback_self}
use tinyauth.Auth.Login.{
  LoginAttempt, LoginState, is_in_lockdown, is_unlimited, is_account_locked, lock_time,
  next_attempt, record_attempt, record_login_attempt,
}

get-record_attempt :
    (config : AuthConfig) (identifier : String) (success : Bool) (now later : ℕ)
    (cs : CacheStore LoginAttempt)
    → IsValid cs
    → get_callback identifier later (record_attempt config identifier success now cs)
      ≡ some (next_attempt config success now (get_callback identifier now cs))
unfolding record_attempt
get-record_attempt config identifier success now later cs v =
    get_callback-set_callback_self identifier _ 0 now later cs

record_attempt-IsValid :
    (config : AuthConfig) (identifier : String) (success : Bool) (now : ℕ)
    (cs : CacheStore LoginAttempt)
    → IsValid cs
    → IsValid (record_attempt config identifier success now cs)
unfolding record_attempt
record_attempt-IsValid config identifier success now cs v =
    set_callback-IsValid identifier _ 0 now cs v

-- Limits are set, and lockdown is not in the way.
pub record IsLimited (config : AuthConfig) (s : LoginState) : Type 0 where
  pub retries : 0 < config.login_max_retries
  pub timeout : 0 < config.login_timeout
  pub no_lockdown : config.lockdown_enabled ≡ false
  pub inactive : s.lockdown.active ≡ false
  pub valid : IsValid s.login

record_login_attempt-recorded :
    (config : AuthConfig) (identifier : String) (success : Bool) (now : ℕ) (s : LoginState)
    → IsLimited config s
    → record_login_attempt config identifier success now s
      ≡ record s { login = record_attempt config identifier success now s.login }
unfolding record_login_attempt
record_login_attempt-recorded config identifier success now s l =
    ground (arith, l.retries, l.timeout, l.no_lockdown)

record_login_attempt-IsLimited :
    (config : AuthConfig) (identifier : String) (success : Bool) (now : ℕ) (s : LoginState)
    → IsLimited config s
    → IsLimited config (record_login_attempt config identifier success now s)
record_login_attempt-IsLimited config identifier success now s l =
    rw (record_login_attempt-recorded config identifier success now s l) (record {
      retries = l.retries;
      timeout = l.timeout;
      no_lockdown = l.no_lockdown;
      inactive = l.inactive;
      valid = record_attempt-IsValid config identifier success now s.login l.valid;
    })

-- Failed attempts of one identifier, at the given times.
abbrev pub run_failures : AuthConfig → String → List ℕ → LoginState → LoginState
run_failures config identifier [] s = s
run_failures config identifier (t ∷ ts) s =
    run_failures config identifier ts (record_login_attempt config identifier false t s)

abbrev pub last_of : ℕ → List ℕ → ℕ
last_of t [] = t
last_of t (u ∷ us) = last_of u us

-- The cache holds `n` failures in a row for the identifier, the last of them at `t`.
record Tracks (config : AuthConfig) (identifier : String) (n t : ℕ) (s : LoginState) : Type 0 where
  entry : LoginAttempt
  held : (later : ℕ) → get_callback identifier later s.login ≡ some entry
  count : entry.failed_attempts ≡ n
  locked : entry.locked_until ≡ (if leb config.login_max_retries n then lock_time config t else 0)

Tracks-failure :
    (config : AuthConfig) (identifier : String) (n t now : ℕ) (s : LoginState)
    → IsLimited config s
    → Tracks config identifier n t s
    → Tracks config identifier (n + 1) now (record_login_attempt config identifier false now s)
unfolding next_attempt
Tracks-failure config identifier n t now s l k =
    rw (record_login_attempt-recorded config identifier false now s l) (record {
      entry = next_attempt config false now (some k.entry);
      held = λ later.
          rw (get-record_attempt config identifier false now later s.login l.valid, k.held now)
            refl;
      count = ground (arith, k.count);
      locked = ground (arith, k.count, k.locked);
    })

run_failures-Tracks :
    (config : AuthConfig) (identifier : String) (n t : ℕ) (ts : List ℕ) (s : LoginState)
    → IsLimited config s
    → Tracks config identifier n t s
    → Tracks config identifier (n + length ts) (last_of t ts) (run_failures config identifier ts s)
      × IsLimited config (run_failures config identifier ts s)
run_failures-Tracks config identifier n t [] s l k = let e : n + 0 ≡ n = omega arith in rw e (k, l)
run_failures-Tracks config identifier n t (u ∷ us) s l k =
    let e : n + suc (length us) ≡ (n + 1) + length us = omega arith in
    rw e (
      run_failures-Tracks config identifier (n + 1) u us
        (record_login_attempt config identifier false u s)
        (record_login_attempt-IsLimited config identifier false u s l)
        (Tracks-failure config identifier n t u s l k))

Tracks-success :
    (config : AuthConfig) (identifier : String) (t : ℕ) (s : LoginState)
    → IsLimited config s
    → Tracks config identifier 0 t (record_login_attempt config identifier true t s)
unfolding next_attempt
Tracks-success config identifier t s l =
    rw (record_login_attempt-recorded config identifier true t s l) (record {
      entry = next_attempt config true t (get_callback identifier t s.login);
      held = λ later. get-record_attempt config identifier true t later s.login l.valid;
      count = ground arith;
      locked = ground (arith, l.retries);
    })

-- The answer of `IsAccountLocked`: locked until `t`, or not locked.
abbrev pub lock_answer : Bool → ℕ → ℕ → Bool × ℤ
lock_answer locked t now = if locked then (true, seconds_until t now) else (false, pos 0)

lock_of_entry :
    (x n retries t later : ℕ)
    → x ≡ (if leb retries n then t else 0)
    → lock_answer (ltb later x) x later ≡ lock_answer (leb retries n && ltb later t) t later
lock_of_entry x n retries t later h = elim (Bool-cases (leb retries n)) [
  | inl e ↦ let at : x ≡ t = h ∙ rw e refl in rw (e, at) refl
  | inr e ↦ let never : ltb later x ≡ false = ground arith in rw (e, never) refl
]

is_account_locked-Tracks :
    (config : AuthConfig) (identifier : String) (n t later : ℕ) (s : LoginState)
    → IsLimited config s
    → Tracks config identifier n t s
    → is_account_locked config identifier later s
      ≡ lock_answer
          (leb config.login_max_retries n && ltb later (lock_time config t))
          (lock_time config t)
          later
unfolding is_account_locked is_in_lockdown
is_account_locked-Tracks config identifier n t later s l k =
    let limits : is_unlimited config ≡ false = ground (arith, l.retries, l.timeout) in
    rw (l.inactive, k.held later, limits)
      (lock_of_entry k.entry.locked_until n config.login_max_retries (lock_time config t) later
        k.locked)

-- Where the limits are set, lockdown mode is off and the cache is valid: after a login that
-- succeeds, whatever happened before, the account is locked exactly once the configured number of
-- its failures has followed, with no attempt under another name in between, and from then on for the
-- configured time after the latest failure.
pub failures-lock :
    (config : AuthConfig) (identifier : String) (t : ℕ) (ts : List ℕ) (later : ℕ) (s : LoginState)
    → IsLimited config s
    → is_account_locked config identifier later
        (run_failures config identifier ts (record_login_attempt config identifier true t s))
      ≡ lock_answer
          (leb config.login_max_retries (length ts) && ltb later (lock_time config (last_of t ts)))
          (lock_time config (last_of t ts))
          later
failures-lock config identifier t ts later s l =
    let (tracked, limited) =
      run_failures-Tracks config identifier 0 t ts (record_login_attempt config identifier true t s)
        (record_login_attempt-IsLimited config identifier true t s l)
        (Tracks-success config identifier t s l) in
    let e : 0 + length ts ≡ length ts = omega arith in
    rw (← e) (
      is_account_locked-Tracks config identifier (0 + length ts) (last_of t ts) later _ limited
        tracked)
