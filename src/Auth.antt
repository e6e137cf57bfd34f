-- ===== src/Auth.antt =====
-- internal/service/auth_service.go. Clock readings are nanoseconds since the epoch, and the
-- settings, which Go keeps as `int`, are not negative.
pub mod Login
pub mod Sessions
pub mod Users
pub mod Service
use tinyauth.Base.{ℕ, ◌-◌, ◌/◌, String, Bool, leb, if◌then◌else◌}
use tinyauth.Base.Int.{ℤ, pos, neg}
use tinyauth.Model.{IpConfig}

-- `time.Second`.
abbrev pub second : ℕ
second = 1000000000

-- `t.Unix()`.
abbrev pub unix : ℕ → ℕ
unix t = t / second

-- `int(time.Until(t).Seconds())`: towards zero.
abbrev pub seconds_until : ℕ → ℕ → ℤ
seconds_until t now = if leb now t then pos ((t - now) / second) else neg ((now - t) / second)

-- internal/model/config.go: the settings that the service reads.
pub record AuthConfig : Type 0 where
  pub ip : IpConfig
  pub subdomains_enabled : Bool
  pub secure_cookie : Bool
  pub session_expiry : ℕ
  pub session_max_lifetime : ℕ
  pub login_timeout : ℕ
  pub login_max_retries : ℕ
  pub lockdown_enabled : Bool
  pub group_cache_ttl : ℕ
