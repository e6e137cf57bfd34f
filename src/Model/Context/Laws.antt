-- ===== src/Model/Context/Laws.antt =====
-- internal/model/context.go: a context that is made from a session stands for the session's user.
use tinyauth.Base.{◌&&◌, ◌≡◌, true, not, some, ◌==◌, eq_iff, arith, ok}
use tinyauth.Model.{Session}
use tinyauth.Model.Context.{
  UserContext, new_from_session, get_base_context, get_username, get_email, get_name,
  get_provider_id, totp_pending, carries, new_from_gin, is_some,
}

-- The context that its provider selects is there.
abbrev pub IsWellFormed : UserContext → Type 0
IsWellFormed c = is_some (get_base_context c) ≡ true

-- The context of a session is that of its user, under its provider and never nil, and it counts as
-- authenticated exactly when no second factor is pending.
pub new_from_session_lem :
    (s : Session)
    → let c = new_from_session s in
      IsWellFormed c
      × (get_username c ≡ s.username)
      × (get_email c ≡ s.email)
      × (get_name c ≡ s.name)
      × (get_provider_id c ≡ some s.provider)
      × (c.authenticated ≡ not s.totp_pending)
      × (totp_pending c ≡ (s.provider == "local" && s.totp_pending))
      × (new_from_gin (carries c) ≡ ok c)
unfolding new_from_session get_username get_email get_name get_base_context get_provider_id
    totp_pending new_from_gin
new_from_session_lem s =
    ground
      (arith, eq_iff s.provider "local", eq_iff s.provider "ldap", eq_iff s.provider "tailscale")
