-- ===== src/Middleware/Cookies.antt =====
-- internal/middleware/context_middleware.go: a session that may be used is used.
use tinyauth.Base.{ℕ, ◌≡◌, refl, String, false, Option, none, some, ok, arith, not, ◌∙◌}
use tinyauth.Model.{Session, LocalUser, UserAttributes, empty_attributes}
use tinyauth.Model.Context.{
  UserContext, provider_local, empty_context, session_base, new_from_session, totp_pending,
}
use tinyauth.Store.{SessionStore}
use tinyauth.Auth.Sessions.{Cookie, get_session, refresh_session}
use tinyauth.Auth.Users.{get_local_user}
use tinyauth.Auth.Service.{Services, AuthState}
use tinyauth.Middleware.{
  fill_local, fill_at, fill_context, refresh_after, cookie_auth_of, cookie_auth, Request,
  middleware, with_session, after_cookie, is_ignore_path, with_context, fill_attributes,
}

-- The context of a local user's session, with the given attributes.
abbrev pub local_context : Session → UserAttributes → UserContext
local_context s attributes = record empty_context {
  authenticated = not s.totp_pending;
  auth_time = s.created_at;
  provider = provider_local;
  local =
      some
        (record { base = session_base s; totp_pending = s.totp_pending; attributes = attributes });
}

new_from_session-local :
    (s : Session) → s.provider ≡ "local" → new_from_session s ≡ local_context s empty_attributes
unfolding new_from_session
new_from_session-local s e = rw e refl

totp_pending-local :
    (s : Session) (attributes : UserAttributes)
    → totp_pending (local_context s attributes) ≡ s.totp_pending
unfolding totp_pending
totp_pending-local s attributes = refl

module _ (store : SessionStore) where
  open store use {State}

  refresh_after-early :
      (svc : Services) (uuid : String) (now : ℕ) (st : AuthState State) (c : UserContext)
      → refresh_session store svc.config svc.runtime uuid now st.sessions ≡ (ok none, st.sessions)
      → refresh_after store (ok c) svc uuid now st ≡ (ok (c, none), st)
  unfolding refresh_after
  refresh_after-early svc uuid now st c early = ground (arith, early)

  pub cookie_auth-local :
      (svc : Services) (uuid ip : String) (now : ℕ) (st : AuthState State) (s : Session)
      (user : LocalUser)
      → get_session store svc.config uuid now st.sessions ≡ (ok s, st.sessions)
      → s.provider ≡ "local"
      → s.totp_pending ≡ false
      → get_local_user svc.users s.username ≡ some user
      → refresh_session store svc.config svc.runtime uuid now st.sessions ≡ (ok none, st.sessions)
      → cookie_auth store svc uuid ip now st
        ≡ (ok (local_context s (fill_attributes svc user), none), st)
  unfolding cookie_auth cookie_auth_of fill_context fill_at fill_local
  cookie_auth-local svc uuid ip now st s user held provider whole known early =
      let pending = totp_pending-local s empty_attributes ∙ whole in
      rw (held, cookie_auth_of, new_from_session-local s provider, pending, known, fill_local)
        (refresh_after-early svc uuid now st _ early)

  pub middleware-cookie :
      (req : Request) (svc : Services) (uuid : String) (now : ℕ) (st st' : AuthState State)
      (c : UserContext) (cookie : Option Cookie)
      → is_ignore_path req.method_path ≡ false
      → req.session_cookie ≡ some uuid
      → cookie_auth store svc uuid req.client_ip now st ≡ (ok (c, cookie), st')
      → middleware store req svc now st ≡ (some (with_context c cookie), st')
  unfolding middleware with_session after_cookie
  middleware-cookie req svc uuid now st st' c cookie path named auth =
      rw (path, named, with_session, auth) refl
