-- ===== src/Auth/Sessions/Issuing.antt =====
-- internal/service/auth_service.go: what `CreateSession` and `RefreshSession` leave behind.
use tinyauth.Base.{
  ℕ, ◌+◌, ◌*◌, ◌≤◌, ◌<◌, ◌≡◌, refl, ◌⊎◌, inl, inr, String, Bool, true, not, ◌&&◌, Option, none,
  some, ok, err, ltb, ◌==◌, eq_refl, if◌then◌else◌, arith, Bool-cases, ◌↔◌, ap, ◌∙◌,
}
use tinyauth.Auth.{unix, AuthConfig}
use tinyauth.Model.{Session}
use tinyauth.Store.{SessionStore}
use tinyauth.Auth.Sessions.{
  Cookie, CookieRuntime, SessionError, session_time, refresh_threshold, session_row, create_session,
  refresh_found, refresh_session, refreshed, get_session,
}
use tinyauth.Auth.Sessions.Laws.{Result-cases, get_session-ok_iff}

pub expiry-session_row :
    (config : AuthConfig) (input : Session) (uuid : String) (now : ℕ)
    → (session_row config input uuid now).expiry ≡ unix now + session_time config input.totp_pending
unfolding session_row
expiry-session_row config input uuid now = omega arith

created-session_row :
    (config : AuthConfig) (input : Session) (uuid : String) (now : ℕ)
    → ((session_row config input uuid now).created_at ≡ unix now)
      × ((session_row config input uuid now).uuid ≡ uuid)
unfolding session_row
created-session_row config input uuid now = (refl, refl)

refresh_threshold-le : (config : AuthConfig) → refresh_threshold config ≤ 3600
unfolding refresh_threshold
refresh_threshold-le config = ground arith

module _ (store : SessionStore) where
  open store use {State}

  create_session-row :
      (config : AuthConfig) (runtime : CookieRuntime) (has_tailscale : Bool) (uuid : String)
      (input : Session) (now : ℕ) (st : State) (cookie : Cookie)
      → (create_session store config runtime has_tailscale (some uuid) input now st).0 ≡ ok cookie
      → let row = session_row config input uuid now in
        (cookie.value ≡ uuid)
        × ((s : Session) × ((store.create_session row st).0 ≡ ok s))
        × ((create_session store config runtime has_tailscale (some uuid) input now st).1
            ≡ (store.create_session row st).1)
  unfolding create_session
  create_session-row config runtime has_tailscale uuid input now st cookie h =
      elim (Bool-cases (input.provider == "tailscale" && not has_tailscale)) [
        | inl b ↦ absurd (ground arith)
        | inr b ↦
            elim (Result-cases (store.create_session (session_row config input uuid now) st).0) [
              | inl (s, e) ↦ rw b (ground arith, (s, e), refl)
              | inr (x, e) ↦ absurd (ground arith)
            ]
      ]

  -- What is stored under each id after a session was made.
  pub get_session-create_session :
      (config : AuthConfig) (runtime : CookieRuntime) (has_tailscale : Bool) (uuid k : String)
      (input : Session) (now : ℕ) (st : State) (cookie : Cookie)
      → (create_session store config runtime has_tailscale (some uuid) input now st).0 ≡ ok cookie
      → (cookie.value ≡ uuid)
        × (store.get_session k
              (create_session store config runtime has_tailscale (some uuid) input now st).1
            ≡ (if uuid == k
                then ok (session_row config input uuid now)
                else store.get_session k st))
  get_session-create_session config runtime has_tailscale uuid k input now st cookie h =
      let row = session_row config input uuid now in
      let (same, (s, done), left) =
        create_session-row config runtime has_tailscale uuid input now st cookie h in
      let made = created-session_row config input uuid now in
      (same, rw left (rw (store.get-create row k st) (rw done (rw made.1 refl))))

  -- A session that could not be made leaves no trace.
  pub get_session-create_session_failed :
      (config : AuthConfig) (runtime : CookieRuntime) (has_tailscale : Bool) (id : Option String)
      (k : String) (input : Session) (now : ℕ) (st : State) (e : SessionError)
      → (create_session store config runtime has_tailscale id input now st).0 ≡ err e
      → store.get_session k (create_session store config runtime has_tailscale id input now st).1
        ≡ store.get_session k st
  unfolding create_session
  get_session-create_session_failed config runtime has_tailscale none k input now st e h =
      ground arith
  get_session-create_session_failed config runtime has_tailscale (some uuid) k input now st e h =
      elim (Bool-cases (input.provider == "tailscale" && not has_tailscale)) [
        | inl b ↦ rw b refl
        | inr b ↦
            let row = session_row config input uuid now in
            elim (Result-cases (store.create_session row st).0) [
              | inl (s, done) ↦ absurd (ground arith)
              | inr (x, failed) ↦ rw b (rw (store.get-create row k st) (rw failed refl))
            ]
      ]

  -- After the Unix second 0, the session that `CreateSession` makes can be used by the id in the cookie, and yields exactly
  -- the row that was written, at those times and no others that are within an hour if a second
  -- factor is pending, else within the configured time, and in any case within the maximum
  -- lifetime, if one is set. Every other session stays as it was.
  pub create_session_lem :
      (config : AuthConfig) (runtime : CookieRuntime) (has_tailscale : Bool) (uuid k : String)
      (input : Session) (now later : ℕ) (st : State) (cookie : Cookie)
      → 0 < unix now
      → (create_session store config runtime has_tailscale (some uuid) input now st).0 ≡ ok cookie
      → let st' = (create_session store config runtime has_tailscale (some uuid) input now st).1 in
        let row = session_row config input uuid now in
        (cookie.value ≡ uuid)
        × ((get_session store config uuid later st' ≡ (ok row, st')) ↔ (
            (unix later ≤ unix now + session_time config input.totp_pending)
            × ((config.session_max_lifetime ≡ 0)
                ⊎ (unix later ≤ unix now + config.session_max_lifetime))))
        × (store.get_session k st' ≡ (if uuid == k then ok row else store.get_session k st))
  create_session_lem config runtime has_tailscale uuid k input now later st cookie clock h =
      let row = session_row config input uuid now in
      let (same, (s, done), left) =
        create_session-row config runtime has_tailscale uuid input now st cookie h in
      let made = created-session_row config input uuid now in
      let ends = expiry-session_row config input uuid now in
      let there : store.get_session uuid (store.create_session row st).1 ≡ ok row =
        rw (store.get-create row uuid st) (rw done (rw made.1 (rw (eq_refl uuid) refl))) in
      rw left (
        same,
        (
          λ got.
              let (held, c) = (get_session-ok_iff store config uuid later _ row).0 got in
              (ground (arith, ends, c.unexpired), ground (arith, made.0, c.young)),
          λ (in_time, young).
              (get_session-ok_iff store config uuid later _ row).1
                (there, record { unexpired = omega (arith, ends); young = ground (arith, made.0) }),
        ),
        rw (store.get-create row k st) (rw done (rw made.1 refl)),
      )

  -- Before the last stretch of a session, of the length of the threshold, refreshing it leaves the
  -- store alone and sets no cookie.
  pub refresh_session-early :
      (config : AuthConfig) (runtime : CookieRuntime) (uuid : String) (now : ℕ) (st : State)
      (s : Session)
      → store.get_session uuid st ≡ ok s
      → unix now + refresh_threshold config < s.expiry
      → refresh_session store config runtime uuid now st ≡ (ok none, st)
  unfolding refresh_session refresh_found
  refresh_session-early config runtime uuid now st s e early =
      let due : ltb (unix now + refresh_threshold config) s.expiry ≡ true = ground arith in
      rw (e, due) refl

  -- Refreshing that sets a cookie, of a session that the store holds under its own id, moves the
  -- expiry of the session and nothing else, by the
  -- threshold, so that the new expiry is at most two thresholds away; an hour is the largest one.
  pub refresh_session_lem :
      (config : AuthConfig) (runtime : CookieRuntime) (uuid k : String) (now : ℕ) (st : State)
      (s : Session) (cookie : Cookie)
      → store.get_session uuid st ≡ ok s
      → s.uuid ≡ uuid
      → (refresh_session store config runtime uuid now st).0 ≡ ok (some cookie)
      → let st' = (refresh_session store config runtime uuid now st).1 in
        let threshold = refresh_threshold config in
        let s' : Session = record s { expiry = s.expiry + threshold } in
        (cookie.value ≡ uuid)
        × (store.get_session k st' ≡ (if uuid == k then ok s' else store.get_session k st))
        × (s.expiry + threshold ≤ unix now + 2 * threshold)
        × (threshold ≤ 3600)
  unfolding refresh_session refresh_found
  refresh_session_lem config runtime uuid k now st s cookie e keyed h =
      let threshold = refresh_threshold config in
      let args = refreshed s (s.expiry + threshold) in
      let held : store.get_session args.uuid st ≡ ok s =
        ap (λ u. store.get_session u st) keyed ∙ e in
      elim (Bool-cases (ltb (unix now + threshold) s.expiry)) [
        | inl early ↦ absurd (ground arith)
        | inr due ↦ elim (Result-cases (store.update_session args st).0) [
          | inl (s', done) ↦
              rw (e, due)
                (
                  ground arith,
                  rw (store.get-update args s k st held) (rw (done, keyed) refl),
                  ground arith,
                  refresh_threshold-le config,
                )
          | inr (x, failed) ↦ absurd (ground arith)
        ]
      ]
