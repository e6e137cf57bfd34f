-- ===== src/Auth/Sessions/Laws.antt =====
-- internal/service/auth_service.go: a login session lives as long as it should, and no longer.
use tinyauth.Base.{
  ℕ, ◌+◌, ◌≤◌, ◌≡◌, refl, ◌⊎◌, inl, inr, String, none, some, Result, ok, err, ◌==◌, eq_refl,
  if◌then◌else◌, arith, Option-cases, ◌↔◌,
}
use tinyauth.Auth.{unix, AuthConfig}
use tinyauth.Model.{Session}
use tinyauth.Store.{StoreError, not_found, SessionStore}
use tinyauth.Auth.Sessions.{
  SessionError, session_not_found, get_session, refusal, after_delete, get_error,
}

pub Result-cases {ℓ κ} :
    {E : Type ℓ} {A : Type κ} (r : Result E A) → ((a : A) × (r ≡ ok a)) ⊎ ((e : E) × (r ≡ err e))
Result-cases (ok a) = inl (a, refl)
Result-cases (err e) = inr (e, refl)

-- The session may still be used at the Unix time `now`.
pub record IsCurrent (config : AuthConfig) (s : Session) (now : ℕ) : Type 0 where
  pub unexpired : now ≤ s.expiry
  pub young :
      (config.session_max_lifetime ≡ 0)
      ⊎ ((s.created_at ≡ 0) ⊎ (now ≤ s.created_at + config.session_max_lifetime))

refusal-IsCurrent :
    (config : AuthConfig) (s : Session) (now : ℕ)
    → refusal config s now ≡ none
    → IsCurrent config s now
unfolding refusal
refusal-IsCurrent config s now h = record { unexpired = ground arith; young = ground arith }

IsCurrent-refusal :
    (config : AuthConfig) (s : Session) (now : ℕ)
    → IsCurrent config s now
    → refusal config s now ≡ none
unfolding refusal
IsCurrent-refusal config s now c = ground (arith, c.unexpired, c.young)

module _ (store : SessionStore) where
  open store use {State}

  get_session-current :
      (config : AuthConfig) (uuid : String) (now : ℕ) (st : State) (s : Session)
      → store.get_session uuid st ≡ ok s
      → refusal config s (unix now) ≡ none
      → get_session store config uuid now st ≡ (ok s, st)
  unfolding get_session
  get_session-current config uuid now st s e r = rw (e, r) refl

  get_session-refused :
      (config : AuthConfig) (uuid : String) (now : ℕ) (st : State) (s : Session)
      (why : SessionError)
      → store.get_session uuid st ≡ ok s
      → refusal config s (unix now) ≡ some why
      → get_session store config uuid now st ≡ (
        err (after_delete (store.delete_session uuid st).0 why),
        (store.delete_session uuid st).1,
      )
  unfolding get_session
  get_session-refused config uuid now st s why e r = rw (e, r) refl

  get_session-missing :
      (config : AuthConfig) (uuid : String) (now : ℕ) (st : State) (e : StoreError)
      → store.get_session uuid st ≡ err e
      → get_session store config uuid now st ≡ (err (get_error e), st)
  unfolding get_session
  get_session-missing config uuid now st e h = rw h refl

  -- A session is handed out exactly if the store holds it and it is current, and then the store is
  -- left as it was.
  pub get_session-ok_iff :
      (config : AuthConfig) (uuid : String) (now : ℕ) (st : State) (s : Session)
      → (get_session store config uuid now st ≡ (ok s, st))
        ↔ ((store.get_session uuid st ≡ ok s) × IsCurrent config s (unix now))
  get_session-ok_iff config uuid now st s = (
    λ h. elim (Result-cases (store.get_session uuid st)) [
      | inl (held, e) ↦ elim (Option-cases (refusal config held (unix now))) [
        | inl r ↦
            let same : held ≡ s = ground (arith, get_session-current config uuid now st held e r) in
            (rw (← same) e, rw (← same) (refusal-IsCurrent config held (unix now) r))
        | inr (why, r) ↦
            absurd (ground (arith, get_session-refused config uuid now st held why e r))
      ]
      | inr (x, e) ↦ absurd (ground (arith, get_session-missing config uuid now st x e))
    ],
    λ (e, c). get_session-current config uuid now st s e (IsCurrent-refusal config s (unix now) c),
  )

  pub get_session-held :
      (config : AuthConfig) (uuid : String) (now : ℕ) (st : State) (s : Session)
      → (get_session store config uuid now st).0 ≡ ok s
      → (store.get_session uuid st ≡ ok s) × IsCurrent config s (unix now)
  get_session-held config uuid now st s h = elim (Result-cases (store.get_session uuid st)) [
    | inl (held, e) ↦ elim (Option-cases (refusal config held (unix now))) [
      | inl r ↦
          (get_session-ok_iff config uuid now st s).0
            (ground (arith, get_session-current config uuid now st held e r))
      | inr (why, r) ↦ absurd (ground (arith, get_session-refused config uuid now st held why e r))
    ]
    | inr (x, e) ↦ absurd (ground (arith, get_session-missing config uuid now st x e))
  ]

  -- A session that is no longer current is refused, and unless the store fails it is gone: no later
  -- request finds it, and every other session is as before.
  pub get_session-expires :
      (config : AuthConfig) (uuid k : String) (now later : ℕ) (st : State) (s : Session)
      → store.get_session uuid st ≡ ok s
      → ¬ IsCurrent config s (unix now)
      → (store.delete_session uuid st).0 ≡ none
      → let (r, st') = get_session store config uuid now st in
        ((why : SessionError) × (r ≡ err why))
        × (get_session store config uuid later st' ≡ (err session_not_found, st'))
        × (store.get_session k st' ≡ (if uuid == k then err not_found else store.get_session k st))
  get_session-expires config uuid k now later st s e stale gone =
      elim (Option-cases (refusal config s (unix now))) [
        | inl r ↦ absurd (stale (refusal-IsCurrent config s (unix now) r))
        | inr (why, r) ↦ rw (get_session-refused config uuid now st s why e r) (
          (_, refl),
          get_session-missing config uuid later _ not_found
              (rw (store.get-delete uuid uuid st) (rw gone (rw (eq_refl uuid) refl))),
          rw (store.get-delete uuid k st) (rw gone refl),
        )
      ]
