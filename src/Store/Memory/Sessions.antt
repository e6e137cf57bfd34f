-- ===== src/Store/Memory/Sessions.antt =====
-- internal/repository/memory/session_queries.go: the store keeps what the interface promises.
use tinyauth.Base.{
  ℕ, String, ◌≡◌, refl, Option, none, some, List, [], ◌∷◌, Result, ok, err, ◌==◌, if◌then◌else◌,
  arith, String-cases, inl, inr, ltb, ap, Bool,
}
use tinyauth.Base.Dict.{lookup, HasDistinctKeys, lookup-insert, lookup-delete, has_iff_lookup}
use tinyauth.Model.{Session}
use tinyauth.Store.{StoreError, not_found, UpdateSessionParams, updated, SessionStore}
use tinyauth.Store.Memory.{
  Store, or_not_found, create_session, get_session, update_session, delete_session, keep_entries,
  delete_expired_sessions,
}

pub get-create_session :
    (s : Session) (k : String) (st : Store)
    → get_session k (create_session s st).1 ≡ (if s.uuid == k then ok s else get_session k st)
unfolding get_session create_session
get-create_session s k st = rw (lookup-insert s.uuid k s st.sessions) (ground arith)

pub get-update_session :
    (arg : UpdateSessionParams) (old : Session) (k : String) (st : Store)
    → get_session arg.uuid st ≡ ok old
    → get_session k (update_session arg st).1
      ≡ elim (update_session arg st).0 as (λ r. Result StoreError Session) [
        | ok s' ↦ if arg.uuid == k then ok (updated arg old) else get_session k st
        | err e ↦ get_session k st
      ]
unfolding get_session update_session
get-update_session arg old k st h =
    ground (arith, lookup-insert arg.uuid k (updated arg old) st.sessions)

pub get-delete_session :
    (uuid k : String) (st : Store)
    → get_session k (delete_session uuid st).1
      ≡ (if uuid == k then err not_found else get_session k st)
unfolding get_session delete_session
get-delete_session uuid k st = rw (lookup-delete uuid k st.sessions) (ground arith)

-- The in-memory store is a session store.
unfoldable pub memory_sessions : SessionStore
unfolding create_session delete_session
memory_sessions = record {
  State = Store;
  create_session = create_session;
  get_session = get_session;
  update_session = update_session;
  delete_session = delete_session;
  get-create = get-create_session;
  get-update = get-update_session;
  get-delete = get-delete_session;
}

-- The value under a key that passes the test.
abbrev pub kept {ℓ} : {V : Type ℓ} → (V → Bool) → Option V → Option V
kept drop none = none
kept drop (some v) = if drop v then none else some v

keep_entries-fresh {ℓ} :
    {V : Type ℓ} (drop : V → Bool) (k : String) (m : List (String × V))
    → lookup k m ≡ none
    → lookup k (keep_entries drop m) ≡ none
unfolding lookup keep_entries
keep_entries-fresh drop k [] h = refl
keep_entries-fresh drop k ((j, v) ∷ m) h = ground (arith, keep_entries-fresh drop k m)

pub lookup-keep_entries {ℓ} :
    {V : Type ℓ} (drop : V → Bool) (k : String) (m : List (String × V))
    → HasDistinctKeys m
    → lookup k (keep_entries drop m) ≡ kept drop (lookup k m)
unfolding lookup keep_entries
lookup-keep_entries drop k [] d = refl
lookup-keep_entries drop k ((j, v) ∷ m) d = elim (String-cases j k) [
  | inl (e, p) ↦
      ground
        (arith, keep_entries-fresh drop k m, (has_iff_lookup j m).0 d.0, ap (λ x. lookup x m) p)
  | inr (e, p) ↦ ground (arith, lookup-keep_entries drop k m d.1)
]

-- In a table with distinct keys, deleting the expired sessions removes exactly those with an expiry before the given time.
pub get-delete_expired_sessions :
    (expiry : ℕ) (k : String) (st : Store)
    → HasDistinctKeys st.sessions
    → get_session k (delete_expired_sessions expiry st)
      ≡ or_not_found (kept (λ v. ltb v.expiry expiry) (lookup k st.sessions))
unfolding get_session delete_expired_sessions
get-delete_expired_sessions expiry k st d =
    rw (lookup-keep_entries (λ v. ltb v.expiry expiry) k st.sessions d) refl
