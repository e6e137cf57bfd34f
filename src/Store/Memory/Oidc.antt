-- ===== src/Store/Memory/Oidc.antt =====
-- internal/repository/memory/oidc_queries.go: the UNIQUE constraints, and lookup by token.
use tinyauth.Base.{
  String, ◌≡◌, refl, ◌≢◌, Option, none, some, List, [], ◌∷◌, ok, err, ◌==◌, eq_iff, eq_refl,
  if◌then◌else◌, arith, inl, inr, ap, Bool, false, Option-cases, String-cases,
}
use tinyauth.Base.Lists.{All}
use tinyauth.Base.Dict.{insert, has, lookup-insert}
use tinyauth.Store.{StoreError, OidcSession}
use tinyauth.Store.Memory.{
  Store, or_not_found, find_conflict, find_row, create_oidc_session, get_oidc_session_by_sub,
  get_oidc_session_by_access_token_hash, get_oidc_session_by_refresh_token_hash,
}

-- Every row stands under its `sub`.
abbrev pub IsKeyed : List (String × OidcSession) → Type 0
IsKeyed m = All (λ (k, sess). k ≡ sess.sub) m

-- No row of the table shares a unique column with the new one.
abbrev pub IsFree : OidcSession → List (String × OidcSession) → Type 0
IsFree arg m =
    All
      (λ (k, sess).
        (sess.sub ≢ arg.sub)
        × (sess.access_token_hash ≢ arg.access_token_hash)
        × (sess.refresh_token_hash ≢ arg.refresh_token_hash))
      m

abbrev or_else {ℓ} : {A : Type ℓ} → Option A → Option A → Option A
or_else none b = b
or_else (some a) b = some a

abbrev when : Bool → OidcSession → Option OidcSession
when b s = if b then some s else none

find_conflict-IsFree :
    (arg : OidcSession) (m : List (String × OidcSession))
    → find_conflict arg m ≡ none
    → IsFree arg m
unfolding find_conflict
find_conflict-IsFree arg [] h = tt
find_conflict-IsFree arg ((k, sess) ∷ m) h = (
  (
    λ e. ground (arith, eq_iff sess.sub arg.sub),
    λ e. ground (arith, eq_iff sess.access_token_hash arg.access_token_hash),
    λ e. ground (arith, eq_iff sess.refresh_token_hash arg.refresh_token_hash),
  ),
  find_conflict-IsFree arg m (ground arith),
)

IsFree-find_conflict :
    (arg : OidcSession) (m : List (String × OidcSession))
    → IsFree arg m
    → find_conflict arg m ≡ none
unfolding find_conflict
IsFree-find_conflict arg [] h = refl
IsFree-find_conflict arg ((k, sess) ∷ m) h = ground (
  arith,
  eq_iff sess.sub arg.sub,
  eq_iff sess.access_token_hash arg.access_token_hash,
  eq_iff sess.refresh_token_hash arg.refresh_token_hash,
  IsFree-find_conflict arg m h.1,
)

IsFree-has :
    (arg : OidcSession) (m : List (String × OidcSession))
    → IsKeyed m
    → IsFree arg m
    → has arg.sub m ≡ false
unfolding has
IsFree-has arg [] k h = refl
IsFree-has arg ((j, sess) ∷ m) k h = ground (arith, eq_iff j arg.sub, IsFree-has arg m k.1 h.1)

find_row-insert :
    (test : OidcSession → Bool) (k : String) (v : OidcSession) (m : List (String × OidcSession))
    → has k m ≡ false
    → find_row test (insert k v m) ≡ or_else (find_row test m) (when (test v) v)
unfolding find_row insert has
find_row-insert test k v [] h = refl
find_row-insert test k v ((j, w) ∷ m) h = ground (arith, find_row-insert test k v m)

find_access_none :
    (arg : OidcSession) (m : List (String × OidcSession))
    → IsFree arg m
    → find_row (λ s. s.access_token_hash == arg.access_token_hash) m ≡ none
unfolding find_row
find_access_none arg [] h = refl
find_access_none arg ((k, sess) ∷ m) h =
    ground (arith, eq_iff sess.access_token_hash arg.access_token_hash, find_access_none arg m h.1)

find_refresh_none :
    (arg : OidcSession) (m : List (String × OidcSession))
    → IsFree arg m
    → find_row (λ s. s.refresh_token_hash == arg.refresh_token_hash) m ≡ none
unfolding find_row
find_refresh_none arg [] h = refl
find_refresh_none arg ((k, sess) ∷ m) h =
    ground
      (arith, eq_iff sess.refresh_token_hash arg.refresh_token_hash, find_refresh_none arg m h.1)

or_else-none : (o : Option OidcSession) → or_else o none ≡ o
or_else-none none = refl
or_else-none (some s) = refl

find_row-insert_other :
    (test : OidcSession → Bool) (k : String) (v : OidcSession) (m : List (String × OidcSession))
    → has k m ≡ false
    → test v ≡ false
    → find_row test (insert k v m) ≡ find_row test m
find_row-insert_other test k v m fresh h =
    rw (find_row-insert test k v m fresh, h) (or_else-none (find_row test m))

-- In a table whose rows stand under their own `sub`,
-- a session that shares neither `sub` nor a token hash with a row of the table is created: it is
-- what `sub` and both tokens lead to from then on, and every other `sub` and token leads where it
-- led before.
pub create_oidc_session_lem :
    (arg : OidcSession) (sub access refresh : String) (st : Store)
    → IsKeyed st.oidc_sessions
    → IsFree arg st.oidc_sessions
    → let (r, st') = create_oidc_session arg st in
      (r ≡ ok arg)
      × (get_oidc_session_by_sub sub st'
          ≡ (if arg.sub == sub then ok arg else get_oidc_session_by_sub sub st))
      × (get_oidc_session_by_access_token_hash access st' ≡ (
          if arg.access_token_hash == access
          then ok arg
          else get_oidc_session_by_access_token_hash access st))
      × (get_oidc_session_by_refresh_token_hash refresh st' ≡ (
          if arg.refresh_token_hash == refresh
          then ok arg
          else get_oidc_session_by_refresh_token_hash refresh st))
unfolding create_oidc_session get_oidc_session_by_sub get_oidc_session_by_access_token_hash
    get_oidc_session_by_refresh_token_hash
create_oidc_session_lem arg sub access refresh st keyed free =
    let fresh : has arg.sub st.oidc_sessions ≡ false = IsFree-has arg _ keyed free in
    rw (IsFree-find_conflict arg st.oidc_sessions free) (
      refl,
      rw (lookup-insert arg.sub sub arg st.oidc_sessions) (ground arith),
      elim (String-cases arg.access_token_hash access) [
        | inl (e, p) ↦
            rw
              (
                e,
                find_row-insert (λ s. s.access_token_hash == access) arg.sub arg st.oidc_sessions
                    fresh,
              )
              (rw (← p) (
                rw (find_access_none arg st.oidc_sessions free, eq_refl arg.access_token_hash)
                  refl))
        | inr (e, p) ↦ rw (e) (ap or_not_found (find_row-insert_other _ arg.sub arg _ fresh e))
      ],
      elim (String-cases arg.refresh_token_hash refresh) [
        | inl (e, p) ↦
            rw
              (
                e,
                find_row-insert (λ s. s.refresh_token_hash == refresh) arg.sub arg st.oidc_sessions
                    fresh,
              )
              (rw (← p) (
                rw (find_refresh_none arg st.oidc_sessions free, eq_refl arg.refresh_token_hash)
                  refl))
        | inr (e, p) ↦ rw (e) (ap or_not_found (find_row-insert_other _ arg.sub arg _ fresh e))
      ],
    )

-- A session that shares `sub` or a token hash with a row is refused, and the table stays as it was.
pub create_oidc_session-taken :
    (arg : OidcSession) (st : Store)
    → ¬ IsFree arg st.oidc_sessions
    → (column : StoreError) × (create_oidc_session arg st ≡ (err column, st))
unfolding create_oidc_session
create_oidc_session-taken arg st taken = elim (Option-cases (find_conflict arg st.oidc_sessions)) [
  | inl e ↦ absurd (taken (find_conflict-IsFree arg st.oidc_sessions e))
  | inr (c, e) ↦ rw e (c, refl)
]
