-- ===== src/Store/Memory.antt =====
-- internal/repository/memory: the in-memory store. The mutex makes each method one step.
pub mod Sessions
pub mod Oidc
use tinyauth.Base.{
  ℕ, String, ◌≡◌, Bool, true, false, ◌&&◌, List, [], ◌∷◌, Option, none, some, Result, ok, err, ltb,
  ◌==◌, if◌then◌else◌,
}
use tinyauth.Base.Dict.{lookup, insert, delete}
use tinyauth.Model.{Session}
use tinyauth.Store.{StoreError, not_found, unique_failed, UpdateSessionParams, updated, OidcSession}

pub record Store : Type 0 where
  pub sessions : List (String × Session)
  pub oidc_sessions : List (String × OidcSession)

unfoldable pub new : Store
new = record { sessions = []; oidc_sessions = [] }

unfoldable pub create_session : Session → Store → Result StoreError Session × Store
create_session arg s = (ok arg, record s { sessions = insert arg.uuid arg s.sessions })

abbrev pub or_not_found {ℓ} : {A : Type ℓ} → Option A → Result StoreError A
or_not_found none = err not_found
or_not_found (some a) = ok a

unfoldable pub get_session : String → Store → Result StoreError Session
get_session uuid s = or_not_found (lookup uuid s.sessions)

update_found : Option Session → UpdateSessionParams → Store → Result StoreError Session × Store
update_found none arg s = (err not_found, s)
update_found (some sess) arg s =
    (ok (updated arg sess), record s { sessions = insert arg.uuid (updated arg sess) s.sessions })

unfoldable pub update_session : UpdateSessionParams → Store → Result StoreError Session × Store
unfolding update_found
update_session arg s = update_found (lookup arg.uuid s.sessions) arg s

unfoldable pub delete_session : String → Store → Option StoreError × Store
delete_session uuid s = (none, record s { sessions = delete uuid s.sessions })

-- The ranges that delete while they iterate: they end with the entries that the test keeps.
unfoldable pub keep_entries {ℓ} : {V : Type ℓ} → (V → Bool) → List (String × V) → List (String × V)
keep_entries drop [] = []
keep_entries drop ((k, v) ∷ m) =
    if drop v then keep_entries drop m else (k, v) ∷ keep_entries drop m

unfoldable pub delete_expired_sessions : ℕ → Store → Store
delete_expired_sessions expiry s = record s {
  sessions = keep_entries (λ v. ltb v.expiry expiry) s.sessions;
}

-- The first row, in the order of the range, that breaks a UNIQUE constraint.
unfoldable pub find_conflict : OidcSession → List (String × OidcSession) → Option StoreError
find_conflict arg [] = none
find_conflict arg ((k, sess) ∷ m) =
    if sess.sub == arg.sub
    then some (unique_failed "oidc_sessions.sub")
    else (if sess.access_token_hash == arg.access_token_hash
        then some (unique_failed "oidc_sessions.access_token_hash")
        else (if sess.refresh_token_hash == arg.refresh_token_hash
            then some (unique_failed "oidc_sessions.refresh_token_hash")
            else find_conflict arg m))

create_unless : Option StoreError → OidcSession → Store → Result StoreError OidcSession × Store
create_unless (some e) arg s = (err e, s)
create_unless none arg s = (ok arg, record s { oidc_sessions = insert arg.sub arg s.oidc_sessions })

unfoldable pub create_oidc_session : OidcSession → Store → Result StoreError OidcSession × Store
unfolding create_unless
create_oidc_session arg s = create_unless (find_conflict arg s.oidc_sessions) arg s

unfoldable pub get_oidc_session_by_sub : String → Store → Result StoreError OidcSession
get_oidc_session_by_sub sub s = or_not_found (lookup sub s.oidc_sessions)

-- The first row, in the order of the range, that passes the test.
unfoldable pub find_row : (OidcSession → Bool) → List (String × OidcSession) → Option OidcSession
find_row test [] = none
find_row test ((k, sess) ∷ m) = if test sess then some sess else find_row test m

unfoldable pub get_oidc_session_by_access_token_hash :
    String → Store → Result StoreError OidcSession
get_oidc_session_by_access_token_hash hash s =
    or_not_found (find_row (λ sess. sess.access_token_hash == hash) s.oidc_sessions)

unfoldable pub get_oidc_session_by_refresh_token_hash :
    String → Store → Result StoreError OidcSession
get_oidc_session_by_refresh_token_hash hash s =
    or_not_found (find_row (λ sess. sess.refresh_token_hash == hash) s.oidc_sessions)

-- `UpdateOIDCSessionParams` has the fields of the row, and every one but the key is written.
update_oidc_found : Option OidcSession → OidcSession → Store → Result StoreError OidcSession × Store
update_oidc_found none arg s = (err not_found, s)
update_oidc_found (some sess) arg s =
    let sess' : OidcSession = record sess {
      access_token_hash = arg.access_token_hash;
      refresh_token_hash = arg.refresh_token_hash;
      scope = arg.scope;
      client_id = arg.client_id;
      token_expires_at = arg.token_expires_at;
      refresh_token_expires_at = arg.refresh_token_expires_at;
      nonce = arg.nonce;
      userinfo_json = arg.userinfo_json;
    } in
    (ok sess', record s { oidc_sessions = insert arg.sub sess' s.oidc_sessions })

unfoldable pub update_oidc_session : OidcSession → Store → Result StoreError OidcSession × Store
unfolding update_oidc_found
update_oidc_session arg s = update_oidc_found (lookup arg.sub s.oidc_sessions) arg s

unfoldable pub delete_oidc_session_by_sub : String → Store → Option StoreError × Store
delete_oidc_session_by_sub sub s = (none, record s { oidc_sessions = delete sub s.oidc_sessions })

unfoldable pub delete_expired_oidc_sessions : ℕ → ℕ → Store → Store
delete_expired_oidc_sessions token_expires_at refresh_token_expires_at s = record s {
  oidc_sessions =
      keep_entries
        (λ v.
          ltb v.token_expires_at token_expires_at
          && ltb v.refresh_token_expires_at refresh_token_expires_at)
        s.oidc_sessions;
}
