-- ===== src/Oidc/Tokens/Reuse.antt =====
-- internal/service/oidc_service.go: a refresh token that was exchanged cannot be used again.
use tinyauth.Base.{
  ℕ, String, ◌≡◌, refl, ◌≢◌, inl, inr, true, false, List, [], ◌∷◌, none, some, ok, err, ◌==◌,
  eq_iff, ==-ne, arith, Option-cases, String-cases, ap, ◌∙◌,
}
use tinyauth.Base.Dict.{insert, HasDistinctKeys, has_of_lookup}
use tinyauth.Store.{OidcSession}
use tinyauth.Store.Memory.{Store, find_row, get_oidc_session_by_refresh_token_hash}
use tinyauth.Store.Memory.Oidc.{IsKeyed}
use tinyauth.Oidc.{Digests}
use tinyauth.Oidc.Tokens.{Codec, TokenResponse, rotated, refresh_access_token, token_not_found}
use tinyauth.Oidc.Tokens.Rotation.{lookup-find_row, rotate_lem, refresh_found_lem}

-- No two rows share the hash of a refresh token, as the table demands.
abbrev pub HasUniqueRefresh : List (String × OidcSession) → Type 0
HasUniqueRefresh [] = Unit
HasUniqueRefresh ((k, sess) ∷ m) =
    (find_row (λ s. s.refresh_token_hash == sess.refresh_token_hash) m ≡ none) × HasUniqueRefresh m

find_row-rotated :
    (hash : String) (new entry : OidcSession) (m : List (String × OidcSession))
    → IsKeyed m
    → HasDistinctKeys m
    → HasUniqueRefresh m
    → new.refresh_token_hash ≢ hash
    → find_row (λ s. s.refresh_token_hash == hash) m ≡ some entry
    → find_row (λ s. s.refresh_token_hash == hash) (insert entry.sub new m) ≡ none
unfolding find_row insert
find_row-rotated hash new entry [] keyed d u ne h = absurd (ground arith)
find_row-rotated hash new entry ((k, sess) ∷ m) keyed d u ne h =
    elim (String-cases sess.refresh_token_hash hash) [
      | inl (e, p) ↦
          let none_left : find_row (λ s. s.refresh_token_hash == hash) m ≡ none = rw (← p) u.0 in
          let same : sess ≡ entry = ground arith in
          let key : (k == entry.sub) ≡ true = (eq_iff _ _).1 (keyed.0 ∙ ap (λ s. s.sub) same) in
          rw (key, ==-ne _ _ ne) none_left
      | inr (e, p) ↦
          let later : find_row (λ s. s.refresh_token_hash == hash) m ≡ some entry = ground arith in
          let there = lookup-find_row _ m entry keyed.1 d.1 later in
          let held = has_of_lookup entry.sub m entry there in
          let key : (k == entry.sub) ≡ false = ground (arith, eq_iff k entry.sub) in
          rw (key, e) (find_row-rotated hash new entry m keyed.1 d.1 u.1 ne later)
    ]

-- Once a refresh token has been exchanged, it is worth nothing: no session has it any more, if the
-- hash of the new token is another and no two sessions had the same, in a table whose rows stand
-- under their own `sub`, each once.
pub refresh_access_token-used :
    (digests : Digests) (codec : Codec) (issuer : String) (session_expiry : ℕ)
    (token client_id access refresh other access' refresh' : String) (now later : ℕ) (st : Store)
    (response : TokenResponse)
    → IsKeyed st.oidc_sessions
    → HasDistinctKeys st.oidc_sessions
    → HasUniqueRefresh st.oidc_sessions
    → digests.hash refresh ≢ digests.hash token
    → (refresh_access_token digests codec issuer session_expiry token client_id access refresh now
        st).0
      ≡ ok response
    → let st' =
        (refresh_access_token digests codec issuer session_expiry token client_id access refresh now
          st).1 in
      refresh_access_token digests codec issuer session_expiry token other access' refresh' later
        st'
      ≡ (err token_not_found, st')
unfolding refresh_access_token get_oidc_session_by_refresh_token_hash
refresh_access_token-used digests codec issuer session_expiry token client_id access refresh other
      access' refresh' now later st response keyed d u ne h =
    elim (Option-cases
      (find_row (λ sess. sess.refresh_token_hash == digests.hash token) st.oidc_sessions)) [
        | inl e ↦ absurd (ground arith)
        | inr (entry, e) ↦
            let there = lookup-find_row _ st.oidc_sessions entry keyed d e in
            let (client, in_time, same) =
              refresh_found_lem digests codec issuer session_expiry entry client_id access refresh
                now st response (rw e at h) in
            let (after, a, r) =
              rotate_lem digests codec issuer session_expiry entry
                (codec.unmarshal entry.userinfo_json) access refresh now st response there
                (rw (e, same) at h) in
            let gone =
              find_row-rotated (digests.hash token)
                (rotated digests codec issuer session_expiry entry access refresh now) entry
                st.oidc_sessions keyed d u ne e in
            rw (e, same, after, gone) refl
      ]
