-- ===== src/Oidc/Tokens/Access.antt =====
-- internal/service/oidc_service.go: which access tokens are good.
use tinyauth.Base.{ℕ, ◌≤◌, ◌≡◌, ◌↔◌, inl, inr, String, ok, arith, Bool-cases, Result-cases, ltb}
use tinyauth.Auth.{unix}
use tinyauth.Store.{OidcSession}
use tinyauth.Store.Memory.{Store, get_oidc_session_by_access_token_hash}
use tinyauth.Oidc.Tokens.{session_of, get_session_by_token}

-- A session is found by an access token exactly if the store has its row and the token has not
-- expired.
pub get_session_by_token-ok_iff :
    (hash : String) (now : ℕ) (st : Store) (entry : OidcSession)
    → ((get_session_by_token hash now st).0 ≡ ok entry) ↔ (
        (get_oidc_session_by_access_token_hash hash st ≡ ok entry)
        × (unix now ≤ entry.token_expires_at))
unfolding get_session_by_token session_of
get_session_by_token-ok_iff hash now st entry =
    elim (Result-cases (get_oidc_session_by_access_token_hash hash st)) [
      | inr (x, e) ↦ (λ h. absurd (ground (arith, e)), λ (h, k). absurd (ground (arith, e)))
      | inl (row, e) ↦ elim (Bool-cases (ltb row.token_expires_at (unix now))) [
        | inl late ↦
            (λ h. absurd (ground (arith, e, late)), λ (h, k). absurd (ground (arith, e, late)))
        | inr early ↦ (
          λ h. (ground (arith, e, early), ground (arith, e, early)),
          λ (h, k). ground (arith, e, early),
        )
      ]
    ]
