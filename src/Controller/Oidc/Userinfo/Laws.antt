-- ===== src/Controller/Oidc/Userinfo/Laws.antt =====
-- internal/controller/oidc_controller.go: who gets a user's data.
use tinyauth.Base.{
  ℕ, ◌≤◌, ◌≡◌, ◌↔◌, inl, inr, String, true, some, ok, arith, Bool-cases, Option-cases, Result-cases,
  if◌then◌else◌,
}
use tinyauth.Base.Lists.{contains}
use tinyauth.Text.{split}
use tinyauth.Auth.{unix}
use tinyauth.Store.{OidcSession}
use tinyauth.Store.Memory.{get_oidc_session_by_access_token_hash}
use tinyauth.Oidc.{UserinfoResponse}
use tinyauth.Oidc.Scopes.{compile_userinfo}
use tinyauth.Oidc.Tokens.{get_session_by_token}
use tinyauth.Oidc.Tokens.Access.{get_session_by_token-ok_iff}
use tinyauth.Controller.Oidc.{Provider, OidcState}
use tinyauth.Controller.Oidc.Userinfo.{
  UserinfoRequest, userinfo_refused, userinfo, access_token, session_answer, userinfo_handler,
}

session_answer_iff :
    (entry : OidcSession) (provider : Provider) (info : UserinfoResponse)
    → (session_answer (ok entry) provider ≡ userinfo info) ↔ (
        (details : UserinfoResponse) × (contains "openid" (split b' ' entry.scope) ≡ true)
        × (provider.codec.unmarshal entry.userinfo_json ≡ some details)
        × (info ≡ compile_userinfo details entry.scope))
unfolding session_answer
session_answer_iff entry provider info =
    elim (Bool-cases (contains "openid" (split b' ' entry.scope))) [
      | inr o ↦
          (λ h. absurd (ground (arith, o)), λ (details, a, b, c). absurd (ground (arith, o, a)))
      | inl o ↦ elim (Option-cases (provider.codec.unmarshal entry.userinfo_json)) [
        | inl d ↦ (
          λ h. absurd (ground (arith, o, d)),
          λ (details, a, b, c). absurd (ground (arith, d, b)),
        )
        | inr (details, d) ↦ (
          λ h. (details, o, d, ground (arith, o, d)),
          λ (other, a, b, c). ground (arith, o, d, b, c),
        )
      ]
    ]

-- A user's data is given out exactly if the request has an access token whose session is stored and
-- has not expired, with the scope "openid" and data that can be decoded; it is then the part of the data that the
-- scope lets through.
pub userinfo_handler_iff :
    (req : UserinfoRequest) (provider : Provider) (to_lower : String → String) (now : ℕ)
    (st : OidcState) (info : UserinfoResponse)
    → ((userinfo_handler req provider to_lower now st).0 ≡ userinfo info) ↔ (
        (token : String) × (entry : OidcSession) × (details : UserinfoResponse) × (access_token
            to_lower req
          ≡ ok token)
        × (get_oidc_session_by_access_token_hash (provider.digests.hash token) st.rows ≡ ok entry)
        × (unix now ≤ entry.token_expires_at)
        × (contains "openid" (split b' ' entry.scope) ≡ true)
        × (provider.codec.unmarshal entry.userinfo_json ≡ some details)
        × (info ≡ compile_userinfo details entry.scope))
unfolding userinfo_handler session_answer
userinfo_handler_iff req provider to_lower now st info =
    elim (Result-cases (access_token to_lower req)) [
      | inr ((status, error), e) ↦ (
        λ h. absurd (ground (arith, e)),
        λ (token, entry, details, a, b, c, d, f, g). absurd (ground (arith, e)),
      )
      | inl (token, e) ↦
          let hash = provider.digests.hash token in
          let iff = get_session_by_token-ok_iff hash now st.rows in
          elim (Result-cases (get_session_by_token hash now st.rows).0) [
            | inr (x, f) ↦ (
              λ h. absurd (ground (arith, e, f)),
              λ (token', entry, details, a, b, c, d, g, i).
                  let same : token ≡ token' = ground (arith, e, a) in
                  let there = (iff entry).1 (rw same b, c) in absurd (ground (arith, f, there)),
            )
            | inl (row, f) ↦
                let (held, early) = (iff row).0 f in
                let answers = session_answer_iff row provider info in
                (
                  λ h.
                      let (details, a, b, c) = answers.0 (ground (arith, e, f)) in
                      (token, row, details, e, held, early, a, b, c),
                  λ (token', entry, details, a, b, c, d, g, i).
                      let same : token ≡ token' = ground (arith, e, a) in
                      let there = (iff entry).1 (rw same b, c) in
                      let row_same : row ≡ entry = ground (arith, f, there) in
                      let answered =
                        answers.1 (details, rw row_same d, rw row_same g, rw row_same i) in
                      ground (arith, e, f, answered),
                )
          ]
    ]

-- What a session that is stored and has not expired is worth, with data that can be decoded.
pub userinfo_handler-held :
    (req : UserinfoRequest) (provider : Provider) (to_lower : String → String) (now : ℕ)
    (st : OidcState) (token : String) (entry : OidcSession) (details : UserinfoResponse)
    → access_token to_lower req ≡ ok token
    → get_oidc_session_by_access_token_hash (provider.digests.hash token) st.rows ≡ ok entry
    → unix now ≤ entry.token_expires_at
    → provider.codec.unmarshal entry.userinfo_json ≡ some details
    → (userinfo_handler req provider to_lower now st).0 ≡ (
        if contains "openid" (split b' ' entry.scope)
        then userinfo (compile_userinfo details entry.scope)
        else userinfo_refused 401 "invalid_scope")
unfolding userinfo_handler session_answer
userinfo_handler-held req provider to_lower now st token entry details shown held early decoded =
    let found =
      (get_session_by_token-ok_iff (provider.digests.hash token) now st.rows entry).1
        (held, early) in
    elim (Bool-cases (contains "openid" (split b' ' entry.scope))) [
      | inl o ↦ ground (arith, shown, found, o, decoded)
      | inr o ↦ ground (arith, shown, found, o)
    ]
