-- ===== src/Oidc/Tokens/Rotation.antt =====
-- internal/service/oidc_service.go: a refresh token is used up by its client and moves the session.
use tinyauth.Base.{
  ℕ, ◌≤◌, String, ◌≡◌, refl, inl, inr, Bool, List, [], ◌∷◌, Option, none, some, ok, ◌==◌, eq_iff,
  arith, ltb, if◌then◌else◌, Bool-cases, Option-cases, String-cases, sym, ap,
}
use tinyauth.Base.Dict.{lookup, insert, lookup-insert, HasDistinctKeys, has_of_lookup}
use tinyauth.Store.{OidcSession}
use tinyauth.Store.Memory.{
  Store, find_row, get_oidc_session_by_refresh_token_hash, get_oidc_session_by_sub,
  update_oidc_session,
}
use tinyauth.Store.Memory.Oidc.{IsKeyed}
use tinyauth.Auth.{unix}
use tinyauth.Oidc.{Digests, UserinfoResponse}
use tinyauth.Oidc.Tokens.{
  Codec, TokenResponse, stored, rotated, rotate, rotate_signed, token_response, refresh_found,
  refresh_access_token,
}

-- The row that a search finds stands under its own `sub`.
pub lookup-find_row :
    (test : OidcSession → Bool) (m : List (String × OidcSession)) (entry : OidcSession)
    → IsKeyed m
    → HasDistinctKeys m
    → find_row test m ≡ some entry
    → lookup entry.sub m ≡ some entry
unfolding find_row lookup
lookup-find_row test [] entry keyed d h = absurd (ground arith)
lookup-find_row test ((k, sess) ∷ m) entry keyed d h = elim (Bool-cases (test sess)) [
  | inl e ↦ ground (arith, eq_iff k entry.sub)
  | inr e ↦
      let there = lookup-find_row test m entry keyed.1 d.1 (ground arith) in
      ground (arith, eq_iff k entry.sub, has_of_lookup entry.sub m entry there)
]

module _ (digests : Digests) (codec : Codec) (issuer : String) (session_expiry : ℕ) where
  update-rotated :
      (entry : OidcSession) (access refresh : String) (now : ℕ) (st : Store)
      → lookup entry.sub st.oidc_sessions ≡ some entry
      → update_oidc_session
          (rotated digests codec issuer session_expiry entry access refresh now)
          st
        ≡ (
          ok (rotated digests codec issuer session_expiry entry access refresh now),
          record st {
            oidc_sessions =
                insert entry.sub
                  (rotated digests codec issuer session_expiry entry access refresh now)
                  st.oidc_sessions;
          },
        )
  unfolding update_oidc_session
  update-rotated entry access refresh now st e = rw e refl

  rotate_signed_lem :
      (entry : OidcSession) (signed : Option String) (access refresh : String) (now : ℕ)
      (st : Store) (response : TokenResponse)
      → lookup entry.sub st.oidc_sessions ≡ some entry
      → (rotate_signed digests codec issuer session_expiry entry signed access refresh now st).0
        ≡ ok response
      → ((rotate_signed digests codec issuer session_expiry entry signed access refresh now st).1
          ≡ record st {
            oidc_sessions =
                insert entry.sub
                  (rotated digests codec issuer session_expiry entry access refresh now)
                  st.oidc_sessions;
          })
        × (response.access_token ≡ access)
        × (response.refresh_token ≡ refresh)
  unfolding rotate_signed stored
  rotate_signed_lem entry none access refresh now st response e h = absurd (ground arith)
  rotate_signed_lem entry (some id_token) access refresh now st response e h =
      let done = update-rotated entry access refresh now st e in
      let same : token_response digests codec issuer session_expiry access refresh id_token
            entry.scope
          ≡ response =
        ground (arith, done) in
      rw done (refl, ap (λ r. r.access_token) (sym same), ap (λ r. r.refresh_token) (sym same))

  pub rotate_lem :
      (entry : OidcSession) (info : Option UserinfoResponse) (access refresh : String) (now : ℕ)
      (st : Store) (response : TokenResponse)
      → lookup entry.sub st.oidc_sessions ≡ some entry
      → (rotate digests codec issuer session_expiry entry info access refresh now st).0
        ≡ ok response
      → ((rotate digests codec issuer session_expiry entry info access refresh now st).1
          ≡ record st {
            oidc_sessions =
                insert entry.sub
                  (rotated digests codec issuer session_expiry entry access refresh now)
                  st.oidc_sessions;
          })
        × (response.access_token ≡ access)
        × (response.refresh_token ≡ refresh)
  unfolding rotate
  rotate_lem entry none access refresh now st response e h = absurd (ground arith)
  rotate_lem entry (some info) access refresh now st response e h =
      rotate_signed_lem entry _ access refresh now st response e h

  pub refresh_found_lem :
      (entry : OidcSession) (client_id access refresh : String) (now : ℕ) (st : Store)
      (response : TokenResponse)
      → (refresh_found digests codec issuer session_expiry
          (ok entry)
          client_id
          access
          refresh
          now
          st).0
        ≡ ok response
      → (entry.client_id ≡ client_id)
        × (unix now ≤ entry.refresh_token_expires_at)
        × (refresh_found digests codec issuer session_expiry
              (ok entry)
              client_id
              access
              refresh
              now
              st
            ≡ rotate digests codec issuer session_expiry entry
                (codec.unmarshal entry.userinfo_json)
                access
                refresh
                now
                st)
  unfolding refresh_found
  refresh_found_lem entry client_id access refresh now st response h =
      elim (Bool-cases (ltb entry.refresh_token_expires_at (unix now))) [
        | inl late ↦ absurd (ground arith)
        | inr in_time ↦ elim (String-cases entry.client_id client_id) [
          | inl (e, p) ↦ (p, ground arith, rw (in_time, e) refl)
          | inr (e, p) ↦ absurd (ground arith)
        ]
      ]

  -- In a table whose rows stand under their own `sub`, each once,
  -- a refresh token is exchanged only for a session that it leads to, only for the client of that
  -- session, and only before it expires. The session then has the new tokens and the new times, its
  -- user and scope are as before, and no other session changes.
  pub refresh_access_token_lem :
      (token client_id access refresh sub : String) (now : ℕ) (st : Store)
      (response : TokenResponse)
      → IsKeyed st.oidc_sessions
      → HasDistinctKeys st.oidc_sessions
      → (refresh_access_token digests codec issuer session_expiry token client_id access refresh now
          st).0
        ≡ ok response
      → let st' =
          (refresh_access_token digests codec issuer session_expiry token client_id access refresh
            now st).1 in
        (entry : OidcSession) × (get_oidc_session_by_refresh_token_hash (digests.hash token) st
          ≡ ok entry)
        × (entry.client_id ≡ client_id)
        × (unix now ≤ entry.refresh_token_expires_at)
        × (get_oidc_session_by_sub sub st' ≡ (
            if entry.sub == sub
            then ok (rotated digests codec issuer session_expiry entry access refresh now)
            else get_oidc_session_by_sub sub st))
        × (response.access_token ≡ access)
        × (response.refresh_token ≡ refresh)
  unfolding refresh_access_token get_oidc_session_by_sub get_oidc_session_by_refresh_token_hash
  refresh_access_token_lem token client_id access refresh sub now st response keyed d h =
      elim (Option-cases
        (find_row (λ sess. sess.refresh_token_hash == digests.hash token) st.oidc_sessions)) [
          | inl e ↦ absurd (ground arith)
          | inr (entry, e) ↦
              let there = lookup-find_row _ st.oidc_sessions entry keyed d e in
              let (client, in_time, same) =
                refresh_found_lem entry client_id access refresh now st response (rw e at h) in
              let (after, a, r) =
                rotate_lem entry (codec.unmarshal entry.userinfo_json) access refresh now st
                  response there (rw (e, same) at h) in
              rw (e, same, after)
                (
                  entry,
                  refl,
                  client,
                  in_time,
                  rw
                      (lookup-insert entry.sub sub
                        (rotated digests codec issuer session_expiry entry access refresh now)
                        st.oidc_sessions)
                      (ground arith),
                  a,
                  r,
                )
        ]
