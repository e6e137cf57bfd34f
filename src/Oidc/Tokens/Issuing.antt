-- ===== src/Oidc/Tokens/Issuing.antt =====
-- internal/service/oidc_service.go: `GenerateAccessToken` where nothing fails.
use tinyauth.Base.{
  ℕ, String, ◌≡◌, refl, ◌∙◌, ◌≢◌, List, [], ◌∷◌, Option, some, ok, ◌==◌, eq_iff, eq_refl, arith,
  Bool-cases, inl, inr,
}
use tinyauth.Base.Lists.{All}
use tinyauth.Base.Dict.{delete}
use tinyauth.Store.{OidcSession}
use tinyauth.Store.Memory.{Store, get_oidc_session_by_access_token_hash, delete_oidc_session_by_sub}
use tinyauth.Store.Memory.Oidc.{IsKeyed, IsFree, create_oidc_session_lem}
use tinyauth.Oidc.{Digests, UserinfoResponse, AuthorizeCodeEntry}
use tinyauth.Oidc.Tokens.{
  ClaimSet, Codec, generate_id_token, token_response, new_row, stored, generate_from,
  generate_access_token, delete_old_session,
}

-- The signer signs, and the data of a user is encoded as a text that can be read again.
pub record Works (codec : Codec) (info : UserinfoResponse) (json : String) : Type 0 where
  pub signs : (claims : ClaimSet) → (token : String) × (codec.sign claims ≡ some token)
  pub written : codec.marshal info ≡ some json
  pub read : codec.unmarshal json ≡ some info

-- No row has one of the two hashes.
abbrev pub AreNew : String → String → List (String × OidcSession) → Type 0
AreNew access refresh m =
    All (λ (k, sess). (sess.access_token_hash ≢ access) × (sess.refresh_token_hash ≢ refresh)) m

delete-IsKeyed :
    (sub : String) (m : List (String × OidcSession)) → IsKeyed m → IsKeyed (delete sub m)
unfolding delete
delete-IsKeyed sub [] h = tt
delete-IsKeyed sub ((k, sess) ∷ m) h = elim (Bool-cases (k == sub)) [
  | inl e ↦ rw e (delete-IsKeyed sub m h.1)
  | inr e ↦ rw e (h.0, delete-IsKeyed sub m h.1)
]

delete-IsFree :
    (arg : OidcSession) (m : List (String × OidcSession))
    → IsKeyed m
    → AreNew arg.access_token_hash arg.refresh_token_hash m
    → IsFree arg (delete arg.sub m)
unfolding delete
delete-IsFree arg [] h new = tt
delete-IsFree arg ((k, sess) ∷ m) h new = elim (Bool-cases (k == arg.sub)) [
  | inl e ↦ rw e (delete-IsFree arg m h.1 new.1)
  | inr e ↦ rw e (
    ((λ p. absurd (ground (arith, e, h.0, p, eq_iff k arg.sub))), new.0.0, new.0.1),
    delete-IsFree arg m h.1 new.1,
  )
]

module _ (digests : Digests) (codec : Codec) (issuer : String) (session_expiry : ℕ) where
  generate_id_token-Works :
      (client_id : String) (user : UserinfoResponse) (scope nonce : String) (auth_time : Option ℕ)
      (now : ℕ)
      → ((claims : ClaimSet) → (token : String) × (codec.sign claims ≡ some token))
      → (token : String) × (generate_id_token digests codec issuer session_expiry client_id user
            scope nonce auth_time now
          ≡ some token)
  unfolding generate_id_token
  generate_id_token-Works client_id user scope nonce auth_time now signs = signs _

  -- With new random tokens and after the old session of the user is deleted, the tokens are given,
  -- and the access token leads to the new row.
  pub generate_access_token-stored :
      (client_id : String) (entry : AuthorizeCodeEntry) (access refresh json : String) (now : ℕ)
      (st : Store)
      → Works codec entry.userinfo json
      → IsKeyed st.oidc_sessions
      → AreNew (digests.hash access) (digests.hash refresh) st.oidc_sessions
      → let row =
          new_row digests codec issuer session_expiry access refresh entry client_id json now in
        let (r, st') =
          generate_access_token digests codec issuer session_expiry client_id entry entry.auth_time
            access refresh now
            (delete_old_session entry.userinfo.sub st) in
        (id_token : String) × (r
          ≡ ok (
              token_response digests codec issuer session_expiry access refresh id_token
                entry.scope))
        × (get_oidc_session_by_access_token_hash (digests.hash access) st' ≡ ok row)
  unfolding generate_access_token generate_from stored delete_old_session delete_oidc_session_by_sub
  generate_access_token-stored client_id entry access refresh json now st w keyed new =
      let (id_token, signed) =
        generate_id_token-Works client_id entry.userinfo entry.scope entry.nonce
          (some entry.auth_time) now w.signs in
      let row =
        new_row digests codec issuer session_expiry access refresh entry client_id json now in
      let (made, _, found, _) =
        create_oidc_session_lem row row.sub (digests.hash access) row.refresh_token_hash
          (delete_old_session entry.userinfo.sub st) (delete-IsKeyed row.sub _ keyed)
          (delete-IsFree row _ keyed new) in
      rw (signed, w.written, made) (id_token, refl, found ∙ rw (eq_refl (digests.hash access)) refl)
