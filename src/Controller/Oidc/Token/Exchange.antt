-- ===== src/Controller/Oidc/Token/Exchange.antt =====
-- internal/controller/oidc_controller.go: who gets tokens for a code.
use tinyauth.Base.{
  ℕ, ◌≡◌, refl, inl, inr, String, true, Option, some, ◌==◌, eq_iff, eq_refl, arith, Bool-cases,
  Option-cases, sym, ap, ◌∙◌,
}
use tinyauth.Base.Lists.{contains}
use tinyauth.Oidc.{
  OidcClientConfig, AuthorizeCodeEntry, get_client, validate_grant_type, get_code_entry,
  validate_pkce, is_code_used,
}
use tinyauth.Oidc.Tokens.{TokenResponse}
use tinyauth.Controller.Oidc.{Provider, OidcState}
use tinyauth.Controller.Oidc.Token.{
  TokenRequest, tokens, credentials, code_missing, code_found, exchange_code, with_client,
  with_credentials, token_handler,
}

-- The request asks for tokens for a code, as a client that shows its secret.
pub record Presents (provider : Provider) (req : TokenRequest) (basic : Option (String × String))
    (client : OidcClientConfig) : Type 0 where
  pub grant : req.grant_type ≡ "authorization_code"
  pub id : String
  pub shown : credentials req basic ≡ some (id, client.client_secret)
  pub known : get_client provider.clients id ≡ some client

grant_lem :
    (grant_type : String)
    → grant_type ≡ "authorization_code"
    → (validate_grant_type grant_type ≡ true) × ((grant_type == "authorization_code") ≡ true)
unfolding validate_grant_type contains
grant_lem grant_type e = rw e (refl, refl)

pub token_handler-Presents :
    (req : TokenRequest) (basic : Option (String × String)) (provider : Provider)
    (client : OidcClientConfig) (access refresh : String) (now : ℕ) (st : OidcState)
    → Presents provider req basic client
    → token_handler (some req) basic provider access refresh now st
      ≡ exchange_code req client provider access refresh now st
unfolding token_handler with_credentials with_client
token_handler-Presents req basic provider client access refresh now st p =
    let (valid, by_code) = grant_lem req.grant_type p.grant in
    rw
      (
        valid,
        p.shown,
        with_credentials,
        p.known,
        with_client,
        eq_refl client.client_secret,
        by_code,
      )
      refl

-- The code is one that the client may exchange, with the address and the verifier that belong to it.
pub record Exchanges (provider : Provider) (req : TokenRequest) (client : OidcClientConfig)
    (now : ℕ) (st : OidcState) : Type 0 where
  pub entry : AuthorizeCodeEntry
  pub held :
      (get_code_entry (provider.digests.hash req.code) client.client_id now st.caches).0
      ≡ some entry
  pub address : entry.redirect_uri ≡ req.redirect_uri
  pub verified : validate_pkce provider.digests entry.code_challenge req.code_verifier ≡ true

exchange_code-Exchanges :
    (req : TokenRequest) (client : OidcClientConfig) (provider : Provider) (access refresh : String)
    (now : ℕ) (st : OidcState) (response : TokenResponse)
    → (exchange_code req client provider access refresh now st).0 ≡ tokens response
    → Exchanges provider req client now st
unfolding exchange_code code_missing code_found
exchange_code-Exchanges req client provider access refresh now st response h =
    let taken = get_code_entry (provider.digests.hash req.code) client.client_id now st.caches in
    elim (Option-cases taken.0) [
      | inl e ↦ elim (Option-cases (is_code_used (provider.digests.hash req.code) now taken.1)) [
        | inl u ↦ absurd (ground (arith, e))
        | inr (sub, u) ↦ absurd (ground (arith, e))
      ]
      | inr (entry, e) ↦ elim (Bool-cases (entry.redirect_uri == req.redirect_uri)) [
        | inr a ↦ absurd (ground (arith, e))
        | inl a ↦
            elim (Bool-cases
              (validate_pkce provider.digests entry.code_challenge req.code_verifier)) [
                | inr v ↦ absurd (ground (arith, e, a))
                | inl v ↦ record {
                  entry = entry;
                  held = e;
                  address = (eq_iff entry.redirect_uri req.redirect_uri).0 a;
                  verified = v;
                }
              ]
      ]
    ]

-- Tokens are given for a code only to a client that is configured and shows its secret, for a code
-- that the service holds for this client, with the redirect address of the authorization and a
-- verifier that fits its challenge.
pub token_handler-Exchanges :
    (req : TokenRequest) (basic : Option (String × String)) (provider : Provider)
    (access refresh : String) (now : ℕ) (st : OidcState) (response : TokenResponse)
    → req.grant_type ≡ "authorization_code"
    → (token_handler (some req) basic provider access refresh now st).0 ≡ tokens response
    → (client : OidcClientConfig) × Presents provider req basic client
      × Exchanges provider req client now st
unfolding token_handler with_credentials with_client validate_grant_type contains
token_handler-Exchanges req basic provider access refresh now st response grant h =
    elim (Option-cases (credentials req basic)) [
      | inl e ↦ absurd (ground (arith, grant, e))
      | inr ((id, secret), e) ↦ elim (Option-cases (get_client provider.clients id)) [
        | inl k ↦ absurd (ground (arith, grant, e, k))
        | inr (client, k) ↦ elim (Bool-cases (client.client_secret == secret)) [
          | inr s ↦ absurd (ground (arith, grant, e, k, s))
          | inl s ↦
              let same = (eq_iff client.client_secret secret).0 s in
              let presents : Presents provider req basic client = record {
                grant = grant;
                id = id;
                shown = rw same e;
                known = k;
              } in
              (
                client,
                presents,
                exchange_code-Exchanges req client provider access refresh now st response (
                    sym (
                      ap (λ p. p.0)
                        (token_handler-Presents req basic provider client access refresh now st
                          presents))
                    ∙ h),
              )
        ]
      ]
    ]
