-- ===== src/Controller/Oidc/Token/Issuing.antt =====
-- internal/controller/oidc_controller.go: tokens for a code, where nothing fails.
use tinyauth.Base.{ℕ, String, ◌≡◌, refl, Option, some, ok, eq_iff}
use tinyauth.Store.{OidcSession}
use tinyauth.Store.Memory.{Store, get_oidc_session_by_access_token_hash}
use tinyauth.Store.Memory.Oidc.{IsKeyed}
use tinyauth.Oidc.{OidcClientConfig, AuthorizeCodeEntry}
use tinyauth.Oidc.Tokens.{token_response, new_row, delete_old_session}
use tinyauth.Oidc.Tokens.Issuing.{Works, AreNew, generate_access_token-stored}
use tinyauth.Controller.Oidc.{Provider, OidcState}
use tinyauth.Controller.Oidc.Token.{
  TokenRequest, tokens, code_found, generated, exchange_code, token_handler,
}
use tinyauth.Controller.Oidc.Token.Exchange.{Presents, Exchanges, token_handler-Presents}

-- The row that the store gets for a code.
abbrev pub issued_row :
    Provider → AuthorizeCodeEntry → OidcClientConfig → String → String → String → ℕ → OidcSession
issued_row provider entry client access refresh json now =
    new_row provider.digests provider.codec provider.issuer provider.session_expiry access refresh
      entry client.client_id json now

-- A client that may exchange its code gets the tokens, if the old session of the user was deleted
-- and the random tokens are new; the access token then leads to the row of the code's user and
-- scope.
pub token_handler-issued :
    (req : TokenRequest) (basic : Option (String × String)) (provider : Provider)
    (client : OidcClientConfig) (access refresh json : String) (now : ℕ) (st : OidcState)
    (old : Store)
    → Presents provider req basic client
    → (e : Exchanges provider req client now st) → Works provider.codec e.entry.userinfo json
    → IsKeyed old.oidc_sessions
    → AreNew (provider.digests.hash access) (provider.digests.hash refresh) old.oidc_sessions
    → st.rows ≡ delete_old_session e.entry.userinfo.sub old
    → let (answer, st') = token_handler (some req) basic provider access refresh now st in
      (id_token : String) × (answer
        ≡ tokens (
            token_response provider.digests provider.codec provider.issuer provider.session_expiry
              access refresh id_token e.entry.scope))
      × (get_oidc_session_by_access_token_hash (provider.digests.hash access) st'.rows
          ≡ ok (issued_row provider e.entry client access refresh json now))
unfolding exchange_code code_found generated
token_handler-issued req basic provider client access refresh json now st old p e w keyed new rows =
    let (id_token, made, found) =
      generate_access_token-stored provider.digests provider.codec provider.issuer
        provider.session_expiry client.client_id e.entry access refresh json now old w keyed new in
    let same = (eq_iff e.entry.redirect_uri req.redirect_uri).1 e.address in
    rw
      (
        token_handler-Presents req basic provider client access refresh now st p,
        exchange_code,
        e.held,
        code_found,
        same,
        e.verified,
        rows,
        made,
      )
      (id_token, refl, found)
