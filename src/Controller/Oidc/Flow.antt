-- ===== src/Controller/Oidc/Flow.antt =====
-- internal/controller/oidc_controller.go: a whole login of another application, from the consent to
-- the user's data.
use tinyauth.Base.{
  ℕ, ◌+◌, ◌*◌, ◌≤◌, String, ◌≡◌, refl, ◌∙◌, sym, ap, true, Option, some, ok, arith, if◌then◌else◌,
}
use tinyauth.Base.Lists.{contains}
use tinyauth.Text.{split}
use tinyauth.Model.Context.{Carried}
use tinyauth.Auth.{second, unix}
use tinyauth.Store.Memory.Oidc.{IsKeyed}
use tinyauth.Oidc.{OidcClientConfig, validate_pkce, code_entry}
use tinyauth.Oidc.Scopes.{compile_userinfo}
use tinyauth.Oidc.Codes.{userinfo_from_context-sub}
use tinyauth.Oidc.Tokens.{TokenResponse, delete_old_session}
use tinyauth.Oidc.Tokens.Issuing.{Works, AreNew}
use tinyauth.Controller.Oidc.{Provider, OidcState}
use tinyauth.Controller.Oidc.Complete.{authorize_complete}
use tinyauth.Controller.Oidc.Complete.Codes.{Consents, granted, authorize_complete-granted}
use tinyauth.Controller.Oidc.Token.{TokenRequest, tokens, token_handler}
use tinyauth.Controller.Oidc.Token.Exchange.{Presents, Exchanges}
use tinyauth.Controller.Oidc.Token.Issuing.{token_handler-issued}
use tinyauth.Controller.Oidc.Userinfo.{
  UserinfoRequest, access_token, userinfo_refused, userinfo, userinfo_handler,
}
use tinyauth.Controller.Oidc.Userinfo.Laws.{userinfo_handler-held}

-- The code comes back from the client that it was made for, in time, with the address and the
-- verifier that belong to it.
pub record Redeems {carried : Carried} {provider : Provider} {ticket : String} {now : ℕ}
    {st : OidcState} (c : Consents carried provider ticket now st) (form : TokenRequest)
    (basic : Option (String × String)) (later : ℕ) : Type 0 where
  pub client : OidcClientConfig
  pub presents : Presents provider form basic client
  pub asked : client.client_id ≡ c.request.client_id
  pub address : c.request.redirect_uri ≡ form.redirect_uri
  pub verified :
      validate_pkce provider.digests (granted c form.code).code_challenge form.code_verifier ≡ true
  pub in_time : later ≤ now + 60 * second

-- A user who is logged in, with all details for the provider's kind of context, consents to a
-- request whose ticket is there, and the answer to the client can be encoded. Its client, which is
-- configured, sends the code back within a minute, with its secret, the address and the verifier
-- that belong to the request. Every row of the store stands under its own `sub`, the random tokens
-- have new hashes, the signer signs, and the user's data can be encoded and read again. Then the
-- client gets tokens, and until the access token expires it is answered with the data of that user
-- that the granted scope lets through, if that scope has "openid"; if not, it is refused with 401
-- "invalid_scope".
pub userinfo_handler-token_handler :
    (carried : Carried) (ticket query : String) (provider : Provider) (now later last : ℕ)
    (st : OidcState) (form : TokenRequest) (basic : Option (String × String))
    (access refresh json : String) (bearing : UserinfoRequest) (to_lower : String → String)
    → (c : Consents carried provider ticket now st) → Redeems c form basic later
    → provider.callback_query form.code c.request.state ≡ some query
    → Works provider.codec c.info json
    → IsKeyed st.rows.oidc_sessions
    → AreNew (provider.digests.hash access) (provider.digests.hash refresh) st.rows.oidc_sessions
    → access_token to_lower bearing ≡ ok access
    → unix last ≤ unix later + provider.session_expiry
    → let consented = (authorize_complete carried (some ticket) provider form.code now st).1 in
      let (answer, st') = token_handler (some form) basic provider access refresh later consented in
      ((response : TokenResponse) × (answer ≡ tokens response) × (response.access_token ≡ access))
      × ((userinfo_handler bearing provider to_lower last st').0 ≡ (
          if contains "openid" (split b' ' (granted c form.code).scope)
          then userinfo (compile_userinfo c.info (granted c form.code).scope)
          else userinfo_refused 401 "invalid_scope"))
unfolding code_entry
userinfo_handler-token_handler carried ticket query provider now later last st form basic access
      refresh json bearing to_lower c r q w keyed new shown early =
    let (_, rows, codes) =
      authorize_complete-granted carried ticket form.code query provider now st c q in
    let consented = (authorize_complete carried (some ticket) provider form.code now st).1 in
    let exchanges : Exchanges provider form r.client later consented = record {
      entry = granted c form.code;
      held = rw r.asked (codes later ∙ ground (arith, r.in_time));
      address = r.address;
      verified = r.verified;
    } in
    let (id_token, answered, found) =
      token_handler-issued form basic provider r.client access refresh json later consented st.rows
        r.presents exchanges w keyed new
        (rows
          ∙ ap (λ s. delete_old_session s st.rows)
              (sym (userinfo_from_context-sub c.user _ now c.info c.detailed))) in
    (
      (_, answered, refl),
      userinfo_handler-held bearing provider to_lower last _ access _ c.info shown found early
          w.read,
    )
