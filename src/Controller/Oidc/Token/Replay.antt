-- ===== src/Controller/Oidc/Token/Replay.antt =====
-- internal/controller/oidc_controller.go: a code that comes twice costs the session.
use tinyauth.Base.{
  ℕ, ◌+◌, ◌*◌, ◌≤◌, ◌≡◌, refl, inl, inr, String, Option, none, some, err, eq_refl, arith,
  Result-cases,
}
use tinyauth.Base.Dict.{lookup-delete}
use tinyauth.Cache.{get_callback}
use tinyauth.Cache.Lookup.{get_callback-set_callback_self}
use tinyauth.Auth.{second}
use tinyauth.Store.{not_found}
use tinyauth.Store.Memory.{get_oidc_session_by_sub, delete_oidc_session_by_sub}
use tinyauth.Oidc.{
  OidcClientConfig, AuthorizeCodeEntry, get_code_entry, mark_code_as_used, is_code_used,
}
use tinyauth.Oidc.Codes.{get_code_entry-taken, get_code_entry-missing}
use tinyauth.Oidc.Tokens.{generate_access_token}
use tinyauth.Controller.Oidc.{Provider, OidcState}
use tinyauth.Controller.Oidc.Token.{
  TokenRequest, refused, revoke, code_missing, generated, code_found, exchange_code, token_handler,
}
use tinyauth.Controller.Oidc.Token.Exchange.{Presents, token_handler-Presents}

caches-code_found :
    (entry : AuthorizeCodeEntry) (req : TokenRequest) (client : OidcClientConfig)
    (provider : Provider) (access refresh : String) (now : ℕ) (st : OidcState)
    → (code_found entry req client provider access refresh now st).1.caches
      ≡ mark_code_as_used (provider.digests.hash req.code) entry.userinfo.sub now st.caches
unfolding code_found generated
caches-code_found entry req client provider access refresh now st =
    let made =
      generate_access_token provider.digests provider.codec provider.issuer provider.session_expiry
        client.client_id entry entry.auth_time access refresh now st.rows in
    elim (Result-cases made.0) [ inl (r, e) ↦ ground (arith, e) | inr (x, e) ↦ ground (arith, e) ]

-- What the first use of a code leaves.
exchange_code-used :
    (req : TokenRequest) (client : OidcClientConfig) (provider : Provider) (access refresh : String)
    (now later : ℕ) (st : OidcState) (entry : AuthorizeCodeEntry)
    → let hash = provider.digests.hash req.code in
      (get_code_entry hash client.client_id now st.caches).0 ≡ some entry
      → later ≤ now + 120 * second
      → let caches = (exchange_code req client provider access refresh now st).1.caches in
        (get_callback hash later caches.code ≡ none)
        × (is_code_used hash later caches ≡ some entry.userinfo.sub)
unfolding exchange_code is_code_used mark_code_as_used
exchange_code-used req client provider access refresh now later st entry h soon =
    let hash = provider.digests.hash req.code in
    let taken = get_code_entry hash client.client_id now st.caches in
    let left =
      caches-code_found entry req client provider access refresh now
        (record st { caches = taken.1 }) in
    let gone = get_code_entry-taken hash client.client_id now later st.caches entry h in
    let marked =
      get_callback-set_callback_self hash entry.userinfo.sub (120 * second) now later
        taken.1.used_code in
    let all : (exchange_code req client provider access refresh now st).1.caches
        ≡ mark_code_as_used hash entry.userinfo.sub now taken.1 =
      rw (exchange_code, h) left in
    rw all (gone, rw (is_code_used, marked) (ground arith))

-- What a code that was used does.
exchange_code-again :
    (req : TokenRequest) (client : OidcClientConfig) (provider : Provider) (access refresh : String)
    (now : ℕ) (st : OidcState) (sub : String)
    → let hash = provider.digests.hash req.code in
      get_callback hash now st.caches.code ≡ none
      → is_code_used hash now st.caches ≡ some sub
      → exchange_code req client provider access refresh now st
        ≡ (refused 400 "invalid_grant", revoke sub st)
unfolding exchange_code code_missing
exchange_code-again req client provider access refresh now st sub gone used =
    let missing =
      get_code_entry-missing (provider.digests.hash req.code) client.client_id now st.caches gone in
    ground (arith, missing, used)

-- A code is worth one answer. If the service holds it for the client of a request, then a second
-- request with it within two minutes, by any client that shows its secret and whatever came of the
-- first one, is refused, and the store has no session under the code's subject any more.
pub token_handler-replay :
    (req again : TokenRequest) (basic basic' : Option (String × String)) (provider : Provider)
    (client other : OidcClientConfig) (access refresh access' refresh' : String) (now later : ℕ)
    (st : OidcState) (entry : AuthorizeCodeEntry)
    → Presents provider req basic client
    → (get_code_entry (provider.digests.hash req.code) client.client_id now st.caches).0
      ≡ some entry
    → Presents provider again basic' other
    → again.code ≡ req.code
    → later ≤ now + 120 * second
    → let st' = (token_handler (some req) basic provider access refresh now st).1 in
      let (answer, st'') = token_handler (some again) basic' provider access' refresh' later st' in
      (answer ≡ refused 400 "invalid_grant")
      × (get_oidc_session_by_sub entry.userinfo.sub st''.rows ≡ err not_found)
unfolding get_oidc_session_by_sub delete_oidc_session_by_sub
token_handler-replay req again basic basic' provider client other access refresh access' refresh'
      now later st entry first held second same soon =
    let st' = (exchange_code req client provider access refresh now st).1 in
    let (gone, used) =
      exchange_code-used req client provider access refresh now later st entry held soon in
    let refused_again =
      exchange_code-again again other provider access' refresh' later st' entry.userinfo.sub
        (rw same gone) (rw same used) in
    rw
      (
        token_handler-Presents req basic provider client access refresh now st first,
        token_handler-Presents again basic' provider other access' refresh' later st' second,
        refused_again,
      )
      (
        refl,
        rw (lookup-delete entry.userinfo.sub entry.userinfo.sub st'.rows.oidc_sessions)
            (rw (eq_refl entry.userinfo.sub) refl),
      )
