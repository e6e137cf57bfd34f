-- ===== src/Controller/Oidc/Authorize/Trusted.antt =====
-- internal/controller/oidc_controller.go: where a request to authorize can send the browser.
use Prim.Native.String.{◌++◌}
use tinyauth.Base.{
  ℕ, ◌≡◌, refl, ◌⊎◌, inl, inr, String, true, not, ◌&&◌, Option, none, some, ◌==◌, arith, Bool-cases,
  Option-cases, sym, ◌∙◌, ltb,
}
use tinyauth.Base.Lists.{contains, length}
use tinyauth.Model.Context.{Carried, new_from_gin}
use tinyauth.Oidc.{
  OidcClientConfig, AuthorizeRequest, AuthorizeError, invalid_request_uri, access_denied,
  invalid_scope, unsupported_response_type, invalid_request, get_client, validate_authorize_params,
  get_prompt,
}
use tinyauth.Oidc.Scopes.{validate_authorize_params-trusted}
use tinyauth.Controller.Oidc.{
  ScreenParams, CallbackError, Provider, OidcState, redirect_to, located, authorize_error,
  AuthorizeInput, resolve_authorize_request,
}
use tinyauth.Controller.Oidc.Authorize.{
  shown, returned, invalid_answer, is_logged_in, screen_prompt, screen, with_client, with_request,
  authorize,
}

-- The provider's own pages.
abbrev pub IsHome : Provider → String → Type 0
IsHome provider url =
    (query : String) × ((url ≡ (provider.issuer ++ "/error") ++ ("?" ++ query))
      ⊎ (url ≡ provider.issuer ++ ("/oidc/authorize?" ++ query)))

-- An address that the client of the request has registered, with a query.
abbrev pub IsRegistered : Provider → AuthorizeRequest → String → Type 0
IsRegistered provider req url =
    (client : OidcClientConfig) × (query : String) × (get_client provider.clients req.client_id
      ≡ some client)
    × (contains req.redirect_uri client.trusted_redirect_uris ≡ true)
    × (url ≡ req.redirect_uri ++ ("?" ++ query))

shown-IsHome :
    (provider : Provider) (reason url : String)
    → shown provider reason ≡ redirect_to url
    → IsHome provider url
unfolding authorize_error located
shown-IsHome provider reason url h = elim (Option-cases (provider.error_query reason)) [
  | inl e ↦ absurd (ground (arith, e))
  | inr (query, e) ↦ (query, inl (ground (arith, e)))
]

returned_lem :
    (provider : Provider) (req : AuthorizeRequest) (error reason url : String)
    (client : OidcClientConfig)
    → get_client provider.clients req.client_id ≡ some client
    → contains req.redirect_uri client.trusted_redirect_uris ≡ true
    → returned provider req error reason ≡ redirect_to url
    → IsHome provider url ⊎ IsRegistered provider req url
unfolding authorize_error located
returned_lem provider req error reason url client known trusted h =
    let failure : CallbackError = record {
      error = error;
      description = reason;
      state = req.state;
    } in
    elim (Bool-cases (req.redirect_uri == "")) [
      | inl e ↦ elim (Option-cases (provider.error_query reason)) [
        | inl f ↦ absurd (ground (arith, e, f))
        | inr (query, f) ↦ inl (query, inl (ground (arith, e, f)))
      ]
      | inr e ↦ elim (Option-cases (provider.callback_error_query failure)) [
        | inl f ↦ absurd (ground (arith, e, f))
        | inr (query, f) ↦ inr (client, query, known, trusted, ground (arith, e, f))
      ]
    ]

screen_lem :
    (provider : Provider) (req : AuthorizeRequest) (client : OidcClientConfig) (ticket url : String)
    (prompt : Option String)
    → get_client provider.clients req.client_id ≡ some client
    → contains req.redirect_uri client.trusted_redirect_uris ≡ true
    → screen provider req client ticket prompt ≡ redirect_to url
    → IsHome provider url ⊎ IsRegistered provider req url
unfolding screen
screen_lem provider req client ticket url none known trusted h =
    returned_lem provider req "invalid_request" "The max_age parameter is invalid" url client known
      trusted h
screen_lem provider req client ticket url (some prompt) known trusted h =
    let params : ScreenParams = record {
      ticket = ticket;
      scope = req.scope;
      name = client.name;
      prompt = prompt;
    } in
    elim (Option-cases (provider.screen_query params)) [
      | inl e ↦
          returned_lem provider req "server_error"
            "An internal error occured while processing your request" url client known trusted
            (sym (rw (screen, e) refl) ∙ h)
      | inr (query, e) ↦ inl (query, inr (ground (arith, e)))
    ]

invalid_answer_lem :
    (provider : Provider) (req : AuthorizeRequest) (client : OidcClientConfig) (url : String)
    (e : AuthorizeError)
    → get_client provider.clients req.client_id ≡ some client
    → (e ≡ invalid_request_uri) ⊎ (contains req.redirect_uri client.trusted_redirect_uris ≡ true)
    → invalid_answer provider req e ≡ redirect_to url
    → IsHome provider url ⊎ IsRegistered provider req url
unfolding invalid_answer
invalid_answer_lem provider req client url invalid_request_uri known trusted h =
    inl (shown-IsHome provider "The provided redirect URI is not trusted" url h)
invalid_answer_lem provider req client url access_denied known trusted h = elim trusted [
  | inl e ↦ absurd (ground arith)
  | inr t ↦
      returned_lem provider req "access_denied" "Invalid request parameters" url client known t h
]
invalid_answer_lem provider req client url invalid_scope known trusted h = elim trusted [
  | inl e ↦ absurd (ground arith)
  | inr t ↦
      returned_lem provider req "invalid_scope" "Invalid request parameters" url client known t h
]
invalid_answer_lem provider req client url unsupported_response_type known trusted h =
    elim trusted [
      | inl e ↦ absurd (ground arith)
      | inr t ↦
          returned_lem provider req "unsupported_response_type" "Invalid request parameters" url
            client known t h
    ]
invalid_answer_lem provider req client url invalid_request known trusted h = elim trusted [
  | inl e ↦ absurd (ground arith)
  | inr t ↦
      returned_lem provider req "invalid_request" "Invalid request parameters" url client known t h
]

with_client-IsSafe :
    (client : OidcClientConfig) (provider : Provider) (req : AuthorizeRequest) (carried : Carried)
    (ticket : String) (now : ℕ) (st : OidcState) (url : String)
    → get_client provider.clients req.client_id ≡ some client
    → contains req.redirect_uri client.trusted_redirect_uris ≡ true
    → (with_client client provider req carried ticket now st).0 ≡ redirect_to url
    → IsHome provider url ⊎ IsRegistered provider req url
unfolding with_client
with_client-IsSafe client provider req carried ticket now st url known trusted h =
    let prompts = get_prompt req.prompt in
    let context = new_from_gin carried in
    elim (Bool-cases (contains "none" prompts && ltb 1 (length prompts))) [
      | inl a ↦
          returned_lem provider req "invalid_request" "The prompt parameters are invalid" url client
            known trusted (sym (rw (with_client, a) refl) ∙ h)
      | inr a ↦ elim (Bool-cases (not (is_logged_in context) && contains "none" prompts)) [
        | inl b ↦
            returned_lem provider req "login_required" "The user is not logged in" url client known
              trusted (sym (rw (with_client, a, b) refl) ∙ h)
        | inr b ↦
            screen_lem provider req client ticket url (screen_prompt context req now) known trusted
              (sym (rw (with_client, a, b) refl) ∙ h)
      ]
    ]

-- A request to authorize sends the browser to the provider's own pages, or to an address that the
-- client of the request has registered, whatever is wrong with the request.
pub authorize-IsSafe :
    (input : AuthorizeInput) (provider : Provider) (carried : Carried) (ticket : String) (now : ℕ)
    (st : OidcState) (url : String)
    → (authorize input provider carried ticket now st).0 ≡ redirect_to url
    → IsHome provider url
      ⊎ ((req : AuthorizeRequest) × (resolve_authorize_request provider input ≡ some req)
          × IsRegistered provider req url)
unfolding authorize with_request
authorize-IsSafe input provider carried ticket now st url h =
    elim (Option-cases (resolve_authorize_request provider input)) [
      | inl r ↦
          inl (shown-IsHome provider "The authorization request is invalid" url (ground (arith, r)))
      | inr (req, r) ↦
          let wrap : IsHome provider url ⊎ IsRegistered provider req url
              → IsHome provider url
                ⊎ ((req : AuthorizeRequest) × (resolve_authorize_request provider input ≡ some req)
                    × IsRegistered provider req url) =
            λ safe. elim safe [ inl home ↦ inl home | inr there ↦ inr (req, r, there) ] in
          elim (Option-cases (get_client provider.clients req.client_id)) [
            | inl k ↦
                inl (shown-IsHome provider "The client ID is invalid" url (ground (arith, r, k)))
            | inr (client, k) ↦
                let trusted = validate_authorize_params-trusted provider.clients req client k in
                elim (Option-cases (validate_authorize_params provider.clients req)) [
                  | inr (e, v) ↦ wrap (
                      invalid_answer_lem provider req client url e k
                        (elim trusted [ inl n ↦ inl (ground (arith, v, n)) | inr t ↦ inr t ])
                        (ground (arith, r, k, v)))
                  | inl v ↦ wrap (
                      with_client-IsSafe client provider req carried ticket now st url k
                        (elim trusted [ inl n ↦ absurd (ground (arith, v, n)) | inr t ↦ t ])
                        (ground (arith, r, k, v)))
                ]
          ]
    ]
