-- ===== src/Controller/Oidc/Complete/Codes.antt =====
-- internal/controller/oidc_controller.go: the code that `authorizeComplete` leaves.
use Prim.Native.String.{◌++◌}
use tinyauth.Base.{
  ℕ, ◌+◌, ◌*◌, String, ◌≡◌, refl, ◌∙◌, eq_refl, true, if◌then◌else◌, leb, none, some, ok, arith,
}
use tinyauth.Model.Context.{UserContext, Carried, new_from_gin}
use tinyauth.Auth.{second}
use tinyauth.Oidc.{
  Caches, AuthorizeRequest, AuthorizeCodeEntry, UserinfoResponse, userinfo_from_context, create_sub,
  code_entry, create_code, get_code_entry, get_authorize_request_by_ticket,
  delete_authorize_request_ticket,
}
use tinyauth.Oidc.Tokens.{delete_old_session}
use tinyauth.Oidc.Codes.{create_code-made, get_code_entry-create_code}
use tinyauth.Controller.Oidc.{Provider, OidcState, json_redirect}
use tinyauth.Controller.Oidc.Complete.{
  authorize_complete, with_user, with_ticket, make_code, code_answer,
}

-- A user who is logged in, with all details, answers for a ticket that is still there.
pub record Consents (carried : Carried) (provider : Provider) (ticket : String) (now : ℕ)
    (st : OidcState) : Type 0 where
  pub user : UserContext
  pub request : AuthorizeRequest
  pub info : UserinfoResponse
  pub present : new_from_gin carried ≡ ok user
  pub signed_in : user.authenticated ≡ true
  pub detailed :
      userinfo_from_context user (create_sub provider.digests user request.client_id) now
      ≡ some info
  pub held : get_authorize_request_by_ticket ticket now st.caches ≡ some request

-- The entry that the code stands for.
abbrev pub granted :
    {carried : Carried} {provider : Provider} {ticket : String} {now : ℕ} {st : OidcState}
    → Consents carried provider ticket now st
    → String
    → AuthorizeCodeEntry
granted {provider = provider} c code = code_entry provider.digests c.request c.user code c.info

authorize_complete-made :
    (carried : Carried) (ticket code query : String) (provider : Provider) (now : ℕ)
    (st : OidcState) (after : Caches)
    → (c : Consents carried provider ticket now st)
    → provider.callback_query code c.request.state ≡ some query
    → create_code provider.digests c.request c.user code now
        (delete_authorize_request_ticket ticket st.caches)
      ≡ some after
    → authorize_complete carried (some ticket) provider code now st ≡ (
      some (json_redirect (c.request.redirect_uri ++ ("?" ++ query))),
      record {
        caches = after;
        rows = delete_old_session (create_sub provider.digests c.user c.request.client_id) st.rows;
      },
    )
unfolding authorize_complete with_user with_ticket make_code code_answer
authorize_complete-made carried ticket code query provider now st after c q made =
    rw (c.present, c.held, with_ticket, made, make_code, code_answer, q)
      (ground (arith, c.signed_in))

-- The old session of the user with the client is deleted, and the code is good for one minute, for
-- the client that asked.
pub authorize_complete-granted :
    (carried : Carried) (ticket code query : String) (provider : Provider) (now : ℕ)
    (st : OidcState)
    → (c : Consents carried provider ticket now st)
    → provider.callback_query code c.request.state ≡ some query
    → let (answer, st') = authorize_complete carried (some ticket) provider code now st in
      (answer ≡ some (json_redirect (c.request.redirect_uri ++ ("?" ++ query))))
      × (st'.rows
          ≡ delete_old_session (create_sub provider.digests c.user c.request.client_id) st.rows)
      × ((later : ℕ)
          → (get_code_entry (provider.digests.hash code) c.request.client_id later st'.caches).0
            ≡ (if leb later (now + 60 * second) then some (granted c code) else none))
authorize_complete-granted carried ticket code query provider now st c q =
    let client = c.request.client_id in
    let before = delete_authorize_request_ticket ticket st.caches in
    let (after, made) =
      create_code-made provider.digests c.request c.user code now before c.info c.detailed in
    rw (authorize_complete-made carried ticket code query provider now st after c q made) (
      refl,
      refl,
      λ later.
          (get_code_entry-create_code provider.digests c.request c.user code client client now later
            later before after c.info c.detailed made (omega arith)).0
          ∙ rw (eq_refl client) refl,
    )
