-- ===== src/Controller/Oidc/Complete.antt =====
-- internal/controller/oidc_controller.go: `authorizeComplete`, which makes the code.
pub mod Codes
use Prim.Native.String.{◌++◌}
use tinyauth.Base.{ℕ, String, true, Option, none, some, Result, ok, err, if◌then◌else◌}
use tinyauth.Model.Context.{UserContext, Carried, ContextError, new_from_gin}
use tinyauth.Oidc.{
  Caches, AuthorizeRequest, create_sub, create_code, get_authorize_request_by_ticket,
  delete_authorize_request_ticket,
}
use tinyauth.Oidc.Tokens.{delete_old_session}
use tinyauth.Controller.Oidc.{Provider, OidcState, OidcAnswer, json_redirect, authorize_error}

abbrev pub complete_error : Provider → String → OidcAnswer
complete_error provider reason =
    authorize_error provider provider.issuer (record {
      reason_public = reason;
      callback = "";
      callback_error = "";
      state = "";
      json = true;
    })

code_answer : Provider → AuthorizeRequest → String → OidcAnswer
code_answer provider req code = elim (provider.callback_query code req.state) [
  | none ↦ authorize_error provider provider.issuer (record {
    reason_public = "Failed to build query";
    callback = req.redirect_uri;
    callback_error = "server_error";
    state = req.state;
    json = true;
  })
  | some query ↦ json_redirect (req.redirect_uri ++ ("?" ++ query))
]

make_code :
    Option Caches → Provider → AuthorizeRequest → String → OidcState → Option OidcAnswer × OidcState
unfolding code_answer
make_code none provider req code st = (none, st)
make_code (some caches) provider req code st =
    (some (code_answer provider req code), record st { caches = caches })

-- The store in memory deletes old sessions without an error.
with_ticket :
    Option AuthorizeRequest
    → String
    → UserContext
    → Provider
    → String
    → ℕ
    → OidcState
    → Option OidcAnswer × OidcState
unfolding make_code
with_ticket none ticket user provider code now st =
    (some (complete_error provider "The authorization request has expired or is invalid"), st)
with_ticket (some req) ticket user provider code now st =
    let rows = delete_old_session (create_sub provider.digests user req.client_id) st.rows in
    let caches = delete_authorize_request_ticket ticket st.caches in
    make_code (create_code provider.digests req user code now caches) provider req code
      (record { caches = caches; rows = rows })

with_user :
    Result ContextError UserContext
    → Option String
    → Provider
    → String
    → ℕ
    → OidcState
    → Option OidcAnswer × OidcState
unfolding with_ticket
with_user (err e) body provider code now st =
    (some (complete_error provider "The user is not logged in"), st)
with_user (ok user) none provider code now st =
    if user.authenticated
    then (some (complete_error provider "The client provided an invalid authorization request"), st)
    else (some (complete_error provider "The user is not logged in"), st)
with_user (ok user) (some ticket) provider code now st =
    let done =
      with_ticket (get_authorize_request_by_ticket ticket now st.caches) ticket user provider code
        now st in
    if user.authenticated
    then done
    else (some (complete_error provider "The user is not logged in"), st)

-- `authorizeComplete`: the ticket in the body, `none` if it cannot be read; the code is random. The
-- answer `none` is a panic.
unfoldable pub authorize_complete :
    Carried → Option String → Provider → String → ℕ → OidcState → Option OidcAnswer × OidcState
unfolding with_user
authorize_complete carried body provider code now st =
    with_user (new_from_gin carried) body provider code now st
