-- ===== src/Controller/Context/Trust.antt =====
-- internal/controller/context_controller.go: who is shown as logged in.
use tinyauth.Base.{
  Result, Bool, ℕ, String, ◌≡◌, refl, ◌∙◌, ap, ◌⊎◌, true, false, Option, none, some, ok, err, arith,
}
use tinyauth.Model.Context.{
  UserContext, Carried, absent, foreign, carries, new_from_gin, get_provider_id, ContextError,
}
use tinyauth.Store.{SessionStore}
use tinyauth.Auth.Service.{Services, AuthState}
use tinyauth.Middleware.{Request, Outcome, middleware}
use tinyauth.Middleware.Trust.{HasSession, HasPassword, middleware-IsTrusted}
use tinyauth.Controller.Context.{UserContextResponse, shown, shown_for, user_context_handler}

-- The field of a response, or false without one.
abbrev is_shown : Option UserContextResponse → Bool
is_shown none = false
is_shown (some response) = response.auth.authenticated

is_shown-shown :
    (c : UserContext) (provider_id : Option String)
    → is_shown (shown c provider_id) ≡ true
    → c.authenticated ≡ true
unfolding shown
is_shown-shown c none h = absurd (ground (arith, h))
is_shown-shown c (some provider_id) h = h

is_shown-shown_for :
    (r : Result ContextError UserContext)
    → is_shown (shown_for r) ≡ true
    → (c : UserContext) × (r ≡ ok c) × (c.authenticated ≡ true)
unfolding shown_for
is_shown-shown_for (err e) h = absurd (ground (arith, h))
is_shown-shown_for (ok c) h = (c, refl, is_shown-shown c (get_provider_id c) h)

new_from_gin-carries :
    (carried : Carried) (c : UserContext) → new_from_gin carried ≡ ok c → carried ≡ carries c
unfolding new_from_gin
new_from_gin-carries absent c h = absurd (ground (arith, h))
new_from_gin-carries foreign c h = absurd (ground (arith, h))
new_from_gin-carries (carries d) c h = ap carries (ground (arith, h))

user_context_handler-carries :
    (carried : Carried) (response : UserContextResponse)
    → user_context_handler carried ≡ some response
    → response.auth.authenticated ≡ true
    → (c : UserContext) × (carried ≡ carries c) × (c.authenticated ≡ true)
unfolding user_context_handler
user_context_handler-carries carried response h t =
    let (c, made, on) = is_shown-shown_for (new_from_gin carried) (ap is_shown h ∙ t) in
    (c, new_from_gin-carries carried c made, on)

-- The frontend is told that a user is logged in only on a request with the cookie of a session that
-- is stored, current and past its second factor, or with the right name and password of an account
-- that is not locked.
pub user_context_handler-middleware :
    (store : SessionStore) (req : Request) (svc : Services) (now : ℕ)
    (st : AuthState (SessionStore.State store)) (o : Outcome) (response : UserContextResponse)
    → (middleware store req svc now st).0 ≡ some o
    → user_context_handler o.context ≡ some response
    → response.auth.authenticated ≡ true
    → ((uuid : String) × (req.session_cookie ≡ some uuid)
        × HasSession store svc uuid now st.sessions)
      ⊎ ((username : String) × (password : String) × (req.basic_auth ≡ some (username, password))
          × HasPassword svc username password now st)
user_context_handler-middleware store req svc now st o response m h t =
    let (c, carried, on) = user_context_handler-carries o.context response h t in
    middleware-IsTrusted store req svc now st o c m carried on
