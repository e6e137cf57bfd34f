-- ===== src/Controller/Context.antt =====
-- internal/controller/context_controller.go: `userContextHandler`.
pub mod Trust
use tinyauth.Base.{ℕ, String, Bool, false, Option, none, some, Result, ok, err}
use tinyauth.Model.Context.{
  UserContext, Carried, ContextError, new_from_gin, get_username, get_name, get_email,
  get_provider_id, is_oauth, oauth_name, totp_pending, tailscale_node_name,
}

pub record UcrAuth : Type 0 where
  pub authenticated : Bool
  pub username : String
  pub name : String
  pub email : String
  pub provider_id : String

-- The status is the one in the body, since the HTTP status is always 200. The parts `oauth`, `totp`
-- and `tailscale` have their fields here.
pub record UserContextResponse : Type 0 where
  pub status : ℕ
  pub message : String
  pub auth : UcrAuth
  pub oauth_active : Bool
  pub oauth_display_name : String
  pub totp_pending : Bool
  pub tailscale_node_name : String

abbrev pub unauthorized : UserContextResponse
unauthorized = record {
  status = 401;
  message = "Unauthorized";
  auth = record { authenticated = false; username = ""; name = ""; email = ""; provider_id = "" };
  oauth_active = false;
  oauth_display_name = "";
  totp_pending = false;
  tailscale_node_name = "";
}

shown : UserContext → Option String → Option UserContextResponse
shown context none = none
shown context (some provider_id) = some (record {
  status = 200;
  message = "Success";
  auth = record {
    authenticated = context.authenticated;
    username = get_username context;
    name = get_name context;
    email = get_email context;
    provider_id = provider_id;
  };
  oauth_active = is_oauth context;
  oauth_display_name = oauth_name context;
  totp_pending = totp_pending context;
  tailscale_node_name = tailscale_node_name context;
})

shown_for : Result ContextError UserContext → Option UserContextResponse
unfolding shown
shown_for (err e) = some unauthorized
shown_for (ok context) = shown context (get_provider_id context)

-- `none` is a panic.
unfoldable pub user_context_handler : Carried → Option UserContextResponse
unfolding shown_for
user_context_handler carried = shown_for (new_from_gin carried)
