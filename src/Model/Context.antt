-- ===== src/Model/Context.antt =====
-- internal/model/context.go: the user that a request stands for. A nil pointer is `none`, and the
-- result `none` of an operation that dereferences one is a panic.
pub mod Laws
use tinyauth.Base.{
  ℕ, String, Bool, true, false, not, List, [], Option, none, some, Result, ok, err, ◌==◌,
  if◌then◌else◌,
}
use tinyauth.Text.{split}
use tinyauth.Model.{UserAttributes, empty_attributes, Session}

pub data ProviderType : Type 0 where
  provider_local provider_basic_auth provider_oauth provider_ldap provider_tailscale : ProviderType

pub record BaseContext : Type 0 where
  pub username : String
  pub name : String
  pub email : String

pub record LocalContext : Type 0 where
  pub base : BaseContext
  pub totp_pending : Bool
  pub attributes : UserAttributes

pub record OAuthContext : Type 0 where
  pub base : BaseContext
  pub groups : List String
  pub sub : String
  pub display_name : String
  pub id : String

pub record LdapContext : Type 0 where
  pub base : BaseContext
  pub groups : List String

pub record TailscaleContext : Type 0 where
  pub base : BaseContext
  pub user_id : String

pub record UserContext : Type 0 where
  pub authenticated : Bool
  pub provider : ProviderType
  pub auth_time : ℕ
  pub local : Option LocalContext
  pub oauth : Option OAuthContext
  pub ldap : Option LdapContext
  pub tailscale : Option TailscaleContext

-- `UserContext{}`.
abbrev pub empty_context : UserContext
empty_context = record {
  authenticated = false;
  provider = provider_local;
  auth_time = 0;
  local = none;
  oauth = none;
  ldap = none;
  tailscale = none;
}

abbrev pub is_some {ℓ} : {A : Type ℓ} → Option A → Bool
is_some none = false
is_some (some a) = true

-- The tests `IsLocal`, `IsOAuth`, … at a provider.
has_local : ProviderType → Option LocalContext → Bool
has_local provider_local c = is_some c
has_local _ c = false

has_basic_auth : ProviderType → Option LocalContext → Bool
has_basic_auth provider_basic_auth c = is_some c
has_basic_auth _ c = false

has_oauth : ProviderType → Option OAuthContext → Bool
has_oauth provider_oauth c = is_some c
has_oauth _ c = false

has_ldap : ProviderType → Option LdapContext → Bool
has_ldap provider_ldap c = is_some c
has_ldap _ c = false

has_tailscale : ProviderType → Option TailscaleContext → Bool
has_tailscale provider_tailscale c = is_some c
has_tailscale _ c = false

unfoldable pub is_local : UserContext → Bool
unfolding has_local
is_local c = has_local c.provider c.local

unfoldable pub is_basic_auth : UserContext → Bool
unfolding has_basic_auth
is_basic_auth c = has_basic_auth c.provider c.local

unfoldable pub is_oauth : UserContext → Bool
unfolding has_oauth
is_oauth c = has_oauth c.provider c.oauth

unfoldable pub is_ldap : UserContext → Bool
unfolding has_ldap
is_ldap c = has_ldap c.provider c.ldap

unfoldable pub is_tailscale : UserContext → Bool
unfolding has_tailscale
is_tailscale c = has_tailscale c.provider c.tailscale

pub data ContextError : Type 0 where
  context_not_found invalid_context_type incomplete_context : ContextError

-- What the request carries under the key "context": nothing, a value of another type or a nil
-- pointer, or a context.
pub data Carried : Type 0 where
  absent foreign : Carried
  carries : UserContext → Carried

unfoldable pub new_from_gin : Carried → Result ContextError UserContext
new_from_gin absent = err context_not_found
new_from_gin foreign = err invalid_context_type
new_from_gin (carries c) =
    if is_some c.ldap
    then ok c
    else (if is_some c.local
        then ok c
        else (if is_some c.oauth
            then ok c
            else (if is_some c.tailscale then ok c else err incomplete_context)))

abbrev pub session_base : Session → BaseContext
session_base s = record { username = s.username; name = s.name; email = s.email }

unfoldable pub new_from_session : Session → UserContext
new_from_session s =
    let start : UserContext = record empty_context {
      authenticated = not s.totp_pending;
      auth_time = s.created_at;
    } in
    if s.provider == "local"
    then record start {
      provider = provider_local;
      local = some (record {
        base = session_base s;
        totp_pending = s.totp_pending;
        attributes = empty_attributes;
      });
    }
    else (if s.provider == "ldap"
        then record start {
          provider = provider_ldap;
          ldap = some (record { base = session_base s; groups = [] });
        }
        else (if s.provider == "tailscale"
            then record start {
              provider = provider_tailscale;
              tailscale = some (record { base = session_base s; user_id = "" });
            }
            else record start {
              provider = provider_oauth;
              oauth = some (record {
                base = session_base s;
                groups = if s.oauth_groups == "" then [] else split b',' s.oauth_groups;
                sub = s.oauth_sub;
                display_name = s.oauth_name;
                id = s.provider;
              });
            }))

abbrev map_option {ℓ κ} : {A : Type ℓ} {B : Type κ} → (A → B) → Option A → Option B
map_option f none = none
map_option f (some a) = some (f a)

base_at : ProviderType → UserContext → Option BaseContext
base_at provider_local c = map_option (λ x. x.base) c.local
base_at provider_basic_auth c = map_option (λ x. x.base) c.local
base_at provider_ldap c = map_option (λ x. x.base) c.ldap
base_at provider_oauth c = map_option (λ x. x.base) c.oauth
base_at provider_tailscale c = map_option (λ x. x.base) c.tailscale

unfoldable pub get_base_context : UserContext → Option BaseContext
unfolding base_at
get_base_context c = base_at c.provider c

abbrev or_empty {ℓ} : {A : Type ℓ} → (A → String) → Option A → String
or_empty f none = ""
or_empty f (some a) = f a

unfoldable pub get_username : UserContext → String
get_username c = or_empty (λ b. b.username) (get_base_context c)

unfoldable pub get_email : UserContext → String
get_email c = or_empty (λ b. b.email) (get_base_context c)

unfoldable pub get_name : UserContext → String
get_name c = or_empty (λ b. b.name) (get_base_context c)

provider_id_at : ProviderType → Option OAuthContext → Option String
provider_id_at provider_basic_auth o = some "local"
provider_id_at provider_local o = some "local"
provider_id_at provider_ldap o = some "ldap"
provider_id_at provider_oauth o = map_option (λ x. x.id) o
provider_id_at provider_tailscale o = some "tailscale"

-- `none`: the provider is OAuth and its context is nil.
unfoldable pub get_provider_id : UserContext → Option String
unfolding provider_id_at
get_provider_id c = provider_id_at c.provider c.oauth

pending_at : ProviderType → Option LocalContext → Bool
pending_at provider_local (some l) = l.totp_pending
pending_at _ _ = false

unfoldable pub totp_pending : UserContext → Bool
unfolding pending_at
totp_pending c = pending_at c.provider c.local

oauth_name_at : ProviderType → Option OAuthContext → String
oauth_name_at provider_oauth (some o) = o.display_name
oauth_name_at _ _ = ""

unfoldable pub oauth_name : UserContext → String
unfolding oauth_name_at
oauth_name c = oauth_name_at c.provider c.oauth

unfoldable pub tailscale_node_name : UserContext → String
tailscale_node_name c = or_empty (λ t. t.base.username) c.tailscale
