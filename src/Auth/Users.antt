-- ===== src/Auth/Users.antt =====
-- internal/service/auth_service.go: who a user is and which emails are let in. LDAP and bcrypt are
-- parameters.
pub mod Passwords
use tinyauth.Base.{
  ℕ, ◌*◌, ◌≡◌, refl, ◌≢◌, ◌↔◌, ◌⊎◌, inl, inr, String, Bool, true, false, not, ◌&&◌, List, [], ◌∷◌,
  Option, none, some, Result, ok, err, ◌==◌, eq_iff, if◌then◌else◌, arith, ◌≤◌, ◌+◌, leb,
  Option-cases, sym,
}
use tinyauth.Base.Dict.{lookup}
use tinyauth.Text.{join}
use tinyauth.Model.{LocalUser, LdapUser, UserSearchType, user_local, user_ldap, UserSearch}
use tinyauth.Utils.Filter.{Compile, FilterError, filter_empty, invalid_regex, check_filter}
use tinyauth.Policy.{PolicyEngine, Effect, effect_abstain, effect_allow, effect_deny, evaluate_func}
use tinyauth.Cache.{CacheStore, get_callback, set_callback}
use tinyauth.Auth.{second, AuthConfig}
use mathlib.Core.Path.{subst}

-- The calls of `LdapService`: `GetUserInfo` (the DN and the email), `Bind`, `BindService` and
-- `GetUserGroups`; `none` and `false` are errors.
pub record Ldap : Type 0 where
  pub get_user_info : String → Option (String × String)
  pub bind : String → String → Bool
  pub bind_service : Bool → Bool
  pub get_user_groups : String → Option (List String)

pub data UserFault : Type 0 where
  user_not_found ldap_failed wrong_password not_bound service_not_bound authentication_failed
        ldap_not_configured :
      UserFault

unfoldable pub get_local_user : List LocalUser → String → Option LocalUser
get_local_user [] username = none
get_local_user (user ∷ users) username =
    if user.username == username then some user else get_local_user users username

search_ldap : Option Ldap → String → Result UserFault UserSearch
search_ldap none username = err user_not_found
search_ldap (some ldap) username = elim (ldap.get_user_info username) [
  | none ↦ err ldap_failed
  | some (dn, email) ↦ ok (record { username = dn; email = email; search_type = user_ldap })
]

search_from : Option LocalUser → Option Ldap → String → Result UserFault UserSearch
unfolding search_ldap
search_from (some user) ldap username =
    ok (record { username = username; email = ""; search_type = user_local })
search_from none ldap username = search_ldap ldap username

unfoldable pub search_user : List LocalUser → Option Ldap → String → Result UserFault UserSearch
unfolding search_from
search_user users ldap username = search_from (get_local_user users username) ldap username

-- `bcrypt.CompareHashAndPassword` is the parameter `compare`; no fault is `none`.
check_local : (String → String → Bool) → Option LocalUser → String → Option UserFault
check_local compare none password = some user_not_found
check_local compare (some user) password =
    if compare user.password password then none else some wrong_password

check_ldap : Option Ldap → String → String → Option UserFault
check_ldap none dn password = some authentication_failed
check_ldap (some ldap) dn password =
    if not (ldap.bind dn password)
    then some not_bound
    else (if not (ldap.bind_service true) then some service_not_bound else none)

check_type :
    UserSearchType
    → (String → String → Bool)
    → List LocalUser
    → Option Ldap
    → String
    → String
    → Option UserFault
unfolding check_local check_ldap
check_type user_local compare users ldap name password =
    check_local compare (get_local_user users name) password
check_type user_ldap compare users ldap name password = check_ldap ldap name password

unfoldable pub check_user_password :
    (String → String → Bool) → List LocalUser → Option Ldap → UserSearch → String → Option UserFault
unfolding check_type
check_user_password compare users ldap search password =
    check_type search.search_type compare users ldap search.username password

-- The cache of the groups.
ask_groups :
    Option (List String)
    → AuthConfig
    → String
    → ℕ
    → CacheStore (List String)
    → Result UserFault LdapUser × CacheStore (List String)
ask_groups none config dn now cache = (err ldap_failed, cache)
ask_groups (some groups) config dn now cache = (
  ok (record { dn = dn; groups = groups }),
  set_callback dn groups (config.group_cache_ttl * second) now cache,
)

ldap_user_of :
    Option (List String)
    → Ldap
    → AuthConfig
    → String
    → ℕ
    → CacheStore (List String)
    → Result UserFault LdapUser × CacheStore (List String)
unfolding ask_groups
ldap_user_of (some groups) ldap config dn now cache =
    (ok (record { dn = dn; groups = groups }), cache)
ldap_user_of none ldap config dn now cache =
    ask_groups (ldap.get_user_groups dn) config dn now cache

unfoldable pub get_ldap_user :
    Option Ldap
    → AuthConfig
    → String
    → ℕ
    → CacheStore (List String)
    → Result UserFault LdapUser × CacheStore (List String)
unfolding ldap_user_of
get_ldap_user none config dn now cache = (err ldap_not_configured, cache)
get_ldap_user (some ldap) config dn now cache =
    ldap_user_of (get_callback dn now cache) ldap config dn now cache

own_whitelist : Option (List String) → List String → List String
own_whitelist none whitelist = whitelist
own_whitelist (some []) whitelist = whitelist
own_whitelist (some (item ∷ items)) whitelist = item ∷ items

email_effect : Option (Result FilterError Bool) → Option Effect
email_effect none = none
email_effect (some (err filter_empty)) = some effect_abstain
email_effect (some (err invalid_regex)) = some effect_deny
email_effect (some (ok match)) = some (if match then effect_allow else effect_deny)

-- The whitelists of the providers, by their id; `none` is a panic.
unfoldable pub is_email_whitelisted :
    Compile
    → PolicyEngine
    → List String
    → List (String × List String)
    → String
    → String
    → Option Bool
unfolding own_whitelist email_effect
is_email_whitelisted compile engine whitelist providers provider email = evaluate_func engine (
    email_effect
      (check_filter compile (join "," (own_whitelist (lookup provider providers) whitelist)) email))
