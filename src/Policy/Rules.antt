-- ===== src/Policy/Rules.antt =====
-- internal/service/access_controls_rules.go. `regexp` and `net` are the parameters `compile` and
-- `net`; a result `none` is a panic.
pub mod Groups
pub mod Addresses
pub mod Users
use tinyauth.Base.{
  String, Bool, true, false, not, ◌||◌, List, [], ◌∷◌, ◌++◌, Option, none, some, Result, ok, err,
  ◌==◌, ◌>>=◌, if◌then◌else◌,
}
use tinyauth.Text.{trim_space}
use tinyauth.Model.{App, IpConfig}
use tinyauth.Model.Context.{
  UserContext, ProviderType, provider_oauth, OAuthContext, is_oauth, is_ldap, get_username,
}
use tinyauth.Utils.Filter.{
  Compile, Net, Ip, FilterError, filter_empty, invalid_regex, check_filter, IpFilterError,
  check_ip_filter,
}
use tinyauth.Policy.{
  Effect, effect_abstain, effect_allow, effect_deny, AclContext, Rule, PolicyEngine, register_rule,
  rule_user_allowed, rule_oauth_group, rule_ldap_group, rule_auth_enabled, rule_ip_allowed,
  rule_ip_bypassed,
}

-- What the rule makes of a filter's answer: of the OAuth whitelist, the block list, the allow list.
abbrev by_whitelist : Result FilterError Bool → Effect
by_whitelist (err e) = effect_deny
by_whitelist (ok match) = if match then effect_allow else effect_deny

abbrev by_block : Result FilterError Bool → Effect
by_block (err e) = effect_deny
by_block (ok match) = if match then effect_deny else effect_allow

abbrev by_allow : Result FilterError Bool → Effect
by_allow (err filter_empty) = effect_abstain
by_allow (err invalid_regex) = effect_deny
by_allow (ok match) = if match then effect_allow else effect_deny

-- `model.OverrideProviders`.
abbrev pub is_override : String → Bool
is_override id = id == "google" || id == "github"

-- A path test: no pattern, a pattern that does not compile, or the answer of the match.
pub data PathTest : Type 0 where
  unset broken : PathTest
  answers : Bool → PathTest

abbrev run_compiled : Option (String → Bool) → String → PathTest
run_compiled none path = broken
run_compiled (some re) path = answers (re path)

allow_path : PathTest → Effect
allow_path unset = effect_deny
allow_path broken = effect_deny
allow_path (answers match) = if match then effect_allow else effect_deny

block_path : PathTest → PathTest → Effect
block_path unset allowed = allow_path allowed
block_path broken allowed = effect_deny
block_path (answers match) allowed = if not match then effect_allow else allow_path allowed

abbrev is_match : Result IpFilterError Bool → Bool
is_match (ok match) = match
is_match (err e) = false

abbrev pub app_ips : (App → List String) → Option App → List String
app_ips f none = []
app_ips f (some acls) = f acls

abbrev is_empty : List String → Bool
is_empty xs = elim xs [ [] ↦ true | _ ↦ false ]

module _ (compile : Compile) where
  -- `ctx.UserContext.OAuth.Email` panics where the OAuth context is nil.
  check_whitelist : App → Option OAuthContext → Option Effect
  check_whitelist acls none = none
  check_whitelist acls (some oauth) = do
    answer ← check_filter compile acls.oauth.whitelist oauth.base.email
    some (by_whitelist answer)

  check_users : App → String → Option Effect
  check_users acls username =
      if not (acls.users.block == "")
      then (do answer ← check_filter compile acls.users.block username; some (by_block answer))
      else (do answer ← check_filter compile acls.users.allow username; some (by_allow answer))

  user_allowed_at : ProviderType → App → UserContext → Option Effect
  user_allowed_at provider_oauth acls user = check_whitelist acls user.oauth
  user_allowed_at _ acls user = check_users acls (get_username user)

  user_allowed_of : Option App → Option UserContext → Option Effect
  user_allowed_of acls none = some effect_deny
  user_allowed_of none (some user) = some effect_abstain
  user_allowed_of (some acls) (some user) = user_allowed_at user.provider acls user

  unfoldable pub user_allowed_rule : Rule
  unfolding user_allowed_of user_allowed_at check_users check_whitelist
  user_allowed_rule ctx = user_allowed_of ctx.acls ctx.user_context

  -- The loop over the user's groups.
  unfoldable pub check_groups : String → List String → Option Effect
  check_groups filter [] = some effect_deny
  check_groups filter (group ∷ groups) =
      let rest = check_groups filter groups in
      elim (check_filter compile filter (trim_space group)) [
        | none ↦ none
        | some (err e) ↦ some effect_deny
        | some (ok match) ↦ if match then some effect_allow else rest
      ]

  oauth_groups_of : App → Option OAuthContext → Option Effect
  oauth_groups_of acls none = none
  oauth_groups_of acls (some oauth) =
      if is_override oauth.id
      then some effect_allow
      else check_groups acls.oauth.groups oauth.groups

  oauth_group_of : Option App → Option UserContext → Option Effect
  oauth_group_of acls none = some effect_deny
  oauth_group_of none (some user) = some effect_allow
  oauth_group_of (some acls) (some user) =
      if not (is_oauth user)
      then some effect_allow
      else (if acls.oauth.groups == "" then some effect_allow else oauth_groups_of acls user.oauth)

  unfoldable pub oauth_group_rule : Rule
  unfolding oauth_group_of oauth_groups_of
  oauth_group_rule ctx = oauth_group_of ctx.acls ctx.user_context

  ldap_group_of : Option App → Option UserContext → Option Effect
  ldap_group_of acls none = some effect_deny
  ldap_group_of none (some user) = some effect_allow
  ldap_group_of (some acls) (some user) =
      if not (is_ldap user)
      then some effect_allow
      else (if acls.ldap.groups == "" then some effect_allow else elim user.ldap [
        | none ↦ none
        | some ldap ↦ check_groups acls.ldap.groups ldap.groups
      ])

  unfoldable pub ldap_group_rule : Rule
  unfolding ldap_group_of
  ldap_group_rule ctx = ldap_group_of ctx.acls ctx.user_context

  abbrev test_path : String → String → PathTest
  test_path pattern path = if pattern == "" then unset else run_compiled (compile pattern) path

  auth_enabled_of : Option App → String → Option Effect
  auth_enabled_of none path = some effect_deny
  auth_enabled_of (some acls) path =
      some (block_path (test_path acls.path.block path) (test_path acls.path.allow path))

  -- The rule allows where authentication is disabled for the path.
  unfoldable pub auth_enabled_rule : Rule
  unfolding auth_enabled_of block_path allow_path
  auth_enabled_rule ctx = auth_enabled_of ctx.acls ctx.path

module _ (net : Net) where
  -- The loops over a list of addresses: an entry that cannot be read is passed over.
  unfoldable pub matches_ip : List String → String → Bool
  matches_ip [] ip = false
  matches_ip (item ∷ items) ip = is_match (check_ip_filter net item ip) || matches_ip items ip

  unfoldable pub decide_ip : List String → List String → String → Effect
  decide_ip blocked allowed ip =
      if matches_ip blocked ip
      then effect_deny
      else (if matches_ip allowed ip
          then effect_allow
          else (if is_empty allowed then effect_allow else effect_deny))

  unfoldable pub ip_allowed_rule : IpConfig → Rule
  unfolding decide_ip
  ip_allowed_rule config ctx = some (
      decide_ip (config.block ++ app_ips (λ a. a.ip.block) ctx.acls)
        (config.allow ++ app_ips (λ a. a.ip.allow) ctx.acls) (net.ip_string ctx.ip))

  unfoldable pub ip_bypassed_rule : IpConfig → Rule
  ip_bypassed_rule config ctx = some (
      if matches_ip (config.bypass ++ app_ips (λ a. a.ip.bypass) ctx.acls) (net.ip_string ctx.ip)
      then effect_allow
      else effect_deny)

-- internal/bootstrap/service_bootstrap.go: the rules that the application registers.
unfoldable pub setup_policy_engine : Compile → Net → IpConfig → PolicyEngine → PolicyEngine
setup_policy_engine compile net config engine =
    register_rule rule_ip_bypassed (ip_bypassed_rule net config) (
      register_rule rule_ip_allowed (ip_allowed_rule net config) (
        register_rule rule_auth_enabled (auth_enabled_rule compile) (
          register_rule rule_ldap_group (ldap_group_rule compile) (
            register_rule rule_oauth_group (oauth_group_rule compile)
              (register_rule rule_user_allowed (user_allowed_rule compile) engine)))))
