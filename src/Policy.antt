-- ===== src/Policy.antt =====
-- internal/service/policy_engine.go: rules by name, and the default for a rule that abstains.
pub mod Rules
pub mod Engine
pub mod Apps
use tinyauth.Base.{
  String, Bool, true, false, List, [], ◌∷◌, Option, none, some, Result, ok, err, ◌==◌, ◌>>=◌,
  if◌then◌else◌,
}
use tinyauth.Base.Dict.{lookup, insert}
use tinyauth.Model.{App}
use tinyauth.Model.Context.{UserContext}
use tinyauth.Utils.Filter.{Ip}

pub data Policy : Type 0 where
  policy_allow policy_deny : Policy

pub data Effect : Type 0 where
  effect_abstain effect_allow effect_deny : Effect

pub record AclContext : Type 0 where
  pub acls : Option App
  pub user_context : Option UserContext
  pub ip : Ip
  pub path : String

-- `none` is a panic of the rule.
abbrev pub Rule : Type 0
Rule = AclContext → Option Effect

abbrev pub rule_user_allowed : String
rule_user_allowed = "rule-user-allowed"

abbrev pub rule_oauth_group : String
rule_oauth_group = "rule-oauth-group"

abbrev pub rule_ldap_group : String
rule_ldap_group = "rule-ldap-group"

abbrev pub rule_auth_enabled : String
rule_auth_enabled = "rule-auth-enabled"

abbrev pub rule_ip_allowed : String
rule_ip_allowed = "rule-ip-allowed"

abbrev pub rule_ip_bypassed : String
rule_ip_bypassed = "rule-ip-bypassed"

pub record PolicyEngine : Type 0 where
  pub rules : List (String × Rule)
  pub policy : Policy

-- The error holds the policy that the configuration names.
unfoldable pub new_policy_engine : String → Result String PolicyEngine
new_policy_engine policy =
    if policy == "allow"
    then ok (record { rules = []; policy = policy_allow })
    else (if policy == "deny" then ok (record { rules = []; policy = policy_deny }) else err policy)

unfoldable pub register_rule : String → Rule → PolicyEngine → PolicyEngine
register_rule name rule engine = record engine { rules = insert name rule engine.rules }

evaluate_found : Option Rule → AclContext → Option Effect
evaluate_found none ctx = some effect_deny
evaluate_found (some rule) ctx = rule ctx

unfoldable pub evaluate_rule_by_name : PolicyEngine → String → AclContext → Option Effect
unfolding evaluate_found
evaluate_rule_by_name engine name ctx = evaluate_found (lookup name engine.rules) ctx

access_by_policy : Policy → Bool
access_by_policy policy_allow = true
access_by_policy policy_deny = false

unfoldable pub effect_to_access : PolicyEngine → Effect → Bool
unfolding access_by_policy
effect_to_access engine effect_allow = true
effect_to_access engine effect_deny = false
effect_to_access engine effect_abstain = access_by_policy engine.policy

unfoldable pub evaluate : PolicyEngine → String → AclContext → Option Bool
evaluate engine name ctx = do
  effect ← evaluate_rule_by_name engine name ctx
  some (effect_to_access engine effect)

unfoldable pub evaluate_func : PolicyEngine → Option Effect → Option Bool
evaluate_func engine f = do effect ← f; some (effect_to_access engine effect)
