-- ===== src/Tests/Policies.antt =====
-- internal/service: an app with lists, an OAuth user and an LDAP user.
use tinyauth.Base.{
  ◌≡◌, refl, ◌↔◌, ◌⊎◌, inl, true, false, [], ◌∷◌, none, some, ok, ◌==◌, if◌then◌else◌,
}
use tinyauth.Base.Dict.{lookup, has, HasDistinctKeys}
use tinyauth.Text.{trim_space, is_space, split, first_is, last_is}
use tinyauth.Model.{App, IpConfig}
use tinyauth.Model.Context.{
  UserContext, OAuthContext, LdapContext, provider_oauth, provider_ldap, empty_context,
}
use tinyauth.Utils.Filter.{Compile, Net, check_filter, check_items}
use tinyauth.Policy.{AclContext, Rule, PolicyEngine, policy_deny, effect_allow, evaluate}
use tinyauth.Policy.Engine.{evaluate-eq-true_iff}
use tinyauth.Policy.Rules.{user_allowed_rule, ip_allowed_rule}
use tinyauth.Policy.Rules.Users.{IsAllowed, user_allowed_rule_iff}
use tinyauth.Policy.Rules.Groups.{AnyPasses}
use tinyauth.Policy.Rules.Addresses.{Covers, blocked_ips, allowed_ips, ip_allowed_rule_iff}
use tinyauth.Policy.Apps.{get_access_controls, get_access_controls_lem}

abbrev pub literal : Compile
literal pattern = some (λ s. s == pattern)

-- Addresses are texts here, one number for a character.
abbrev pub net : Net
net = record {
  parse_ip = λ s. if s == "10.0.0.1" then 10 ∷ 0 ∷ 0 ∷ 1 ∷ [] else [];
  ip_string = λ ip. elim ip [ [] ↦ "" | _ ↦ "10.0.0.1" ];
  ip_equal = λ a b. elim a [ [] ↦ false | _ ↦ true ];
  parse_cidr = λ s. none;
}

abbrev pub ip_config : IpConfig
ip_config = record { allow = []; block = "10.0.0.1" ∷ []; bypass = [] }

abbrev pub app : App
app = record {
  config = record { domain = "wiki.example.com" };
  users = record { allow = ""; block = "" };
  oauth = record { whitelist = ""; groups = "staff" };
  ip = record { allow = []; block = []; bypass = [] };
  response = record {
    headers = [];
    basic_auth = record { username = ""; password = ""; password_file = "" };
  };
  path = record { allow = ""; block = "" };
  ldap = record { groups = "staff" };
}

abbrev oauth : OAuthContext
oauth = record {
  base = record { username = "carol"; name = "Carol"; email = "carol@example.com" };
  groups = "staff" ∷ [];
  sub = "s";
  display_name = "Pocket";
  id = "pocketid";
}

abbrev carol : UserContext
carol = record empty_context { authenticated = true; provider = provider_oauth; oauth = some oauth }

abbrev ldap : LdapContext
ldap = record {
  base = record { username = "dave"; name = "Dave"; email = "dave@example.com" };
  groups = "staff" ∷ [];
}

abbrev dave : UserContext
dave = record empty_context { authenticated = true; provider = provider_ldap; ldap = some ldap }

abbrev ctx : UserContext → AclContext
ctx user = record {
  acls = some app;
  user_context = some user;
  ip = 10 ∷ 0 ∷ 0 ∷ 1 ∷ [];
  path = "/";
}

abbrev always : Rule
always a = some effect_allow

abbrev engine : PolicyEngine
engine = record { rules = ("rule-user-allowed", always) ∷ []; policy = policy_deny }

user_allowed_rule_iff_example : (user_allowed_rule literal (ctx carol) ≡ some effect_allow) ↔ (
    (acls : App) × (user : UserContext) × (some app ≡ some acls)
    × (some carol ≡ some user)
    × IsAllowed literal acls user)
user_allowed_rule_iff_example = user_allowed_rule_iff literal (ctx carol)

staff : AnyPasses literal "staff" ("staff" ∷ [])
unfolding check_filter check_items trim_space is_space split first_is last_is
staff = AnyPasses.here refl

ip_allowed_rule_iff_example : (ip_allowed_rule net ip_config (ctx carol) ≡ some effect_allow) ↔ (
    (¬ Covers net "10.0.0.1" (blocked_ips ip_config (ctx carol)))
    × ((allowed_ips ip_config (ctx carol) ≡ [])
        ⊎ Covers net "10.0.0.1" (allowed_ips ip_config (ctx carol))))
ip_allowed_rule_iff_example = (ip_allowed_rule_iff net ip_config (ctx carol)).0

evaluate-eq-true_iff_example : evaluate engine "rule-user-allowed" (ctx carol) ≡ some true
unfolding lookup
evaluate-eq-true_iff_example =
    (evaluate-eq-true_iff engine "rule-user-allowed" (ctx carol)).1 (always, refl, inl refl)

one_app-HasDistinctKeys : HasDistinctKeys (("wiki", app) ∷ [])
unfolding has
one_app-HasDistinctKeys = (refl, tt)

get_access_controls_lem_example :
    get_access_controls (("wiki", app) ∷ []) none "wiki.example.com" ≡ ok (some app)
get_access_controls_lem_example =
    get_access_controls_lem (("wiki", app) ∷ []) none "wiki.example.com" one_app-HasDistinctKeys
