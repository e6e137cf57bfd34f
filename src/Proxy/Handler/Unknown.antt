-- ===== src/Proxy/Handler/Unknown.antt =====
-- internal/controller/proxy_controller.go with the rules that internal/bootstrap registers: a host
-- that no app and no label knows.
use tinyauth.Base.{
  String, ◌≡◌, refl, ◌↔◌, ◌⊎◌, inl, inr, true, false, [], none, some, ok, arith, Bool-cases, sym,
}
use tinyauth.Base.Dict.{lookup, insert}
use tinyauth.Model.{IpConfig}
use tinyauth.Model.Context.{UserContext, Carried, new_from_gin}
use tinyauth.Utils.Filter.{Compile, Net}
use tinyauth.Policy.{
  Policy, policy_allow, AclContext, PolicyEngine, evaluate, evaluate_rule_by_name, effect_to_access,
  register_rule, rule_user_allowed, rule_oauth_group, rule_ldap_group, rule_auth_enabled,
  rule_ip_allowed, rule_ip_bypassed, effect_allow,
}
use tinyauth.Policy.Rules.{
  matches_ip, decide_ip, ip_allowed_rule, ip_bypassed_rule, auth_enabled_rule, user_allowed_rule,
  oauth_group_rule, ldap_group_rule, setup_policy_engine,
}
use tinyauth.Policy.Apps.{get_access_controls}
use tinyauth.Proxy.{Request, ProxyContext, get_proxy_context}
use tinyauth.Proxy.Handler.{Calls, ProxyController, acls_context, proxy_handler}
use tinyauth.Proxy.Handler.Access.{
  is_accepted, IsPermitted, bypassed, auth_disabled, logged_in, proxy_handler-is_accepted_iff,
}
use mathlib.Core.List.{append-nil}
use tinyauth.Policy.Rules.Addresses.{
  Covers, matches_ip-Covers, Covers-matches_ip, decide_ip-Covers, Covers-decide_ip,
}

-- The engine that the application starts with.
abbrev pub started : Compile → Net → IpConfig → Policy → PolicyEngine
started compile net config policy =
    setup_policy_engine compile net config (record { rules = []; policy = policy })

module _ (compile : Compile) (net : Net) (config : IpConfig) (policy : Policy)
    (a : AclContext) where
  started-bypassed :
      a.acls ≡ none
      → evaluate (started compile net config policy) rule_ip_bypassed a
        ≡ some (matches_ip net config.bypass (net.ip_string a.ip))
  unfolding setup_policy_engine register_rule insert lookup evaluate evaluate_rule_by_name
      effect_to_access ip_bypassed_rule
  started-bypassed e = rw (e, append-nil config.bypass) (ground arith)

  started-auth_enabled :
      a.acls ≡ none → evaluate (started compile net config policy) rule_auth_enabled a ≡ some false
  unfolding setup_policy_engine register_rule insert lookup evaluate evaluate_rule_by_name
      effect_to_access auth_enabled_rule
  started-auth_enabled e = rw e refl

  started-ip_allowed :
      a.acls ≡ none
      → (evaluate (started compile net config policy) rule_ip_allowed a ≡ some true)
        ↔ (decide_ip net config.block config.allow (net.ip_string a.ip) ≡ effect_allow)
  unfolding setup_policy_engine register_rule insert lookup evaluate evaluate_rule_by_name
      effect_to_access ip_allowed_rule decide_ip
  started-ip_allowed e = rw (e, append-nil config.block, append-nil config.allow) (ground arith)

  started-user_allowed :
      (user : UserContext)
      → a.acls ≡ none
      → a.user_context ≡ some user
      → (evaluate (started compile net config policy) rule_user_allowed a ≡ some true)
        ↔ (policy ≡ policy_allow)
  unfolding setup_policy_engine register_rule insert lookup evaluate evaluate_rule_by_name
      effect_to_access user_allowed_rule
  started-user_allowed user e u = rw (e, u) (ground arith)

  started-groups :
      (user : UserContext)
      → a.acls ≡ none
      → a.user_context ≡ some user
      → (evaluate (started compile net config policy) rule_oauth_group a ≡ some true)
        × (evaluate (started compile net config policy) rule_ldap_group a ≡ some true)
  unfolding setup_policy_engine register_rule insert lookup evaluate evaluate_rule_by_name
      effect_to_access oauth_group_rule ldap_group_rule
  started-groups user e u = rw (e, u) (refl, refl)

-- What it takes where nothing is known of the host: a bypassed address or, under the policy
-- "allow", an authenticated user at an address that is allowed.
abbrev pub IsLetIn : Net → IpConfig → Policy → String → Carried → Type 0
IsLetIn net config policy ip carried =
    Covers net ip config.bypass
    ⊎ ((policy ≡ policy_allow)
        × (¬ Covers net ip config.block)
        × ((config.allow ≡ []) ⊎ Covers net ip config.allow)
        × (user : UserContext) × (new_from_gin carried ≡ ok user)
        × (user.authenticated ≡ true))

module _ (compile : Compile) (net : Net) (config : IpConfig) (policy : Policy) (a : AclContext)
    (carried : Carried) where
  IsPermitted-IsLetIn :
      a.acls ≡ none
      → IsPermitted (started compile net config policy) a carried
      → IsLetIn net config policy (net.ip_string a.ip) carried
  IsPermitted-IsLetIn e (bypassed h) =
      inl
        (matches_ip-Covers net _ _ (ground (arith, started-bypassed compile net config policy a e)))
  IsPermitted-IsLetIn e (auth_disabled h k) =
      absurd (ground (arith, started-auth_enabled compile net config policy a e))
  IsPermitted-IsLetIn e (logged_in user h k g p auth u o l) =
      let (not_blocked, allowed) =
        decide_ip-Covers net _ _ _ ((started-ip_allowed compile net config policy a e).0 g) in
      inr (
        (started-user_allowed compile net config policy (record a { user_context = some user }) user
              e refl).0
            u,
        not_blocked,
        allowed,
        user,
        p,
        auth,
      )

  IsLetIn-IsPermitted :
      a.acls ≡ none
      → IsLetIn net config policy (net.ip_string a.ip) carried
      → IsPermitted (started compile net config policy) a carried
  IsLetIn-IsPermitted e (inl c) =
      bypassed (rw (started-bypassed compile net config policy a e, Covers-matches_ip c) refl)
  IsLetIn-IsPermitted e (inr (pol, not_blocked, allowed, user, p, auth)) =
      let known = started-bypassed compile net config policy a e in
      let with_user : AclContext = record a { user_context = some user } in
      let groups = started-groups compile net config policy with_user user e refl in
      elim (Bool-cases (matches_ip net config.bypass (net.ip_string a.ip))) [
        | inl m ↦ bypassed (rw (known, m) refl)
        | inr m ↦
            logged_in user (rw (known, m) refl) (started-auth_enabled compile net config policy a e)
              ((started-ip_allowed compile net config policy a e).1
                (Covers-decide_ip net _ _ _ not_blocked allowed))
              p auth ((started-user_allowed compile net config policy with_user user e refl).1 pol)
              (inr groups.0) (inr groups.1)
      ]

-- With the rules that the application registers, a request to a host that no app and no label
-- knows is answered with 200 exactly if its address is bypassed or, under the policy "allow" only,
-- its address is allowed and its user is authenticated.
pub proxy_handler-unknown_iff :
    (compile : Compile) (config : IpConfig) (policy : Policy) (calls : Calls) (net : Net)
    (controller : ProxyController) (c : Request) (ctx : ProxyContext)
    → controller.policy_engine ≡ started compile net config policy
    → get_proxy_context calls.parse_url c ≡ ok ctx
    → get_access_controls controller.apps controller.labels ctx.host ≡ ok none
    → (is_accepted (proxy_handler calls net controller c) ≡ true)
      ↔ IsLetIn net config policy (net.ip_string (net.parse_ip c.client_ip)) c.user
proxy_handler-unknown_iff compile config policy calls net controller c ctx engine found got =
    let (there, back) = proxy_handler-is_accepted_iff calls net controller c ctx none found got in
    let a = acls_context calls net controller c ctx none in
    (
      λ h. IsPermitted-IsLetIn compile net config policy a c.user refl (rw (sym engine) (there h)),
      λ i. back (rw engine (IsLetIn-IsPermitted compile net config policy a c.user refl i)),
    )
