-- ===== src/Proxy/Handler/Access.antt =====
-- internal/controller/proxy_controller.go: who is let through by `proxyHandler`.
use tinyauth.Base.{
  ℕ, String, ◌≡◌, refl, ◌↔◌, inl, inr, Bool, true, false, Option, none, some, ok, arith, Bool-cases,
  nat_eq, Result-cases, Option-cases, sym, ◌⊎◌,
}
use tinyauth.Model.Context.{
  UserContext, Carried, is_oauth, is_ldap, is_some, new_from_gin, get_base_context,
}
use tinyauth.Utils.Filter.{Net}
use tinyauth.Policy.{
  AclContext, PolicyEngine, evaluate, rule_user_allowed, rule_oauth_group, rule_ldap_group,
  rule_auth_enabled, rule_ip_allowed, rule_ip_bypassed,
}
use tinyauth.Proxy.{ProxyContext, use_browser_response, Request, get_proxy_context}
use tinyauth.Proxy.Handler.{
  Calls, ProxyController, json, redirect, Response, Values, answer, answer_page, handle_error,
  remote_headers, group_ok, check_user, check_login, check_access, acls_context, refuse_ip,
  refuse_user, ask_login, proxy_handler, handle_context, handle_acls,
}
use tinyauth.Model.{App}
use tinyauth.Policy.Apps.{get_access_controls}

-- The status 200, on which a proxy lets the request through.
abbrev pub is_accepted : Option Response → Bool
is_accepted none = false
is_accepted (some r) = elim r.reply [ json status ↦ nat_eq status 200 | redirect url ↦ false ]

-- What lets a request through: a bypassed address, a path without authentication, or an allowed
-- address with an authenticated user whom the rules on the user and on the groups allow.
pub data IsPermitted (engine : PolicyEngine) (a : AclContext) (carried : Carried) : Type 0 where
  bypassed : evaluate engine rule_ip_bypassed a ≡ some true → IsPermitted engine a carried
  auth_disabled :
      evaluate engine rule_ip_bypassed a ≡ some false
      → evaluate engine rule_auth_enabled a ≡ some true
      → IsPermitted engine a carried
  logged_in :
      (user : UserContext)
      → evaluate engine rule_ip_bypassed a ≡ some false
      → evaluate engine rule_auth_enabled a ≡ some false
      → evaluate engine rule_ip_allowed a ≡ some true
      → new_from_gin carried ≡ ok user
      → user.authenticated ≡ true
      → evaluate engine rule_user_allowed (record a { user_context = some user }) ≡ some true
      → (is_oauth user ≡ false)
        ⊎ (evaluate engine rule_oauth_group (record a { user_context = some user }) ≡ some true)
      → (is_ldap user ≡ false)
        ⊎ (evaluate engine rule_ldap_group (record a { user_context = some user }) ≡ some true)
      → IsPermitted engine a carried

-- What the three rules that need no user leave open.
abbrev may_permit : Option Bool → Option Bool → Option Bool → Bool
may_permit (some true) disabled ip_allowed = true
may_permit (some false) (some true) ip_allowed = true
may_permit (some false) (some false) (some true) = true
may_permit _ _ _ = false

IsPermitted-may_permit :
    {engine : PolicyEngine} {a : AclContext} {carried : Carried}
    → IsPermitted engine a carried
    → may_permit
        (evaluate engine rule_ip_bypassed a)
        (evaluate engine rule_auth_enabled a)
        (evaluate engine rule_ip_allowed a)
      ≡ true
IsPermitted-may_permit (bypassed e) = rw e refl
IsPermitted-may_permit (auth_disabled e f) = rw (e, f) refl
IsPermitted-may_permit (logged_in user e f g p q r s t) = rw (e, f, g) refl

module _ (calls : Calls) (net : Net) (controller : ProxyController) where
  answer-is_accepted :
      (ctx : ProxyContext) (status : ℕ) (url : String)
      → nat_eq status 200 ≡ false
      → is_accepted (some (answer calls net controller ctx status url)) ≡ false
  unfolding answer
  answer-is_accepted ctx status url h = elim (Bool-cases (use_browser_response ctx)) [
    | inl e ↦ rw e refl
    | inr e ↦ rw e h
  ]

  answer_page-is_accepted :
      (ctx : ProxyContext) (status : ℕ) (page : String) (values : Option Values)
      → nat_eq status 200 ≡ false
      → is_accepted (some (answer_page calls net controller ctx status page values)) ≡ false
  unfolding answer_page handle_error
  answer_page-is_accepted ctx status page none h = answer-is_accepted ctx 500 _ refl
  answer_page-is_accepted ctx status page (some values) h = answer-is_accepted ctx status _ h

  remote_headers-is_some :
      (user : UserContext) → is_some (remote_headers calls net controller user) ≡ true
  unfolding remote_headers is_ldap is_oauth get_base_context
  remote_headers-is_some user = ground arith

  group_ok_iff :
      (a : AclContext) (user : UserContext)
      → (group_ok calls net controller a user ≡ some true) ↔ (
          ((is_oauth user ≡ false)
            ⊎ (evaluate controller.policy_engine rule_oauth_group a ≡ some true))
          × ((is_ldap user ≡ false)
              ⊎ (evaluate controller.policy_engine rule_ldap_group a ≡ some true)))
  unfolding group_ok is_oauth is_ldap
  group_ok_iff a user = ground arith

  check_user-is_accepted_iff :
      (c : Request) (ctx : ProxyContext) (acls : Option App) (a : AclContext) (user : UserContext)
      → (is_accepted (check_user calls net controller c ctx acls a user) ≡ true) ↔ (
          (evaluate controller.policy_engine rule_user_allowed a ≡ some true)
          × (group_ok calls net controller a user ≡ some true))
  unfolding check_user refuse_user
  check_user-is_accepted_iff c ctx acls a user =
      elim (Option-cases (evaluate controller.policy_engine rule_user_allowed a)) [
        | inl e ↦ rw e (ground arith)
        | inr (false, e) ↦
            rw (e, answer_page-is_accepted ctx 403 "/unauthorized?" _ refl) (ground arith)
        | inr (true, e) ↦ rw e (elim (Option-cases (group_ok calls net controller a user)) [
          | inl g ↦ rw g (ground arith)
          | inr (false, g) ↦
              rw (g, answer_page-is_accepted ctx 403 "/unauthorized?" _ refl) (ground arith)
          | inr (true, g) ↦ rw g (elim (Option-cases (remote_headers calls net controller user)) [
            | inl r ↦ absurd (ground (arith, remote_headers-is_some user))
            | inr (headers, r) ↦ rw r (ground arith)
          ])
        ])
      ]

  check_login_user :
      (c : Request) (ctx : ProxyContext) (acls : Option App) (a : AclContext) (user : UserContext)
      → new_from_gin c.user ≡ ok user
      → user.authenticated ≡ true
      → check_login calls net controller c ctx acls a
        ≡ check_user calls net controller c ctx acls (record a { user_context = some user }) user
  unfolding check_login
  check_login_user c ctx acls a user e auth = rw (e, auth) refl

  check_login_nobody :
      (c : Request) (ctx : ProxyContext) (acls : Option App) (a : AclContext) (user : UserContext)
      → new_from_gin c.user ≡ ok user
      → user.authenticated ≡ false
      → is_accepted (check_login calls net controller c ctx acls a) ≡ false
  unfolding check_login ask_login
  check_login_nobody c ctx acls a user e auth =
      rw (e, auth) (answer_page-is_accepted ctx 401 "/login?" _ refl)

  check_login-is_accepted_iff :
      (c : Request) (ctx : ProxyContext) (acls : Option App) (a : AclContext)
      → (is_accepted (check_login calls net controller c ctx acls a) ≡ true) ↔ (
          (user : UserContext) × (new_from_gin c.user ≡ ok user)
          × (user.authenticated ≡ true)
          × (is_accepted (
                check_user calls net controller c ctx acls
                  (record a { user_context = some user })
                  user)
              ≡ true))
  unfolding check_login ask_login
  check_login-is_accepted_iff c ctx acls a = elim (Result-cases (new_from_gin c.user)) [
    | inr (x, e) ↦
        rw (e, answer_page-is_accepted ctx 401 "/login?" _ refl)
          (λ h. absurd (ground arith), λ (u, p, q, h). absurd (ground arith))
    | inl (user, e) ↦ elim (Bool-cases user.authenticated) [
      | inl auth ↦ (
        λ h. (user, e, auth, rw (sym (check_login_user c ctx acls a user e auth)) h),
        λ (u, p, q, h). rw (check_login_user c ctx acls a u p q) h,
      )
      | inr auth ↦ (
        λ h. absurd (ground (arith, check_login_nobody c ctx acls a user e auth)),
        λ (u, p, q, h). absurd (ground arith),
      )
    ]
  ]

  check_login-IsPermitted_iff :
      (c : Request) (ctx : ProxyContext) (acls : Option App) (a : AclContext)
      → evaluate controller.policy_engine rule_ip_bypassed a ≡ some false
      → evaluate controller.policy_engine rule_auth_enabled a ≡ some false
      → evaluate controller.policy_engine rule_ip_allowed a ≡ some true
      → (is_accepted (check_login calls net controller c ctx acls a) ≡ true)
        ↔ IsPermitted controller.policy_engine a c.user
  check_login-IsPermitted_iff c ctx acls a e f g =
      let login = check_login-is_accepted_iff c ctx acls a in
      (
        λ h.
            (let (user, p, auth, k) = login.0 h in
              let (u, ok_group) =
                (check_user-is_accepted_iff c ctx acls (record a { user_context = some user })
                    user).0
                  k in
              let (o, l) = (group_ok_iff (record a { user_context = some user }) user).0 ok_group in
              logged_in user e f g p auth u o l),
        λ permitted. elim permitted [
          | bypassed e' ↦ absurd (ground arith)
          | auth_disabled e' f' ↦ absurd (ground arith)
          | logged_in user e' f' g' p auth u o l ↦ login.1 (
            user,
            p,
            auth,
            (check_user-is_accepted_iff c ctx acls (record a { user_context = some user }) user).1
                (u, (group_ok_iff (record a { user_context = some user }) user).1 (o, l)),
          )
        ],
      )

  check_access-is_accepted_iff :
      (c : Request) (ctx : ProxyContext) (acls : Option App) (a : AclContext)
      → (is_accepted (check_access calls net controller c ctx acls a) ≡ true)
        ↔ IsPermitted controller.policy_engine a c.user
  unfolding check_access refuse_ip
  check_access-is_accepted_iff c ctx acls a =
      let engine = controller.policy_engine in
      let decided = λ (p : IsPermitted engine a c.user). IsPermitted-may_permit p in
      elim (Option-cases (evaluate engine rule_ip_bypassed a)) [
        | inl e ↦ rw e (λ h. absurd (ground arith), λ p. absurd (ground (arith, decided p)))
        | inr (true, e) ↦ rw e (λ h. bypassed e, λ p. refl)
        | inr (false, e) ↦ rw e (elim (Option-cases (evaluate engine rule_auth_enabled a)) [
          | inl f ↦ rw f (λ h. absurd (ground arith), λ p. absurd (ground (arith, decided p)))
          | inr (true, f) ↦ rw f (λ h. auth_disabled e f, λ p. refl)
          | inr (false, f) ↦ rw f (elim (Option-cases (evaluate engine rule_ip_allowed a)) [
            | inl g ↦ rw g (λ h. absurd (ground arith), λ p. absurd (ground (arith, decided p)))
            | inr (false, g) ↦
                rw (g, answer_page-is_accepted ctx 403 "/unauthorized?" _ refl)
                  (λ h. absurd (ground arith), λ p. absurd (ground (arith, decided p)))
            | inr (true, g) ↦ rw g (check_login-IsPermitted_iff c ctx acls a e f g)
          ])
        ])
      ]

-- A request whose proxy context and access controls are found is answered with 200 exactly if it is
-- permitted: its address is bypassed, or its path needs no authentication, or its address is
-- allowed and it carries an authenticated user whom the rule on users and, for an OAuth or LDAP
-- user, the rule on groups allow.
pub proxy_handler-is_accepted_iff :
    (calls : Calls) (net : Net) (controller : ProxyController) (c : Request) (ctx : ProxyContext)
    (acls : Option App)
    → get_proxy_context calls.parse_url c ≡ ok ctx
    → get_access_controls controller.apps controller.labels ctx.host ≡ ok acls
    → (is_accepted (proxy_handler calls net controller c) ≡ true)
      ↔ IsPermitted controller.policy_engine (acls_context calls net controller c ctx acls) c.user
unfolding proxy_handler handle_context handle_acls
proxy_handler-is_accepted_iff calls net controller c ctx acls found got =
    rw (found, got) (check_access-is_accepted_iff calls net controller c ctx acls _)
