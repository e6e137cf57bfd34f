-- ===== src/Policy/Rules/Users.antt =====
-- internal/service/access_controls_rules.go: the rule on the user.
use tinyauth.Base.{
  ◌≡◌, refl, ◌≢◌, ◌↔◌, inl, inr, true, false, some, ok, eq_iff, arith, Option-cases, String-cases,
}
use tinyauth.Text.{trim_space}
use tinyauth.Model.{App}
use tinyauth.Model.Context.{UserContext, ProviderType, provider_oauth, OAuthContext, get_username}
use tinyauth.Utils.Filter.{Compile, check_filter}
use tinyauth.Policy.{effect_abstain, effect_allow, effect_deny, AclContext}
use tinyauth.Policy.Rules.{check_whitelist, check_users, user_allowed_at, user_allowed_rule}

-- How a user can be allowed into an app.
pub data IsAllowed (compile : Compile) (acls : App) (user : UserContext) : Type 0 where
  whitelisted :
      (oauth : OAuthContext)
      → user.provider ≡ provider_oauth
      → user.oauth ≡ some oauth
      → check_filter compile acls.oauth.whitelist oauth.base.email ≡ some (ok true)
      → IsAllowed compile acls user
  not_blocked :
      user.provider ≢ provider_oauth
      → acls.users.block ≢ ""
      → check_filter compile acls.users.block (get_username user) ≡ some (ok false)
      → IsAllowed compile acls user
  listed :
      user.provider ≢ provider_oauth
      → acls.users.block ≡ ""
      → check_filter compile acls.users.allow (get_username user) ≡ some (ok true)
      → IsAllowed compile acls user

check_users-IsAllowed :
    (compile : Compile) (acls : App) (user : UserContext)
    → user.provider ≢ provider_oauth
    → check_users compile acls (get_username user) ≡ some effect_allow
    → IsAllowed compile acls user
unfolding check_users
check_users-IsAllowed compile acls user ne h = elim (String-cases acls.users.block "") [
  | inl (e, p) ↦ listed ne p (ground arith)
  | inr (e, p) ↦ not_blocked ne p (ground arith)
]

IsAllowed-check_users :
    (compile : Compile) (acls : App) (user : UserContext)
    → user.provider ≢ provider_oauth
    → IsAllowed compile acls user
    → check_users compile acls (get_username user) ≡ some effect_allow
unfolding check_users
IsAllowed-check_users compile acls user ne (whitelisted oauth p q e) = absurd (ne p)
IsAllowed-check_users compile acls user ne (not_blocked p q e) =
    ground (arith, eq_iff acls.users.block "")
IsAllowed-check_users compile acls user ne (listed p q e) =
    ground (arith, eq_iff acls.users.block "")

user_allowed_at-IsAllowed :
    (compile : Compile) (p : ProviderType) (acls : App) (user : UserContext)
    → user.provider ≡ p
    → user_allowed_at compile p acls user ≡ some effect_allow
    → IsAllowed compile acls user
unfolding user_allowed_at check_whitelist
user_allowed_at-IsAllowed compile provider_oauth acls user same h = elim (Option-cases user.oauth) [
  | inl e ↦ absurd (ground arith)
  | inr (oauth, e) ↦ whitelisted oauth same e (ground arith)
]
user_allowed_at-IsAllowed compile _ acls user same h =
    check_users-IsAllowed compile acls user (λ e. cc) h

IsAllowed-user_allowed_at :
    (compile : Compile) (p : ProviderType) (acls : App) (user : UserContext)
    → user.provider ≡ p
    → IsAllowed compile acls user
    → user_allowed_at compile p acls user ≡ some effect_allow
unfolding user_allowed_at check_whitelist
IsAllowed-user_allowed_at compile provider_oauth acls user same (whitelisted oauth p q e) =
    rw q (rw e refl)
IsAllowed-user_allowed_at compile provider_oauth acls user same (not_blocked p q e) =
    absurd (p same)
IsAllowed-user_allowed_at compile provider_oauth acls user same (listed p q e) = absurd (p same)
IsAllowed-user_allowed_at compile _ acls user same a =
    IsAllowed-check_users compile acls user (λ e. cc) a

-- The rule on the user says allow exactly where the app has access controls and they allow the
-- user: an OAuth user by a whitelist that accepts the email; any other user by a block list that
-- does not hold the name or, where there is no block list, by an allow list that does.
pub user_allowed_rule_iff :
    (compile : Compile) (ctx : AclContext)
    → (user_allowed_rule compile ctx ≡ some effect_allow) ↔ (
        (acls : App) × (user : UserContext) × (ctx.acls ≡ some acls)
        × (ctx.user_context ≡ some user)
        × IsAllowed compile acls user)
unfolding user_allowed_rule
user_allowed_rule_iff compile ctx = (
  λ h. elim (Option-cases ctx.user_context) [
    | inl e ↦ absurd (ground arith)
    | inr (user, e) ↦ elim (Option-cases ctx.acls) [
      | inl n ↦ absurd (ground arith)
      | inr (acls, n) ↦ (
        acls,
        user,
        n,
        e,
        user_allowed_at-IsAllowed compile user.provider acls user refl (ground arith),
      )
    ]
  ],
  λ (acls, user, n, e, a).
      rw (n, e) (IsAllowed-user_allowed_at compile user.provider acls user refl a),
)

-- What "nothing is configured" means differs by the kind of user. Of an app with no block list, a
-- blank allow list and a blank whitelist, a user that is not from OAuth is left to the policy; an
-- OAuth user is denied, under the policy "allow" too.
pub user_allowed_rule-blank :
    (compile : Compile) (ctx : AclContext) (acls : App) (user oauth_user : UserContext)
    (oauth : OAuthContext)
    → ctx.acls ≡ some acls
    → acls.users.block ≡ ""
    → trim_space acls.users.allow ≡ ""
    → trim_space acls.oauth.whitelist ≡ ""
    → user.provider ≢ provider_oauth
    → oauth_user.provider ≡ provider_oauth
    → oauth_user.oauth ≡ some oauth
    → (user_allowed_rule compile (record ctx { user_context = some user }) ≡ some effect_abstain)
      × (user_allowed_rule compile (record ctx { user_context = some oauth_user })
          ≡ some effect_deny)
unfolding user_allowed_rule check_filter
user_allowed_rule-blank compile ctx acls user oauth_user oauth ha block allow blank ne p q = (
  ground (arith, eq_iff acls.users.block "", eq_iff (trim_space acls.users.allow) ""),
  ground (arith, eq_iff (trim_space acls.oauth.whitelist) ""),
)
