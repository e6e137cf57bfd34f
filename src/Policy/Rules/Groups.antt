-- ===== src/Policy/Rules/Groups.antt =====
-- internal/service/access_controls_rules.go: the group rules.
use tinyauth.Base.{
  String, ◌≡◌, refl, ◌↔◌, ◌⊎◌, inl, inr, Bool, true, false, List, [], ◌∷◌, Option, none, some,
  Result, ok, err, eq_iff, arith, Bool-cases, String-cases,
}
use tinyauth.Text.{trim_space}
use tinyauth.Model.{App}
use tinyauth.Model.Context.{
  UserContext, provider_oauth, provider_ldap, OAuthContext, LdapContext, is_oauth, is_ldap,
}
use tinyauth.Utils.Filter.{Compile, FilterError, check_filter}
use tinyauth.Policy.{effect_allow, AclContext}
use tinyauth.Policy.Rules.{check_groups, oauth_group_rule, ldap_group_rule}

-- Some group of the list, trimmed, passes the filter.
pub data AnyPasses (compile : Compile) (filter : String) : List String → Type 0 where
  here :
      {group : String} {groups : List String}
      → check_filter compile filter (trim_space group) ≡ some (ok true)
      → AnyPasses compile filter (group ∷ groups)
  there :
      {group : String} {groups : List String}
      → AnyPasses compile filter groups
      → AnyPasses compile filter (group ∷ groups)

-- Whether a filter is refused does not depend on the input.
check_filter-err :
    (compile : Compile) (filter x y : String) (e : FilterError)
    → check_filter compile filter x ≡ some (err e)
    → check_filter compile filter y ≡ some (err e)
unfolding check_filter
check_filter-err compile filter x y e h = ground arith

check_filter-none :
    (compile : Compile) (filter x y : String)
    → check_filter compile filter x ≡ none
    → check_filter compile filter y ≡ none
unfolding check_filter
check_filter-none compile filter x y h = ground arith

AnyPasses-some :
    {compile : Compile} {filter : String} {groups : List String}
    → AnyPasses compile filter groups
    → (x : String) × (check_filter compile filter x ≡ some (ok true))
AnyPasses-some (here {group} p) = (trim_space group, p)
AnyPasses-some (there a) = AnyPasses-some a

abbrev is_pass : Option (Result FilterError Bool) → Bool
is_pass none = false
is_pass (some (err e)) = false
is_pass (some (ok match)) = match

answer_cases :
    (o : Option (Result FilterError Bool))
    → (o ≡ none) ⊎ (((e : FilterError) × (o ≡ some (err e))) ⊎ ((b : Bool) × (o ≡ some (ok b))))
answer_cases none = inl refl
answer_cases (some (err e)) = inr (inl (e, refl))
answer_cases (some (ok b)) = inr (inr (b, refl))

check_groups-AnyPasses :
    (compile : Compile) (filter : String) (groups : List String)
    → check_groups compile filter groups ≡ some effect_allow
    → AnyPasses compile filter groups
unfolding check_groups
check_groups-AnyPasses compile filter [] h = absurd (ground arith)
check_groups-AnyPasses compile filter (g ∷ gs) h =
    elim (Bool-cases (is_pass (check_filter compile filter (trim_space g)))) [
      | inl e ↦ here (ground arith)
      | inr e ↦ there (check_groups-AnyPasses compile filter gs (ground arith))
    ]

AnyPasses-check_groups :
    {compile : Compile} {filter : String} {groups : List String}
    → AnyPasses compile filter groups
    → check_groups compile filter groups ≡ some effect_allow
unfolding check_groups
AnyPasses-check_groups (here e) = ground arith
AnyPasses-check_groups {compile} {filter} (there {group} {groups} a) =
    let (x, passes) = AnyPasses-some a in
    let rest = AnyPasses-check_groups a in
    elim (answer_cases (check_filter compile filter (trim_space group))) [
      | inl e ↦ absurd (ground (arith, check_filter-none compile filter (trim_space group) x e))
      | inr (inl (w, e)) ↦
          absurd (ground (arith, check_filter-err compile filter (trim_space group) x w e))
      | inr (inr (b, e)) ↦ ground arith
    ]

-- An OAuth user passes the group rule exactly if the app asks for no OAuth group, the provider is
-- Google or GitHub, or one of the user's groups passes the app's filter.
pub oauth_group_rule_iff :
    (compile : Compile) (ctx : AclContext) (acls : App) (user : UserContext) (oauth : OAuthContext)
    → ctx.acls ≡ some acls
    → ctx.user_context ≡ some user
    → user.provider ≡ provider_oauth
    → user.oauth ≡ some oauth
    → (oauth_group_rule compile ctx ≡ some effect_allow) ↔ (
        (acls.oauth.groups ≡ "")
        ⊎ ((oauth.id ≡ "google")
            ⊎ ((oauth.id ≡ "github") ⊎ AnyPasses compile acls.oauth.groups oauth.groups)))
unfolding oauth_group_rule is_oauth
oauth_group_rule_iff compile ctx acls user oauth ha hu hp ho = (
  λ h. elim (String-cases acls.oauth.groups "") [
    | inl (e, p) ↦ inl p
    | inr (e, p) ↦ inr (elim (String-cases oauth.id "google") [
      | inl (g, q) ↦ inl q
      | inr (g, q) ↦ inr (elim (String-cases oauth.id "github") [
        | inl (k, r) ↦ inl r
        | inr (k, r) ↦ inr (check_groups-AnyPasses compile _ _ (ground arith))
      ])
    ])
  ],
  λ why. elim why [
    | inl p ↦ ground (arith, eq_iff acls.oauth.groups "")
    | inr (inl p) ↦ ground (arith, eq_iff oauth.id "google")
    | inr (inr (inl p)) ↦ ground (arith, eq_iff oauth.id "github")
    | inr (inr (inr a)) ↦ ground (arith, AnyPasses-check_groups a)
  ],
)

-- The same of an LDAP user and the app's LDAP groups, with no provider excepted.
pub ldap_group_rule_iff :
    (compile : Compile) (ctx : AclContext) (acls : App) (user : UserContext) (ldap : LdapContext)
    → ctx.acls ≡ some acls
    → ctx.user_context ≡ some user
    → user.provider ≡ provider_ldap
    → user.ldap ≡ some ldap
    → (ldap_group_rule compile ctx ≡ some effect_allow)
      ↔ ((acls.ldap.groups ≡ "") ⊎ AnyPasses compile acls.ldap.groups ldap.groups)
unfolding ldap_group_rule is_ldap
ldap_group_rule_iff compile ctx acls user ldap ha hu hp ho = (
  λ h. elim (String-cases acls.ldap.groups "") [
    | inl (e, p) ↦ inl p
    | inr (e, p) ↦ inr (check_groups-AnyPasses compile _ _ (ground arith))
  ],
  λ why. elim why [
    | inl p ↦ ground (arith, eq_iff acls.ldap.groups "")
    | inr a ↦ ground (arith, AnyPasses-check_groups a)
  ],
)
