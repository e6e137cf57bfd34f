-- ===== src/Policy/Engine.antt =====
-- internal/service/policy_engine.go: who is let in, and what happens without a rule.
use tinyauth.Base.{
  String, ◌≡◌, refl, ap, ◌≢◌, ◌↔◌, ◌⊎◌, inl, inr, true, false, some, ok, err, ◌==◌, if◌then◌else◌,
  arith, Option-cases, String-cases, Bool-cases,
}
use tinyauth.Base.Dict.{lookup, lookup-insert}
use tinyauth.Policy.{
  policy_allow, effect_abstain, effect_allow, AclContext, Rule, PolicyEngine, new_policy_engine,
  register_rule, evaluate_found, evaluate_rule_by_name, effect_to_access, evaluate, evaluate_func,
}

-- A rule lets a request through exactly if it is registered and says allow, or says nothing under
-- the policy "allow"; so a name without a rule is denied under either policy.
pub evaluate-eq-true_iff :
    (engine : PolicyEngine) (name : String) (ctx : AclContext)
    → (evaluate engine name ctx ≡ some true) ↔ (
        (rule : Rule) × (lookup name engine.rules ≡ some rule)
        × ((rule ctx ≡ some effect_allow)
            ⊎ ((rule ctx ≡ some effect_abstain) × (engine.policy ≡ policy_allow))))
unfolding evaluate evaluate_rule_by_name effect_to_access
evaluate-eq-true_iff engine name ctx = elim (Option-cases (lookup name engine.rules)) [
  | inl e ↦ rw e (λ h. absurd (ground arith), λ (r, p, q). absurd (ground arith))
  | inr (rule, e) ↦ rw e (
    λ h. (rule, refl, ground arith),
    λ (r, p, q). let same : rule ctx ≡ r ctx = ap (λ o. evaluate_found o ctx) p in ground arith,
  )
]

-- Registering a rule replaces the one of that name and leaves every other evaluation as it was.
pub evaluate-register_rule :
    (engine : PolicyEngine) (name other : String) (rule : Rule) (ctx : AclContext)
    → evaluate (register_rule name rule engine) other ctx
      ≡ (if name == other then evaluate_func engine (rule ctx) else evaluate engine other ctx)
unfolding evaluate evaluate_func evaluate_rule_by_name register_rule effect_to_access
evaluate-register_rule engine name other rule ctx =
    rw (lookup-insert name other rule engine.rules)
      (elim (Bool-cases (name == other)) [ inl e ↦ rw e refl | inr e ↦ rw e refl ])

-- The engine starts only under one of the two policies, and then with no rule: it denies all.
pub new_policy_engine_lem :
    (policy : String)
    → ((new_policy_engine policy ≡ err policy) × (policy ≢ "allow") × (policy ≢ "deny"))
      ⊎ ((engine : PolicyEngine) × (new_policy_engine policy ≡ ok engine)
          × ((name : String) (ctx : AclContext) → evaluate engine name ctx ≡ some false)
          × ((engine.policy ≡ policy_allow) ↔ (policy ≡ "allow")))
unfolding new_policy_engine evaluate evaluate_rule_by_name effect_to_access lookup
new_policy_engine_lem policy = elim (String-cases policy "allow") [
  | inl (e, p) ↦ rw e (inr (_, refl, λ name ctx. refl, (λ h. p, λ h. refl)))
  | inr (e, p) ↦ rw e (elim (String-cases policy "deny") [
    | inl (e', p') ↦ rw e' (inr (_, refl, λ name ctx. refl, (λ h. cc, λ h. absurd (p h))))
    | inr (e', p') ↦ rw e' (inl (refl, p, p'))
  ])
]
