-- ===== src/Policy/Rules/Addresses.antt =====
-- internal/service/access_controls_rules.go: the address rules.
use tinyauth.Base.{
  String, ◌≡◌, refl, ap, ◌↔◌, ◌⊎◌, inl, inr, true, List, [], ◌∷◌, ◌++◌, some, ok, arith, Bool-cases,
}
use tinyauth.Model.{IpConfig}
use tinyauth.Utils.Filter.{Net, check_ip_filter}
use tinyauth.Policy.{effect_allow, effect_deny, AclContext}
use tinyauth.Policy.Rules.{
  is_match, matches_ip, decide_ip, app_ips, ip_allowed_rule, ip_bypassed_rule,
}

-- Some entry of the list can be read and covers the address.
pub data Covers (net : Net) (ip : String) : List String → Type 0 where
  here :
      {item : String} {items : List String}
      → check_ip_filter net item ip ≡ ok true
      → Covers net ip (item ∷ items)
  there : {item : String} {items : List String} → Covers net ip items → Covers net ip (item ∷ items)

pub matches_ip-Covers :
    (net : Net) (items : List String) (ip : String)
    → matches_ip net items ip ≡ true
    → Covers net ip items
unfolding matches_ip
matches_ip-Covers net [] ip h = absurd (ground arith)
matches_ip-Covers net (item ∷ items) ip h =
    elim (Bool-cases (is_match (check_ip_filter net item ip))) [
      | inl e ↦ here (ground arith)
      | inr e ↦ there (matches_ip-Covers net items ip (ground arith))
    ]

pub Covers-matches_ip :
    {net : Net} {ip : String} {items : List String}
    → Covers net ip items
    → matches_ip net items ip ≡ true
unfolding matches_ip
Covers-matches_ip (here e) = ground arith
Covers-matches_ip {net} {ip} (there {item} {items} c) = ground (arith, Covers-matches_ip c)

pub decide_ip-Covers :
    (net : Net) (blocked allowed : List String) (ip : String)
    → decide_ip net blocked allowed ip ≡ effect_allow
    → (¬ Covers net ip blocked) × ((allowed ≡ []) ⊎ Covers net ip allowed)
unfolding decide_ip
decide_ip-Covers net blocked [] ip h = (λ c. absurd (ground (arith, Covers-matches_ip c)), inl refl)
decide_ip-Covers net blocked (a ∷ as') ip h = (
  λ c. absurd (ground (arith, Covers-matches_ip c)),
  inr (matches_ip-Covers net (a ∷ as') ip (ground arith)),
)

pub Covers-decide_ip :
    (net : Net) (blocked allowed : List String) (ip : String)
    → ¬ Covers net ip blocked
    → (allowed ≡ []) ⊎ Covers net ip allowed
    → decide_ip net blocked allowed ip ≡ effect_allow
unfolding decide_ip
Covers-decide_ip net blocked allowed ip no_block (inl e) =
    elim (Bool-cases (matches_ip net blocked ip)) [
      | inl m ↦ absurd (no_block (matches_ip-Covers net blocked ip m))
      | inr m ↦ ground arith
    ]
Covers-decide_ip net blocked allowed ip no_block (inr c) =
    elim (Bool-cases (matches_ip net blocked ip)) [
      | inl m ↦ absurd (no_block (matches_ip-Covers net blocked ip m))
      | inr m ↦ ground (arith, Covers-matches_ip c)
    ]

decide_ip-total :
    (net : Net) (blocked allowed : List String) (ip : String)
    → (decide_ip net blocked allowed ip ≡ effect_allow)
      ⊎ (decide_ip net blocked allowed ip ≡ effect_deny)
unfolding decide_ip
decide_ip-total net blocked allowed ip = ground arith

abbrev pub blocked_ips : IpConfig → AclContext → List String
blocked_ips config ctx = config.block ++ app_ips (λ a. a.ip.block) ctx.acls

abbrev pub allowed_ips : IpConfig → AclContext → List String
allowed_ips config ctx = config.allow ++ app_ips (λ a. a.ip.allow) ctx.acls

abbrev pub bypassed_ips : IpConfig → AclContext → List String
bypassed_ips config ctx = config.bypass ++ app_ips (λ a. a.ip.bypass) ctx.acls

-- An address is let in exactly if no entry of the global or the app's block list covers it and, if
-- there is any allow list, an entry of one covers it; else it is denied, so the rule never abstains.
pub ip_allowed_rule_iff :
    (net : Net) (config : IpConfig) (ctx : AclContext)
    → let ip = net.ip_string ctx.ip in
      ((ip_allowed_rule net config ctx ≡ some effect_allow) ↔ (
        (¬ Covers net ip (blocked_ips config ctx))
        × ((allowed_ips config ctx ≡ []) ⊎ Covers net ip (allowed_ips config ctx))))
      × ((ip_allowed_rule net config ctx ≡ some effect_allow)
          ⊎ (ip_allowed_rule net config ctx ≡ some effect_deny))
unfolding ip_allowed_rule
ip_allowed_rule_iff net config ctx = (
  (
    λ h. decide_ip-Covers net _ _ _ (ground arith),
    λ (b, a). ap some (Covers-decide_ip net _ _ _ b a),
  ),
  elim (decide_ip-total net _ _ _) [ inl e ↦ inl (ap some e) | inr e ↦ inr (ap some e) ],
)

-- An address skips authentication exactly if an entry of the global or the app's bypass list
-- covers it.
pub ip_bypassed_rule_iff :
    (net : Net) (config : IpConfig) (ctx : AclContext)
    → (ip_bypassed_rule net config ctx ≡ some effect_allow)
      ↔ Covers net (net.ip_string ctx.ip) (bypassed_ips config ctx)
unfolding ip_bypassed_rule
ip_bypassed_rule_iff net config ctx =
    (λ h. matches_ip-Covers net _ _ (ground arith), λ c. rw (Covers-matches_ip c) refl)
