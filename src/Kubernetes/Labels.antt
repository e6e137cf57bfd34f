-- ===== src/Kubernetes/Labels.antt =====
-- internal/service/kubernetes_service.go: what `GetLabels` answers.
use tinyauth.Base.{
  String, ◌≡◌, refl, ◌∙◌, ap, true, false, ◌&&◌, List, [], ◌∷◌, some, ok, ◌==◌, eq_iff, arith,
  Bool-cases, inl, inr, Option-cases, String-cases, ltb, not,
}
use tinyauth.Base.Lists.{All, any, length, contains}
use tinyauth.Model.{App}
use tinyauth.Kubernetes.{
  Decoder, IngressAppKey, IngressApp, KubernetesService, WatchEvent, new_kubernetes_service,
  first_app, found_by_domain, apps_of, get_by_domain, get_labels, run_events, IngressKey,
  IngressItem, modified, extract_hosts, declared_apps, set_apps, add_ingress_apps, run_watcher,
  update_from_item, update_annotations, update_labels,
}
use tinyauth.Kubernetes.Index.{named, has_key, last_name, reindex_lem}
use tinyauth.Kubernetes.Reach.{
  IsHonest, IsIndexed, new_kubernetes_service-IsIndexed, run_watcher-IsIndexed,
}

first_app-IsHonest :
    (d n : String) (apps : List IngressApp) (app : App)
    → All IsHonest apps
    → first_app (named (λ a. a.domain) d n) apps ≡ some app
    → app.config.domain ≡ d
unfolding first_app
first_app-IsHonest d n [] app h e = absurd (ground (arith, e))
first_app-IsHonest d n (a ∷ apps) app h e = elim (Bool-cases (named (λ a. a.domain) d n a)) [
  | inl hit ↦
      let same : a.app ≡ app = ground (arith, e, hit) in
      ground (arith, hit, h.0, same, eq_iff a.domain d)
  | inr miss ↦ first_app-IsHonest d n apps app h.1 (ground (arith, e, miss))
]

get_by_domain-IsIndexed :
    (d : String) (key : IngressAppKey) (k : KubernetesService)
    → IsIndexed k
    → k.domain_index d ≡ some key
    → (app : App) × (get_by_domain d k ≡ some app) × (app.config.domain ≡ d)
unfolding get_by_domain found_by_domain apps_of
get_by_domain-IsIndexed d key k i h =
    let (apps, app, there, found) = i.domains d key h in
    (
      app,
      rw (h, there) found,
      first_app-IsHonest d key.app_name apps app (i.honest _ apps there) found,
    )

get_labels-IsIndexed :
    (d : String) (key : IngressAppKey) (k : KubernetesService)
    → IsIndexed k
    → k.domain_index d ≡ some key
    → (app : App) × (get_labels d k ≡ ok (some app)) × (app.config.domain ≡ d)
unfolding get_labels
get_labels-IsIndexed d key k i h =
    let (app, found, own) = get_by_domain-IsIndexed d key k i h in
    (app, ground (arith, found, i.running), own)

-- Whatever events the watcher has met, a domain that is in its index gets access controls that were
-- declared for that very domain, never those of another.
pub get_labels-run_events :
    (decode : Decoder) (events : List WatchEvent) (d : String) (key : IngressAppKey)
    → let k = run_events decode events new_kubernetes_service in
      k.domain_index d ≡ some key
      → (app : App) × (get_labels d k ≡ ok (some app)) × (app.config.domain ≡ d)
get_labels-run_events decode events d key =
    get_labels-IsIndexed d key _ (new_kubernetes_service-IsIndexed decode events)

modified_lem :
    (decode : Decoder) (item : IngressItem) (k : KubernetesService)
    (annotations : List (String × String)) (hosts : List String) (labels : List (String × App))
    → item.annotations ≡ some annotations
    → extract_hosts item ≡ ok hosts
    → decode annotations ≡ some labels
    → run_watcher decode (modified item) k ≡ set_apps item.key (declared_apps hosts labels) k
unfolding run_watcher update_from_item update_annotations update_labels
modified_lem decode item k annotations hosts labels a e l =
    ap (λ o. update_annotations o (extract_hosts item) decode item.key k) a
    ∙ ap (λ o. update_annotations (some annotations) o decode item.key k) e
    ∙ ap (λ o. update_labels o hosts item.key k) l

last_name-has_key :
    (d : String) (apps : List IngressApp)
    → has_key (λ a. a.domain) d apps ≡ true
    → (n : String) × (last_name (λ a. a.domain) d apps ≡ some n)
last_name-has_key d [] h = absurd (ground (arith, h))
last_name-has_key d (a ∷ apps) h = elim (Option-cases (last_name (λ a. a.domain) d apps)) [
  | inr (n, e) ↦ rw e (n, refl)
  | inl e ↦ elim (Bool-cases (a.domain == d)) [
    | inl f ↦ rw (e, f) (a.app_name, refl)
    | inr f ↦
        let (n, g) = last_name-has_key d apps (ground (arith, h, f)) in
        absurd (ground (arith, e, g))
  ]
]

domain_index-set_apps :
    (d : String) (key : IngressKey) (apps : List IngressApp) (k : KubernetesService)
    → has_key (λ a. a.domain) d apps ≡ true
    → (e : IngressAppKey) × ((set_apps key apps k).domain_index d ≡ some e)
unfolding set_apps add_ingress_apps
domain_index-set_apps d key [] k h = absurd (ground (arith, h))
domain_index-set_apps d key (a ∷ apps) k h =
    let (n, e) = last_name-has_key d (a ∷ apps) h in
    (
      record { ingress_key = key; app_name = n },
      reindex_lem (λ a. a.domain) d key (a ∷ apps) _ ∙ rw e refl,
    )

has_key-declared_apps :
    (d : String) (hosts : List String) (labels : List (String × App))
    → any (λ (name, app). app.config.domain == d) labels ≡ true
    → (d == "") ≡ false
    → (ltb 0 (length hosts) && not (contains d hosts)) ≡ false
    → has_key (λ a. a.domain) d (declared_apps hosts labels) ≡ true
unfolding declared_apps
has_key-declared_apps d hosts [] h filled allowed = absurd (ground (arith, h))
has_key-declared_apps d hosts ((name, app) ∷ rest) h filled allowed =
    elim (String-cases app.config.domain d) [
      | inl (e, p) ↦ ground (arith, p, e, filled, allowed)
      | inr (e, p) ↦
          ground
            (arith, h, e, has_key-declared_apps d hosts rest (ground (arith, h, e)) filled allowed)
    ]

-- Whatever the watcher has met before, once it meets an ingress whose labels declare an app for a
-- domain, which is not blank and among the hosts of the ingress if it has any, the domain gets
-- access controls that are declared for it.
pub get_labels-update_from_item :
    (decode : Decoder) (events : List WatchEvent) (item : IngressItem) (d : String)
    (annotations : List (String × String)) (hosts : List String) (labels : List (String × App))
    → item.annotations ≡ some annotations
    → extract_hosts item ≡ ok hosts
    → decode annotations ≡ some labels
    → any (λ (name, app). app.config.domain == d) labels ≡ true
    → (d == "") ≡ false
    → (ltb 0 (length hosts) && not (contains d hosts)) ≡ false
    → let k = run_events decode events new_kubernetes_service in
      (app : App) × (get_labels d (run_watcher decode (modified item) k) ≡ ok (some app))
      × (app.config.domain ≡ d)
get_labels-update_from_item decode events item d annotations hosts labels a e l h filled allowed =
    let k = run_events decode events new_kubernetes_service in
    let (key, indexed) =
      domain_index-set_apps d item.key (declared_apps hosts labels) k
        (has_key-declared_apps d hosts labels h filled allowed) in
    get_labels-IsIndexed d key _
      (run_watcher-IsIndexed decode (modified item) k
        (new_kubernetes_service-IsIndexed decode events))
      (rw (modified_lem decode item k annotations hosts labels a e l) indexed)
