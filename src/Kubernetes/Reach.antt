-- ===== src/Kubernetes/Reach.antt =====
-- internal/service/kubernetes_service.go: no index has an entry that leads nowhere.
use tinyauth.Base.{
  not, ltb, Result, err, String, ◌≡◌, refl, ◌∙◌, sym, true, ◌&&◌, List, [], ◌∷◌, Option, none, some,
  ok, ◌==◌, arith, Bool-cases, inl, inr,
}
use tinyauth.Base.Lists.{All, length, contains}
use tinyauth.Model.{App}
use tinyauth.Kubernetes.{
  Decoder, update_labels, update_annotations, IngressKey, IngressApp, IngressItem,
  KubernetesService, is_same, forget_apps, add_ingress_apps, remove_ingress, declared_apps,
  set_apps, update_from_item, WatchEvent, added, modified, deleted, resynced, skipped, resync_gvr,
  run_watcher, run_events, new_kubernetes_service,
}
use tinyauth.Kubernetes.Leads.{
  Ingresses, is_same_refl, Leads, replaced, dropped, dropped-Leads, reindex-Leads,
}

-- An app is filed under the domain of its own configuration.
abbrev pub IsHonest : IngressApp → Type 0
IsHonest a = a.domain ≡ a.app.config.domain

abbrev HaveHonest : Ingresses → Type 0
HaveHonest ingresses =
    (key : IngressKey) (apps : List IngressApp) → ingresses key ≡ some apps → All IsHonest apps

inside :
    (xs ys : List IngressApp) → ◌≡◌ {A = Option (List IngressApp)} (some xs) (some ys) → xs ≡ ys
inside xs ys e = ground (arith, e)

replaced-HaveHonest :
    (key : IngressKey) (new : Option (List IngressApp)) (ingresses : Ingresses)
    → ((apps : List IngressApp) → new ≡ some apps → All IsHonest apps)
    → HaveHonest ingresses
    → HaveHonest (replaced key new ingresses)
replaced-HaveHonest key new ingresses fresh honest j apps h = elim (Bool-cases (is_same key j)) [
  | inl e ↦ fresh apps (sym (rw e refl) ∙ h)
  | inr e ↦ honest j apps (sym (rw e refl) ∙ h)
]

declared_apps-IsHonest :
    (hosts : List String) (labels : List (String × App)) → All IsHonest (declared_apps hosts labels)
unfolding declared_apps
declared_apps-IsHonest hosts [] = tt
declared_apps-IsHonest hosts ((name, app) ∷ rest) =
    let later = declared_apps-IsHonest hosts rest in
    elim (Bool-cases (app.config.domain == "")) [
      | inl e ↦ rw e later
      | inr e ↦
          rw e (elim (Bool-cases (ltb 0 (length hosts) && not (contains app.config.domain hosts))) [
            | inl f ↦ rw f later
            | inr f ↦ rw f (refl, later)
          ])
    ]

-- The service runs, both indexes lead to apps, and the apps are filed under their domains.
pub record IsIndexed (k : KubernetesService) : Type 0 where
  pub running : k.started ≡ true
  pub honest : HaveHonest k.ingress_apps
  pub domains : Leads (λ a. a.domain) k.ingress_apps k.domain_index
  pub names : Leads (λ a. a.app_name) k.ingress_apps k.app_name_index

forgotten :
    (held : Option (List IngressApp)) (k : KubernetesService)
    → ((forget_apps held k).started ≡ k.started)
      × ((forget_apps held k).ingress_apps ≡ k.ingress_apps)
      × ((forget_apps held k).domain_index ≡ dropped (λ a. a.domain) held k.domain_index)
      × ((forget_apps held k).app_name_index ≡ dropped (λ a. a.app_name) held k.app_name_index)
unfolding forget_apps
forgotten none k = (refl, refl, refl, refl)
forgotten (some apps) k = (refl, refl, refl, refl)

add_ingress_apps-IsIndexed :
    (key : IngressKey) (apps : List IngressApp) (k : KubernetesService)
    → All IsHonest apps
    → IsIndexed k
    → IsIndexed (add_ingress_apps key apps k)
unfolding add_ingress_apps
add_ingress_apps-IsIndexed key apps k h i =
    let (runs, kept, domains, names) = forgotten (k.ingress_apps key) k in
    let there : replaced key (some apps) k.ingress_apps key ≡ some apps =
      rw (is_same_refl key) refl in
    record {
      running = rw runs i.running;
      honest = rw kept (
          replaced-HaveHonest key (some apps) k.ingress_apps (λ all e. rw (← inside apps all e) h)
            i.honest);
      domains =
          rw (kept, domains)
            (reindex-Leads _ key apps _ _ there (dropped-Leads _ key (some apps) _ _ i.domains));
      names =
          rw (kept, names)
            (reindex-Leads _ key apps _ _ there (dropped-Leads _ key (some apps) _ _ i.names));
    }

remove_ingress-IsIndexed :
    (key : IngressKey) (k : KubernetesService) → IsIndexed k → IsIndexed (remove_ingress key k)
unfolding remove_ingress
remove_ingress-IsIndexed key k i =
    let (runs, kept, domains, names) = forgotten (k.ingress_apps key) k in
    record {
      running = rw runs i.running;
      honest = rw kept (
          replaced-HaveHonest key none k.ingress_apps (λ apps e. absurd (ground (arith, e)))
            i.honest);
      domains = rw (kept, domains) (dropped-Leads _ key none _ _ i.domains);
      names = rw (kept, names) (dropped-Leads _ key none _ _ i.names);
    }

set_apps-IsIndexed :
    (key : IngressKey) (apps : List IngressApp) (k : KubernetesService)
    → All IsHonest apps
    → IsIndexed k
    → IsIndexed (set_apps key apps k)
unfolding set_apps
set_apps-IsIndexed key [] k h i = remove_ingress-IsIndexed key k i
set_apps-IsIndexed key (a ∷ apps) k h i = add_ingress_apps-IsIndexed key (a ∷ apps) k h i

update_labels-IsIndexed :
    (labels : Option (List (String × App))) (hosts : List String) (key : IngressKey)
    (k : KubernetesService)
    → IsIndexed k
    → IsIndexed (update_labels labels hosts key k)
unfolding update_labels
update_labels-IsIndexed none hosts key k i = remove_ingress-IsIndexed key k i
update_labels-IsIndexed (some labels) hosts key k i =
    set_apps-IsIndexed key (declared_apps hosts labels) k (declared_apps-IsHonest hosts labels) i

update_annotations-IsIndexed :
    (annotations : Option (List (String × String))) (hosts : Result String (List String))
    (decode : Decoder) (key : IngressKey) (k : KubernetesService)
    → IsIndexed k
    → IsIndexed (update_annotations annotations hosts decode key k)
unfolding update_annotations
update_annotations-IsIndexed none hosts decode key k i = remove_ingress-IsIndexed key k i
update_annotations-IsIndexed (some annotations) (err e) decode key k i =
    remove_ingress-IsIndexed key k i
update_annotations-IsIndexed (some annotations) (ok hosts) decode key k i =
    update_labels-IsIndexed (decode annotations) hosts key k i

resync_gvr-IsIndexed :
    (decode : Decoder) (items : List IngressItem) (k : KubernetesService)
    → IsIndexed k
    → IsIndexed (resync_gvr decode items k)
unfolding resync_gvr update_from_item
resync_gvr-IsIndexed decode [] k i = i
resync_gvr-IsIndexed decode (item ∷ items) k i =
    resync_gvr-IsIndexed decode items _ (update_annotations-IsIndexed _ _ decode item.key k i)

pub run_watcher-IsIndexed :
    (decode : Decoder) (event : WatchEvent) (k : KubernetesService)
    → IsIndexed k
    → IsIndexed (run_watcher decode event k)
unfolding run_watcher update_from_item
run_watcher-IsIndexed decode (added item) k i = update_annotations-IsIndexed _ _ decode item.key k i
run_watcher-IsIndexed decode (modified item) k i =
    update_annotations-IsIndexed _ _ decode item.key k i
run_watcher-IsIndexed decode (deleted item) k i = remove_ingress-IsIndexed item.key k i
run_watcher-IsIndexed decode (resynced items) k i = resync_gvr-IsIndexed decode items k i
run_watcher-IsIndexed decode skipped k i = i

run_events-IsIndexed :
    (decode : Decoder) (events : List WatchEvent) (k : KubernetesService)
    → IsIndexed k
    → IsIndexed (run_events decode events k)
unfolding run_events
run_events-IsIndexed decode [] k i = i
run_events-IsIndexed decode (event ∷ events) k i =
    run_events-IsIndexed decode events _ (run_watcher-IsIndexed decode event k i)

pub new_kubernetes_service-IsIndexed :
    (decode : Decoder) (events : List WatchEvent)
    → IsIndexed (run_events decode events new_kubernetes_service)
new_kubernetes_service-IsIndexed decode events =
    run_events-IsIndexed decode events new_kubernetes_service (record {
      running = refl;
      honest = λ key apps h. absurd (ground (arith, h));
      domains = λ d e h. absurd (ground (arith, h));
      names = λ d e h. absurd (ground (arith, h));
    })
