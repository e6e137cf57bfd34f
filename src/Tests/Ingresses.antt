-- ===== src/Tests/Ingresses.antt =====
-- internal/service/kubernetes_service.go: one ingress with one app.
use tinyauth.Base.{String, ◌≡◌, refl, [], ◌∷◌, none, some, ok, Option, List}
use tinyauth.Base.Lists.{contains}
use tinyauth.Model.{App}
use tinyauth.Kubernetes.{
  IngressItem, rule, added, modified, deleted, run_watcher, run_events, extract_hosts, get_labels,
  new_kubernetes_service, remove_ingress, update_from_item, declared_apps, add_ingress_apps,
  get_by_domain, unindex, get_by_app_name,
}
use tinyauth.Kubernetes.Labels.{get_labels-update_from_item}
use tinyauth.Tests.Policies.{app}
use tinyauth.Text.{split_n}

abbrev decode : List (String × String) → Option (List (String × App))
decode annotations = some (("wiki", app) ∷ [])

abbrev wiki : IngressItem
wiki = record {
  key = record { namespace = "default"; name = "wiki" };
  annotations = some (("tinyauth.apps.wiki.config.domain", "wiki.example.com") ∷ []);
  rules = ok (some (rule (some "wiki.example.com") ∷ rule none ∷ []));
}

get_labels-update_from_item_example :
    (acls : App) × (get_labels "wiki.example.com" (
        run_watcher decode
          (modified wiki)
          (run_events decode (added wiki ∷ deleted wiki ∷ []) new_kubernetes_service))
      ≡ ok (some acls))
    × (acls.config.domain ≡ "wiki.example.com")
unfolding extract_hosts contains
get_labels-update_from_item_example =
    get_labels-update_from_item decode (added wiki ∷ deleted wiki ∷ []) wiki "wiki.example.com"
      (("tinyauth.apps.wiki.config.domain", "wiki.example.com") ∷ []) ("wiki.example.com" ∷ [])
      (("wiki", app) ∷ []) refl refl refl refl refl refl

-- A second ingress that declares an app for the same domain, and is deleted again: the domain is
-- then known to the first ingress only, and not found.
abbrev other : IngressItem
other = record wiki { key = record { namespace = "default"; name = "other" } }

get_labels-clash :
    get_labels "wiki.example.com"
      (run_events decode (added wiki ∷ added other ∷ deleted other ∷ []) new_kubernetes_service)
    ≡ ok none
unfolding get_labels run_events run_watcher remove_ingress update_from_item extract_hosts
    declared_apps contains add_ingress_apps get_by_domain unindex get_by_app_name split_n
get_labels-clash = refl
