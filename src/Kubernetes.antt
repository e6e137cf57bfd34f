-- ===== src/Kubernetes.antt =====
-- internal/service/kubernetes_service.go: the apps that the annotations of ingresses declare. No
-- operation ranges over the three maps of the service, so each is a function here. The client of
-- the cluster, its reading of an ingress and the decoding of labels are arguments.
pub mod Index
pub mod Leads
pub mod Reach
pub mod Labels
use tinyauth.Base.{
  String, Bool, true, false, not, ◌&&◌, ◌||◌, List, [], ◌∷◌, Option, none, some, Result, ok, err,
  ◌==◌, ltb, if◌then◌else◌,
}
use tinyauth.Base.Lists.{contains, length}
use tinyauth.Text.{split_n, first_of}
use tinyauth.Model.{App}

pub record IngressKey : Type 0 where
  pub namespace : String
  pub name : String

pub record IngressAppKey : Type 0 where
  pub ingress_key : IngressKey
  pub app_name : String

pub record IngressApp : Type 0 where
  pub domain : String
  pub app_name : String
  pub app : App

-- One of the two indexes, from a domain or from an app name.
abbrev pub AppIndex : Type 0
AppIndex = String → Option IngressAppKey

pub record KubernetesService : Type 0 where
  pub started : Bool
  pub ingress_apps : IngressKey → Option (List IngressApp)
  pub domain_index : AppIndex
  pub app_name_index : AppIndex

-- The service as it starts its watcher.
abbrev pub new_kubernetes_service : KubernetesService
new_kubernetes_service = record {
  started = true;
  ingress_apps = λ _. none;
  domain_index = λ _. none;
  app_name_index = λ _. none;
}

abbrev pub is_same : IngressKey → IngressKey → Bool
is_same a b = a.namespace == b.namespace && a.name == b.name

-- `delete(index, of(app))` for each app.
unfoldable pub unindex : (IngressApp → String) → List IngressApp → AppIndex → AppIndex
unindex of [] index = index
unindex of (app ∷ apps) index = unindex of apps (λ k. if of app == k then none else index k)

-- `index[of(app)] = ingressAppKey{key, app.appName}` for each app.
unfoldable pub reindex : (IngressApp → String) → IngressKey → List IngressApp → AppIndex → AppIndex
reindex of key [] index = index
reindex of key (app ∷ apps) index = reindex of key apps (λ k.
    if of app == k then some (record { ingress_key = key; app_name = app.app_name }) else index k)

-- `delete` of the entries of an ingress, if the map has it.
forget_apps : Option (List IngressApp) → KubernetesService → KubernetesService
forget_apps none k = k
forget_apps (some apps) k = record k {
  domain_index = unindex (λ a. a.domain) apps k.domain_index;
  app_name_index = unindex (λ a. a.app_name) apps k.app_name_index;
}

unfoldable pub add_ingress_apps :
    IngressKey → List IngressApp → KubernetesService → KubernetesService
unfolding forget_apps
add_ingress_apps key apps k =
    let k' = forget_apps (k.ingress_apps key) k in
    record k' {
      ingress_apps = λ j. if is_same key j then some apps else k'.ingress_apps j;
      domain_index = reindex (λ a. a.domain) key apps k'.domain_index;
      app_name_index = reindex (λ a. a.app_name) key apps k'.app_name_index;
    }

unfoldable pub remove_ingress : IngressKey → KubernetesService → KubernetesService
unfolding forget_apps
remove_ingress key k =
    let k' = forget_apps (k.ingress_apps key) k in
    record k' { ingress_apps = λ j. if is_same key j then none else k'.ingress_apps j }

-- The loop over the apps of an ingress.
unfoldable pub first_app : (IngressApp → Bool) → List IngressApp → Option App
first_app test [] = none
first_app test (a ∷ apps) = if test a then some a.app else first_app test apps

apps_of : Option (List IngressApp) → List IngressApp
apps_of none = []
apps_of (some apps) = apps

found_by_domain : Option IngressAppKey → String → KubernetesService → Option App
unfolding apps_of
found_by_domain none domain k = none
found_by_domain (some key) domain k =
    first_app (λ a. a.domain == domain && a.app_name == key.app_name)
      (apps_of (k.ingress_apps key.ingress_key))

unfoldable pub get_by_domain : String → KubernetesService → Option App
unfolding found_by_domain
get_by_domain domain k = found_by_domain (k.domain_index domain) domain k

found_by_app_name : Option IngressAppKey → String → KubernetesService → Option App
unfolding apps_of
found_by_app_name none app_name k = none
found_by_app_name (some key) app_name k =
    first_app (λ a. a.app_name == app_name) (apps_of (k.ingress_apps key.ingress_key))

unfoldable pub get_by_app_name : String → KubernetesService → Option App
unfolding found_by_app_name
get_by_app_name app_name k = found_by_app_name (k.app_name_index app_name) app_name k

-- What the cluster's objects say: a rule that is not a map, or its host, if that is a text. The
-- paths of a rule are for a warning only.
pub data IngressRule : Type 0 where
  no_map : IngressRule
  rule : Option String → IngressRule

-- The rules are an error, missing, or a list.
pub record IngressItem : Type 0 where
  pub key : IngressKey
  pub annotations : Option (List (String × String))
  pub rules : Result String (Option (List IngressRule))

host_of : IngressRule → List String → List String
host_of no_map hosts = hosts
host_of (rule none) hosts = hosts
host_of (rule (some host)) hosts = if not (host == "") then host ∷ hosts else hosts

hosts_of : List IngressRule → List String
unfolding host_of
hosts_of [] = []
hosts_of (r ∷ rules) = host_of r (hosts_of rules)

unfoldable pub extract_hosts : IngressItem → Result String (List String)
unfolding hosts_of
extract_hosts item = elim item.rules [
  | err e ↦ err e
  | ok none ↦ ok []
  | ok (some rules) ↦ ok (hosts_of rules)
]

-- The loop over the decoded apps, in the order of the range.
unfoldable pub declared_apps : List String → List (String × App) → List IngressApp
declared_apps hosts [] = []
declared_apps hosts ((name, labels) ∷ rest) =
    let domain = labels.config.domain in
    let apps = declared_apps hosts rest in
    if domain == ""
    then apps
    else (if ltb 0 (length hosts) && not (contains domain hosts)
        then apps
        else record { domain = domain; app_name = name; app = labels } ∷ apps)

set_apps : IngressKey → List IngressApp → KubernetesService → KubernetesService
set_apps key [] k = remove_ingress key k
set_apps key (a ∷ apps) k = add_ingress_apps key (a ∷ apps) k

-- `decoders.DecodeLabels`: `none` is an error.
abbrev pub Decoder : Type 0
Decoder = List (String × String) → Option (List (String × App))

update_labels :
    Option (List (String × App)) → List String → IngressKey → KubernetesService → KubernetesService
unfolding set_apps
update_labels none hosts key k = remove_ingress key k
update_labels (some labels) hosts key k = set_apps key (declared_apps hosts labels) k

update_annotations :
    Option (List (String × String))
    → Result String (List String)
    → Decoder
    → IngressKey
    → KubernetesService
    → KubernetesService
unfolding update_labels
update_annotations none hosts decode key k = remove_ingress key k
update_annotations (some annotations) (err e) decode key k = remove_ingress key k
update_annotations (some annotations) (ok hosts) decode key k =
    update_labels (decode annotations) hosts key k

unfoldable pub update_from_item : Decoder → IngressItem → KubernetesService → KubernetesService
unfolding update_annotations
update_from_item decode item k =
    update_annotations item.annotations (extract_hosts item) decode item.key k

-- An event of the watch: an object that is not an ingress, and types that the code does not name,
-- change nothing.
pub data WatchEvent : Type 0 where
  added modified deleted : IngressItem → WatchEvent
  resynced : List IngressItem → WatchEvent
  skipped : WatchEvent

unfoldable pub resync_gvr : Decoder → List IngressItem → KubernetesService → KubernetesService
resync_gvr decode [] k = k
resync_gvr decode (item ∷ items) k = resync_gvr decode items (update_from_item decode item k)

-- One turn of the loop of `runWatcher`; a resync that the cluster refuses is skipped.
unfoldable pub run_watcher : Decoder → WatchEvent → KubernetesService → KubernetesService
run_watcher decode (added item) k = update_from_item decode item k
run_watcher decode (modified item) k = update_from_item decode item k
run_watcher decode (deleted item) k = remove_ingress item.key k
run_watcher decode (resynced items) k = resync_gvr decode items k
run_watcher decode skipped k = k

-- The loop, over the events that it meets.
unfoldable pub run_events : Decoder → List WatchEvent → KubernetesService → KubernetesService
run_events decode [] k = k
run_events decode (event ∷ events) k = run_events decode events (run_watcher decode event k)

-- The error is always nil.
unfoldable pub get_labels : String → KubernetesService → Result String (Option App)
get_labels app_domain k = if not k.started then ok none else elim (get_by_domain app_domain k) [
  | some app ↦ ok (some app)
  | none ↦ ok (get_by_app_name (first_of (split_n b'.' 2 app_domain)) k)
]
