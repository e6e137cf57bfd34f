-- ===== src/Docker.antt =====
-- internal/service/docker_service.go: the access controls that the labels of containers declare.
pub mod Labels
use tinyauth.Base.{
  String, Bool, not, List, [], ◌∷◌, Option, none, some, Result, ok, err, ◌==◌, if◌then◌else◌,
}
use tinyauth.Model.{App}
use tinyauth.Policy.Apps.{app_name}

-- The client: the ids of the containers, the labels of one, and `decoders.DecodeLabels`, with its
-- apps in the order of the range.
pub record DockerClient : Type 0 where
  pub container_list : Result String (List String)
  pub container_inspect : String → Result String (List (String × String))
  pub decode_labels : List (String × String) → Result String (List (String × App))

pub record DockerService : Type 0 where
  pub client : DockerClient
  pub is_connected : Bool

-- The loop over the apps of one container.
match_apps : String → Option App → List (String × App) → Option App
match_apps app_domain name_match [] = name_match
match_apps app_domain name_match ((name, labels) ∷ rest) =
    let by_name = match_apps app_domain (some labels) rest in
    let by_domain = match_apps app_domain name_match rest in
    if labels.config.domain == app_domain
    then some labels
    else (if app_name app_domain == name then by_name else by_domain)

-- What follows for a container that has no match.
or_next : Option App → Result String (Option App) → Result String (Option App)
or_next none next = next
or_next (some app) next = ok (some app)

search_labels :
    Result String (List (String × App))
    → String
    → Result String (Option App)
    → Result String (Option App)
unfolding match_apps or_next
search_labels (err e) app_domain next = err e
search_labels (ok apps) app_domain next = or_next (match_apps app_domain none apps) next

search_container :
    Result String (List (String × String))
    → DockerClient
    → String
    → Result String (Option App)
    → Result String (Option App)
unfolding search_labels
search_container (err e) client app_domain next = err e
search_container (ok raw) client app_domain next =
    search_labels (client.decode_labels raw) app_domain next

-- The loop over the containers.
search_containers : DockerClient → String → List String → Result String (Option App)
unfolding search_container
search_containers client app_domain [] = ok none
search_containers client app_domain (id ∷ ids) =
    search_container (client.container_inspect id) client app_domain
      (search_containers client app_domain ids)

search_listed : Result String (List String) → DockerClient → String → Result String (Option App)
unfolding search_containers
search_listed (err e) client app_domain = err e
search_listed (ok ids) client app_domain = search_containers client app_domain ids

unfoldable pub get_labels : DockerService → String → Result String (Option App)
unfolding search_listed
get_labels docker app_domain =
    if not docker.is_connected
    then ok none
    else search_listed docker.client.container_list docker.client app_domain
