-- ===== src/Docker/Labels.antt =====
-- internal/service/docker_service.go: which container answers, and that its labels work as the same
-- apps in the configuration do.
use tinyauth.Base.{
  not, String, ◌≡◌, refl, ◌∙◌, sym, ap, true, List, [], ◌∷◌, ◌++◌, Option, none, some, Result, ok,
  if◌then◌else◌, arith,
}
use tinyauth.Base.Lists.{All}
use tinyauth.Model.{App}
use tinyauth.Policy.Apps.{
  lookup_static_acls, lookup_from, get_access_controls, access_controls_of, from_labels,
}
use tinyauth.Docker.{
  DockerClient, DockerService, match_apps, or_next, search_labels, search_container,
  search_containers, search_listed, get_labels,
}

-- A container whose labels can be read and declare these apps.
pub record Declares (client : DockerClient) (id : String) (apps : List (String × App))
    : Type 0 where
  pub raw : List (String × String)
  pub inspected : client.container_inspect id ≡ ok raw
  pub decoded : client.decode_labels raw ≡ ok apps

-- Its labels declare nothing for the domain.
pub record IsSilent (client : DockerClient) (domain id : String) : Type 0 where
  pub apps : List (String × App)
  pub declares : Declares client id apps
  pub nothing : lookup_static_acls apps domain ≡ none

match_apps-lookup_from :
    (domain : String) (name_match : Option App) (apps : List (String × App))
    → match_apps domain name_match apps ≡ lookup_from domain name_match apps
unfolding match_apps lookup_from
match_apps-lookup_from domain name_match [] = refl
match_apps-lookup_from domain name_match ((name, labels) ∷ rest) = ground (
  arith,
  match_apps-lookup_from domain name_match rest,
  match_apps-lookup_from domain (some labels) rest,
)

match_apps-lookup_static_acls :
    (domain : String) (apps : List (String × App))
    → match_apps domain none apps ≡ lookup_static_acls apps domain
unfolding lookup_static_acls
match_apps-lookup_static_acls domain apps = match_apps-lookup_from domain none apps

search_container-Declares :
    (client : DockerClient) (domain id : String) (apps : List (String × App))
    (next : Result String (Option App))
    → Declares client id apps
    → search_container (client.container_inspect id) client domain next
      ≡ or_next (lookup_static_acls apps domain) next
unfolding search_container search_labels
search_container-Declares client domain id apps next d =
    rw
      (
        d.inspected,
        search_container,
        d.decoded,
        search_labels,
        match_apps-lookup_static_acls domain apps,
      )
      refl

search_containers-match :
    (client : DockerClient) (domain id : String) (before after : List String)
    (apps : List (String × App)) (acls : App)
    → All (IsSilent client domain) before
    → Declares client id apps
    → lookup_static_acls apps domain ≡ some acls
    → search_containers client domain (before ++ id ∷ after) ≡ ok (some acls)
unfolding search_containers or_next
search_containers-match client domain id [] after apps acls silent d found =
    search_container-Declares client domain id apps _ d ∙ rw found refl
search_containers-match client domain id (other ∷ before) after apps acls silent d found =
    search_container-Declares client domain other silent.0.apps _ silent.0.declares
    ∙ rw silent.0.nothing
        (search_containers-match client domain id before after apps acls silent.1 d found)

get_access_controls-labels :
    (labels : String → Result String (Option App)) (domain : String)
    → get_access_controls [] (some labels) domain ≡ labels domain
unfolding get_access_controls access_controls_of from_labels lookup_static_acls lookup_from
get_access_controls-labels labels domain = refl

get_access_controls-static :
    (apps : List (String × App)) (domain : String) (acls : App)
    → lookup_static_acls apps domain ≡ some acls
    → get_access_controls apps none domain ≡ ok (some acls)
unfolding get_access_controls access_controls_of
get_access_controls-static apps domain acls found = rw found refl

-- A service that is connected answers for a domain with the apps of the first container that has
-- any for it, if the labels of the containers before it can be read; and its labels give what the
-- same apps would give in the configuration.
pub get_labels-get_access_controls :
    (docker : DockerService) (domain id : String) (before after : List String)
    (apps : List (String × App)) (acls : App)
    → docker.is_connected ≡ true
    → docker.client.container_list ≡ ok (before ++ id ∷ after)
    → All (IsSilent docker.client domain) before
    → Declares docker.client id apps
    → lookup_static_acls apps domain ≡ some acls
    → (get_labels docker domain ≡ ok (some acls))
      × (get_access_controls [] (some (get_labels docker)) domain
          ≡ get_access_controls apps none domain)
unfolding get_labels search_listed
get_labels-get_access_controls docker domain id before after apps acls on listed silent d found =
    let client = docker.client in
    let answer : get_labels docker domain ≡ ok (some acls) =
      ap (λ b. if not b then ok none else search_listed client.container_list client domain) on
      ∙ ap (λ l. search_listed l client domain) listed
      ∙ search_containers-match client domain id before after apps acls silent d found in
    (
      answer,
      get_access_controls-labels (get_labels docker) domain
          ∙ answer
          ∙ sym (get_access_controls-static apps domain acls found),
    )
