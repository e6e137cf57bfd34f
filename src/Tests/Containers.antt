-- ===== src/Tests/Containers.antt =====
-- internal/service/docker_service.go: three containers.
use tinyauth.Base.{String, ◌≡◌, refl, [], ◌∷◌, none, some, ok, List, ◌==◌, if◌then◌else◌, true}
use tinyauth.Model.{App}
use tinyauth.Policy.Apps.{get_access_controls, lookup_static_acls}
use tinyauth.Docker.{DockerClient, DockerService, get_labels}
use tinyauth.Docker.Labels.{Declares, IsSilent, get_labels-get_access_controls}
use tinyauth.Tests.Policies.{app}

-- A container without an app for the domain, and one with it.
abbrev declared : List (String × String) → List (String × App)
declared [] = []
declared (_ ∷ _) = ("wiki", app) ∷ []

abbrev client : DockerClient
client = record {
  container_list = ok ("quiet" ∷ "wiki" ∷ "wiki" ∷ []);
  container_inspect = λ id. ok (if id == "wiki" then ("a", "b") ∷ [] else []);
  decode_labels = λ raw. ok (declared raw);
}

abbrev docker : DockerService
docker = record { client = client; is_connected = true }

quiet-IsSilent : IsSilent client "wiki.example.com" "quiet"
unfolding lookup_static_acls
quiet-IsSilent = record {
  apps = [];
  declares = record { raw = []; inspected = refl; decoded = refl };
  nothing = refl;
}

wiki-Declares : Declares client "wiki" (("wiki", app) ∷ [])
wiki-Declares = record { raw = ("a", "b") ∷ []; inspected = refl; decoded = refl }

get_labels-get_access_controls_example :
    (get_labels docker "wiki.example.com" ≡ ok (some app))
    × (get_access_controls [] (some (get_labels docker)) "wiki.example.com"
        ≡ get_access_controls (("wiki", app) ∷ []) none "wiki.example.com")
unfolding lookup_static_acls
get_labels-get_access_controls_example =
    get_labels-get_access_controls docker "wiki.example.com" "wiki" ("quiet" ∷ []) ("wiki" ∷ [])
      (("wiki", app) ∷ []) app refl refl (quiet-IsSilent, tt) wiki-Declares refl
