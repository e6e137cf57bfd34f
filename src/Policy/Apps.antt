-- ===== src/Policy/Apps.antt =====
-- internal/service/access_controls_service.go: which app's access controls a host gets.
use tinyauth.Base.{
  String, ◌≡◌, refl, List, [], ◌∷◌, Option, none, some, Result, ok, ◌==◌, eq_iff, eq_refl,
  if◌then◌else◌, arith, String-cases, Bool-cases, inl, inr,
}
use tinyauth.Base.Dict.{lookup, HasDistinctKeys, has_iff_lookup}
use tinyauth.Text.{split_n, first_of}
use tinyauth.Model.{App}

-- An optional label provider: Docker or Kubernetes. The error is its message.
abbrev pub LabelProvider : Type 0
LabelProvider = Option (String → Result String (Option App))

abbrev pub app_name : String → String
app_name domain = first_of (split_n b'.' 2 domain)

-- The loop over the configured apps.
unfoldable pub lookup_from : String → Option App → List (String × App) → Option App
lookup_from domain name_match [] = name_match
lookup_from domain name_match ((app, config) ∷ apps) =
    if config.config.domain == domain
    then some config
    else (if app_name domain == app
        then lookup_from domain (some config) apps
        else lookup_from domain name_match apps)

unfoldable pub lookup_static_acls : List (String × App) → String → Option App
unfolding lookup_from
lookup_static_acls apps domain = lookup_from domain none apps

unfoldable pub from_labels : LabelProvider → String → Result String (Option App)
from_labels none domain = ok none
from_labels (some get_labels) domain = get_labels domain

unfoldable pub access_controls_of : LabelProvider → String → Option App → Result String (Option App)
unfolding from_labels
access_controls_of labels domain (some app) = ok (some app)
access_controls_of labels domain none = from_labels labels domain

unfoldable pub get_access_controls :
    List (String × App) → LabelProvider → String → Result String (Option App)
unfolding access_controls_of
get_access_controls apps labels domain =
    access_controls_of labels domain (lookup_static_acls apps domain)

-- The first app that is configured for the domain.
abbrev pub by_domain : String → List (String × App) → Option App
by_domain domain [] = none
by_domain domain ((app, config) ∷ apps) =
    if config.config.domain == domain then some config else by_domain domain apps

abbrev pub or_else {ℓ} : {A : Type ℓ} → Option A → Option A → Option A
or_else none o = o
or_else (some a) o = some a

lookup_from_lem :
    (domain : String) (name_match : Option App) (apps : List (String × App))
    → HasDistinctKeys apps
    → lookup_from domain name_match apps
      ≡ or_else (by_domain domain apps) (or_else (lookup (app_name domain) apps) name_match)
unfolding lookup lookup_from
lookup_from_lem domain name_match [] d = refl
lookup_from_lem domain name_match ((app, config) ∷ apps) d =
    elim (Bool-cases (config.config.domain == domain)) [
      | inl e ↦ rw e refl
      | inr e ↦ rw e (elim (String-cases (app_name domain) app) [
        | inl (n, p) ↦
            rw (n, lookup_from_lem domain (some config) apps d.1)
              (ground (arith, eq_refl app, has_iff_lookup app apps))
        | inr (n, p) ↦
            rw (n, lookup_from_lem domain name_match apps d.1)
              (ground (arith, eq_iff app (app_name domain)))
      ])
    ]

-- A host gets the first app that is configured for the domain; else the app that is named like the
-- part of the host before its first '.'; else what the label provider knows of it, and nothing
-- where there is no provider. The names of the apps are distinct.
pub get_access_controls_lem :
    (apps : List (String × App)) (labels : LabelProvider) (domain : String)
    → HasDistinctKeys apps
    → get_access_controls apps labels domain
      ≡ elim (or_else (by_domain domain apps) (lookup (app_name domain) apps)) [
        | some app ↦ ok (some app)
        | none ↦ elim labels [ none ↦ ok none | some get_labels ↦ get_labels domain ]
      ]
unfolding get_access_controls lookup_static_acls access_controls_of from_labels
get_access_controls_lem apps labels domain d =
    rw (lookup_from_lem domain none apps d) (ground arith)
