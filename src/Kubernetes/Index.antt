-- ===== src/Kubernetes/Index.antt =====
-- internal/service/kubernetes_service.go: every entry of an index leads to an app.
use tinyauth.Base.{
  String, ◌≡◌, refl, ◌∙◌, Bool, true, ◌&&◌, List, [], ◌∷◌, Option, none, some, ◌==◌, eq_refl,
  if◌then◌else◌, arith, Bool-cases, Option-cases, inl, inr,
}
use tinyauth.Base.Lists.{any}
use tinyauth.Model.{App}
use tinyauth.Kubernetes.{
  IngressKey, IngressAppKey, IngressApp, AppIndex, unindex, reindex, first_app,
}

abbrev pub has_key : (IngressApp → String) → String → List IngressApp → Bool
has_key of d apps = any (λ a. of a == d) apps

-- The name of the last app under a key.
abbrev pub last_name : (IngressApp → String) → String → List IngressApp → Option String
last_name of d [] = none
last_name of d (a ∷ apps) = elim (last_name of d apps) [
  | some n ↦ some n
  | none ↦ if of a == d then some a.app_name else none
]

abbrev pub entry_for : IngressKey → Option String → Option IngressAppKey → Option IngressAppKey
entry_for key none old = old
entry_for key (some n) old = some (record { ingress_key = key; app_name = n })

pub unindex_lem :
    (of : IngressApp → String) (d : String) (apps : List IngressApp) (index : AppIndex)
    → unindex of apps index d ≡ (if has_key of d apps then none else index d)
unfolding unindex
unindex_lem of d [] index = refl
unindex_lem of d (a ∷ apps) index = unindex_lem of d apps _ ∙ ground arith

pub reindex_lem :
    (of : IngressApp → String) (d : String) (key : IngressKey) (apps : List IngressApp)
    (index : AppIndex)
    → reindex of key apps index d ≡ entry_for key (last_name of d apps) (index d)
unfolding reindex
reindex_lem of d key [] index = refl
reindex_lem of d key (a ∷ apps) index =
    reindex_lem of d key apps _ ∙ elim (Option-cases (last_name of d apps)) [
      | inl e ↦ rw e (ground arith)
      | inr (n, e) ↦ rw e refl
    ]

-- The app that an entry stands for.
abbrev pub named : (IngressApp → String) → String → String → IngressApp → Bool
named of d n a = of a == d && a.app_name == n

pub first_app-last_name :
    (of : IngressApp → String) (d n : String) (apps : List IngressApp)
    → last_name of d apps ≡ some n
    → (app : App) × (first_app (named of d n) apps ≡ some app)
unfolding first_app
first_app-last_name of d n [] e = absurd (ground (arith, e))
first_app-last_name of d n (a ∷ apps) e = elim (Bool-cases (named of d n a)) [
  | inl hit ↦ rw hit (a.app, refl)
  | inr miss ↦ rw miss (
      first_app-last_name of d n apps (elim (Option-cases (last_name of d apps)) [
        | inl l ↦ absurd (ground (arith, e, l, miss, eq_refl n))
        | inr (m, l) ↦ ground (arith, e, l)
      ]))
]

pub first_app-has_key :
    (of : IngressApp → String) (d n : String) (apps : List IngressApp) (app : App)
    → first_app (named of d n) apps ≡ some app
    → has_key of d apps ≡ true
unfolding first_app
first_app-has_key of d n [] app e = absurd (ground (arith, e))
first_app-has_key of d n (a ∷ apps) app e = elim (Bool-cases (of a == d)) [
  | inl hit ↦ rw hit refl
  | inr miss ↦ rw miss (first_app-has_key of d n apps app (ground (arith, e, miss)))
]

-- A weaker test finds an app too.
pub first_app-weaker :
    (p q : IngressApp → Bool) (apps : List IngressApp) (app : App)
    → ((a : IngressApp) → p a ≡ true → q a ≡ true)
    → first_app p apps ≡ some app
    → (found : App) × (first_app q apps ≡ some found)
unfolding first_app
first_app-weaker p q [] app w e = absurd (ground (arith, e))
first_app-weaker p q (a ∷ apps) app w e = elim (Bool-cases (q a)) [
  | inl hit ↦ rw hit (a.app, refl)
  | inr miss ↦ rw miss (first_app-weaker p q apps app w (ground (arith, e, miss, w a)))
]
