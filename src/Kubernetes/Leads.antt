-- ===== src/Kubernetes/Leads.antt =====
-- internal/service/kubernetes_service.go: entries of an index that lead to an app.
use tinyauth.Base.{
  String, ◌≡◌, refl, ap, true, false, List, Option, none, some, eq_iff, eq_refl, if◌then◌else◌,
  arith, Bool-cases, Option-cases, inl, inr,
}
use tinyauth.Model.{App}
use tinyauth.Kubernetes.{
  IngressKey, IngressAppKey, IngressApp, AppIndex, is_same, unindex, reindex, first_app,
}
use tinyauth.Kubernetes.Index.{
  has_key, last_name, unindex_lem, reindex_lem, named, first_app-last_name, first_app-has_key,
}

is_same_lem : (a b : IngressKey) → is_same a b ≡ true → a ≡ b
is_same_lem a b e = ground (arith, e, eq_iff a.namespace b.namespace, eq_iff a.name b.name)

pub is_same_refl : (a : IngressKey) → is_same a a ≡ true
is_same_refl a = rw (eq_refl a.namespace, eq_refl a.name) refl

abbrev pub Ingresses : Type 0
Ingresses = IngressKey → Option (List IngressApp)

-- Each entry leads to an app that its ingress has.
abbrev pub Leads : (IngressApp → String) → Ingresses → AppIndex → Type 0
Leads of ingresses index =
    (d : String) (e : IngressAppKey)
    → index d ≡ some e
    → (apps : List IngressApp) × (app : App) × (ingresses e.ingress_key ≡ some apps)
      × (first_app (named of d e.app_name) apps ≡ some app)

abbrev pub replaced : IngressKey → Option (List IngressApp) → Ingresses → Ingresses
replaced key apps ingresses j = if is_same key j then apps else ingresses j

abbrev record_of : IngressKey → String → IngressAppKey
record_of key n = record { ingress_key = key; app_name = n }

abbrev pub dropped : (IngressApp → String) → Option (List IngressApp) → AppIndex → AppIndex
dropped of none index = index
dropped of (some apps) index = unindex of apps index

dropped-index :
    (of : IngressApp → String) (key : IngressKey) (held : Option (List IngressApp))
    (ingresses : Ingresses) (index : AppIndex) (d : String) (e : IngressAppKey)
    → ingresses key ≡ held
    → Leads of ingresses index
    → dropped of held index d ≡ some e
    → (index d ≡ some e) × (is_same key e.ingress_key ≡ false)
dropped-index of key none ingresses index d e missing leads h =
    let (apps, app, there, found) = leads d e h in
    (
      h,
      elim (Bool-cases (is_same key e.ingress_key)) [
        | inl i ↦
            absurd (ground (arith, missing, there, ap ingresses (is_same_lem key e.ingress_key i)))
        | inr i ↦ i
      ],
    )
dropped-index of key (some old) ingresses index d e held leads h =
    let stays : has_key of d old ≡ false = ground (arith, h, unindex_lem of d old index) in
    let same : index d ≡ some e = ground (arith, h, stays, unindex_lem of d old index) in
    let (apps, app, there, found) = leads d e same in
    (
      same,
      elim (Bool-cases (is_same key e.ingress_key)) [
        | inl i ↦
            let both : old ≡ apps =
              ground (arith, held, there, ap ingresses (is_same_lem key e.ingress_key i)) in
            absurd (
              ground (
                arith,
                stays,
                ap (has_key of d) both,
                first_app-has_key of d e.app_name apps app found,
              ))
        | inr i ↦ i
      ],
    )

pub dropped-Leads :
    (of : IngressApp → String) (key : IngressKey) (new : Option (List IngressApp))
    (ingresses : Ingresses) (index : AppIndex)
    → Leads of ingresses index
    → Leads of (replaced key new ingresses) (dropped of (ingresses key) index)
dropped-Leads of key new ingresses index leads d e h =
    let (same, other) = dropped-index of key (ingresses key) ingresses index d e refl leads h in
    let (apps, app, there, found) = leads d e same in (apps, app, rw other there, found)

pub reindex-Leads :
    (of : IngressApp → String) (key : IngressKey) (apps : List IngressApp) (ingresses : Ingresses)
    (index : AppIndex)
    → ingresses key ≡ some apps
    → Leads of ingresses index
    → Leads of ingresses (reindex of key apps index)
reindex-Leads of key apps ingresses index there leads d e h =
    elim (Option-cases (last_name of d apps)) [
      | inl l ↦ leads d e (ground (arith, h, l, reindex_lem of d key apps index))
      | inr (n, l) ↦
          let entry : record_of key n ≡ e = ground (arith, h, l, reindex_lem of d key apps index) in
          let (app, found) = first_app-last_name of d n apps l in
          rw (← entry) (apps, app, there, found)
    ]
