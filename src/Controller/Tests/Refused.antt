-- ===== src/Controller/Tests/Refused.antt =====
-- `ReconcileFrontends` where the API server refuses the update of `web`, the first of two frontends
-- without a port.
use k8s_glb_operator.Base.{
  ◌≡◌, refl, ap, ◌∙◌, Bool, false, not, ◌&&◌, Bool-cases, inl, inr, none, some, if◌then◌else◌, ◌==◌,
  string_eq,
}
use k8s_glb_operator.Base.GoMap.{insert, lookup-insert}
use k8s_glb_operator.Api.{NamespacedName, namespaced_name_eq, not_found, ok, Frontend, frontend_key}
use k8s_glb_operator.Api.Named.{key-eq, key-ne}
use k8s_glb_operator.Controller.Ports.{get_next_port}
use k8s_glb_operator.Controller.Frontends.{
  FrontendClient, keep_frontends, get_frontends, reconcile_frontends,
}
use k8s_glb_operator.Controller.Frontends.Assigned.{Answers, completed}
use k8s_glb_operator.Controller.Frontends.Refused.{refused_status}
use k8s_glb_operator.Controller.Tests.{
  Store, client, status_of, stored, all, lb, web, shop, match_all, distinct, shop_listed,
}

abbrev refuses : NamespacedName → Bool
refuses k = k == frontend_key web

abbrev refusing : FrontendClient Store
refusing = record client {
  update_status = λ s fe.
      if refuses (frontend_key fe)
      then (s, some not_found)
      else (insert (frontend_key fe) fe.status s, none);
}

answered_at :
    (s : Store) (fe : Frontend) (k : NamespacedName)
    → status_of (refusing.update_status s fe).0 k
      ≡ (if k == frontend_key fe && not (refuses k) then some fe.status else status_of s k)
answered_at s fe k = elim (Bool-cases (refuses (frontend_key fe))) [
  | inl refused ↦ elim (namespaced_name_eq.dec k (frontend_key fe)) [
    | yes same ↦ rw (refused, key-eq k _ same, ap refuses same ∙ refused) refl
    | no differ ↦ rw (refused, key-ne k _ differ) refl
  ]
  | inr taken ↦ elim (namespaced_name_eq.dec k (frontend_key fe)) [
    | yes same ↦
        rw (taken, key-eq k _ same, ap refuses same ∙ taken)
          (lookup-insert k (frontend_key fe) fe.status s ∙ rw (key-eq k _ same) refl)
    | no differ ↦
        rw (taken, key-ne k _ differ)
          (lookup-insert k (frontend_key fe) fe.status s ∙ rw (key-ne k _ differ) refl)
  ]
]

answers : Answers refusing status_of refuses
answers = record { answered = answered_at }

listed : get_frontends refusing match_all stored lb false ≡ ok all
unfolding get_frontends keep_frontends string_eq
listed = refl

refused_status_example :
    ((reconcile_frontends refusing match_all 10000 stored lb).1 ≡ none)
    × (status_of (reconcile_frontends refusing match_all 10000 stored lb).0 (frontend_key shop)
        ≡ some (completed lb (get_next_port all 10000) shop.status))
unfolding string_eq namespaced_name_eq
refused_status_example =
    refused_status refusing status_of refuses answers match_all 10000 stored lb all listed distinct
      shop shop_listed
