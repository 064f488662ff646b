-- ===== src/Controller/Reconcile.antt =====
-- `Reconcile` of internal/controller/globalloadbalancer_controller.go.
pub mod Started
pub mod Reconciled
pub mod Quiet
use k8s_glb_operator.Base.{ℕ, Bool, String, Option, none, some, List}
use k8s_glb_operator.Base.GoMap.{GoMap}
use k8s_glb_operator.Api.{
  Int32, NamespacedName, Labels, LabelSelector, Error, ignore_not_found, Result, ok, err,
}
use k8s_glb_operator.Controller.Client.{LoadBalancerClient}
use k8s_glb_operator.Controller.Config.{reconcile_config}
use k8s_glb_operator.Controller.Frontends.{reconcile_frontends}
use k8s_glb_operator.Controller.StatefulSets.{ensure_haproxy_stateful_set}

-- `if err := ...; err != nil { return ctrl.Result{}, err }`, and what follows.
abbrev pub and_then : {S : Type 0} → S × Option Error → (S → S × Option Error) → S × Option Error
and_then (s, some e) next = (s, some e)
and_then (s, none) next = next s

module _ {S : Type 0} (client : LoadBalancerClient S)
    (as_selector : LabelSelector → Result (Labels → Bool)) (show32 : Int32 → String)
    (show64 : ℕ → String) (range_configs : GoMap String String → List (String × String))
    (starting_port : Int32) where
  unfoldable pub reconcile : NamespacedName → S → S × Option Error
  reconcile req s = elim (client.get_load_balancer s req) [
    | err e ↦ (s, ignore_not_found e)
    | ok lb ↦ and_then (ensure_haproxy_stateful_set client s lb) λ s1.
        and_then (reconcile_frontends client.frontends as_selector starting_port s1 lb)
          λ s2. reconcile_config client as_selector show32 show64 range_configs s2 lb
  ]
