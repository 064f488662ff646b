-- ===== src/Controller/Frontends/Refused.antt =====
-- `ReconcileFrontends` where the API server refuses some of its status updates
-- (internal/controller/globalloadbalancer_controller.go): the error is logged and the loop goes on.
use mathlib.Core.List.{Mem, Nodup}
use k8s_glb_operator.Base.{
  ◌≡◌, refl, ap, ◌∙◌, Bool, false, not, ◌&&◌, Option, none, some, List, map, if◌then◌else◌,
}
use k8s_glb_operator.Api.{
  Int32, Labels, LabelSelector, NamespacedName, Error, Result, ok, Frontend, FrontendStatus,
  frontend_key, GlobalLoadBalancer,
}
use k8s_glb_operator.Controller.Ports.{get_next_port}
use k8s_glb_operator.Controller.Frontends.{FrontendClient, get_frontends, reconcile_frontends}
use k8s_glb_operator.Controller.Frontends.Assigned.{
  Answers, is_incomplete, completed, assign-completed, rounds-answered, reconcile_frontends-rounds,
}

module _ {S : Type 0} (client : FrontendClient S)
    (status_of : S → NamespacedName → Option FrontendStatus) (refuses : NamespacedName → Bool)
    (laws : Answers client status_of refuses) (as_selector : LabelSelector → Result (Labels → Bool))
    (starting_port : Int32) (s : S) (lb : GlobalLoadBalancer) (fes : List Frontend)
    (listed : get_frontends client as_selector s lb false ≡ ok fes)
    (distinct : Nodup (map frontend_key fes)) where
  -- With the listed frontends under distinct names, and whichever of the status updates are refused,
  -- whatever the errors are: the pass has no error. A frontend that lacks a load balancer or a port and
  -- whose update is not refused gets this load balancer and the next port of the list as it was read for
  -- what it lacks, whichever updates before it were refused; the stored status of every other stays.
  pub refused_status :
      (fe : Frontend)
      → Mem fe fes
      → ((reconcile_frontends client as_selector starting_port s lb).1 ≡ none)
        × (status_of (reconcile_frontends client as_selector starting_port s lb).0 (frontend_key fe)
            ≡ (if is_incomplete fe.status && not (refuses (frontend_key fe))
                then some (completed lb (get_next_port fes starting_port) fe.status)
                else status_of s (frontend_key fe)))
  refused_status fe member =
      let passed = reconcile_frontends-rounds client as_selector starting_port s lb fes listed in
      let (lacks, filled) = assign-completed lb (get_next_port fes starting_port) fe in
      (
        ap (λ (r : S × Option Error). r.1) passed,
        ap (λ (r : S × Option Error). status_of r.0 (frontend_key fe)) passed
            ∙ rounds-answered client status_of refuses laws lb starting_port fes fes s fe distinct
                member
            ∙ rw (lacks, filled) refl,
      )
