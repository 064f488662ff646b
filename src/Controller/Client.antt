-- ===== src/Controller/Client.antt =====
-- What the reconciler of the load balancers calls: the API server behind its client, and
-- `SetControllerReference`, which is given the owner's metadata and those to change.
use k8s_glb_operator.Base.{Bool, List}
use k8s_glb_operator.Api.{
  NamespacedName, ObjectMeta, Labels, Result, Backend, GlobalLoadBalancer, ConfigMap, StatefulSet,
}
use k8s_glb_operator.Api.Objects.{CreateOrUpdate}
use k8s_glb_operator.Controller.Frontends.{FrontendClient}

pub record LoadBalancerClient (S : Type 0) : Type 0 where
  pub get_load_balancer : S → NamespacedName → Result GlobalLoadBalancer
  pub frontends : FrontendClient S
  pub list_backends : S → (Labels → Bool) → Result (List Backend)
  pub apply_stateful_set : CreateOrUpdate S StatefulSet
  pub apply_config_map : CreateOrUpdate S ConfigMap
  pub set_controller_reference : ObjectMeta → ObjectMeta → Result ObjectMeta
