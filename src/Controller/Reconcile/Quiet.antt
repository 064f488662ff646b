-- ===== src/Controller/Reconcile/Quiet.antt =====
-- A pass of `Reconcile` (internal/controller/globalloadbalancer_controller.go) that finds nothing to do.
use mathlib.Core.Option
use k8s_glb_operator.Base.{
  ℕ, ◌+◌, ◌≡◌, ◌≢◌, ap, ◌∙◌, Bool, true, false, String, ◌<>◌, Option, none, some, List, All,
}
use k8s_glb_operator.Base.GoMap.{GoMap}
use k8s_glb_operator.Api.{
  Int32, NamespacedName, ObjectMeta, OwnerReference, Labels, LabelSelector, Error, Result, ok,
  Frontend, Backend, GlobalLoadBalancer, ConfigMap, StatefulSet,
}
use k8s_glb_operator.Api.Objects.{IsIdle}
use k8s_glb_operator.Haproxy.ConfigBuilder.{base_config, load_balancer_config}
use k8s_glb_operator.Controller.Backends.{get_backends}
use k8s_glb_operator.Controller.Client.{LoadBalancerClient}
use k8s_glb_operator.Controller.Config.Written.{RangesConfigs, HoldsConfigs, config_map_key}
use k8s_glb_operator.Controller.Config.Idle.{config_idle}
use k8s_glb_operator.Controller.Frontends.{get_frontends}
use k8s_glb_operator.Controller.Frontends.Again.{complete_in, complete_pass}
use k8s_glb_operator.Controller.Reconcile.{reconcile}
use k8s_glb_operator.Controller.Reconcile.Reconciled.{Manages, and_then-ok}
use k8s_glb_operator.Controller.StatefulSets.{mutate_set, new_set, ensure_haproxy_stateful_set}
use k8s_glb_operator.Controller.StatefulSets.Fresh.{set_key, desired_set, ensured_set, mutated}
use k8s_glb_operator.Controller.StatefulSets.Server.{Stamp}

module _ {S : Type 0} (client : LoadBalancerClient S)
    (find_set : S → NamespacedName → Option StatefulSet)
    (find_config : S → NamespacedName → Option ConfigMap) (stamp_of : S → NamespacedName → Stamp)
    (updates : S → ℕ) (owners : ObjectMeta → ObjectMeta → List OwnerReference)
    (laws : Manages client find_set find_config stamp_of updates owners)
    (configs_idle : IsIdle client.apply_config_map (λ cm. cm.metadata) find_config)
    (as_selector : LabelSelector → Result (Labels → Bool)) (show32 : Int32 → String)
    (show64 : ℕ → String) (range_configs : GoMap String String → List (String × String))
    (once : RangesConfigs range_configs) (starting_port : Int32) (req : NamespacedName) (s : S)
    (lb : GlobalLoadBalancer) (found : client.get_load_balancer s req ≡ ok lb) where
  abbrev pub after_set : S
  after_set = (ensure_haproxy_stateful_set client s lb).0

  -- A stored set has a creation timestamp, and what the changing function makes of it has none.
  set_changed :
      (stored : StatefulSet)
      → find_set s (set_key lb) ≡ some stored
      → desired_set owners lb ≢ stored
  set_changed stored there same = Option.none-ne-some (stamp_of s (set_key lb)).created (
      ap (λ (set : StatefulSet). set.metadata.creation_timestamp)
        (same ∙ laws.sets.kept s (set_key lb) stored there))

  set_updated :
      (stored : StatefulSet)
      → find_set s (set_key lb) ≡ some stored
      → updates after_set ≡ updates s + 1
  unfolding ensure_haproxy_stateful_set new_set
  set_updated stored there =
      laws.sets.updated s (new_set lb) stored (desired_set owners lb)
        (mutate_set client.set_controller_reference lb) there
        (mutated client find_set stamp_of updates laws.sets owners laws.owned lb stored)
        (set_changed stored there)

  -- A pass on a load balancer that is found, all of whose listed frontends have a load balancer and a port,
  -- and whose ConfigMap holds the text of these frontends and their backends, which are read and printed,
  -- for the pod of each replica, where the built map is ranged over once per entry, the client's calls
  -- succeed and those of `CreateOrUpdate` for the ConfigMap write nothing where the changing function
  -- leaves the stored object as it is, has no error and writes nothing but the StatefulSet. Over this it
  -- does write, if the set is stored: the server keeps a creation timestamp in it, which the changing
  -- function drops, and `CreateOrUpdate` sends an update where that function changes the stored set.
  pub quiet_pass :
      (fes : List Frontend) (backends : GoMap String (List Backend)) (config : String)
      (old : GoMap String String) (stored : StatefulSet)
      → get_frontends client.frontends as_selector after_set lb false ≡ ok fes
      → All (λ (fe : Frontend). complete_in (some fe.status) ≡ true) fes
      → get_backends as_selector (client.list_backends after_set) fes ≡ ok backends
      → load_balancer_config show32 show64 fes backends ≡ ok config
      → HoldsConfigs show32 show64
          (find_config after_set (config_map_key lb))
          lb
          (base_config <> config)
          old
      → find_set s (set_key lb) ≡ some stored
      → (reconcile client as_selector show32 show64 range_configs starting_port req s
          ≡ (after_set, none))
        × (updates (reconcile client as_selector show32 show64 range_configs starting_port req s).0
            ≡ updates s + 1)
  unfolding reconcile
  quiet_pass fes backends config old stored listed complete selected printed holds there =
      let frontends_done =
        complete_pass client.frontends lb starting_port as_selector after_set fes listed complete in
      let passed : reconcile client as_selector show32 show64 range_configs starting_port req s
          ≡ (after_set, none) =
        rw (found, reconcile)
          (and_then-ok (ensure_haproxy_stateful_set client s lb) _
              (ensured_set client find_set stamp_of updates laws.sets owners laws.owned lb s).0
            ∙ rw frontends_done (
                config_idle client as_selector show32 show64 range_configs once find_config
                  configs_idle after_set lb fes backends listed selected config printed old
                  holds)) in
      (passed, ap (λ (r : S × Option Error). updates r.0) passed ∙ set_updated stored there)
