-- ===== src/Controller/Reconcile/Reconciled.antt =====
-- What a pass of `Reconcile` leaves (internal/controller/globalloadbalancer_controller.go).
use k8s_glb_operator.Base.{
  ℕ, ◌<◌, ◌≡◌, refl, subst, ap, ◌∙◌, Bool, false, String, ◌<>◌, Option, none, some, List, All,
}
use k8s_glb_operator.Base.GoMap.{GoMap}
use k8s_glb_operator.Api.{
  Int32, NamespacedName, ObjectMeta, OwnerReference, Labels, LabelSelector, Error, Result, ok, err,
  Frontend, Backend, GlobalLoadBalancer, ConfigMap, StatefulSet, EnvVar,
}
use k8s_glb_operator.Api.Objects.{base_of}
use k8s_glb_operator.Haproxy.ConfigBuilder.{passes}
use k8s_glb_operator.Haproxy.ConfigBuilder.Text.{fixed_text, frontends_text}
use k8s_glb_operator.Haproxy.ConfigBuilder.Printed.{IsPrintable}
use k8s_glb_operator.Controller.Backends.{get_backends}
use k8s_glb_operator.Controller.Client.{LoadBalancerClient}
use k8s_glb_operator.Controller.Config.{
  new_config_map, mutate_config, desired_config, write_config, reconcile_config,
}
use k8s_glb_operator.Controller.Config.Server.{Stores}
use k8s_glb_operator.Controller.Config.Written.{
  RangesConfigs, HoldsConfigs, config_map_key, config_written,
}
use k8s_glb_operator.Controller.Frontends.{get_frontends, reconcile_frontends}
use k8s_glb_operator.Controller.Frontends.Unchanged.{reconcile_frontends-kept}
use k8s_glb_operator.Controller.Reconcile.{and_then, reconcile}
use k8s_glb_operator.Controller.StatefulSets.{ensure_haproxy_stateful_set}
use k8s_glb_operator.Controller.StatefulSets.Server.{Stamp, Populates}
use k8s_glb_operator.Controller.StatefulSets.Fresh.{
  set_key, stored_set, ensured_set, IsWanted, stored_set-IsWanted,
}
use k8s_glb_operator.Controller.Reconcile.Started.{
  NumbersPods, IsStarted, numbers, replicas-IsStarted,
}
use k8s_glb_operator.Controller.StatefulSets.Template.{Expands}

-- A client whose calls succeed, over a server on which a write of one kind of object leaves the
-- StatefulSets as they are.
pub record Manages {S : Type 0} (client : LoadBalancerClient S)
    (find_set : S → NamespacedName → Option StatefulSet)
    (find_config : S → NamespacedName → Option ConfigMap) (stamp_of : S → NamespacedName → Stamp)
    (updates : S → ℕ) (owners : ObjectMeta → ObjectMeta → List OwnerReference) : Type 0 where
  pub sets : Populates client.apply_stateful_set find_set stamp_of updates
  pub configs : Stores client.apply_config_map find_config
  pub owned :
      (owner m : ObjectMeta)
      → client.set_controller_reference owner m
        ≡ ok (record m { owner_references = owners owner m })
  pub kept_by_status :
      (s : S) (fe : Frontend) (k : NamespacedName)
      → find_set (client.frontends.update_status s fe).0 k ≡ find_set s k
  pub kept_by_config :
      (s : S) (made : ConfigMap) (mutate : ConfigMap → Result ConfigMap) (k : NamespacedName)
      → find_set (client.apply_config_map s made mutate).0 k ≡ find_set s k

pub and_then-ok :
    {S : Type 0} (r : S × Option Error) (next : S → S × Option Error)
    → r.1 ≡ none
    → and_then r next ≡ next r.0
and_then-ok (s, e) next h = ap (λ x. and_then (s, x) next) h

module _ {S : Type 0} (client : LoadBalancerClient S)
    (find_set : S → NamespacedName → Option StatefulSet)
    (find_config : S → NamespacedName → Option ConfigMap) (stamp_of : S → NamespacedName → Stamp)
    (updates : S → ℕ) (owners : ObjectMeta → ObjectMeta → List OwnerReference)
    (laws : Manages client find_set find_config stamp_of updates owners) (lb : GlobalLoadBalancer)
    (starting_port : Int32) (k : NamespacedName) where
  -- Assigning the frontends writes no StatefulSet.
  frontends-kept :
      (as_selector : LabelSelector → Result (Labels → Bool)) (s : S) (fes : List Frontend)
      → get_frontends client.frontends as_selector s lb false ≡ ok fes
      → ((reconcile_frontends client.frontends as_selector starting_port s lb).1 ≡ none)
        × (find_set (reconcile_frontends client.frontends as_selector starting_port s lb).0 k
            ≡ find_set s k)
  frontends-kept =
      reconcile_frontends-kept client.frontends (λ s. find_set s k)
        (λ s fe. laws.kept_by_status s fe k) lb starting_port

module _ {S : Type 0} (client : LoadBalancerClient S)
    (find_set : S → NamespacedName → Option StatefulSet)
    (find_config : S → NamespacedName → Option ConfigMap) (stamp_of : S → NamespacedName → Stamp)
    (updates : S → ℕ) (owners : ObjectMeta → ObjectMeta → List OwnerReference)
    (laws : Manages client find_set find_config stamp_of updates owners)
    (as_selector : LabelSelector → Result (Labels → Bool)) (show32 : Int32 → String)
    (show64 : ℕ → String) (range_configs : GoMap String String → List (String × String))
    (once : RangesConfigs range_configs) (starting_port : Int32) (req : NamespacedName) (s : S)
    (lb : GlobalLoadBalancer) (found : client.get_load_balancer s req ≡ ok lb) where
  -- The states after the first and after the second part of the pass.
  abbrev pub with_set : S
  with_set = (ensure_haproxy_stateful_set client s lb).0

  abbrev pub with_ports : S
  with_ports = (reconcile_frontends client.frontends as_selector starting_port with_set lb).0

  abbrev pub after_pass : S × Option Error
  after_pass = reconcile client as_selector show32 show64 range_configs starting_port req s

  module _ (first fes : List Frontend) (backends : GoMap String (List Backend))
      (read : get_frontends client.frontends as_selector with_set lb false ≡ ok first)
      (listed : get_frontends client.frontends as_selector with_ports lb false ≡ ok fes)
      (selected : get_backends as_selector (client.list_backends with_ports) fes ≡ ok backends)
      (printable : All (IsPrintable backends) fes) (old : GoMap String String)
      (has_old : (base_of (find_config with_ports (config_map_key lb)) (new_config_map lb)).entries
        ≡ some old)
      (expand : List EnvVar → String → String → String) (expands : Expands expand)
      (name_pod : StatefulSet → ℕ → String) (named : NumbersPods show32 name_pod)
      (positive : 0 < passes lb.spec.replicas) where
    write-kept :
        (r : Result (GoMap String String))
        → find_set
            (write_config client as_selector show32 show64 range_configs with_ports lb r).0
            (set_key lb)
          ≡ find_set with_ports (set_key lb)
    unfolding write_config
    write-kept (err e) = refl
    write-kept (ok configs) =
        laws.kept_by_config with_ports (new_config_map lb) (mutate_config (range_configs configs))
          (set_key lb)

    passed :
        after_pass ≡ reconcile_config client as_selector show32 show64 range_configs with_ports lb
    unfolding reconcile
    passed =
        rw (found, reconcile)
          (and_then-ok (ensure_haproxy_stateful_set client s lb) _
              (ensured_set client find_set stamp_of updates laws.sets owners laws.owned lb s).0
            ∙ and_then-ok
                (reconcile_frontends client.frontends as_selector starting_port with_set lb) _
                (frontends-kept client find_set find_config stamp_of updates owners laws lb
                  starting_port (set_key lb) as_selector with_set first read).0)

    config_kept :
        find_set
          (reconcile_config client as_selector show32 show64 range_configs with_ports lb).0
          (set_key lb)
        ≡ find_set with_ports (set_key lb)
    unfolding reconcile_config
    config_kept =
        write-kept (desired_config client as_selector show32 show64 range_configs with_ports lb)

    set_left :
        find_set after_pass.0 (set_key lb)
        ≡ some (stored_set client find_set stamp_of updates laws.sets owners laws.owned lb s)
    set_left =
        ap (λ (r : S × Option Error). find_set r.0 (set_key lb)) passed
        ∙ config_kept
        ∙ (frontends-kept client find_set find_config stamp_of updates owners laws lb starting_port
            (set_key lb) as_selector with_set first read).1
        ∙ (ensured_set client find_set stamp_of updates laws.sets owners laws.owned lb s).1

    -- A pass of `Reconcile` on a load balancer that is found, where the client's calls succeed, the server
    -- keeps the UID and the creation timestamp of a stored set and gives both to a new one, the
    -- frontends and backends are read, nothing that is printed is a nil pointer, there is a replica, the
    -- built map is ranged over once per entry and the ConfigMap has a map of entries or is not there yet,
    -- has no error. It leaves the StatefulSet that the load balancer asks for and a ConfigMap that agree:
    -- if pods have the set's name, a dash and their number, and the variable POD_NAME in an argument is
    -- replaced by the pod's name where it is set to that, the pod of each replica is started with an entry
    -- of this ConfigMap, and this entry is the text for the frontends and their backends. Under the key of
    -- any name that is not one of these pods the ConfigMap holds what it held.
    pub reconciled :
        (after_pass.1 ≡ none)
        × (set : StatefulSet) × (find_set after_pass.0 (set_key lb) ≡ some set)
        × IsWanted owners (stamp_of s (set_key lb)) lb set
        × (cfg_map : ConfigMap) × (find_config after_pass.0 (config_map_key lb) ≡ some cfg_map)
        × All
            (λ i.
              IsStarted expand set cfg_map
                (fixed_text <> frontends_text show32 show64 fes backends)
                (name_pod set i))
            (numbers (passes lb.spec.replicas))
        × HoldsConfigs show32 show64
            (some cfg_map)
            lb
            (fixed_text <> frontends_text show32 show64 fes backends)
            old
    reconciled =
        let set = stored_set client find_set stamp_of updates laws.sets owners laws.owned lb s in
        let (fine, holds) =
          config_written client as_selector show32 show64 range_configs with_ports lb fes backends
            listed selected printable find_config laws.configs once old has_old positive in
        let found_map : find_config after_pass.0 (config_map_key lb) ≡ some holds.cfg_map =
          ap (λ (r : S × Option Error). find_config r.0 (config_map_key lb)) passed
          ∙ holds.is_stored in
        (
          ap (λ (r : S × Option Error). r.1) passed ∙ fine,
          set,
          set_left,
          stored_set-IsWanted client find_set stamp_of updates laws.sets owners laws.owned lb s,
          holds.cfg_map,
          found_map,
          replicas-IsStarted show32 show64 name_pod named expand expands lb set refl refl holds (
              ap (λ (k : NamespacedName). k.name)
                (laws.configs.named after_pass.0 (config_map_key lb) holds.cfg_map found_map)),
          subst
              (λ (r : Option ConfigMap).
                HoldsConfigs show32 show64 r lb
                  (fixed_text <> frontends_text show32 show64 fes backends) old)
              holds.is_stored holds,
        )
