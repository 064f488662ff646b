-- ===== src/Controller/Config/Idle.antt =====
-- `ReconcileConfig` (internal/controller/globalloadbalancer_controller.go) over a ConfigMap that holds
-- what it would write.
use k8s_glb_operator.Base.{
  ℕ, ◌≡◌, refl, sym, ap, ◌∙◌, Bool, false, String, ◌<>◌, Option, none, some, List, [], ◌∷◌, All,
  string_eq, arith,
}
use k8s_glb_operator.Base.GoMap.{GoMap, lookup, insert-same, NodupKeys}
use k8s_glb_operator.Api.{
  Int32, NamespacedName, Labels, LabelSelector, error_of, Result, ok, Frontend, Backend,
  GlobalLoadBalancer, ConfigMap,
}
use k8s_glb_operator.Api.Objects.{IsIdle}
use k8s_glb_operator.Haproxy.ConfigBuilder.{
  base_config, load_balancer_config, build_config, add_replicas, passes,
}
use k8s_glb_operator.Haproxy.ConfigBuilder.Replicas.{lookup-add_replicas, add_replicas-NodupKeys}
use k8s_glb_operator.Controller.Client.{LoadBalancerClient}
use k8s_glb_operator.Controller.Frontends.{get_frontends}
use k8s_glb_operator.Controller.Backends.{get_backends}
use k8s_glb_operator.Controller.Config.{
  config_key, new_config_map, set_entry, set_entries, mutate_config, desired_config, write_config,
  reconcile_config,
}
use k8s_glb_operator.Controller.Config.Written.{
  RangesConfigs, HoldsConfigs, config_map_key, mutate_config-ok,
}

-- Each entry is in the map.
abbrev AllHeld : GoMap String String → List (String × String) → Type 0
AllHeld m = All (λ (p : String × String). lookup (config_key p.0) m ≡ some p.1)

set_entries-same :
    (configs : List (String × String)) (m : GoMap String String)
    → AllHeld m configs
    → set_entries configs (some m) ≡ ok (some m)
unfolding set_entries set_entry
set_entries-same [] m h = refl
set_entries-same ((pod, config) ∷ configs) m h =
    ap (λ (n : GoMap String String). set_entries configs (some n))
      (insert-same (config_key pod) config m h.0)
    ∙ set_entries-same configs m h.1

AllHeld-of_lookup :
    (configs : List (String × String)) (m : GoMap String String)
    → NodupKeys configs
    → ((pod config : String)
        → lookup pod configs ≡ some config
        → lookup (config_key pod) m ≡ some config)
    → AllHeld m configs
unfolding lookup
AllHeld-of_lookup [] m d h = tt
AllHeld-of_lookup ((pod, config) ∷ configs) m (fresh, d) h = (
  h pod config (ground arith),
  AllHeld-of_lookup configs m d (λ p c found. h p c (ground (arith, found, fresh))),
)

mutate_config-same :
    (configs : List (String × String)) (cm : ConfigMap) (held : GoMap String String)
    → cm.entries ≡ some held
    → AllHeld held configs
    → mutate_config configs cm ≡ ok cm
mutate_config-same configs cm held has h =
    mutate_config-ok configs cm held held has (set_entries-same configs held h)
    ∙ ap (λ (m : Option (GoMap String String)). ok (record cm { entries = m })) (sym has)

module _ {S : Type 0} (client : LoadBalancerClient S)
    (as_selector : LabelSelector → Result (Labels → Bool)) (show32 : Int32 → String)
    (show64 : ℕ → String) (range_configs : GoMap String String → List (String × String))
    (once : RangesConfigs range_configs) (find_config : S → NamespacedName → Option ConfigMap)
    (configs_idle : IsIdle client.apply_config_map (λ cm. cm.metadata) find_config) (s : S)
    (lb : GlobalLoadBalancer) (fes : List Frontend) (backends : GoMap String (List Backend))
    (listed : get_frontends client.frontends as_selector s lb false ≡ ok fes)
    (selected : get_backends as_selector (client.list_backends s) fes ≡ ok backends)
    (config : String) (printed : load_balancer_config show32 show64 fes backends ≡ ok config)
    (old : GoMap String String) where
  abbrev replicas : GoMap String String
  replicas = add_replicas show32 show64 lb config (passes lb.spec.replicas)

  goes_on :
      reconcile_config client as_selector show32 show64 range_configs s lb
      ≡ write_config client as_selector show32 show64 range_configs s lb (ok replicas)
  unfolding reconcile_config desired_config build_config
  goes_on = rw (listed, selected, printed) refl

  module _
      (holds : HoldsConfigs show32 show64
        (find_config s (config_map_key lb))
        lb
        (base_config <> config)
        old) where
    replica_held :
        (pod text : String)
        → lookup pod (range_configs replicas) ≡ some text
        → lookup (config_key pod) holds.held ≡ some text
    replica_held pod text found = ground (
      arith,
      found,
      holds.lookup-held pod,
      once.same replicas pod
          (add_replicas-NodupKeys show32 show64 lb config (passes lb.spec.replicas)),
      lookup-add_replicas show32 show64 lb config pod (passes lb.spec.replicas),
    )

    -- Where the ConfigMap holds the text of the frontends for the pod of each replica, a pass of
    -- `ReconcileConfig` that ranges over what it builds in any order has no error and writes nothing.
    pub config_idle :
        reconcile_config client as_selector show32 show64 range_configs s lb ≡ (s, none)
    unfolding write_config new_config_map
    config_idle =
        goes_on
        ∙ ap (λ (r : S × Result ConfigMap). (r.0, error_of r.1))
            (configs_idle.idle s (new_config_map lb) holds.cfg_map
              (mutate_config (range_configs replicas)) holds.is_stored
              (mutate_config-same (range_configs replicas) holds.cfg_map holds.held
                holds.has_entries
                (AllHeld-of_lookup (range_configs replicas) holds.held
                  (once.distinct replicas
                    (add_replicas-NodupKeys show32 show64 lb config (passes lb.spec.replicas)))
                  replica_held)))
