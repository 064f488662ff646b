-- ===== src/Controller/Config/Stuck.antt =====
-- `ReconcileConfig` on a ConfigMap that the server gives without a map of entries
-- (internal/controller/globalloadbalancer_controller.go). One that was created for no replica is read so.
use k8s_glb_operator.Base.{
  ℕ, zero, suc, ◌<◌, ◌≡◌, refl, ap, ◌∙◌, Bool, false, String, ◌<>◌, Option, none, some, List, [],
  ◌∷◌, string_eq, arith, All,
}
use k8s_glb_operator.Base.GoMap.{GoMap, lookup}
use k8s_glb_operator.Api.{
  Int32, NamespacedName, Labels, LabelSelector, error_of, nil_map_write, Result, ok, err, ◌>>=◌,
  Frontend, Backend, GlobalLoadBalancer, ConfigMap,
}
use k8s_glb_operator.Api.Objects.{base_of}
use k8s_glb_operator.Controller.Config.Server.{Stores}
use k8s_glb_operator.Haproxy.ConfigBuilder.{base_config, add_replicas, passes, pod_name}
use k8s_glb_operator.Haproxy.ConfigBuilder.Printed.{IsPrintable}
use k8s_glb_operator.Haproxy.ConfigBuilder.Text.{frontends_text}
use k8s_glb_operator.Haproxy.ConfigBuilder.Replicas.{
  is_pod, lookup-add_replicas, add_replicas-NodupKeys,
}
use k8s_glb_operator.Controller.Client.{LoadBalancerClient}
use k8s_glb_operator.Controller.Frontends.{get_frontends}
use k8s_glb_operator.Controller.Backends.{get_backends}
use k8s_glb_operator.Controller.Config.{
  new_config_map, set_entry, set_entries, mutate_config, write_config, reconcile_config,
}
use k8s_glb_operator.Controller.Config.Written.{RangesConfigs, config_map_key, desired}

set_entries-nil :
    (configs : List (String × String)) (pod text : String)
    → lookup pod configs ≡ some text
    → set_entries configs none ≡ err nil_map_write
unfolding set_entries set_entry lookup
set_entries-nil [] pod text h = cc
set_entries-nil (_ ∷ configs) pod text h = refl

mutate_config-nil :
    (configs : List (String × String)) (cm : ConfigMap)
    → cm.entries ≡ none
    → set_entries configs none ≡ err nil_map_write
    → mutate_config configs cm ≡ err nil_map_write
unfolding mutate_config
mutate_config-nil configs cm e set =
    ap
      (λ (m : Option (GoMap String String)).
        set_entries configs m >>= λ es. ok (record cm { entries = es }))
      e
    ∙ ap
        (λ (r : Result (Option (GoMap String String))). r >>= λ es. ok (record cm { entries = es }))
        set

module _ {S : Type 0} (client : LoadBalancerClient S)
    (as_selector : LabelSelector → Result (Labels → Bool)) (show32 : Int32 → String)
    (show64 : ℕ → String) (range_configs : GoMap String String → List (String × String)) (s : S)
    (lb : GlobalLoadBalancer) (fes : List Frontend) (backends : GoMap String (List Backend))
    (listed : get_frontends client.frontends as_selector s lb false ≡ ok fes)
    (selected : get_backends as_selector (client.list_backends s) fes ≡ ok backends)
    (printable : All (IsPrintable backends) fes) where
  last_pod :
      (text : String) (i : ℕ)
      → lookup (pod_name show32 show64 lb i) (add_replicas show32 show64 lb text (suc i))
        ≡ some (base_config <> text)
  unfolding is_pod pod_name
  last_pod text i =
      lookup-add_replicas show32 show64 lb text (pod_name show32 show64 lb i) (suc i) ∙ ground arith

  some_pod :
      (text : String) (n : ℕ)
      → 0 < n
      → (pod : String) × (lookup pod (add_replicas show32 show64 lb text n)
          ≡ some (base_config <> text))
  some_pod text zero h = absurd (omega arith)
  some_pod text (suc i) h = (pod_name show32 show64 lb i, last_pod text i)

  -- Where the frontends and backends are read, nothing that is printed is a nil pointer, the built map is
  -- ranged over once per entry and there is a replica: if the server gives the ConfigMap with a nil map,
  -- `ReconcileConfig` panics on the write of the first entry and leaves everything as it was.
  pub config_stuck :
      (find_config : S → NamespacedName → Option ConfigMap)
      → Stores client.apply_config_map find_config
      → RangesConfigs range_configs
      → (cm : ConfigMap) → find_config s (config_map_key lb) ≡ some cm
      → cm.entries ≡ none
      → 0 < passes lb.spec.replicas
      → reconcile_config client as_selector show32 show64 range_configs s lb
        ≡ (s, some nil_map_write)
  unfolding write_config new_config_map
  config_stuck find_config laws once cm stored no_entries positive =
      let config = frontends_text show32 show64 fes backends in
      let started =
        desired client as_selector show32 show64 range_configs s lb fes backends listed selected
          printable in
      let made = add_replicas show32 show64 lb config (passes lb.spec.replicas) in
      let (pod, held) = some_pod config (passes lb.spec.replicas) positive in
      let empty : (base_of (find_config s (config_map_key lb)) (new_config_map lb)).entries ≡ none =
        rw stored no_entries in
      let first : lookup pod (range_configs made) ≡ some (base_config <> config) =
        once.same made pod
          (add_replicas-NodupKeys show32 show64 lb config (passes lb.spec.replicas))
        ∙ held in
      started
      ∙ ap (λ (r : S × Result ConfigMap). (r.0, error_of r.1))
          (laws.refused s (new_config_map lb) (mutate_config (range_configs made)) nil_map_write (
            mutate_config-nil (range_configs made) _ empty
              (set_entries-nil (range_configs made) pod (base_config <> config) first)))
