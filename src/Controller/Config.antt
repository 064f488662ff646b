-- ===== src/Controller/Config.antt =====
-- `ReconcileConfig` of internal/controller/globalloadbalancer_controller.go. The order in which Go
-- ranges over the built map is a parameter, and so is the formatting of numbers.
pub mod Server
pub mod Written
pub mod Stuck
pub mod Idle
use k8s_glb_operator.Base.{
  ℕ, Bool, false, String, ◌<>◌, Option, none, some, List, [], ◌∷◌, string_eq,
}
use k8s_glb_operator.Base.GoMap.{GoMap, insert}
use k8s_glb_operator.Api.{
  Int32, Labels, LabelSelector, Error, nil_map_write, Result, ok, err, ◌>>=◌, error_of,
  GlobalLoadBalancer, ConfigMap, bare_meta,
}
use k8s_glb_operator.Haproxy.ConfigBuilder.{build_config}
use k8s_glb_operator.Controller.Client.{LoadBalancerClient}
use k8s_glb_operator.Controller.Frontends.{get_frontends}
use k8s_glb_operator.Controller.Backends.{get_backends}

abbrev pub haproxy_config_map_name : String
haproxy_config_map_name = "haproxy-config"

abbrev pub config_map_name : GlobalLoadBalancer → String
config_map_name lb = lb.name <> "-" <> haproxy_config_map_name

unfoldable pub new_config_map : GlobalLoadBalancer → ConfigMap
new_config_map lb = record {
  metadata = bare_meta lb.namespace (config_map_name lb);
  entries = some [];
}

-- The key of a pod's configuration.
abbrev pub config_key : String → String
config_key pod = pod <> ".cfg"

-- `cfgMap.Data[key] = config`, which panics on a nil map.
unfoldable pub set_entry :
    String → String → Option (GoMap String String) → Result (Option (GoMap String String))
set_entry key config none = err nil_map_write
set_entry key config (some m) = ok (some (insert key config m))

-- The loop of the changing function.
unfoldable pub set_entries :
    List (String × String) → Option (GoMap String String) → Result (Option (GoMap String String))
unfolding set_entry
set_entries [] m = ok m
set_entries ((pod, config) ∷ configs) m = do
  m' ← set_entry (config_key pod) config m
  set_entries configs m'

unfoldable pub mutate_config : List (String × String) → ConfigMap → Result ConfigMap
unfolding set_entries
mutate_config configs cfg_map = do
  entries ← set_entries configs cfg_map.entries
  ok (record cfg_map { entries = entries })

module _ {S : Type 0} (client : LoadBalancerClient S)
    (as_selector : LabelSelector → Result (Labels → Bool)) (show32 : Int32 → String)
    (show64 : ℕ → String) (range_configs : GoMap String String → List (String × String)) where
  -- What precedes the write.
  unfoldable pub desired_config : S → GlobalLoadBalancer → Result (GoMap String String)
  desired_config s lb = do
    frontends ← get_frontends client.frontends as_selector s lb false
    backends ← get_backends as_selector (client.list_backends s) frontends
    build_config show32 show64 lb frontends backends

  unfoldable pub write_config :
      S → GlobalLoadBalancer → Result (GoMap String String) → S × Option Error
  unfolding new_config_map mutate_config
  write_config s lb (err e) = (s, some e)
  write_config s lb (ok configs) =
      let (s', r) =
        client.apply_config_map s (new_config_map lb) (mutate_config (range_configs configs)) in
      (s', error_of r)

  unfoldable pub reconcile_config : S → GlobalLoadBalancer → S × Option Error
  unfolding desired_config write_config
  reconcile_config s lb = write_config s lb (desired_config s lb)
