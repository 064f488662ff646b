-- ===== src/Cmd/StartUp.antt =====
-- The calls of `main` in cmd/main.go, each made if those before it had no error. The library's manager
-- is a parameter, and so is the check of a label requirement.
use k8s_glb_operator.Base.{ℕ, Bool, String, Option, []}
use k8s_glb_operator.Base.GoMap.{GoMap}
use k8s_glb_operator.Api.{Int32, LabelSelectorRequirement, Result, ◌>>=◌}
use k8s_glb_operator.Haproxy.HealthCache.{HealthCache, new_health_cache}
use k8s_glb_operator.Haproxy.HealthManager.{EventChan, new_health_manager}
use k8s_glb_operator.Haproxy.Monitor.{Monitor, pod_requirement, new_haproxy_monitor}
use k8s_glb_operator.Watchers.Start.{peer_requirement}
use k8s_glb_operator.Cmd.Flags.{
  Flags, WebhookOptions, MetricsOptions, webhook_server_options, metrics_server_options,
}
use k8s_glb_operator.Cmd.Namespaces.{CacheConfig, get_watch_namespace, setup_cache_namespaces}

pub record ManagerOptions : Type 0 where
  pub metrics : MetricsOptions
  pub webhook_server : WebhookOptions
  pub health_probe_bind_address : String
  pub leader_election : Bool
  pub leader_election_id : String
  pub default_namespaces : GoMap String CacheConfig

abbrev pub manager_options : Flags → String → ManagerOptions
manager_options flags watch_namespace = record {
  metrics = metrics_server_options flags;
  webhook_server = webhook_server_options flags;
  health_probe_bind_address = flags.probe_addr;
  leader_election = flags.enable_leader_election;
  leader_election_id = "ecf5b57b.antware.xyz";
  default_namespaces = setup_cache_namespaces watch_namespace;
}

-- What is added to the manager: the watcher with its requirement, or the monitor with its interval in
-- seconds.
pub data Runnable : Type 0 where
  peer_service_watcher : LabelSelectorRequirement → Runnable
  haproxy_monitor : Monitor → ℕ → Runnable

pub record ManagerCalls (M : Type 0) : Type 0 where
  pub new_manager : ManagerOptions → Result M
  pub new_requirement : LabelSelectorRequirement → Result LabelSelectorRequirement
  pub add : M → Runnable → Result M
  pub setup_load_balancers : M → Int32 → Result M
  pub setup_frontends : M → HealthCache → EventChan → Result M
  pub add_healthz_check : M → String → Result M
  pub add_readyz_check : M → String → Result M
  pub start : M → Result M

-- `make(chan event.GenericEvent)`
abbrev pub health_events_chan : EventChan
health_events_chan = record { waiting = 0; delivered = [] }

abbrev pub main_monitor : String → Monitor
main_monitor watch_namespace =
    new_haproxy_monitor (new_health_manager new_health_cache health_events_chan) watch_namespace
      8405 "/"

-- An error is `os.Exit(1)`.
unfoldable pub main : {M : Type 0} → ManagerCalls M → Flags → Option String → Result M
main calls flags env = do
  watch_namespace ← get_watch_namespace env
  mgr ← calls.new_manager (manager_options flags watch_namespace)
  requirement ← calls.new_requirement (peer_requirement "glb.antware.xyz/peer-name")
  with_watcher ← calls.add mgr (peer_service_watcher requirement)
  selected ← calls.new_requirement pod_requirement
  with_monitor ← calls.add with_watcher (haproxy_monitor (main_monitor watch_namespace) 5)
  with_load_balancers ← calls.setup_load_balancers with_monitor 10240
  with_frontends ← calls.setup_frontends with_load_balancers new_health_cache health_events_chan
  healthy ← calls.add_healthz_check with_frontends "healthz"
  ready ← calls.add_readyz_check healthy "readyz"
  calls.start ready
