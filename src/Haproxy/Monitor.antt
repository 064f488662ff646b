-- ===== src/Haproxy/Monitor.antt =====
-- internal/haproxy/haproxymonitor.go: the state of `HAProxyMonitor`, and the handlers of the pod
-- informer. The lock makes each handler one step. The health manager behind the pointer is a field.
pub mod Scrape
pub mod Publish
pub mod States
pub mod Invariant
pub mod Start
pub mod Selected
pub mod Published
pub mod Targets
pub mod Stale
pub mod Consolidate
use k8s_glb_operator.Base.{
  ℕ, Bool, true, false, String, Option, none, some, List, [], ◌∷◌, if◌then◌else◌, ◌==◌, string_eq,
}
use k8s_glb_operator.Base.GoMap.{GoMap, lookup, insert, erase}
use k8s_glb_operator.Api.{Uid, Int32, Labels, LabelSelectorRequirement, Pod}
use k8s_glb_operator.Haproxy.HealthManager.{HealthManager}

pub record ScrapeTarget : Type 0 where
  pub uid : Uid
  pub name : String
  pub namespace : String
  pub node_name : String
  pub ip : String

-- map[BackendName][PodUID]IsUp
abbrev pub EndpointStates : Type 0
EndpointStates = GoMap String (GoMap Uid Bool)

pub record Monitor : Type 0 where
  pub health_mgr : HealthManager
  pub namespace : String
  pub pods : GoMap Uid Pod
  pub scrape_targets : GoMap Uid ScrapeTarget
  pub endpoint_states : EndpointStates
  pub metrics_port : Int32
  pub metrics_path : String

-- The requirement that the selector is made of: `selection.In` is the text "in".
abbrev pub pod_requirement : LabelSelectorRequirement
pod_requirement = record {
  key = "app.kubernetes.io/name";
  operator = "in";
  values = "global-load-balancer" ∷ [];
}

unfoldable pub new_haproxy_monitor : HealthManager → String → Int32 → String → Monitor
new_haproxy_monitor health_mgr namespace metrics_port metrics_path = record {
  health_mgr = health_mgr;
  namespace = namespace;
  pods = [];
  scrape_targets = [];
  endpoint_states = [];
  metrics_port = metrics_port;
  metrics_path = metrics_path;
}

unfoldable pub on_add : Monitor → Pod → Monitor
on_add w pod = record w { pods = insert pod.uid pod w.pods }

unfoldable pub on_update : Monitor → Pod → Pod → Monitor
on_update w old_pod new_pod = record w {
  pods = insert new_pod.uid new_pod (erase old_pod.uid w.pods);
}

-- The loop of `onDelete`: `delete(m, pod.UID)`, and an inner map that it empties goes too.
unfoldable pub drop_pod : Uid → EndpointStates → EndpointStates
drop_pod uid [] = []
drop_pod uid ((backend, m) ∷ states) =
    let rest = drop_pod uid states in
    elim (erase uid m) [ [] ↦ rest | e ∷ m' ↦ (backend, e ∷ m') ∷ rest ]

unfoldable pub on_delete : Monitor → Pod → Monitor
unfolding drop_pod
on_delete w pod = record w {
  pods = erase pod.uid w.pods;
  endpoint_states = drop_pod pod.uid w.endpoint_states;
}

-- What the informer hands to a handler: a pod, or a value of another type, such as the
-- `cache.DeletedFinalStateUnknown` of a deletion that the watch missed.
pub data InformerObject : Type 0 where
  pod : Pod → InformerObject
  other : InformerObject

-- `w.selector.Matches(labels.Set(pod.Labels))` is the parameter `selected`.
module _ (selected : Labels → Bool) where
  unfoldable pub filter : (Monitor → Pod → Monitor) → Monitor → InformerObject → Monitor
  filter handler w (pod p) = if selected p.labels then handler w p else w
  filter handler w other = w

  unfoldable pub filter_update :
      (Monitor → Pod → Pod → Monitor) → Monitor → InformerObject → InformerObject → Monitor
  filter_update handler w (pod old_pod) (pod new_pod) =
      if selected new_pod.labels then handler w old_pod new_pod else w
  filter_update handler w _ _ = w
