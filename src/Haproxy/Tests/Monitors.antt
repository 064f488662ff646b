-- ===== src/Haproxy/Tests/Monitors.antt =====
-- The monitor of internal/haproxy/haproxymonitor.go at one pod, one backend and one frontend.
use mathlib.Core.List.{mem-cons_self}
use k8s_glb_operator.Base.{
  ℕ, ◌≡◌, ◌≢◌, refl, ltb, arith, Bool, true, String, Option, some, none, [], ◌∷◌, string_eq,
  bool_eq, ne_of_test, if◌then◌else◌, ◌==◌,
}
use k8s_glb_operator.Base.GoMap.{lookup}
use k8s_glb_operator.Api.{
  Uid, Labels, LabelSelector, namespaced_name_eq, ObjectMeta, Pod, Backend, Frontend, ok,
}
use k8s_glb_operator.Haproxy.HealthCache.{get}
use k8s_glb_operator.Haproxy.HealthCache.Health.{health_of}
use k8s_glb_operator.Haproxy.Monitor.{Monitor, pod, new_haproxy_monitor, on_add, on_delete, filter}
use k8s_glb_operator.Haproxy.Monitor.Scrape.{
  Metric, snapshot_targets, record_metric, labels_of, target_of,
}
use k8s_glb_operator.Haproxy.Monitor.Publish.{
  Ranges, Lister, endpoint_of, frontend_endpoints, update_health_manager, selects,
}
use k8s_glb_operator.Haproxy.Monitor.States.{state_of}
use k8s_glb_operator.Haproxy.Monitor.Invariant.{IsValid}
use k8s_glb_operator.Haproxy.Monitor.Start.{here, next, added, snapshot, scraped, reachable-IsValid}
use k8s_glb_operator.Haproxy.Monitor.Selected.{endpoints_for, lookup-frontend_endpoints}
use k8s_glb_operator.Haproxy.Monitor.Published.{RangesOnce, published_health}
use k8s_glb_operator.Haproxy.Monitor.Stale.{no_target, on_delete_lem, late_scrape, last_pod_kept}
use k8s_glb_operator.Haproxy.Tests.{web, first, idle, one_Nodup}

abbrev meta : String → String → ObjectMeta
meta name uid = record {
  namespace = "glb";
  name = name;
  uid = uid;
  labels = [];
  annotations = [];
  owner_references = [];
  creation_timestamp = none;
}

abbrev haproxy_0 : Pod
haproxy_0 = record {
  metadata = meta "lb-haproxy-0" "u1";
  node_name = "node-1";
  pod_ip = "10.0.0.1";
}

abbrev any_labels : LabelSelector
any_labels = record { match_labels = []; match_expressions = [] }

abbrev api : Backend
api = record {
  metadata = meta "api" "b1";
  spec = record { host = "api.example"; strategy = none; sticky_sessions = none; servers = [] };
  status = record { conditions = [] };
}

abbrev web_frontend : Frontend
web_frontend = record {
  metadata = meta "web" "f1";
  spec = record { service = none; backend_selector = any_labels };
  status = record { conditions = []; port = none; load_balancer = none };
}

-- Every selector matches; the maps are ranged over in order.
abbrev match_all : LabelSelector → Option (Labels → Bool)
match_all _ = some (λ _. true)

abbrev in_order : Ranges
in_order = record { range_targets = λ m. m; range_states = λ m. m; range_frontends = λ m. m }

in_order_once : RangesOnce in_order
in_order_once = record { distinct = λ m d. d; same = λ m k d. refl }

abbrev lists : Lister
lists = record { list_backends = λ _. ok (api ∷ []); list_frontends = λ _. ok (web_frontend ∷ []) }

-- Gauges are natural numbers here.
abbrev positive : ℕ → Bool
positive n = ltb 0 n

abbrev up_metric : Metric ℕ
up_metric = record {
  labels = record { name = "state"; value = "UP" } ∷ record { name = "proxy"; value = "api" } ∷ [];
  gauge = some 1;
}

abbrev watched : Monitor
watched = record {
  health_mgr = idle;
  namespace = "glb";
  pods = ("u1", haproxy_0) ∷ [];
  scrape_targets = ("u1", target_of "u1" haproxy_0) ∷ [];
  endpoint_states = ("api", ("u1", true) ∷ []) ∷ [];
  metrics_port = 8405;
  metrics_path = "/";
}

computing : Unit {0}
unfolding lookup string_eq bool_eq namespaced_name_eq endpoints_for endpoint_of selects labels_of
computing = tt

watched-IsValid : IsValid watched
unfolding computing
watched-IsValid = record {
  pods_distinct = (refl, tt);
  pods_keyed = (refl, tt);
  targeted = ((refl, ne_of_test _ _ refl), tt);
  recorded = record { distinct = (refl, tt); inner = ((λ e. cc, (refl, tt)), tt) };
}

abbrev published : Monitor
published = (update_health_manager match_all in_order lists watched).0

published_health_example : health_of "10.0.0.1" (get published.health_mgr.cache web) ≡ some true
unfolding computing health_of
published_health_example =
    published_health match_all in_order lists watched (api ∷ []) (web_frontend ∷ []) refl refl
      in_order_once watched-IsValid (one_Nodup web) web_frontend mem-cons_self (first ∷ []) refl
      (one_Nodup "10.0.0.1") "10.0.0.1"

lookup-frontend_endpoints_example :
    lookup web (
      frontend_endpoints match_all in_order watched.scrape_targets watched.endpoint_states
        (api ∷ [])
        (web_frontend ∷ [])
        [])
    ≡ some (first ∷ [])
unfolding computing
lookup-frontend_endpoints_example =
    lookup-frontend_endpoints match_all in_order watched.scrape_targets watched.endpoint_states
      (api ∷ []) (web_frontend ∷ []) web_frontend (one_Nodup web) mem-cons_self

on_delete_lem_example :
    (lookup "u1" (on_delete watched haproxy_0).pods ≡ none)
    × ((b : String) (u : Uid)
        → state_of b u (on_delete watched haproxy_0).endpoint_states
          ≡ (if u == "u1" then none else state_of b u watched.endpoint_states))
on_delete_lem_example = on_delete_lem watched haproxy_0 watched-IsValid

late_scrape_example :
    let after =
      snapshot_targets (record_metric positive "u1" up_metric (on_delete watched haproxy_0)) in
    (lookup "u1" after.pods ≡ none)
    × (state_of "api" "u1" after.endpoint_states ≡ some true)
    × (endpoint_of after.scrape_targets ("u1", true) ≡ no_target)
unfolding computing
late_scrape_example =
    late_scrape positive watched haproxy_0 up_metric 1 watched-IsValid refl refl refl

only_u1 : (b : String) (u : Uid) → u ≢ "u1" → state_of b u watched.endpoint_states ≡ none
unfolding lookup
only_u1 b u differ = ground (arith, differ)

last_pod_kept_example :
    (update_health_manager match_all in_order lists
      (snapshot_targets (on_delete watched haproxy_0))).0.health_mgr
    ≡ idle
last_pod_kept_example =
    last_pod_kept match_all in_order lists watched haproxy_0 in_order_once watched-IsValid only_u1

reachable-IsValid_example : IsValid (
    record_metric positive "u1" up_metric (
      snapshot_targets
        (filter (λ _. true) on_add (new_haproxy_monitor idle "glb" 8405 "/") (pod haproxy_0))))
reachable-IsValid_example =
    reachable-IsValid (λ _. true) positive match_all in_order idle "glb" 8405 "/"
      (next (next (next here (added (pod haproxy_0))) snapshot)
        (scraped (target_of "u1" haproxy_0) up_metric))
