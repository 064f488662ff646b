-- ===== src/Delivery/Tests.antt =====
-- One frontend, one backend and one pod, with a server of three maps.
mod Runs
use mathlib.Core.List.{Nodup, Nodup-cons, Nodup-nil, not-mem-nil, mem-cons_self}
use k8s_glb_operator.Base.{
  ◌≡◌, refl, inl, true, Bool, String, Option, none, some, List, [], ◌∷◌, arith, string_eq, bool_eq,
  ne_of_test,
}
use k8s_glb_operator.Base.GoMap.{GoMap, lookup, insert}
use k8s_glb_operator.Api.{
  Labels, LabelSelector, NamespacedName, namespaced_name_eq, ObjectMeta, OwnerReference, Result, ok,
  err, not_found, Pod, Backend, Frontend, FrontendServiceSpec, frontend_key, Service, EndpointSlice,
}
use k8s_glb_operator.Api.Named.{find, find-named}
use k8s_glb_operator.Api.Objects.{
  map_apply, map_apply-Applies, on_first, on_second, on_first-Applies, on_second-Applies,
}
use k8s_glb_operator.Haproxy.HealthCache.{Endpoint}
use k8s_glb_operator.Haproxy.HealthManager.{HealthManager}
use k8s_glb_operator.Haproxy.Monitor.{Monitor}
use k8s_glb_operator.Haproxy.Monitor.Invariant.{IsValid}
use k8s_glb_operator.Haproxy.Monitor.Scrape.{target_of, labels_of}
use k8s_glb_operator.Haproxy.Monitor.Publish.{
  Ranges, Lister, collect, consolidate_backend, merge_state, endpoint_of, selects,
}
use k8s_glb_operator.Haproxy.Monitor.Published.{RangesOnce}
use k8s_glb_operator.Haproxy.Monitor.Selected.{endpoints_for}
use k8s_glb_operator.Haproxy.HealthManager
use k8s_glb_operator.Haproxy.HealthCache
use k8s_glb_operator.Controller.Services.{ServiceClient}
use k8s_glb_operator.Controller.Services.Applied.{Serves}
use k8s_glb_operator.Controller.Services.Kept.{Keeps}
use k8s_glb_operator.Delivery.{
  System, Run, here, next, published, handled, wait, request, publish_one, publish_all, handle,
}
use k8s_glb_operator.Delivery.Synced.{IsAgreed, event_of, settled}
use k8s_glb_operator.Delivery.Delivered.{StatesHealth, entries, delivered_health}

abbrev meta : String → String → ObjectMeta
meta name uid = record {
  namespace = "glb";
  name = name;
  uid = uid;
  labels = [];
  annotations = [];
  owner_references = [];
  creation_timestamp = none;
}

abbrev any_labels : LabelSelector
any_labels = record { match_labels = []; match_expressions = [] }

abbrev spec : FrontendServiceSpec
spec = record { ip_address = none; port = 443; annotations = [] }

abbrev web : Frontend
web = record {
  metadata = meta "web" "f1";
  spec = record { service = some spec; backend_selector = any_labels };
  status = record { conditions = []; port = some 10001; load_balancer = none };
}

abbrev api : Backend
api = record {
  metadata = meta "api" "b1";
  spec = record { host = "api.example"; strategy = none; sticky_sessions = none; servers = [] };
  status = record { conditions = [] };
}

-- The frontends, the Services and the EndpointSlices, each under its own name.
abbrev Stored : Type 0
Stored =
    GoMap NamespacedName Frontend
    × (GoMap NamespacedName Service × GoMap NamespacedName EndpointSlice)

abbrev owners : ObjectMeta → ObjectMeta → List OwnerReference
owners owner m = record { kind = ""; name = owner.name; uid = owner.uid } ∷ []

abbrev found_frontend : Option Frontend → Result Frontend
found_frontend none = err not_found
found_frontend (some fe) = ok fe

abbrev find_frontend : Stored → NamespacedName → Option Frontend
find_frontend s = find (λ (fe : Frontend). fe.metadata) s.0

abbrev client : ServiceClient Stored
client = record {
  get_frontend = λ s k. found_frontend (find_frontend s k);
  apply_service = on_second (on_first (map_apply (λ (svc : Service). svc.metadata)));
  apply_slice = on_second (on_second (map_apply (λ (es : EndpointSlice). es.metadata)));
  set_controller_reference = λ owner m. ok (record m { owner_references = owners owner m });
}

abbrev find_service : Stored → NamespacedName → Option Service
find_service s = find (λ (svc : Service). svc.metadata) s.1.0

abbrev find_slice : Stored → NamespacedName → Option EndpointSlice
find_slice s = find (λ (es : EndpointSlice). es.metadata) s.1.1

found_some : (o : Option Frontend) (fe : Frontend) → found_frontend o ≡ ok fe → o ≡ some fe
found_some none fe got = cc
found_some (some x) fe got = cc got

own_name :
    (s : Stored) (k : NamespacedName) (fe : Frontend)
    → client.get_frontend s k ≡ ok fe
    → frontend_key fe ≡ k
own_name s k fe got =
    find-named (λ (x : Frontend). x.metadata) k (lookup k s.0) fe
      (found_some (find_frontend s k) fe got)

keeps : Keeps client (λ s. client.get_frontend s (frontend_key web))
keeps = record { by_service = λ s made mutate. refl; by_slice = λ s made mutate. refl }

serves : Serves client find_service find_slice owners
serves = record {
  services =
      on_second-Applies _ _ _
        (on_first-Applies _ _ _ (map_apply-Applies (λ (svc : Service). svc.metadata)));
  slices =
      on_second-Applies _ _ _
        (on_second-Applies _ _ _ (map_apply-Applies (λ (es : EndpointSlice). es.metadata)));
  owned = λ owner m. refl;
  slice_kept = λ s made mutate k. refl;
  service_kept = λ s made mutate k. refl;
}

one_Nodup {ℓ} : {A : Type ℓ} (a : A) → Nodup (a ∷ [])
one_Nodup a = Nodup-cons.1 (not-mem-nil, Nodup-nil)

-- Every selector matches; the maps are ranged over in order.
abbrev match_all : LabelSelector → Option (Labels → Bool)
match_all _ = some (λ _. true)

abbrev in_order : Ranges
in_order = record { range_targets = λ m. m; range_states = λ m. m; range_frontends = λ m. m }

in_order_once : RangesOnce in_order
in_order_once = record { distinct = λ m d. d; same = λ m k d. refl }

abbrev lists : Lister
lists = record { list_backends = λ _. ok (api ∷ []); list_frontends = λ _. ok (web ∷ []) }

abbrev manager : HealthManager
manager = record {
  cache = record { endpoints = [] };
  events = record { waiting = 0; delivered = [] };
}

abbrev haproxy_0 : Pod
haproxy_0 = record {
  metadata = meta "lb-haproxy-0" "u1";
  node_name = "node-1";
  pod_ip = "10.0.0.1";
}

abbrev watched : Monitor
watched = record {
  health_mgr = manager;
  namespace = "glb";
  pods = ("u1", haproxy_0) ∷ [];
  scrape_targets = ("u1", target_of "u1" haproxy_0) ∷ [];
  endpoint_states = ("api", ("u1", true) ∷ []) ∷ [];
  metrics_port = 8405;
  metrics_path = "/";
}

abbrev up : Endpoint
up = record { node_name = "node-1"; ip_address = "10.0.0.1"; healthy = true }

computing : Unit {0}
unfolding lookup string_eq bool_eq namespaced_name_eq endpoints_for endpoint_of selects labels_of
computing = tt

watched-IsValid : IsValid watched
unfolding computing
watched-IsValid = record {
  pods_distinct = (refl, tt);
  pods_keyed = (refl, tt);
  targeted = ((refl, ne_of_test _ _ refl), tt);
  recorded = record { distinct = (refl, tt); inner = ((λ e. cc, (refl, tt)), tt) };
}

abbrev key : NamespacedName
key = frontend_key web
