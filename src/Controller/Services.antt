-- ===== src/Controller/Services.antt =====
-- `Reconcile` and `ReconcileService` of internal/controller/frontend_controller.go. The API server and
-- the library's `CreateOrUpdate` and `SetControllerReference` are parameters.
pub mod Applied
pub mod Elsewhere
pub mod Kept
pub mod Idle
use k8s_glb_operator.Base.{
  Bool, true, false, String, if◌then◌else◌, Option, none, some, List, [], ◌∷◌, map,
}
use k8s_glb_operator.Api.{
  Int32, NamespacedName, ObjectMeta, Error, ignore_not_found, error_of, nil_dereference, Result, ok,
  err, ◌>>=◌, Frontend, FrontendServiceSpec, Service, ServicePort, EndpointSlice, SliceEndpoint,
  EndpointPort, bare_meta,
}
use k8s_glb_operator.Haproxy.HealthCache.{HealthCache, Endpoint, get}

-- What the frontend reconciler calls. `CreateOrUpdate` is given the object as the caller made it and
-- the function that changes it, and leaves the object as the server has it, or an error.
-- `SetControllerReference` is given its owner's metadata and those to change.
pub record ServiceClient (S : Type 0) : Type 0 where
  pub get_frontend : S → NamespacedName → Result Frontend
  pub apply_service : S → Service → (Service → Result Service) → S × Result Service
  pub apply_slice :
      S → EndpointSlice → (EndpointSlice → Result EndpointSlice) → S × Result EndpointSlice
  pub set_controller_reference : ObjectMeta → ObjectMeta → Result ObjectMeta

-- One entry of the slice; the address stands alone in it.
abbrev pub slice_endpoint : Endpoint → SliceEndpoint
slice_endpoint ep = record {
  addresses = ep.ip_address ∷ [];
  ready = some ep.healthy;
  node_name = some ep.node_name;
}

abbrev pub frontend_port : FrontendServiceSpec → Int32 → ServicePort
frontend_port spec port = record {
  name = "frontend";
  protocol = "TCP";
  port = spec.port;
  target_port = port;
}

abbrev pub slice_port : Option Int32 → EndpointPort
slice_port port = record { name = some "frontend"; port = port; protocol = some "TCP" }

-- What both slices that are built start from.
abbrev pub slice_labels : Service → List (String × String)
slice_labels svc = ("kubernetes.io/service-name", svc.name) ∷ []

unfoldable pub new_service : Frontend → Service
new_service fe = record {
  metadata = bare_meta fe.namespace fe.name;
  spec = record { ports = []; cluster_ip = "" };
  status = record { ingress = [] };
}

unfoldable pub new_slice : Service → EndpointSlice
new_slice svc = record {
  metadata = record (bare_meta svc.namespace svc.name) { labels = slice_labels svc };
  address_type = "";
  endpoints = [];
  ports = [];
}

module _ {S : Type 0} (client : ServiceClient S) (fe : Frontend) where
  -- The first function, with the port that the status holds. A frontend without `Spec.Service`
  -- makes it panic.
  unfoldable pub mutate_service : Int32 → Service → Result Service
  mutate_service port svc = do
    owned ← client.set_controller_reference fe.metadata svc.metadata
    elim fe.spec.service [
      | none ↦ err nil_dereference
      | some spec ↦ ok (record svc {
        metadata = record owned { annotations = spec.annotations };
        spec = record (svc.spec) { ports = frontend_port spec port ∷ [] };
      })
    ]

  module _ (cache : HealthCache) (req : NamespacedName) where
    -- The second function.
    unfoldable pub mutate_slice : Service → EndpointSlice → Result EndpointSlice
    mutate_slice svc es = do
      owned ← client.set_controller_reference svc.metadata es.metadata
      ok (record {
        metadata = record owned { labels = slice_labels svc };
        address_type = "IPv4";
        endpoints = map slice_endpoint (get cache req);
        ports = slice_port fe.status.port ∷ [];
      })

    -- What follows the first `CreateOrUpdate`.
    unfoldable pub apply_endpoints : S × Result Service → S × Option Error
    unfolding mutate_slice new_slice
    apply_endpoints (s, err e) = (s, some e)
    apply_endpoints (s, ok svc) =
        let (s', es) = client.apply_slice s (new_slice svc) (mutate_slice svc) in (s', error_of es)

    unfoldable pub reconcile_service : S → S × Option Error
    unfolding mutate_service new_service apply_endpoints
    reconcile_service s = elim fe.status.port [
      | none ↦ (s, none)
      | some port ↦ apply_endpoints (client.apply_service s (new_service fe) (mutate_service port))
    ]

unfoldable pub reconcile_frontend :
    {S : Type 0} → ServiceClient S → HealthCache → NamespacedName → S → S × Option Error
unfolding reconcile_service
reconcile_frontend client cache req s = elim (client.get_frontend s req) [
  | err e ↦ (s, ignore_not_found e)
  | ok fe ↦ reconcile_service client fe cache req s
]
