-- ===== src/Controller/Services/Applied.antt =====
-- The Service and the EndpointSlice that a reconciled frontend has
-- (internal/controller/frontend_controller.go).
use k8s_glb_operator.Base.{
  ◌≡◌, refl, ap, subst, ◌∙◌, Bool, false, ◌||◌, String, Option, none, some, List, [], ◌∷◌, map,
  if◌then◌else◌, ◌==◌, string_eq, arith,
}
use k8s_glb_operator.Api.{
  Int32, NamespacedName, namespaced_name_eq, ObjectMeta, OwnerReference, Error, error_of, Result,
  ok, Frontend, FrontendServiceSpec, frontend_key, Service, ServicePort, EndpointPort,
  EndpointSlice, SliceEndpoint, meta_key,
}
use k8s_glb_operator.Api.Objects.{Applies, base_of, base_of-key}
use k8s_glb_operator.Haproxy.HealthCache.{HealthCache, Endpoint, get}
use k8s_glb_operator.Haproxy.HealthCache.Health.{health_of, or_else}
use k8s_glb_operator.Controller.Services.{
  ServiceClient, slice_endpoint, frontend_port, slice_port, new_service, new_slice, mutate_service,
  mutate_slice, apply_endpoints, reconcile_service,
}

-- A client whose calls succeed, over a server that keeps the two kinds apart. `owners` gives the owner
-- references that are set.
pub record Serves {S : Type 0} (client : ServiceClient S)
    (find_service : S → NamespacedName → Option Service)
    (find_slice : S → NamespacedName → Option EndpointSlice)
    (owners : ObjectMeta → ObjectMeta → List OwnerReference) : Type 0 where
  pub services : Applies client.apply_service (λ svc. svc.metadata) find_service
  pub slices : Applies client.apply_slice (λ es. es.metadata) find_slice
  pub owned :
      (owner m : ObjectMeta)
      → client.set_controller_reference owner m
        ≡ ok (record m { owner_references = owners owner m })
  pub slice_kept :
      (s : S) (made : Service) (mutate : Service → Result Service) (k : NamespacedName)
      → find_slice (client.apply_service s made mutate).0 k ≡ find_slice s k
  pub service_kept :
      (s : S) (made : EndpointSlice) (mutate : EndpointSlice → Result EndpointSlice)
      (k : NamespacedName)
      → find_service (client.apply_slice s made mutate).0 k ≡ find_service s k

abbrev names : String → List String → Bool
names ip [] = false
names ip (a ∷ rest) = ip == a || names ip rest

-- What the entries of a slice state of an address: whether it is ready, the last entry counting.
unfoldable pub readiness : String → List SliceEndpoint → Option Bool
readiness ip [] = none
readiness ip (e ∷ es) = or_else (readiness ip es) (if names ip e.addresses then e.ready else none)

readiness-health_of :
    (ip : String) (eps : List Endpoint) → readiness ip (map slice_endpoint eps) ≡ health_of ip eps
unfolding readiness health_of
readiness-health_of ip [] = refl
readiness-health_of ip (ep ∷ eps) = ground (arith, readiness-health_of ip eps)

-- The one port of a Service, which sends what comes in at `port` to `target`, and that of a slice.
abbrev pub from_to : Int32 → Int32 → ServicePort
from_to port target = record {
  name = "frontend";
  protocol = "TCP";
  port = port;
  target_port = target;
}

abbrev pub tcp_at : Int32 → EndpointPort
tcp_at port = record { name = some "frontend"; port = some port; protocol = some "TCP" }

-- A Service under the frontend's name that takes the frontend's port to `port`, and an EndpointSlice
-- that belongs to it, takes the traffic at `port` and states what the cache does of each address.
pub record IsServed (service : Option Service) (slice : Option EndpointSlice) (fe : Frontend)
    (spec : FrontendServiceSpec) (port : Int32) (eps : List Endpoint) : Type 0 where
  pub svc : Service
  pub svc_stored : service ≡ some svc
  pub svc_key : meta_key svc.metadata ≡ frontend_key fe
  pub svc_ports : svc.spec.ports ≡ from_to spec.port port ∷ []
  pub svc_annotations : svc.metadata.annotations ≡ spec.annotations
  pub es : EndpointSlice
  pub es_stored : slice ≡ some es
  pub es_labels : es.labels ≡ ("kubernetes.io/service-name", svc.name) ∷ []
  pub es_ports : es.ports ≡ tcp_at port ∷ []
  pub es_health : (ip : String) → readiness ip es.endpoints ≡ health_of ip eps

module _ {S : Type 0} (client : ServiceClient S)
    (find_service : S → NamespacedName → Option Service)
    (find_slice : S → NamespacedName → Option EndpointSlice)
    (owners : ObjectMeta → ObjectMeta → List OwnerReference)
    (laws : Serves client find_service find_slice owners) (cache : HealthCache)
    (req : NamespacedName) (s : S) (fe : Frontend) (spec : FrontendServiceSpec) (port : Int32)
    (has_spec : fe.spec.service ≡ some spec) (has_port : fe.status.port ≡ some port) where
  abbrev pub changed_service : Service → Service
  changed_service svc = record svc {
    metadata = record (svc.metadata) {
      owner_references = owners fe.metadata svc.metadata;
      annotations = spec.annotations;
    };
    spec = record (svc.spec) { ports = frontend_port spec port ∷ [] };
  }

  pub mutated_service :
      (svc : Service) → mutate_service client fe port svc ≡ ok (changed_service svc)
  unfolding mutate_service
  mutated_service svc = rw (laws.owned fe.metadata svc.metadata, has_spec) refl

  pub base-key :
      meta_key (base_of (find_service s (frontend_key fe)) (new_service fe)).metadata
      ≡ frontend_key fe
  unfolding new_service
  base-key = base_of-key laws.services s (new_service fe)

  slice_base-key :
      (s' : S) (svc : Service)
      → meta_key (base_of (find_slice s' (meta_key svc.metadata)) (new_slice svc)).metadata
        ≡ meta_key svc.metadata
  unfolding new_slice
  slice_base-key s' svc = base_of-key laws.slices s' (new_slice svc)

  abbrev pub changed_slice : Service → EndpointSlice → EndpointSlice
  changed_slice svc es = record {
    metadata = record (es.metadata) {
      owner_references = owners svc.metadata es.metadata;
      labels = ("kubernetes.io/service-name", svc.name) ∷ [];
    };
    address_type = "IPv4";
    endpoints = map slice_endpoint (get cache req);
    ports = slice_port fe.status.port ∷ [];
  }

  pub mutated_slice :
      (svc : Service) (es : EndpointSlice)
      → mutate_slice client fe cache req svc es ≡ ok (changed_slice svc es)
  unfolding mutate_slice
  mutated_slice svc es = rw (laws.owned svc.metadata es.metadata) refl

  pub endpoints-eq :
      (r : S × Result Service) (svc : Service)
      → r.1 ≡ ok svc
      → apply_endpoints client fe cache req r ≡ (
        (client.apply_slice r.0 (new_slice svc) (mutate_slice client fe cache req svc)).0,
        error_of (client.apply_slice r.0 (new_slice svc) (mutate_slice client fe cache req svc)).1,
      )
  unfolding apply_endpoints
  endpoints-eq (s', r) svc e = rw e refl

  abbrev pub sent : S × Result Service
  sent = client.apply_service s (new_service fe) (mutate_service client fe port)

  abbrev pub stored_service : Service
  stored_service = changed_service (base_of (find_service s (frontend_key fe)) (new_service fe))

  pub sent-ok :
      (sent.1 ≡ ok stored_service) × (find_service sent.0 (frontend_key fe) ≡ some stored_service)
  unfolding new_service
  sent-ok =
      laws.services.applied s (new_service fe) stored_service (mutate_service client fe port)
        (mutated_service (base_of (find_service s (frontend_key fe)) (new_service fe))) base-key

  abbrev pub sliced : S × Result EndpointSlice
  sliced =
      client.apply_slice sent.0 (new_slice stored_service)
        (mutate_slice client fe cache req stored_service)

  abbrev pub stored_slice : EndpointSlice
  stored_slice =
      changed_slice stored_service
        (base_of (find_slice sent.0 (meta_key stored_service.metadata)) (new_slice stored_service))

  pub sliced-ok :
      (sliced.1 ≡ ok stored_slice)
      × (find_slice sliced.0 (meta_key stored_service.metadata) ≡ some stored_slice)
  unfolding new_slice
  sliced-ok =
      laws.slices.applied sent.0 (new_slice stored_service) stored_slice
        (mutate_slice client fe cache req stored_service)
        (mutated_slice stored_service (
          base_of (find_slice sent.0 (meta_key stored_service.metadata))
            (new_slice stored_service)))
        (slice_base-key sent.0 stored_service)

  pub started : reconcile_service client fe cache req s ≡ apply_endpoints client fe cache req sent
  unfolding reconcile_service
  started = ground (arith, has_port)

  pub passed : reconcile_service client fe cache req s ≡ (sliced.0, none)
  passed =
      started
      ∙ endpoints-eq sent stored_service sent-ok.0
      ∙ ap (λ (r : Result EndpointSlice). (sliced.0, error_of r)) sliced-ok.0

  -- For a frontend with a service and a port, and a client whose calls succeed, `ReconcileService`
  -- has no error, and then a Service of the frontend's name takes the frontend's port to the port of
  -- the status, with the annotations asked for, and the EndpointSlice that belongs to it has that
  -- port and states the same readiness of every address as the cached endpoints state health.
  pub reconciled_service :
      ((reconcile_service client fe cache req s).1 ≡ none)
      × IsServed
          (find_service (reconcile_service client fe cache req s).0 (frontend_key fe))
          (find_slice (reconcile_service client fe cache req s).0 (frontend_key fe))
          fe
          spec
          port
          (get cache req)
  reconciled_service = (
    ap (λ (r : S × Option Error). r.1) passed,
    record {
      svc = stored_service;
      svc_stored =
          ap (λ (r : S × Option Error). find_service r.0 (frontend_key fe)) passed
          ∙ laws.service_kept sent.0 (new_slice stored_service)
              (mutate_slice client fe cache req stored_service) (frontend_key fe)
          ∙ sent-ok.1;
      svc_key = base-key;
      svc_ports = refl;
      svc_annotations = refl;
      es = stored_slice;
      es_stored =
          ap (λ (r : S × Option Error). find_slice r.0 (frontend_key fe)) passed
          ∙ subst (λ k. find_slice sliced.0 k ≡ some stored_slice) base-key sliced-ok.1;
      es_labels = refl;
      es_ports = ap (λ p. slice_port p ∷ []) has_port;
      es_health = λ ip. readiness-health_of ip (get cache req);
    },
  )
