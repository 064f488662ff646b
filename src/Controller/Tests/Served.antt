-- ===== src/Controller/Tests/Served.antt =====
-- The reconciler of internal/controller/frontend_controller.go over a server with two maps.
use k8s_glb_operator.Base.{◌≡◌, refl, true, Option, none, some, List, [], ◌∷◌, string_eq}
use k8s_glb_operator.Base.GoMap.{GoMap}
use k8s_glb_operator.Api.{
  NamespacedName, namespaced_name_eq, ObjectMeta, OwnerReference, not_found, ok, err, Frontend,
  FrontendServiceSpec, frontend_key, Service, EndpointSlice,
}
use k8s_glb_operator.Api.Named.{find}
use k8s_glb_operator.Api.Objects.{
  map_apply, map_apply-Applies, map_apply-IsIdle, on_first, on_second, on_first-Applies,
  on_second-Applies, IsIdle, on_first-IsIdle, on_second-IsIdle,
}
use k8s_glb_operator.Haproxy.HealthCache.{HealthCache, get}
use k8s_glb_operator.Controller.Services.{ServiceClient, reconcile_service}
use k8s_glb_operator.Controller.Services.Applied.{Serves, IsServed, reconciled_service}
use k8s_glb_operator.Controller.Services.Idle.{OwnsOnce, idle_pass}
use k8s_glb_operator.Controller.Tests.{frontend, ours}

abbrev Stored : Type 0
Stored = GoMap NamespacedName Service × GoMap NamespacedName EndpointSlice

abbrev client : ServiceClient Stored
client = record {
  get_frontend = λ s k. err not_found;
  apply_service = on_first (map_apply (λ (svc : Service). svc.metadata));
  apply_slice = on_second (map_apply (λ (es : EndpointSlice). es.metadata));
  set_controller_reference = λ owner m. ok (record m {
    owner_references = record { kind = ""; name = owner.name; uid = owner.uid } ∷ [];
  });
}

abbrev find_service : Stored → NamespacedName → Option Service
find_service s = find (λ (svc : Service). svc.metadata) s.0

abbrev find_slice : Stored → NamespacedName → Option EndpointSlice
find_slice s = find (λ (es : EndpointSlice). es.metadata) s.1

abbrev owners : ObjectMeta → ObjectMeta → List OwnerReference
owners owner m = record { kind = ""; name = owner.name; uid = owner.uid } ∷ []

serves : Serves client find_service find_slice owners
serves = record {
  services = on_first-Applies _ _ _ (map_apply-Applies (λ (svc : Service). svc.metadata));
  slices = on_second-Applies _ _ _ (map_apply-Applies (λ (es : EndpointSlice). es.metadata));
  owned = λ owner m. refl;
  slice_kept = λ s made mutate k. refl;
  service_kept = λ s made mutate k. refl;
}

abbrev pub spec : FrontendServiceSpec
spec = record { ip_address = none; port = 443; annotations = ("team", "edge") ∷ [] }

abbrev pub served : Frontend
served =
    let fe = frontend "web" (some 10001) (some ours) in
    record fe { spec = record (fe.spec) { service = some spec } }

abbrev health : HealthCache
health = record {
  endpoints =
      (
        frontend_key served,
        record { node_name = "node-1"; ip_address = "10.0.0.1"; healthy = true } ∷ [],
      )
      ∷ [];
}

reconciled_service_example :
    ((reconcile_service client served health (frontend_key served) ([], [])).1 ≡ none)
    × IsServed
        (find_service
          (reconcile_service client served health (frontend_key served) ([], [])).0
          (frontend_key served))
        (find_slice
          (reconcile_service client served health (frontend_key served) ([], [])).0
          (frontend_key served))
        served
        spec
        10001
        (get health (frontend_key served))
reconciled_service_example =
    reconciled_service client find_service find_slice owners serves health (frontend_key served)
      ([], []) served spec 10001 refl refl

services-IsIdle : IsIdle client.apply_service (λ svc. svc.metadata) find_service
services-IsIdle = on_first-IsIdle _ _ _ (map_apply-IsIdle (λ (svc : Service). svc.metadata))

slices-IsIdle : IsIdle client.apply_slice (λ es. es.metadata) find_slice
slices-IsIdle = on_second-IsIdle _ _ _ (map_apply-IsIdle (λ (es : EndpointSlice). es.metadata))

owns_once : OwnsOnce owners
owns_once = record { again = λ owner m m' owned named. refl }

abbrev after : Stored
after = (reconcile_service client served health (frontend_key served) ([], [])).0

idle_pass_example :
    reconcile_service client served health (frontend_key served) after ≡ (after, none)
idle_pass_example =
    idle_pass client find_service find_slice owners serves services-IsIdle slices-IsIdle owns_once
      health (frontend_key served) ([], []) served spec 10001 refl refl after refl refl
