-- ===== src/Controller/Services/Idle.antt =====
-- A second pass over a frontend (internal/controller/frontend_controller.go) that was not changed.
use k8s_glb_operator.Base.{◌≡◌, refl, sym, ap, ◌∙◌, Option, none, some, List}
use k8s_glb_operator.Api.{
  Int32, NamespacedName, ObjectMeta, OwnerReference, Error, error_of, Result, ok, Frontend,
  FrontendServiceSpec, frontend_key, Service, EndpointSlice, meta_key,
}
use k8s_glb_operator.Api.Objects.{IsIdle, base_of}
use k8s_glb_operator.Haproxy.HealthCache.{HealthCache}
use k8s_glb_operator.Controller.Services.{
  ServiceClient, new_service, new_slice, mutate_service, mutate_slice, apply_endpoints,
  reconcile_service,
}
use k8s_glb_operator.Controller.Services.Applied.{
  Serves, changed_service, changed_slice, mutated_service, mutated_slice, endpoints-eq, sent,
  stored_service, stored_slice, sent-ok, sliced-ok, base-key, started, passed,
}

-- The owner references of an object that has been given its owner stay as they are.
pub record OwnsOnce (owners : ObjectMeta → ObjectMeta → List OwnerReference) : Type 0 where
  pub again :
      (owner m m' : ObjectMeta)
      → m'.owner_references ≡ owners owner m
      → meta_key m' ≡ meta_key m
      → owners owner m' ≡ owners owner m

module _ {S : Type 0} (client : ServiceClient S)
    (find_service : S → NamespacedName → Option Service)
    (find_slice : S → NamespacedName → Option EndpointSlice)
    (owners : ObjectMeta → ObjectMeta → List OwnerReference)
    (laws : Serves client find_service find_slice owners)
    (idle_services : IsIdle client.apply_service (λ svc. svc.metadata) find_service)
    (idle_slices : IsIdle client.apply_slice (λ es. es.metadata) find_slice)
    (once : OwnsOnce owners) (cache : HealthCache) (req : NamespacedName) (s : S) (fe : Frontend)
    (spec : FrontendServiceSpec) (port : Int32) (has_spec : fe.spec.service ≡ some spec)
    (has_port : fe.status.port ≡ some port) where
  abbrev changed : Service → Service
  changed =
      changed_service client find_service find_slice owners laws cache req s fe spec port has_spec
        has_port

  changed-again : (svc : Service) → changed (changed svc) ≡ changed svc
  changed-again svc =
      ap
        (λ (refs : List OwnerReference). record (changed svc) {
          metadata = record ((changed svc).metadata) { owner_references = refs };
        })
        (once.again fe.metadata svc.metadata (changed svc).metadata refl refl)

  abbrev shaped : Service → EndpointSlice → EndpointSlice
  shaped =
      changed_slice client find_service find_slice owners laws cache req s fe spec port has_spec
        has_port

  shaped-again : (svc : Service) (es : EndpointSlice) → shaped svc (shaped svc es) ≡ shaped svc es
  shaped-again svc es =
      ap
        (λ (refs : List OwnerReference). record (shaped svc es) {
          metadata = record ((shaped svc es).metadata) { owner_references = refs };
        })
        (once.again svc.metadata es.metadata (shaped svc es).metadata refl refl)

  abbrev kept_service : Service
  kept_service =
      stored_service client find_service find_slice owners laws cache req s fe spec port has_spec
        has_port

  -- The slice that the first pass was given.
  abbrev first_slice : EndpointSlice
  first_slice =
      base_of
        (find_slice
          (sent client find_service find_slice owners laws cache req s fe spec port has_spec
            has_port).0
          (meta_key kept_service.metadata))
        (new_slice kept_service)

  abbrev kept_slice : EndpointSlice
  kept_slice =
      stored_slice client find_service find_slice owners laws cache req s fe spec port has_spec
        has_port

  service_stored :
      find_service (reconcile_service client fe cache req s).0 (frontend_key fe) ≡ some kept_service
  service_stored =
      ap (λ (r : S × Option Error). find_service r.0 (frontend_key fe))
        (passed client find_service find_slice owners laws cache req s fe spec port has_spec
          has_port)
      ∙ laws.service_kept _ (new_slice kept_service) (mutate_slice client fe cache req kept_service)
          (frontend_key fe)
      ∙ (sent-ok client find_service find_slice owners laws cache req s fe spec port has_spec
          has_port).1

  slice_stored :
      find_slice (reconcile_service client fe cache req s).0 (meta_key kept_service.metadata)
      ≡ some kept_slice
  slice_stored =
      ap (λ (r : S × Option Error). find_slice r.0 (meta_key kept_service.metadata))
        (passed client find_service find_slice owners laws cache req s fe spec port has_spec
          has_port)
      ∙ (sliced-ok client find_service find_slice owners laws cache req s fe spec port has_spec
          has_port).1

  service_idle :
      (t : S)
      → find_service t (frontend_key fe) ≡ some kept_service
      → client.apply_service t (new_service fe) (mutate_service client fe port)
        ≡ (t, ok kept_service)
  unfolding new_service
  service_idle t there =
      idle_services.idle t (new_service fe) kept_service (mutate_service client fe port) there (
        mutated_service client find_service find_slice owners laws cache req s fe spec port has_spec
          has_port kept_service
        ∙ ap ok (changed-again (base_of (find_service s (frontend_key fe)) (new_service fe))))

  slice_idle :
      (t : S)
      → find_slice t (meta_key kept_service.metadata) ≡ some kept_slice
      → client.apply_slice t
          (new_slice kept_service)
          (mutate_slice client fe cache req kept_service)
        ≡ (t, ok kept_slice)
  unfolding new_slice
  slice_idle t there =
      idle_slices.idle t (new_slice kept_service) kept_slice
        (mutate_slice client fe cache req kept_service) there
        (mutated_slice client find_service find_slice owners laws cache req s fe spec port has_spec
            has_port kept_service kept_slice
          ∙ ap ok (shaped-again kept_service first_slice))

  -- For a frontend with a service and a port, a client whose calls succeed and write nothing where the
  -- changing function leaves the stored object as it is, and owner references that stay as they are once
  -- they are set: `ReconcileService` has no error and writes nothing at all in any state in which the
  -- frontend's Service and EndpointSlice are as an earlier pass over the same frontend and the same cached
  -- health left them.
  pub idle_pass :
      (t : S)
      → find_service t (frontend_key fe)
        ≡ find_service (reconcile_service client fe cache req s).0 (frontend_key fe)
      → find_slice t (frontend_key fe)
        ≡ find_slice (reconcile_service client fe cache req s).0 (frontend_key fe)
      → reconcile_service client fe cache req t ≡ (t, none)
  idle_pass t same_service same_slice =
      let named : meta_key kept_service.metadata ≡ frontend_key fe =
        base-key client find_service find_slice owners laws cache req s fe spec port has_spec
          has_port in
      let slice_there : find_slice t (meta_key kept_service.metadata) ≡ some kept_slice =
        ap (find_slice t) named
        ∙ same_slice
        ∙ ap (find_slice (reconcile_service client fe cache req s).0) (sym named)
        ∙ slice_stored in
      started client find_service find_slice owners laws cache req t fe spec port has_spec has_port
      ∙ ap (apply_endpoints client fe cache req) (service_idle t (same_service ∙ service_stored))
      ∙ endpoints-eq client find_service find_slice owners laws cache req s fe spec port has_spec
          has_port (t, ok kept_service) kept_service refl
      ∙ ap (λ (r : S × Result EndpointSlice). (r.0, error_of r.1)) (slice_idle t slice_there)
