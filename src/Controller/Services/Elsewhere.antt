-- ===== src/Controller/Services/Elsewhere.antt =====
-- The EndpointSlices of other frontends (internal/controller/frontend_controller.go).
use k8s_glb_operator.Base.{
  ◌≡◌, ◌≢◌, refl, ap, ◌∙◌, List, Option, none, some, arith, Option-cases, inl, inr,
}
use k8s_glb_operator.Api.{
  Int32, NamespacedName, ObjectMeta, OwnerReference, Error, nil_dereference, Result, Result-cases,
  ok, err, Frontend, FrontendServiceSpec, frontend_key, Service, EndpointSlice, meta_key,
}
use k8s_glb_operator.Api.Objects.{base_of}
use k8s_glb_operator.Haproxy.HealthCache.{HealthCache}
use k8s_glb_operator.Controller.Services.{
  ServiceClient, new_service, new_slice, mutate_service, mutate_slice, apply_endpoints,
  reconcile_service, reconcile_frontend,
}
use k8s_glb_operator.Controller.Services.Applied.{Serves, stored_service, base-key, passed}

module _ {S : Type 0} (client : ServiceClient S)
    (find_service : S → NamespacedName → Option Service)
    (find_slice : S → NamespacedName → Option EndpointSlice)
    (owners : ObjectMeta → ObjectMeta → List OwnerReference)
    (laws : Serves client find_service find_slice owners) (cache : HealthCache)
    (req : NamespacedName) (s : S) (fe : Frontend) (k : NamespacedName) where
  without_port :
      fe.status.port ≡ none
      → find_slice (reconcile_service client fe cache req s).0 k ≡ find_slice s k
  unfolding reconcile_service
  without_port missing = ground (arith, missing)

  started :
      (port : Int32)
      → fe.status.port ≡ some port
      → reconcile_service client fe cache req s
        ≡ apply_endpoints client fe cache req
            (client.apply_service s (new_service fe) (mutate_service client fe port))
  unfolding reconcile_service
  started port has_port = ground (arith, has_port)

  refused_service :
      (port : Int32) (svc : Service)
      → fe.spec.service ≡ none
      → mutate_service client fe port svc ≡ err nil_dereference
  unfolding mutate_service
  refused_service port svc missing = rw (laws.owned fe.metadata svc.metadata, missing) refl

  without_service :
      (port : Int32)
      → fe.status.port ≡ some port
      → fe.spec.service ≡ none
      → find_slice (reconcile_service client fe cache req s).0 k ≡ find_slice s k
  without_service port has_port missing =
      ap (λ (r : S × Option Error). find_slice r.0 k) (started port has_port)
      ∙ ap (λ (r : S × Result Service). find_slice (apply_endpoints client fe cache req r).0 k)
          (laws.services.refused s (new_service fe) (mutate_service client fe port) nil_dereference
            (refused_service port
              (base_of (find_service s (meta_key (new_service fe).metadata)) (new_service fe))
              missing))
      ∙ unfold apply_endpoints in refl

  with_both :
      (port : Int32) (spec : FrontendServiceSpec)
      → fe.status.port ≡ some port
      → fe.spec.service ≡ some spec
      → k ≢ frontend_key fe
      → find_slice (reconcile_service client fe cache req s).0 k ≡ find_slice s k
  unfolding new_slice
  with_both port spec has_port has_spec other =
      let sent = client.apply_service s (new_service fe) (mutate_service client fe port) in
      let svc =
        stored_service client find_service find_slice owners laws cache req s fe spec port has_spec
          has_port in
      ap (λ (r : S × Option Error). find_slice r.0 k)
        (passed client find_service find_slice owners laws cache req s fe spec port has_spec
          has_port)
      ∙ laws.slices.elsewhere sent.0 (new_slice svc) (mutate_slice client fe cache req svc) k (λ e.
        other (
          e
          ∙ base-key client find_service find_slice owners laws cache req s fe spec port has_spec
              has_port))
      ∙ laws.slice_kept s (new_service fe) (mutate_service client fe port) k

  -- The pass of another frontend leaves the EndpointSlice under `k` as it is, whether it has a port and
  -- a service or not.
  pub reconcile_service-elsewhere :
      k ≢ frontend_key fe
      → find_slice (reconcile_service client fe cache req s).0 k ≡ find_slice s k
  reconcile_service-elsewhere other = elim (Option-cases fe.status.port) [
    | inl missing ↦ without_port missing
    | inr (port, has_port) ↦ elim (Option-cases fe.spec.service) [
      | inl missing ↦ without_service port has_port missing
      | inr (spec, has_spec) ↦ with_both port spec has_port has_spec other
    ]
  ]

module _ {S : Type 0} (client : ServiceClient S)
    (find_service : S → NamespacedName → Option Service)
    (find_slice : S → NamespacedName → Option EndpointSlice)
    (owners : ObjectMeta → ObjectMeta → List OwnerReference)
    (laws : Serves client find_service find_slice owners) (cache : HealthCache)
    (named : (s : S) (k : NamespacedName) (fe : Frontend)
      → client.get_frontend s k ≡ ok fe
      → frontend_key fe ≡ k) where
  pub reconcile_frontend-elsewhere :
      (req k : NamespacedName) (s : S)
      → k ≢ req
      → find_slice (reconcile_frontend client cache req s).0 k ≡ find_slice s k
  unfolding reconcile_frontend
  reconcile_frontend-elsewhere req k s other = elim (Result-cases (client.get_frontend s req)) [
    | inl (e, failed) ↦ rw (failed, reconcile_frontend) refl
    | inr (fe, found) ↦
        rw (found, reconcile_frontend)
          (reconcile_service-elsewhere client find_service find_slice owners laws cache req s fe k
            (λ e. other (e ∙ named s req fe found)))
  ]
