-- ===== src/Controller/Services/Kept.antt =====
-- What a pass of internal/controller/frontend_controller.go leaves as it is: whatever its two calls of
-- `CreateOrUpdate` do.
use k8s_glb_operator.Base.{◌≡◌, refl, ◌∙◌, arith, Option-cases, inl, inr}
use k8s_glb_operator.Api.{
  NamespacedName, Result, Result-cases, ok, err, Frontend, Service, EndpointSlice,
}
use k8s_glb_operator.Haproxy.HealthCache.{HealthCache}
use k8s_glb_operator.Controller.Services.{
  ServiceClient, new_service, new_slice, mutate_service, mutate_slice, apply_endpoints,
  reconcile_service, reconcile_frontend,
}

-- Something that is read of the server and that neither call changes.
pub record Keeps {S X : Type 0} (client : ServiceClient S) (see : S → X) : Type 0 where
  pub by_service :
      (s : S) (made : Service) (mutate : Service → Result Service)
      → see (client.apply_service s made mutate).0 ≡ see s
  pub by_slice :
      (s : S) (made : EndpointSlice) (mutate : EndpointSlice → Result EndpointSlice)
      → see (client.apply_slice s made mutate).0 ≡ see s

module _ {S X : Type 0} (client : ServiceClient S) (see : S → X) (keeps : Keeps client see)
    (cache : HealthCache) (req : NamespacedName) where
  apply_endpoints-Keeps :
      (fe : Frontend) (r : S × Result Service)
      → see (apply_endpoints client fe cache req r).0 ≡ see r.0
  unfolding apply_endpoints
  apply_endpoints-Keeps fe (s, err e) = refl
  apply_endpoints-Keeps fe (s, ok svc) =
      keeps.by_slice s (new_slice svc) (mutate_slice client fe cache req svc)

  reconcile_service-Keeps :
      (fe : Frontend) (s : S) → see (reconcile_service client fe cache req s).0 ≡ see s
  unfolding reconcile_service
  reconcile_service-Keeps fe s = elim (Option-cases fe.status.port) [
    | inl missing ↦ ground (arith, missing)
    | inr (port, has_port) ↦
        let sent = client.apply_service s (new_service fe) (mutate_service client fe port) in
        let kept : see (apply_endpoints client fe cache req sent).0 ≡ see s =
          apply_endpoints-Keeps fe sent
          ∙ keeps.by_service s (new_service fe) (mutate_service client fe port) in
        ground (arith, has_port, kept)
  ]

  pub reconcile_frontend-Keeps : (s : S) → see (reconcile_frontend client cache req s).0 ≡ see s
  unfolding reconcile_frontend
  reconcile_frontend-Keeps s = elim (Result-cases (client.get_frontend s req)) [
    | inl (e, failed) ↦ rw (failed, reconcile_frontend) refl
    | inr (fe, found) ↦ rw (found, reconcile_frontend) (reconcile_service-Keeps fe s)
  ]
