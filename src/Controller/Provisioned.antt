-- ===== src/Controller/Provisioned.antt =====
-- The two reconcilers of internal/controller one after the other on one server: the port that
-- globalloadbalancer_controller.go allots to a frontend, and the Service that frontend_controller.go writes.
use mathlib.Core.List.{Mem, Nodup}
use mathlib.Core.Option
use k8s_glb_operator.Base.{◌≡◌, refl, ◌∙◌, Bool, false, Option, none, some, List, map}
use k8s_glb_operator.Api.{
  Int32, Labels, LabelSelector, NamespacedName, ObjectMeta, OwnerReference, Error, Result, ok,
  Frontend, FrontendSpec, FrontendStatus, FrontendServiceSpec, frontend_key, GlobalLoadBalancer,
  Service, EndpointSlice,
}
use k8s_glb_operator.Haproxy.HealthCache.{HealthCache, Endpoint, get}
use k8s_glb_operator.Controller.Ports.{get_next_port}
use k8s_glb_operator.Controller.Frontends.{FrontendClient, get_frontends, reconcile_frontends}
use k8s_glb_operator.Controller.Frontends.Assigned.{Accepts}
use k8s_glb_operator.Controller.Frontends.Reconciled.{port_in, port_after}
use k8s_glb_operator.Controller.Frontends.Unchanged.{reconcile_frontends-kept}
use k8s_glb_operator.Controller.Services.{ServiceClient, reconcile_service, reconcile_frontend}
use k8s_glb_operator.Controller.Services.Applied.{Serves, IsServed, reconciled_service}

-- The server on which both clients work reads a frontend as the metadata and the spec that it holds, with
-- the status that was written last.
pub record Shares {S : Type 0} (frontends : FrontendClient S) (services : ServiceClient S)
    (status_of : S → NamespacedName → Option FrontendStatus)
    (held : S → NamespacedName → Option (ObjectMeta × FrontendSpec)) : Type 0 where
  pub read :
      (s : S) (k : NamespacedName) (metadata : ObjectMeta) (spec : FrontendSpec)
      (status : FrontendStatus)
      → held s k ≡ some (metadata, spec)
      → status_of s k ≡ some status
      → services.get_frontend s k
        ≡ ok (record { metadata = metadata; spec = spec; status = status })
  pub kept :
      (s : S) (fe : Frontend) (k : NamespacedName)
      → held (frontends.update_status s fe).0 k ≡ held s k

pub some_port :
    (o : Option FrontendStatus) (port : Int32)
    → port_in o ≡ some port
    → (status : FrontendStatus) × (o ≡ some status) × (status.port ≡ some port)
some_port none port h = cc
some_port (some status) port h = (status, refl, h)

-- The status of the frontend is nothing that a Service is judged by.
IsServed-with_status :
    (fe : Frontend) (status : FrontendStatus) {svc : Option Service} {es : Option EndpointSlice}
    {spec : FrontendServiceSpec} {port : Int32} {eps : List Endpoint}
    → IsServed svc es (record fe { status = status }) spec port eps
    → IsServed svc es fe spec port eps
IsServed-with_status fe status h = record {
  svc = h.svc;
  svc_stored = h.svc_stored;
  svc_key = h.svc_key;
  svc_ports = h.svc_ports;
  svc_annotations = h.svc_annotations;
  es = h.es;
  es_stored = h.es_stored;
  es_labels = h.es_labels;
  es_ports = h.es_ports;
  es_health = h.es_health;
}

module _ {S : Type 0} (frontends : FrontendClient S) (services : ServiceClient S)
    (status_of : S → NamespacedName → Option FrontendStatus)
    (held : S → NamespacedName → Option (ObjectMeta × FrontendSpec))
    (shares : Shares frontends services status_of held) (accepts : Accepts frontends status_of)
    (find_service : S → NamespacedName → Option Service)
    (find_slice : S → NamespacedName → Option EndpointSlice)
    (owners : ObjectMeta → ObjectMeta → List OwnerReference)
    (serves : Serves services find_service find_slice owners)
    (as_selector : LabelSelector → Result (Labels → Bool)) (starting_port : Int32) (s : S)
    (lb : GlobalLoadBalancer) (fes : List Frontend)
    (listed : get_frontends frontends as_selector s lb false ≡ ok fes)
    (distinct : Nodup (map frontend_key fes)) (cache : HealthCache) (fe : Frontend) where
  -- The frontend's own port, or the next one of the list as it was read.
  abbrev pub allotted : Int32
  allotted = Option.get_or fe.status.port (get_next_port fes starting_port)

  abbrev pub with_ports : S
  with_ports = (reconcile_frontends frontends as_selector starting_port s lb).0

  -- The state after both passes, and the error of the second.
  abbrev pub both : S × Option Error
  both = reconcile_frontend services cache (frontend_key fe) with_ports

  second :
      (status : FrontendStatus)
      → held s (frontend_key fe) ≡ some (fe.metadata, fe.spec)
      → status_of with_ports (frontend_key fe) ≡ some status
      → both
        ≡ reconcile_service services
            (record fe { status = status })
            cache
            (frontend_key fe)
            with_ports
  unfolding reconcile_frontend
  second status there written =
      let still : held with_ports (frontend_key fe) ≡ some (fe.metadata, fe.spec) =
        (reconcile_frontends-kept frontends (λ t. held t (frontend_key fe))
          (λ t x. shares.kept t x (frontend_key fe)) lb starting_port as_selector s fes listed).1
        ∙ there in
      rw
        (
          shares.read with_ports (frontend_key fe) fe.metadata fe.spec status still written,
          reconcile_frontend,
        )
        refl

  -- A pass of the load balancer's reconciler over frontends under distinct names, then one of the
  -- frontend's on a listed frontend that is held as listed and asks for a Service, on one server, where
  -- both clients' calls succeed: the second has no error, and leaves a Service of the frontend's name that
  -- sends its traffic to the frontend's own port or else to the one that the first pass allotted, and an
  -- EndpointSlice with this port that states readiness as the cache states health.
  pub provisioned :
      (spec : FrontendServiceSpec)
      → Mem fe fes
      → held s (frontend_key fe) ≡ some (fe.metadata, fe.spec)
      → status_of s (frontend_key fe) ≡ some fe.status
      → fe.spec.service ≡ some spec
      → (both.1 ≡ none)
        × IsServed
            (find_service both.0 (frontend_key fe))
            (find_slice both.0 (frontend_key fe))
            fe
            spec
            allotted
            (get cache (frontend_key fe))
  provisioned spec member there stored has_spec =
      let (status, written, has_port) =
        some_port (status_of with_ports (frontend_key fe)) allotted (
          port_after frontends status_of accepts as_selector starting_port s lb fes listed distinct
            fe member stored) in
      rw (second status there written) (
        let done =
          reconciled_service services find_service find_slice owners serves cache (frontend_key fe)
            with_ports (record fe { status = status }) spec allotted has_spec has_port in
        (done.0, IsServed-with_status fe status done.1))
