-- ===== src/Delivery/Allotted.antt =====
-- From the load balancer's reconciler to the EndpointSlice (internal/controller): the status updates of
-- `ReconcileFrontends` (globalloadbalancer_controller.go) reach the frontend controller through its watch,
-- and its passes (frontend_controller.go) run among the publications of the health manager.
use mathlib.Core.List.{
  Mem, Mem-prop, Nodup, mem-cons, mem-cons_self, mem-append_left, mem-append_right, not-mem-nil,
}
use mathlib.Core.Logic.Or
use mathlib.Core.Option
use k8s_glb_operator.Base.{
  ◌≡◌, refl, ap, ◌∙◌, Bool, true, false, inl, Option, none, some, List, [], ◌∷◌, ◌++◌, map,
  if◌then◌else◌, string_eq, arith,
}
use k8s_glb_operator.Api.{
  Int32, Labels, LabelSelector, NamespacedName, ObjectMeta, OwnerReference, Result, ok, Frontend,
  FrontendSpec, FrontendStatus, FrontendServiceSpec, frontend_key, GlobalLoadBalancer, Service,
  EndpointSlice,
}
use k8s_glb_operator.Haproxy.HealthManager.{GenericEvent}
use k8s_glb_operator.Controller.Ports.{get_next_port}
use k8s_glb_operator.Controller.Frontends.{
  FrontendClient, claim, give_port, assign, get_frontends, reconcile_frontends,
}
use k8s_glb_operator.Controller.Frontends.Assigned.{Accepts}
use k8s_glb_operator.Controller.Frontends.Reconciled.{port_after}
use k8s_glb_operator.Controller.Frontends.Unchanged.{reconcile_frontends-kept}
use k8s_glb_operator.Controller.Provisioned.{Shares, some_port}
use k8s_glb_operator.Controller.Services.{ServiceClient}
use k8s_glb_operator.Controller.Services.Applied.{Serves}
use k8s_glb_operator.Controller.Services.Kept.{Keeps}
use k8s_glb_operator.Controller.Wiring.{frontend_controller, requests_of}
use k8s_glb_operator.Delivery.{System, Run}
use k8s_glb_operator.Delivery.Synced.{IsAgreed, event_of, settled}

module _ (enqueue_owner : ObjectMeta → List NamespacedName) where
  -- The requests that the frontend controller's watches make of a written frontend.
  abbrev pub noticed : Frontend → List GenericEvent
  noticed fe =
      map event_of (requests_of enqueue_owner frontend_controller.watches "Frontend" fe.metadata)

  noticed-eq : (fe : Frontend) → noticed fe ≡ event_of (frontend_key fe) ∷ []
  unfolding requests_of frontend_controller string_eq
  noticed-eq fe = refl

  -- Those of a pass, which writes the frontends that lack something.
  unfoldable pub written : GlobalLoadBalancer → Int32 → List Frontend → List GenericEvent
  written lb port [] = []
  written lb port (fe ∷ fes) =
      (if (assign lb port fe).1 then noticed fe else []) ++ written lb port fes

  lacks_port :
      (lb : GlobalLoadBalancer) (port : Int32) (fe : Frontend)
      → fe.status.port ≡ none
      → (assign lb port fe).1 ≡ true
  unfolding assign claim give_port
  lacks_port lb port fe missing = ground (arith, missing)

  written-mem :
      (lb : GlobalLoadBalancer) (port : Int32) (fes : List Frontend) (fe : Frontend)
      → fe.status.port ≡ none
      → Mem fe fes
      → Mem (event_of (frontend_key fe)) (written lb port fes)
  unfolding written
  written-mem lb port [] fe missing member = absurd (not-mem-nil member)
  written-mem lb port (x ∷ fes) fe missing member =
      Or.elim Mem-prop (mem-cons.0 member)
        (λ same.
          rw (← same, lacks_port lb port fe missing, noticed-eq fe)
            (mem-append_left (written lb port fes)
              (mem-cons_self {a = event_of (frontend_key fe)} {l = []})))
        (λ later.
          mem-append_right (if (assign lb port x).1 then noticed x else [])
            (written-mem lb port fes fe missing later))

module _ {S : Type 0} (frontends : FrontendClient S) (services : ServiceClient S)
    (status_of : S → NamespacedName → Option FrontendStatus)
    (held : S → NamespacedName → Option (ObjectMeta × FrontendSpec))
    (shares : Shares frontends services status_of held) (accepts : Accepts frontends status_of)
    (find_service : S → NamespacedName → Option Service)
    (find_slice : S → NamespacedName → Option EndpointSlice)
    (owners : ObjectMeta → ObjectMeta → List OwnerReference)
    (serves : Serves services find_service find_slice owners)
    (enqueue_owner : ObjectMeta → List NamespacedName)
    (as_selector : LabelSelector → Result (Labels → Bool)) (starting_port : Int32)
    (lb : GlobalLoadBalancer) (fes : List Frontend) where
  -- A pass of `ReconcileFrontends` that lists `fes`, while the manager and the frontend controller run.
  abbrev pub assigned : System S → System S
  assigned y = record {
    manager = record (y.manager) {
      events = record (y.manager.events) {
        delivered =
            y.manager.events.delivered
            ++ written enqueue_owner lb (get_next_port fes starting_port) fes;
      };
    };
    store = (reconcile_frontends frontends as_selector starting_port y.store lb).0;
  }

  -- A pass of the load balancer's reconciler, at any state, over frontends under distinct names, one of
  -- which is held as listed, asks for a Service and has no port. Each status that the pass writes makes a
  -- request of the frontend controller. Then, in whatever order requests of any frontends are handled and
  -- the health manager publishes, a receiver waiting each time: once no request is left, the EndpointSlice
  -- of this frontend takes the traffic at the next port of the list as it was read, and states the same
  -- readiness of every address as the cache states health. Both clients' calls succeed on one server,
  -- which gives each frontend under its own name, and no write of a Service or an EndpointSlice changes
  -- the frontend.
  pub allotted_health :
      (named : (s : S) (k : NamespacedName) (fe : Frontend)
        → services.get_frontend s k ≡ ok fe
        → frontend_key fe ≡ k)
      (y u : System S)
      → get_frontends frontends as_selector y.store lb false ≡ ok fes
      → Nodup (map frontend_key fes)
      → (fe : Frontend) (spec : FrontendServiceSpec) → Mem fe fes
      → Keeps services (λ s. services.get_frontend s (frontend_key fe))
      → held y.store (frontend_key fe) ≡ some (fe.metadata, fe.spec)
      → status_of y.store (frontend_key fe) ≡ some fe.status
      → fe.spec.service ≡ some spec
      → fe.status.port ≡ none
      → Run services (assigned y) u
      → u.manager.events.delivered ≡ []
      → IsAgreed
          (find_slice u.store (frontend_key fe))
          (get_next_port fes starting_port)
          u.manager.cache
          (frontend_key fe)
  allotted_health named y u listed distinct fe spec member keeps there stored has_spec missing run
        done =
      let key = frontend_key fe in
      let next = get_next_port fes starting_port in
      let (status, now, has_port) = some_port (status_of (assigned y).store key) next (
        port_after frontends status_of accepts as_selector starting_port y.store lb fes listed
          distinct fe member stored
        ∙ ap (λ (o : Option Int32). some (Option.get_or o next)) missing) in
      let still : held (assigned y).store key ≡ some (fe.metadata, fe.spec) =
        (reconcile_frontends-kept frontends (λ t. held t key) (λ t x. shares.kept t x key) lb
          starting_port as_selector y.store fes listed).1
        ∙ there in
      settled services find_service find_slice owners serves named key
        (record fe { status = status }) spec next has_spec has_port keeps run
        (shares.read (assigned y).store key fe.metadata fe.spec status still now)
        (inl (
          mem-append_right y.manager.events.delivered
            (written-mem enqueue_owner lb next fes fe missing member)))
        done
