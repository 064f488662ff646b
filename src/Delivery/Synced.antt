-- ===== src/Delivery/Synced.antt =====
-- No EndpointSlice stays behind the cache without a request that is still to be handled.
use mathlib.Core.List.{
  Mem, Mem-prop, mem-cons, mem-cons_self, mem-append_left, mem-append_right, not-mem-nil,
}
use mathlib.Core.Logic.Or
use k8s_glb_operator.Base.{
  ◌<◌, ◌≡◌, ◌⊎◌, inl, inr, refl, sym, subst, ap, ◌∙◌, Bool, true, false, String, Option, some, List,
  [], ◌∷◌, ◌==◌, ◌&&◌, arith, ltb, Bool-cases,
}
use k8s_glb_operator.Base.GoMap.{lookup}
use k8s_glb_operator.Api.{
  Int32, NamespacedName, namespaced_name_eq, ObjectMeta, OwnerReference, Error, ok, Frontend,
  FrontendServiceSpec, frontend_key, Service, EndpointSlice,
}
use k8s_glb_operator.Haproxy.HealthCache
use k8s_glb_operator.Haproxy.HealthCache.{HealthCache, Endpoint, get, or_empty}
use k8s_glb_operator.Haproxy.HealthCache.Changes.{lookup-update}
use k8s_glb_operator.Haproxy.HealthCache.Health.{health_of}
use k8s_glb_operator.Haproxy.HealthManager
use k8s_glb_operator.Haproxy.HealthManager.{HealthManager, GenericEvent}
use k8s_glb_operator.Haproxy.HealthManager.Events
use k8s_glb_operator.Controller.Services.{ServiceClient, reconcile_frontend, reconcile_service}
use k8s_glb_operator.Controller.Services.Applied.{Serves, tcp_at, readiness, reconciled_service}
use k8s_glb_operator.Controller.Services.Elsewhere.{reconcile_frontend-elsewhere}
use k8s_glb_operator.Controller.Services.Kept.{Keeps, reconcile_frontend-Keeps}
use k8s_glb_operator.Delivery.{
  System, publish_one, handle, Step, waits, requested, published, handled, Run, here, next,
}

abbrev pub event_of : NamespacedName → GenericEvent
event_of k = record { object = k }

-- The slice that is stored takes the traffic at `port` and states the same readiness of every address as
-- the cache states health.
pub record IsAgreed (slice : Option EndpointSlice) (port : Int32) (cache : HealthCache)
    (k : NamespacedName) : Type 0 where
  pub es : EndpointSlice
  pub stored : slice ≡ some es
  pub ports : es.ports ≡ tcp_at port ∷ []
  pub agreed : (ip : String) → readiness ip es.endpoints ≡ health_of ip (get cache k)

-- An entry of another frontend, or one that is reported to be unchanged, is as it was.
get-update :
    (c : HealthCache) (k j : NamespacedName) (eps : List Endpoint)
    → (k == j && (HealthCache.update c j eps).1) ≡ false
    → get (HealthCache.update c j eps).0 k ≡ get c k
unfolding get
get-update c k j eps same =
    ap or_empty {y = lookup k c.endpoints} (lookup-update c j eps k ∙ rw same refl)

delivered-grows :
    (m : HealthManager) (j : NamespacedName) (eps : List Endpoint) (e : GenericEvent)
    → Mem e m.events.delivered
    → Mem e (HealthManager.update m j eps).events.delivered
delivered-grows m j eps e member =
    elim (Bool-cases ((HealthCache.update m.cache j eps).1 && ltb 0 m.events.waiting)) [
      | inl sent ↦ rw ((Events.update_lem m j eps).1, sent) (mem-append_left _ member)
      | inr quiet ↦ rw ((Events.update_lem m j eps).1, quiet) member
    ]

delivered-update :
    (m : HealthManager) (j : NamespacedName) (eps : List Endpoint)
    → (HealthCache.update m.cache j eps).1 ≡ true
    → 0 < m.events.waiting
    → Mem (event_of j) (HealthManager.update m j eps).events.delivered
delivered-update m j eps changed received =
    let sent : ((HealthCache.update m.cache j eps).1 && ltb 0 m.events.waiting) ≡ true =
      ground arith in
    rw ((Events.update_lem m j eps).1, sent) (mem-append_right m.events.delivered mem-cons_self)

key_and_changed :
    (k j : NamespacedName) (changed : Bool)
    → (((k == j && changed) ≡ true) × (k ≡ j) × (changed ≡ true)) ⊎ ((k == j && changed) ≡ false)
key_and_changed k j changed = elim (namespaced_name_eq.dec k j) [
  | yes same ↦ elim (Bool-cases changed) [
    | inl yes_changed ↦ inl (ground arith, same, yes_changed)
    | inr not_changed ↦ inr (ground arith)
  ]
  | no differ ↦ inr (ground arith)
]

module _ {S : Type 0} (client : ServiceClient S)
    (find_service : S → NamespacedName → Option Service)
    (find_slice : S → NamespacedName → Option EndpointSlice)
    (owners : ObjectMeta → ObjectMeta → List OwnerReference)
    (laws : Serves client find_service find_slice owners)
    (named : (s : S) (k : NamespacedName) (fe : Frontend)
      → client.get_frontend s k ≡ ok fe
      → frontend_key fe ≡ k)
    (k : NamespacedName) (fe : Frontend) (spec : FrontendServiceSpec) (port : Int32)
    (has_spec : fe.spec.service ≡ some spec) (has_port : fe.status.port ≡ some port)
    (keeps : Keeps client (λ s. client.get_frontend s k)) where
  -- The API server has the frontend.
  abbrev pub HasFrontend : System S → Type 0
  HasFrontend y = client.get_frontend y.store k ≡ ok fe

  -- A request for the frontend is still to be handled, or its slice agrees with the cache.
  abbrev pub IsSynced : System S → Type 0
  IsSynced y =
      Mem (event_of k) y.manager.events.delivered
      ⊎ IsAgreed (find_slice y.store k) port y.manager.cache k

  published-IsSynced :
      (y : System S) (j : NamespacedName) (eps : List Endpoint)
      → 0 < y.manager.events.waiting
      → IsSynced y
      → IsSynced (publish_one j eps y)
  published-IsSynced y j eps received synced =
      elim (key_and_changed k j (HealthCache.update y.manager.cache j eps).1) [
        | inl (_, same, changed) ↦ inl (
            subst (λ x. Mem (event_of x) (HealthManager.update y.manager j eps).events.delivered)
              (sym same) (delivered-update y.manager j eps changed received))
        | inr quiet ↦ elim synced [
          | inl pending ↦ inl (delivered-grows y.manager j eps (event_of k) pending)
          | inr a ↦ inr (record {
            es = a.es;
            stored = a.stored;
            ports = a.ports;
            agreed = λ ip.
                a.agreed ip
                ∙ sym (
                    ap (health_of ip) (
                      ap (λ c. get c k) (Events.update_lem y.manager j eps).0
                      ∙ get-update y.manager.cache k j eps quiet));
          })
        ]
      ]

  own_pass :
      (s : S) (cache : HealthCache)
      → client.get_frontend s k ≡ ok fe
      → reconcile_frontend client cache k s ≡ reconcile_service client fe cache k s
  unfolding reconcile_frontend
  own_pass s cache known = rw (known, reconcile_frontend) refl

  handled_self :
      (s : S) (cache : HealthCache)
      → client.get_frontend s k ≡ ok fe
      → IsAgreed (find_slice (reconcile_frontend client cache k s).0 k) port cache k
  handled_self s cache known =
      let served =
        (reconciled_service client find_service find_slice owners laws cache k s fe spec port
          has_spec has_port).1 in
      record {
        es = served.es;
        stored =
            ap (λ (r : S × Option Error). find_slice r.0 k) (own_pass s cache known)
            ∙ subst (λ j. find_slice (reconcile_service client fe cache k s).0 j ≡ some served.es)
                (named s k fe known) served.es_stored;
        ports = served.es_ports;
        agreed = served.es_health;
      }

  handled-IsSynced :
      (y : System S) (e : GenericEvent) (rest : List GenericEvent)
      → y.manager.events.delivered ≡ e ∷ rest
      → HasFrontend y
      → IsSynced y
      → IsSynced (handle client e rest y)
  handled-IsSynced y e rest taken known synced = elim (namespaced_name_eq.dec k e.object) [
    | yes same ↦ inr (
        subst
          (λ j.
            IsAgreed (find_slice (reconcile_frontend client y.manager.cache j y.store).0 k) port
              y.manager.cache k)
          same (handled_self y.store y.manager.cache known))
    | no differ ↦ elim synced [
      | inl pending ↦ inl (
          Or.elim Mem-prop (mem-cons.0 (subst (Mem (event_of k)) taken pending))
            (λ same. absurd (differ (ap (λ (x : GenericEvent). x.object) same))) (λ later. later))
      | inr a ↦ inr (record {
        es = a.es;
        stored =
            reconcile_frontend-elsewhere client find_service find_slice owners laws y.manager.cache
              named e.object k y.store differ
            ∙ a.stored;
        ports = a.ports;
        agreed = a.agreed;
      })
    ]
  ]

  Step-HasFrontend : {y u : System S} → Step client y u → HasFrontend y → HasFrontend u
  Step-HasFrontend waits known = known
  Step-HasFrontend (requested j) known = known
  Step-HasFrontend (published j eps received) known = known
  Step-HasFrontend {y} (handled e rest taken) known =
      reconcile_frontend-Keeps client (λ s. client.get_frontend s k) keeps y.manager.cache e.object
        y.store
      ∙ known

  Step-IsSynced : {y u : System S} → Step client y u → HasFrontend y → IsSynced y → IsSynced u
  Step-IsSynced waits known synced = synced
  Step-IsSynced {y} (requested j) known (inl pending) = inl (mem-append_left _ pending)
  Step-IsSynced {y} (requested j) known (inr agreed) = inr agreed
  Step-IsSynced {y} (published j eps received) known synced =
      published-IsSynced y j eps received synced
  Step-IsSynced {y} (handled e rest taken) known synced =
      handled-IsSynced y e rest taken known synced

  Run-IsSynced :
      {y u : System S} → Run client y u → HasFrontend y → IsSynced y → HasFrontend u × IsSynced u
  Run-IsSynced here known synced = (known, synced)
  Run-IsSynced (next r s) known synced =
      let (known', synced') = Run-IsSynced r known synced in
      (Step-HasFrontend s known', Step-IsSynced s known' synced')

  -- In a run in which a receiver waits whenever the monitor publishes, from a state with a request for a
  -- frontend or with an agreeing slice, in whatever order the publications and the requests of any
  -- frontends come: when no request is left, the EndpointSlice of this frontend takes the traffic at its
  -- port and states the same readiness of every address as the cache states health, if the API server has
  -- it with a service and a port and gives each frontend under its own name, no write of a Service or an
  -- EndpointSlice changes that, and the client's calls succeed.
  pub settled :
      {y u : System S}
      → Run client y u
      → HasFrontend y
      → IsSynced y
      → u.manager.events.delivered ≡ []
      → IsAgreed (find_slice u.store k) port u.manager.cache k
  settled r known synced done = elim (Run-IsSynced r known synced).1 [
    | inl pending ↦ absurd (not-mem-nil (subst (Mem (event_of k)) done pending))
    | inr agreed ↦ agreed
  ]
