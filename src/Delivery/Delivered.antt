-- ===== src/Delivery/Delivered.antt =====
-- From the recorded states of the pods to the EndpointSlice by way of the event channel: a publication
-- of internal/haproxy/haproxymonitor.go, the events of internal/haproxy/healthmanager.go, and the passes
-- of internal/controller/frontend_controller.go that they ask for.
use mathlib.Core.List.{Mem, Nodup}
use k8s_glb_operator.Base.{
  ◌≡◌, refl, sym, ap, ◌∙◌, String, Option, some, List, [], ◌∷◌, Bool, arith,
}
use k8s_glb_operator.Api.{
  Int32, NamespacedName, ObjectMeta, OwnerReference, Labels, LabelSelector, ok, Backend, Frontend,
  FrontendServiceSpec, frontend_key, Service, EndpointSlice,
}
use k8s_glb_operator.Haproxy.HealthCache
use k8s_glb_operator.Haproxy.HealthCache.{Endpoint, HealthCache, get}
use k8s_glb_operator.Haproxy.HealthCache.Health.{addresses, health_of}
use k8s_glb_operator.Haproxy.HealthManager
use k8s_glb_operator.Haproxy.HealthManager.{HealthManager}
use k8s_glb_operator.Haproxy.HealthManager.Events
use k8s_glb_operator.Haproxy.Monitor.{Monitor}
use k8s_glb_operator.Haproxy.Monitor.Invariant.{IsValid}
use k8s_glb_operator.Haproxy.Monitor.Publish.{
  Ranges, Lister, publish, collect, update_health_manager,
}
use k8s_glb_operator.Haproxy.Monitor.Published.{RangesOnce, published_health}
use k8s_glb_operator.Haproxy.Monitor.Selected.{endpoints_for, keys_of}
use k8s_glb_operator.Controller.Services.{ServiceClient}
use k8s_glb_operator.Controller.Services.Kept.{Keeps}
use k8s_glb_operator.Controller.Services.Applied.{Serves, tcp_at, readiness}
use k8s_glb_operator.Delivery.{
  System, wait, publish_one, publish_all, waits, published, Run, here, next,
}
use k8s_glb_operator.Delivery.Synced.{IsSynced, settled}

abbrev pub Entries : Type 0
Entries = List (NamespacedName × List Endpoint)

-- A slice that takes the traffic at `port` and is ready for an address exactly as the endpoints state the
-- address's health.
pub record StatesHealth (slice : Option EndpointSlice) (port : Int32) (eps : List Endpoint)
    : Type 0 where
  pub es : EndpointSlice
  pub stored : slice ≡ some es
  pub ports : es.ports ≡ tcp_at port ∷ []
  pub states : (ip : String) → readiness ip es.endpoints ≡ health_of ip eps

same_update :
    (m n : HealthManager) (k : NamespacedName) (eps : List Endpoint)
    → m.cache ≡ n.cache
    → (HealthManager.update m k eps).cache ≡ (HealthManager.update n k eps).cache
same_update m n k eps same =
    (Events.update_lem m k eps).0
    ∙ ap (λ c. (HealthCache.update c k eps).0) same
    ∙ sym (Events.update_lem n k eps).0

module _ {S : Type 0} where
  -- The cache does not depend on who waits.
  publish_all-publish :
      (entries : Entries) (y : System S) (m : HealthManager)
      → y.manager.cache ≡ m.cache
      → (publish_all entries y).manager.cache ≡ (publish entries m).cache
  unfolding publish_all publish
  publish_all-publish [] y m same = same
  publish_all-publish ((k, eps) ∷ rest) y m same =
      publish_all-publish rest (publish_one k eps (wait y)) (HealthManager.update m k eps)
        (same_update (wait y).manager m k eps same)

  module _ (client : ServiceClient S) where
    Run-trans : {y u v : System S} → Run client y u → Run client u v → Run client y v
    Run-trans r here = r
    Run-trans r (next q s) = next (Run-trans r q) s

    publish_all-Run : (entries : Entries) (y : System S) → Run client y (publish_all entries y)
    unfolding publish_all
    publish_all-Run [] y = here
    publish_all-Run ((k, eps) ∷ rest) y =
        Run-trans (next (next here waits) (published k eps (ground arith)))
          (publish_all-Run rest (publish_one k eps (wait y)))

module _ (as_selector : LabelSelector → Option (Labels → Bool)) (ranges : Ranges) (lister : Lister)
    (w : Monitor) (backends : List Backend) (fes : List Frontend)
    (listed_backends : lister.list_backends w.namespace ≡ ok backends)
    (listed_frontends : lister.list_frontends w.namespace ≡ ok fes) where
  -- The entries in the order in which the monitor ranges over them.
  abbrev pub entries : Entries
  entries = ranges.range_frontends (collect as_selector ranges w backends fes)

  published_cache :
      (update_health_manager as_selector ranges lister w).0.health_mgr
      ≡ publish entries w.health_mgr
  unfolding update_health_manager
  published_cache = rw (listed_backends, listed_frontends, update_health_manager) refl

  -- After a publication on a valid monitor, with both lists read, the maps ranged over once per entry, the
  -- frontends under distinct names and the receiver back at the channel before each entry, from a state
  -- whose cache is the monitor's and in which a frontend has a request or an agreeing slice: once no
  -- request is left and the cache is still as it was published, the EndpointSlice of this frontend, if it
  -- is listed and has a service and a port, takes the traffic at this port and states the readiness of
  -- every address as the endpoints gathered for it state its health, if some were gathered and their
  -- addresses are distinct. The client's calls succeed, the API server has the frontend as it is listed
  -- and gives each under its own name, and no write of a Service or an EndpointSlice changes that.
  pub delivered_health :
      RangesOnce ranges
      → IsValid w
      → Nodup (keys_of fes)
      → (fe : Frontend) → Mem fe fes
      → (eps : List Endpoint)
      → endpoints_for as_selector ranges w.scrape_targets w.endpoint_states fe backends ≡ some eps
      → Nodup (addresses eps)
      → {S : Type 0} (client : ServiceClient S) (find_service : S → NamespacedName → Option Service)
        (find_slice : S → NamespacedName → Option EndpointSlice)
        (owners : ObjectMeta → ObjectMeta → List OwnerReference)
        (laws : Serves client find_service find_slice owners)
        (named : (s : S) (k : NamespacedName) (fe' : Frontend)
          → client.get_frontend s k ≡ ok fe'
          → frontend_key fe' ≡ k)
        (spec : FrontendServiceSpec) (port : Int32) (has_spec : fe.spec.service ≡ some spec)
        (has_port : fe.status.port ≡ some port)
        (keeps : Keeps client (λ s. client.get_frontend s (frontend_key fe))) (y u : System S)
      → client.get_frontend y.store (frontend_key fe) ≡ ok fe
      → IsSynced client find_service find_slice owners laws named
          (frontend_key fe)
          fe
          spec
          port
          has_spec
          has_port
          keeps
          y
      → y.manager.cache ≡ w.health_mgr.cache
      → Run client (publish_all entries y) u
      → u.manager.events.delivered ≡ []
      → u.manager.cache ≡ (publish_all entries y).manager.cache
      → StatesHealth (find_slice u.store (frontend_key fe)) port eps
  delivered_health once valid distinct fe member eps gathered apart client find_service find_slice
        owners laws named spec port has_spec has_port keeps y u known synced same_start run done
        same_end =
      let agreed =
        settled client find_service find_slice owners laws named (frontend_key fe) fe spec port
          has_spec has_port keeps (Run-trans client (publish_all-Run client entries y) run) known
          synced done in
      let cache : u.manager.cache
          ≡ (update_health_manager as_selector ranges lister w).0.health_mgr.cache =
        same_end
        ∙ publish_all-publish entries y w.health_mgr same_start
        ∙ ap (λ (m : HealthManager). m.cache) (sym published_cache) in
      record {
        es = agreed.es;
        stored = agreed.stored;
        ports = agreed.ports;
        states = λ ip.
            agreed.agreed ip
            ∙ ap (λ (c : HealthCache). health_of ip (get c (frontend_key fe))) cache
            ∙ published_health as_selector ranges lister w backends fes listed_backends
                listed_frontends once valid distinct fe member eps gathered apart ip;
      }
