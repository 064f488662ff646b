-- ===== src/Delivery.antt =====
-- The path from the health manager (internal/haproxy/healthmanager.go) to the frontend reconciler
-- (internal/controller/frontend_controller.go): the channel of events is a source of the controller,
-- whose queue holds the requests that are not handled yet, and both share one health cache.
pub mod Synced
pub mod Delivered
pub mod Allotted
mod Tests
use k8s_glb_operator.Base.{ℕ, suc, ◌+◌, ◌<◌, ◌≡◌, List, [], ◌∷◌, ◌++◌, Option}
use k8s_glb_operator.Api.{NamespacedName, Error}
use k8s_glb_operator.Haproxy.HealthCache.{Endpoint}
use k8s_glb_operator.Haproxy.HealthManager
use k8s_glb_operator.Haproxy.HealthManager.{HealthManager, GenericEvent, EventChan}
use k8s_glb_operator.Controller.Services.{ServiceClient, reconcile_frontend}

-- What the channel has delivered and the controller has not handled is `manager.events.delivered`.
pub record System (S : Type 0) : Type 0 where
  pub manager : HealthManager
  pub store : S

module _ {S : Type 0} where
  abbrev pub with_events : EventChan → System S → System S
  with_events events y = record y { manager = record (y.manager) { events = events } }

  -- A receiver of the source blocks on the channel.
  abbrev pub wait : System S → System S
  wait y = with_events (record (y.manager.events) { waiting = y.manager.events.waiting + 1 }) y

  -- A request of another kind: the frontend was created or changed, or is tried again.
  abbrev pub request : NamespacedName → System S → System S
  request k y =
      with_events
        (record (y.manager.events) {
          delivered = y.manager.events.delivered ++ record { object = k } ∷ [];
        })
        y

  -- The monitor publishes the endpoints of one frontend.
  abbrev pub publish_one : NamespacedName → List Endpoint → System S → System S
  publish_one k eps y = record y { manager = HealthManager.update y.manager k eps }

  -- A publication of the monitor, where the receiver comes back to the channel before each entry.
  unfoldable pub publish_all : List (NamespacedName × List Endpoint) → System S → System S
  publish_all [] y = y
  publish_all ((frontend, eps) ∷ rest) y = publish_all rest (publish_one frontend eps (wait y))

  -- The controller takes the request `e`, which leaves `rest`, and reconciles its frontend.
  abbrev pub handle : ServiceClient S → GenericEvent → List GenericEvent → System S → System S
  handle client e rest y = record {
    manager = record (y.manager) { events = record (y.manager.events) { delivered = rest } };
    store = (reconcile_frontend client y.manager.cache e.object y.store).0;
  }

-- A run in which a receiver waits whenever the monitor publishes.
pub data Step {S : Type 0} (client : ServiceClient S) (y : System S) : System S → Type 0 where
  waits : Step client y (wait y)
  requested : (k : NamespacedName) → Step client y (request k y)
  published :
      (k : NamespacedName) (eps : List Endpoint)
      → 0 < y.manager.events.waiting
      → Step client y (publish_one k eps y)
  handled :
      (e : GenericEvent) (rest : List GenericEvent)
      → y.manager.events.delivered ≡ e ∷ rest
      → Step client y (handle client e rest y)

pub data Run {S : Type 0} (client : ServiceClient S) (y : System S) : System S → Type 0 where
  here : Run client y y
  next : {u v : System S} → Run client y u → Step client u v → Run client y v
