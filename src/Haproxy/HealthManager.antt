-- ===== src/Haproxy/HealthManager.antt =====
-- internal/haproxy/healthmanager.go. The events channel is unbuffered, as cmd/main.go makes it: a
-- send succeeds only while a receiver waits, and the `select` with a `default` drops it otherwise.
pub mod Events
use k8s_glb_operator.Base.{ℕ, zero, suc, Bool, String, List, [], ◌∷◌, ◌++◌, if◌then◌else◌}
use k8s_glb_operator.Api.{NamespacedName}
use k8s_glb_operator.Haproxy.HealthCache.{HealthCache, Endpoint}
use k8s_glb_operator.Haproxy.HealthCache

-- The `Frontend` in the event carries its name alone.
pub record GenericEvent : Type 0 where
  pub object : NamespacedName

-- `waiting` counts the receivers blocked on the channel, `delivered` lists what was received.
pub record EventChan : Type 0 where
  pub waiting : ℕ
  pub delivered : List GenericEvent

pub record HealthManager : Type 0 where
  pub cache : HealthCache
  pub events : EventChan

unfoldable pub new_health_manager : HealthCache → EventChan → HealthManager
new_health_manager cache events = record { cache = cache; events = events }

-- `select { case events <- event: default: }`
unfoldable pub try_send : EventChan → GenericEvent → EventChan
try_send ch event = elim ch.waiting [
  | zero ↦ ch
  | suc n ↦ record ch { waiting = n; delivered = ch.delivered ++ event ∷ [] }
]

unfoldable pub update : HealthManager → NamespacedName → List Endpoint → HealthManager
unfolding try_send
update m frontend endpoints =
    let (cache', changed) = HealthCache.update m.cache frontend endpoints in
    if changed
    then record m { cache = cache'; events = try_send m.events (record { object = frontend }) }
    else record m { cache = cache' }
