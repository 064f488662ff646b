-- ===== src/Haproxy/HealthManager/Events.antt =====
-- Which changes of health reach the frontend controller.
use mathlib.Core.List.{Nodup, Perm}
use k8s_glb_operator.Base.{
  ℕ, ◌≡◌, refl, ◌∙◌, true, false, ◌&&◌, some, List, [], ◌∷◌, ◌++◌, arith, ltb, if◌then◌else◌, All,
}
use k8s_glb_operator.Base.GoMap.{lookup}
use k8s_glb_operator.Api.{NamespacedName, namespaced_name_eq}
use k8s_glb_operator.Haproxy.HealthCache.{Endpoint, HealthCache}
use k8s_glb_operator.Haproxy.HealthCache
use k8s_glb_operator.Haproxy.HealthCache.Health.{addresses}
use k8s_glb_operator.Haproxy.HealthCache.Changes.{update_reordered, lookup-update}
use k8s_glb_operator.Haproxy.HealthManager.{HealthManager, update}

-- `Update` leaves the cache as the cache's own `Update` does, and delivers one event, for the
-- frontend updated, exactly if that reports a change and a receiver waits.
pub update_lem :
    (m : HealthManager) (frontend : NamespacedName) (eps : List Endpoint)
    → ((update m frontend eps).cache ≡ (HealthCache.update m.cache frontend eps).0)
      × ((update m frontend eps).events.delivered ≡ (
          if (HealthCache.update m.cache frontend eps).1 && ltb 0 m.events.waiting
          then m.events.delivered ++ record { object = frontend } ∷ []
          else m.events.delivered))
unfolding update
update_lem m frontend eps = ground arith

-- The receivers that wait when the monitor publishes, and the endpoints that it publishes then.
abbrev pub Round : Type 0
Round = ℕ × List Endpoint

abbrev pub listen : ℕ → HealthManager → HealthManager
listen n m = record m { events = record (m.events) { waiting = n } }

-- One frontend's health published over and over.
unfoldable pub publish_rounds : HealthManager → NamespacedName → List Round → HealthManager
publish_rounds m frontend [] = m
publish_rounds m frontend ((n, eps) ∷ rounds) =
    publish_rounds (update (listen n m) frontend eps) frontend rounds

update_quiet :
    (m : HealthManager) (frontend : NamespacedName) (eps : List Endpoint)
    → HealthCache.update m.cache frontend eps ≡ (m.cache, false)
    → update m frontend eps ≡ m
unfolding update
update_quiet m frontend eps quiet = rw (quiet, update)

quiet_rounds :
    (m : HealthManager) (frontend : NamespacedName) (eps : List Endpoint) (rounds : List Round)
    → lookup frontend m.cache.endpoints ≡ some eps
    → Nodup (addresses eps)
    → All (λ r. Perm eps r.1) rounds
    → (publish_rounds m frontend rounds).events.delivered ≡ m.events.delivered
unfolding publish_rounds
quiet_rounds m frontend eps [] found distinct same = refl
quiet_rounds m frontend eps ((n, eps') ∷ rounds) found distinct (p, same) =
    rw
      (
        update_quiet (listen n m) frontend eps'
            (update_reordered m.cache frontend eps eps' found distinct p),
        publish_rounds,
      )
      (quiet_rounds (listen n m) frontend eps rounds found distinct same)

-- A change of health that is reported while no receiver waits is lost: as long as later rounds
-- publish the same endpoints, in any order and at distinct addresses, no event is delivered, however
-- many receivers wait then.
pub lost_event :
    (m : HealthManager) (frontend : NamespacedName) (eps : List Endpoint) (rounds : List Round)
    → m.events.waiting ≡ 0
    → (HealthCache.update m.cache frontend eps).1 ≡ true
    → Nodup (addresses eps)
    → All (λ r. Perm eps r.1) rounds
    → (publish_rounds (update m frontend eps) frontend rounds).events.delivered ≡ m.events.delivered
lost_event m frontend eps rounds idle changed distinct same =
    quiet_rounds (update m frontend eps) frontend eps rounds cached distinct same ∙ dropped
  where
    dropped : (update m frontend eps).events.delivered ≡ m.events.delivered
    dropped = (update_lem m frontend eps).1 ∙ ground arith

    cached : lookup frontend (update m frontend eps).cache.endpoints ≡ some eps
    cached =
        rw ((update_lem m frontend eps).0)
          (lookup-update m.cache frontend eps frontend ∙ ground arith)
