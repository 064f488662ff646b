-- ===== src/Watchers/Dispatched.antt =====
-- The peers after any sequence of events (internal/watchers/peerServiceWatcher.go).
use k8s_glb_operator.Base.{
  ◌≡◌, refl, ap, ◌∙◌, Bool, true, false, ◌&&◌, Option, some, List, [], ◌∷◌, if◌then◌else◌, ◌==◌,
  arith, Bool-cases, inl, inr,
}
use k8s_glb_operator.Api.{NamespacedName, namespaced_name_eq, Labels, Service, Peer, meta_key}
use k8s_glb_operator.Watchers.{
  PeerClient, service, other, set_ips, on_add, on_update, on_delete, filter, filter_update,
}
use k8s_glb_operator.Watchers.Recorded.{Holds, peer_of, find_peer-on_add}
use k8s_glb_operator.Watchers.Start.{
  InformerEvent, added, updated, deleted, handlers, handle_event, dispatch,
}

module _ (selected : Labels → Bool) (k : NamespacedName) where
  -- The selected services of the name that the events add.
  abbrev pub additions : List InformerEvent → List Service
  additions [] = []
  additions (added (service svc) ∷ events) =
      let rest = additions events in
      if selected svc.labels && k == meta_key svc.metadata then svc ∷ rest else rest
  additions (added other ∷ events) = additions events
  additions (updated _ _ ∷ events) = additions events
  additions (deleted _ ∷ events) = additions events

module _ {S : Type 0} (client : PeerClient S) (find_peer : S → NamespacedName → Option Peer)
    (stamped : Peer → Peer) (laws : Holds client find_peer stamped) where
  -- The peer with the addresses of each service written into it, one after the other.
  abbrev pub record_all : List Service → Option Peer → Option Peer
  record_all [] o = o
  record_all (svc ∷ svcs) o =
      record_all svcs (some (set_ips svc (peer_of client find_peer stamped laws svc o)))

  module _ (selected : Labels → Bool) (k : NamespacedName) where
    abbrev record_events : List InformerEvent → Option Peer → Option Peer
    record_events events o = record_all (additions selected k events) o

    on_add-other :
        (svc : Service) (s : S)
        → (selected svc.labels && k == meta_key svc.metadata) ≡ false
        → find_peer (filter selected (on_add client) (service svc) s) k ≡ find_peer s k
    unfolding filter
    on_add-other svc s apart =
        ground (arith, apart, find_peer-on_add client find_peer stamped laws svc s k)

    on_add-own :
        (svc : Service) (s : S)
        → (selected svc.labels && k == meta_key svc.metadata) ≡ true
        → find_peer (filter selected (on_add client) (service svc) s) k
          ≡ some (set_ips svc (peer_of client find_peer stamped laws svc (find_peer s k)))
    unfolding filter
    on_add-own svc s own =
        ground (arith, own, find_peer-on_add client find_peer stamped laws svc s k)

    ignored :
        (svc : Service) (handler : Service → S → S) (s : S)
        → handler svc s ≡ s
        → filter selected handler (service svc) s ≡ s
    unfolding filter
    ignored svc handler s same = ground (arith, same)

    handled :
        (event : InformerEvent) (events : List InformerEvent) (s : S)
        → record_events events (find_peer (handle_event (handlers client selected) event s) k)
          ≡ record_events (event ∷ events) (find_peer s k)
    unfolding handle_event handlers filter_update on_update on_delete
    handled (added (service svc)) events s =
        elim (Bool-cases (selected svc.labels && k == meta_key svc.metadata)) [
          | inl own ↦ ap (record_events events) (on_add-own svc s own) ∙ rw own refl
          | inr apart ↦ ap (record_events events) (on_add-other svc s apart) ∙ rw apart refl
        ]
    handled (added other) events s = unfold filter in refl
    handled (updated (service a) (service b)) events s =
        ap (λ (t : S). record_events events (find_peer t k)) (ground arith)
    handled (updated other _) events s = refl
    handled (updated (service a) other) events s = refl
    handled (deleted (service svc)) events s =
        ap (λ (t : S). record_events events (find_peer t k)) (ignored svc (λ x t. t) s refl)
    handled (deleted other) events s = unfold filter in refl

    -- With a client whose calls succeed, whatever events the informer shows: the peer of a name is what
    -- the selected services of this name that were added, in their order, make of the one that was there.
    -- Changes and deletions of services, and services that are not selected, leave every peer as it is.
    pub peers_recorded :
        (events : List InformerEvent) (s : S)
        → find_peer (dispatch (handlers client selected) events s) k
          ≡ record_all (additions selected k events) (find_peer s k)
    unfolding dispatch
    peers_recorded [] s = refl
    peers_recorded (event ∷ events) s =
        peers_recorded events (handle_event (handlers client selected) event s)
        ∙ handled event events s
