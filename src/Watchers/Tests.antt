-- ===== src/Watchers/Tests.antt =====
-- The handlers of internal/watchers/peerServiceWatcher.go over a server that is a map.
use k8s_glb_operator.Base.{
  ◌≡◌, refl, Bool, true, List, Option, none, some, [], ◌∷◌, if◌then◌else◌, ◌==◌, string_eq,
}
use k8s_glb_operator.Base.GoMap.{GoMap, lookup, insert}
use k8s_glb_operator.Api.{
  Labels, NamespacedName, namespaced_name_eq, Error, not_found, ok, err, Service, Peer, bare_meta,
  meta_key,
}
use k8s_glb_operator.Api.Named.{find, find-named, find-insert}
use k8s_glb_operator.Watchers.{PeerClient, service, other, new_peer, set_ips}
use k8s_glb_operator.Watchers.Recorded.{Holds}
use k8s_glb_operator.Watchers.Start.{InformerEvent, added, updated, deleted, handlers, dispatch}
use k8s_glb_operator.Watchers.Dispatched.{peers_recorded}

abbrev Peers : Type 0
Peers = GoMap NamespacedName Peer

abbrev find_peer : Peers → NamespacedName → Option Peer
find_peer m k = find (λ (p : Peer). p.metadata) m k

abbrev with_status : Peer → Option Peer → Peers → Peers × Option Error
with_status p none m = (m, some not_found)
with_status p (some stored) m =
    (insert (meta_key p.metadata) (record stored { status = p.status }) m, none)

abbrev client : PeerClient Peers
client = record {
  get_peer = λ m k. elim (find_peer m k) [ none ↦ err not_found | some p ↦ ok p ];
  create_peer = λ m p. (insert (meta_key p.metadata) p m, ok p);
  update_status = λ m p. with_status p (find_peer m (meta_key p.metadata)) m;
}

rewritten :
    (m : Peers) (p stored : Peer)
    → find_peer m (meta_key p.metadata) ≡ some stored
    → (k : NamespacedName)
    → find_peer (with_status p (find_peer m (meta_key p.metadata)) m).0 k ≡ (
        if k == meta_key p.metadata
        then some (record stored { status = p.status })
        else find_peer m k)
rewritten m p stored found k = rw found (
    find-insert (λ (q : Peer). q.metadata) k (meta_key p.metadata)
      (record stored { status = p.status }) m
      (find-named (λ (q : Peer). q.metadata) (meta_key p.metadata) (lookup (meta_key p.metadata) m)
        stored found))

holds : Holds client find_peer (λ p. p)
holds = record {
  named = λ m k p e. find-named (λ (q : Peer). q.metadata) k (lookup k m) p e;
  stamped_key = λ p. refl;
  read = λ m k. refl;
  created = λ m p missing.
      (refl, λ k. find-insert (λ (q : Peer). q.metadata) k (meta_key p.metadata) p m refl);
  updated = rewritten;
}

abbrev west : Service
west = record {
  metadata = bare_meta "glb" "west";
  spec = record { ports = []; cluster_ip = "10.96.0.7" };
  status = record { ingress = record { ip = "203.0.113.9" } ∷ record { ip = "203.0.113.10" } ∷ [] };
}

abbrev moved : Service
moved = record west { spec = record { ports = []; cluster_ip = "10.96.0.8" } }

-- The service gets another address while the watcher runs, and goes then.
abbrev events : List InformerEvent
events =
    added (service west)
    ∷ added other
    ∷ updated (service west) (service moved)
    ∷ deleted (service moved)
    ∷ []

abbrev every : Labels → Bool
every _ = true

peers_recorded_example :
    find_peer (dispatch (handlers client every) events []) (meta_key west.metadata)
    ≡ some (set_ips west (new_peer west))
unfolding lookup namespaced_name_eq string_eq
peers_recorded_example =
    peers_recorded client find_peer (λ p. p) holds every (meta_key west.metadata) events []
