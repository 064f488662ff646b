-- ===== src/Watchers/Recorded.antt =====
-- The peer that an added service leaves (internal/watchers/peerServiceWatcher.go).
use k8s_glb_operator.Base.{
  ◌≡◌, refl, sym, subst, ap, ◌∙◌, String, Option, none, some, List, [], ◌∷◌, if◌then◌else◌, ◌==◌,
  arith, Option-cases, inl, inr,
}
use k8s_glb_operator.Api.{
  NamespacedName, namespaced_name_eq, not_found, Result, ok, err, Service, LoadBalancerIngress,
  Peer, meta_key,
}
use k8s_glb_operator.Watchers.{PeerClient, new_peer, first_ingress, set_ips, write_ips, on_add}

-- A client whose calls succeed, over a server that holds one peer under a name. `stamped` is what the
-- server makes of a new peer; an update of the status replaces the status alone.
pub record Holds {S : Type 0} (client : PeerClient S) (find_peer : S → NamespacedName → Option Peer)
    (stamped : Peer → Peer) : Type 0 where
  pub named :
      (s : S) (k : NamespacedName) (p : Peer) → find_peer s k ≡ some p → meta_key p.metadata ≡ k
  pub stamped_key : (p : Peer) → meta_key (stamped p).metadata ≡ meta_key p.metadata
  pub read :
      (s : S) (k : NamespacedName)
      → client.get_peer s k ≡ elim (find_peer s k) [ none ↦ err not_found | some p ↦ ok p ]
  pub created :
      (s : S) (p : Peer)
      → find_peer s (meta_key p.metadata) ≡ none
      → ((client.create_peer s p).1 ≡ ok (stamped p))
        × ((k : NamespacedName)
            → find_peer (client.create_peer s p).0 k
              ≡ (if k == meta_key p.metadata then some (stamped p) else find_peer s k))
  pub updated :
      (s : S) (p stored : Peer)
      → find_peer s (meta_key p.metadata) ≡ some stored
      → (k : NamespacedName)
      → find_peer (client.update_status s p).0 k ≡ (
          if k == meta_key p.metadata
          then some (record stored { status = p.status })
          else find_peer s k)

first_ingress-twice :
    (ingress : List LoadBalancerIngress) (ip : String)
    → first_ingress ingress (first_ingress ingress ip) ≡ first_ingress ingress ip
first_ingress-twice [] ip = refl
first_ingress-twice (i ∷ ingress) ip = refl

module _ {S : Type 0} (client : PeerClient S) (find_peer : S → NamespacedName → Option Peer)
    (stamped : Peer → Peer) (laws : Holds client find_peer stamped) (svc : Service) where
  abbrev pub peer_of : Option Peer → Peer
  peer_of none = stamped (new_peer svc)
  peer_of (some p) = p

  written :
      (s : S) (p : Peer)
      → meta_key p.metadata ≡ meta_key svc.metadata
      → find_peer s (meta_key svc.metadata) ≡ some p
      → (k : NamespacedName)
      → find_peer (write_ips client svc (s, ok p)) k
        ≡ (if k == meta_key svc.metadata then some (set_ips svc p) else find_peer s k)
  unfolding write_ips set_ips
  written s p same stored k =
      laws.updated s (set_ips svc p) p (subst (λ j. find_peer s j ≡ some p) (sym same) stored) k
      ∙ ap (λ j. if k == j then some (set_ips svc p) else find_peer s k) same

  added_known :
      (s : S) (p : Peer)
      → find_peer s (meta_key svc.metadata) ≡ some p
      → on_add client svc s ≡ write_ips client svc (s, ok p)
  unfolding on_add
  added_known s p stored = ground (arith, laws.read s (meta_key svc.metadata), stored)

  write-eq :
      (r : S × Result Peer) (p : Peer)
      → r.1 ≡ ok p
      → write_ips client svc r ≡ write_ips client svc (r.0, ok p)
  write-eq (s, r) p e = ap (λ x. write_ips client svc (s, x)) e

  new_peer-key : meta_key (new_peer svc).metadata ≡ meta_key svc.metadata
  unfolding new_peer
  new_peer-key = refl

  added_new :
      (s : S)
      → find_peer s (meta_key svc.metadata) ≡ none
      → on_add client svc s
        ≡ write_ips client svc
            ((client.create_peer s (new_peer svc)).0, ok (stamped (new_peer svc)))
  unfolding on_add new_peer
  added_new s missing =
      ground (arith, laws.read s (meta_key svc.metadata), missing)
      ∙ write-eq (client.create_peer s (new_peer svc)) (stamped (new_peer svc))
          (laws.created s (new_peer svc) missing).0

  created_status :
      (s : S) (k : NamespacedName)
      → find_peer s (meta_key svc.metadata) ≡ none
      → find_peer (client.create_peer s (new_peer svc)).0 k
        ≡ (if k == meta_key svc.metadata then some (stamped (new_peer svc)) else find_peer s k)
  unfolding new_peer
  created_status s k missing = (laws.created s (new_peer svc) missing).1 k

  created_found :
      (s : S)
      → find_peer s (meta_key svc.metadata) ≡ none
      → find_peer (client.create_peer s (new_peer svc)).0 (meta_key svc.metadata)
        ≡ some (stamped (new_peer svc))
  created_found s missing = ground (arith, created_status s (meta_key svc.metadata) missing)

  -- With a client whose calls succeed, the handler of an added service leaves a peer of its name with
  -- the service's cluster IP and, if it has an ingress, its first ingress IP. A peer that was there
  -- keeps what else it holds, one that was not is made, and every other peer stays.
  pub find_peer-on_add :
      (s : S) (k : NamespacedName)
      → find_peer (on_add client svc s) k ≡ (
          if k == meta_key svc.metadata
          then some (set_ips svc (peer_of (find_peer s (meta_key svc.metadata))))
          else find_peer s k)
  find_peer-on_add s k = elim (Option-cases (find_peer s (meta_key svc.metadata))) [
    | inl missing ↦ rw missing (
        ap (λ t. find_peer t k) (added_new s missing)
        ∙ written (client.create_peer s (new_peer svc)).0 (stamped (new_peer svc))
            (laws.stamped_key (new_peer svc) ∙ new_peer-key) (created_found s missing) k
        ∙ ground (arith, created_status s k missing))
    | inr (p, stored) ↦ rw stored (
        ap (λ t. find_peer t k) (added_known s p stored)
        ∙ written s p (laws.named s (meta_key svc.metadata) p stored) stored k)
  ]

  set_ips-twice : (p : Peer) → set_ips svc (set_ips svc p) ≡ set_ips svc p
  unfolding set_ips
  set_ips-twice p =
      ap
        (λ ip. record p {
          status = record (p.status) { local_ip = svc.spec.cluster_ip; remote_ip = ip };
        })
        (first_ingress-twice svc.status.ingress p.status.remote_ip)

  on_add-found :
      (s : S)
      → find_peer (on_add client svc s) (meta_key svc.metadata)
        ≡ some (set_ips svc (peer_of (find_peer s (meta_key svc.metadata))))
  on_add-found s = ground (arith, find_peer-on_add s (meta_key svc.metadata))

  -- With a client whose calls succeed, a service that the informer shows again as it was, after a
  -- restart for instance, leaves every peer as the first time did.
  on_add-repeated :
      (s : S) (k : NamespacedName)
      → find_peer (on_add client svc (on_add client svc s)) k ≡ find_peer (on_add client svc s) k
  on_add-repeated s k = ground (
    arith,
    find_peer-on_add (on_add client svc s) k,
    find_peer-on_add s k,
    on_add-found s,
    set_ips-twice (peer_of (find_peer s (meta_key svc.metadata))),
  )
