-- ===== src/Watchers.antt =====
-- internal/watchers/peerServiceWatcher.go: the handlers of the service informer. The API server behind
-- the manager's client and cache is a parameter.
pub mod Recorded
pub mod Start
pub mod Dispatched
mod Tests
use k8s_glb_operator.Base.{
  Bool, true, false, String, Option, none, some, List, [], ◌∷◌, if◌then◌else◌,
}
use k8s_glb_operator.Api.{
  NamespacedName, Labels, Error, is_not_found, Result, ok, err, Service, LoadBalancerIngress, Peer,
  PeerStatus, bare_meta, meta_key,
}

-- `GetCache().Get`, `GetClient().Create`, which leaves the object as the server made it, and
-- `Status().Update`.
pub record PeerClient (S : Type 0) : Type 0 where
  pub get_peer : S → NamespacedName → Result Peer
  pub create_peer : S → Peer → S × Result Peer
  pub update_status : S → Peer → S × Option Error

unfoldable pub new_peer : Service → Peer
new_peer svc = record {
  metadata = bare_meta svc.namespace svc.name;
  status = record { peer_name = ""; local_ip = ""; remote_ip = ""; conditions = [] };
}

-- The loop that breaks after its first round.
abbrev pub first_ingress : List LoadBalancerIngress → String → String
first_ingress [] ip = ip
first_ingress (ingress ∷ more) ip = ingress.ip

unfoldable pub set_ips : Service → Peer → Peer
set_ips svc peer = record peer {
  status = record (peer.status) {
    local_ip = svc.spec.cluster_ip;
    remote_ip = first_ingress svc.status.ingress peer.status.remote_ip;
  };
}

module _ {S : Type 0} (client : PeerClient S) where
  -- What is done with the peer that was found or made. A failure is only logged.
  unfoldable pub write_ips : Service → S × Result Peer → S
  unfolding set_ips
  write_ips svc (s, err e) = s
  write_ips svc (s, ok peer) = (client.update_status s (set_ips svc peer)).0

  unfoldable pub on_add : Service → S → S
  unfolding write_ips new_peer
  on_add svc s = elim (client.get_peer s (meta_key svc.metadata)) [
    | ok peer ↦ write_ips svc (s, ok peer)
    | err e ↦ if is_not_found e then write_ips svc (client.create_peer s (new_peer svc)) else s
  ]

  -- Both handlers only log.
  unfoldable pub on_update : Service → Service → S → S
  on_update old_svc new_svc s = s

  unfoldable pub on_delete : Service → S → S
  on_delete svc s = s

-- What the informer hands to a handler.
pub data InformerObject : Type 0 where
  service : Service → InformerObject
  other : InformerObject

-- `w.selector.Matches(labels.Set(svc.Labels))` is the parameter `selected`.
module _ {S : Type 0} (selected : Labels → Bool) where
  unfoldable pub filter : (Service → S → S) → InformerObject → S → S
  filter handler (service svc) s = if selected svc.labels then handler svc s else s
  filter handler other s = s

  unfoldable pub filter_update :
      (Service → Service → S → S) → InformerObject → InformerObject → S → S
  filter_update handler (service old_svc) (service new_svc) s =
      if selected new_svc.labels then handler old_svc new_svc s else s
  filter_update handler _ _ s = s
