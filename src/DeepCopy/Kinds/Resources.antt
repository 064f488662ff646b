-- ===== src/DeepCopy/Kinds/Resources.antt =====
-- Reading and writing a cell as an object, or as its `Spec` or `Status`.
use k8s_glb_operator.Base.{Option, none, some, List, refl}
use k8s_glb_operator.Memory.{Kind}
use k8s_glb_operator.DeepCopy.{Library}
use k8s_glb_operator.DeepCopy.Structs.{
  StoredFrontendSpec, StoredFrontendStatus, StoredFrontend, StoredList, StoredBackendSpec,
  StoredConditions, StoredBackend, StoredLoadBalancerSpec, StoredLoadBalancer, StoredPeerStatus,
  StoredPeer,
}
use k8s_glb_operator.DeepCopy.Cells.{
  Cell, frontend_spec_cell, frontend_status_cell, frontend_cell, frontend_list_cell, frontends_cell,
  backend_spec_cell, backend_status_cell, backend_cell, backend_list_cell, backends_cell,
  load_balancer_spec_cell, load_balancer_status_cell, load_balancer_cell, load_balancer_list_cell,
  load_balancers_cell, peer_status_cell, peer_cell, peer_list_cell, peers_cell,
}

module _ {L : Library} where
  abbrev get_frontend_spec : Cell L → Option (StoredFrontendSpec L)
  get_frontend_spec (frontend_spec_cell x) = some x
  get_frontend_spec _ = none

  abbrev get_frontend_status : Cell L → Option (StoredFrontendStatus)
  get_frontend_status (frontend_status_cell x) = some x
  get_frontend_status _ = none

  abbrev get_frontend : Cell L → Option (StoredFrontend L)
  get_frontend (frontend_cell x) = some x
  get_frontend _ = none

  abbrev get_frontend_list : Cell L → Option (StoredList L)
  get_frontend_list (frontend_list_cell x) = some x
  get_frontend_list _ = none

  abbrev get_frontends : Cell L → Option (List (StoredFrontend L))
  get_frontends (frontends_cell x) = some x
  get_frontends _ = none

  abbrev get_backend_spec : Cell L → Option (StoredBackendSpec)
  get_backend_spec (backend_spec_cell x) = some x
  get_backend_spec _ = none

  abbrev get_backend_status : Cell L → Option (StoredConditions)
  get_backend_status (backend_status_cell x) = some x
  get_backend_status _ = none

  abbrev get_backend : Cell L → Option (StoredBackend L)
  get_backend (backend_cell x) = some x
  get_backend _ = none

  abbrev get_backend_list : Cell L → Option (StoredList L)
  get_backend_list (backend_list_cell x) = some x
  get_backend_list _ = none

  abbrev get_backends : Cell L → Option (List (StoredBackend L))
  get_backends (backends_cell x) = some x
  get_backends _ = none

  abbrev get_load_balancer_spec : Cell L → Option (StoredLoadBalancerSpec L)
  get_load_balancer_spec (load_balancer_spec_cell x) = some x
  get_load_balancer_spec _ = none

  abbrev get_load_balancer_status : Cell L → Option (StoredConditions)
  get_load_balancer_status (load_balancer_status_cell x) = some x
  get_load_balancer_status _ = none

  abbrev get_load_balancer : Cell L → Option (StoredLoadBalancer L)
  get_load_balancer (load_balancer_cell x) = some x
  get_load_balancer _ = none

  abbrev get_load_balancer_list : Cell L → Option (StoredList L)
  get_load_balancer_list (load_balancer_list_cell x) = some x
  get_load_balancer_list _ = none

  abbrev get_load_balancers : Cell L → Option (List (StoredLoadBalancer L))
  get_load_balancers (load_balancers_cell x) = some x
  get_load_balancers _ = none

  abbrev get_peer_status : Cell L → Option (StoredPeerStatus)
  get_peer_status (peer_status_cell x) = some x
  get_peer_status _ = none

  abbrev get_peer : Cell L → Option (StoredPeer L)
  get_peer (peer_cell x) = some x
  get_peer _ = none

  abbrev get_peer_list : Cell L → Option (StoredList L)
  get_peer_list (peer_list_cell x) = some x
  get_peer_list _ = none

  abbrev get_peers : Cell L → Option (List (StoredPeer L))
  get_peers (peers_cell x) = some x
  get_peers _ = none

  abbrev pub frontend_spec_kind : Kind (Cell L) (StoredFrontendSpec L)
  frontend_spec_kind = record { put = frontend_spec_cell; get = get_frontend_spec; got = λ x. refl }

  abbrev pub frontend_status_kind : Kind (Cell L) (StoredFrontendStatus)
  frontend_status_kind = record {
    put = frontend_status_cell;
    get = get_frontend_status;
    got = λ x. refl;
  }

  abbrev pub frontend_kind : Kind (Cell L) (StoredFrontend L)
  frontend_kind = record { put = frontend_cell; get = get_frontend; got = λ x. refl }

  abbrev pub frontend_list_kind : Kind (Cell L) (StoredList L)
  frontend_list_kind = record { put = frontend_list_cell; get = get_frontend_list; got = λ x. refl }

  abbrev pub frontends_kind : Kind (Cell L) (List (StoredFrontend L))
  frontends_kind = record { put = frontends_cell; get = get_frontends; got = λ x. refl }

  abbrev pub backend_spec_kind : Kind (Cell L) (StoredBackendSpec)
  backend_spec_kind = record { put = backend_spec_cell; get = get_backend_spec; got = λ x. refl }

  abbrev pub backend_status_kind : Kind (Cell L) (StoredConditions)
  backend_status_kind = record {
    put = backend_status_cell;
    get = get_backend_status;
    got = λ x. refl;
  }

  abbrev pub backend_kind : Kind (Cell L) (StoredBackend L)
  backend_kind = record { put = backend_cell; get = get_backend; got = λ x. refl }

  abbrev pub backend_list_kind : Kind (Cell L) (StoredList L)
  backend_list_kind = record { put = backend_list_cell; get = get_backend_list; got = λ x. refl }

  abbrev pub backends_kind : Kind (Cell L) (List (StoredBackend L))
  backends_kind = record { put = backends_cell; get = get_backends; got = λ x. refl }

  abbrev pub load_balancer_spec_kind : Kind (Cell L) (StoredLoadBalancerSpec L)
  load_balancer_spec_kind = record {
    put = load_balancer_spec_cell;
    get = get_load_balancer_spec;
    got = λ x. refl;
  }

  abbrev pub load_balancer_status_kind : Kind (Cell L) (StoredConditions)
  load_balancer_status_kind = record {
    put = load_balancer_status_cell;
    get = get_load_balancer_status;
    got = λ x. refl;
  }

  abbrev pub load_balancer_kind : Kind (Cell L) (StoredLoadBalancer L)
  load_balancer_kind = record { put = load_balancer_cell; get = get_load_balancer; got = λ x. refl }

  abbrev pub load_balancer_list_kind : Kind (Cell L) (StoredList L)
  load_balancer_list_kind = record {
    put = load_balancer_list_cell;
    get = get_load_balancer_list;
    got = λ x. refl;
  }

  abbrev pub load_balancers_kind : Kind (Cell L) (List (StoredLoadBalancer L))
  load_balancers_kind = record {
    put = load_balancers_cell;
    get = get_load_balancers;
    got = λ x. refl;
  }

  abbrev pub peer_status_kind : Kind (Cell L) (StoredPeerStatus)
  peer_status_kind = record { put = peer_status_cell; get = get_peer_status; got = λ x. refl }

  abbrev pub peer_kind : Kind (Cell L) (StoredPeer L)
  peer_kind = record { put = peer_cell; get = get_peer; got = λ x. refl }

  abbrev pub peer_list_kind : Kind (Cell L) (StoredList L)
  peer_list_kind = record { put = peer_list_cell; get = get_peer_list; got = λ x. refl }

  abbrev pub peers_kind : Kind (Cell L) (List (StoredPeer L))
  peers_kind = record { put = peers_cell; get = get_peers; got = λ x. refl }
