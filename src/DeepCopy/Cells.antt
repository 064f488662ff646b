-- ===== src/DeepCopy/Cells.antt =====
-- The cells that a pointer, a slice or a map of api/v1alpha1/*_types.go leads to.
use k8s_glb_operator.Base.{Bool, String, Option, List}
use k8s_glb_operator.Base.GoMap.{GoMap}
use k8s_glb_operator.Api.{Int32, BackendServerSpec, LoadBalancerReference, PeersSpec}
use k8s_glb_operator.Memory.{Ptr}
use k8s_glb_operator.DeepCopy.{Library}
use k8s_glb_operator.DeepCopy.Structs.{
  StoredServiceSpec, StoredFrontendSpec, StoredFrontendStatus, StoredFrontend, StoredList,
  StoredBackendSpec, StoredConditions, StoredBackend, StoredLoadBalancerSpec, StoredLoadBalancer,
  StoredPeerStatus, StoredPeer, FrontendEntry,
}

-- One constructor for each type that something points to.
pub data Cell (L : Library) : Type 0 where
  text_cell : String → Cell L
  flag_cell : Bool → Cell L
  int32_cell : Int32 → Cell L
  text_map_cell : GoMap String String → Cell L
  conditions_cell : List L.condition → Cell L
  servers_cell : List (Option Ptr) → Cell L
  backend_server_cell : BackendServerSpec → Cell L
  load_balancer_reference_cell : LoadBalancerReference → Cell L
  peers_spec_cell : PeersSpec → Cell L
  frontend_entry_cell : FrontendEntry → Cell L
  frontend_service_spec_cell : StoredServiceSpec → Cell L
  frontend_spec_cell : StoredFrontendSpec L → Cell L
  frontend_status_cell : StoredFrontendStatus → Cell L
  frontend_cell : StoredFrontend L → Cell L
  frontend_list_cell : StoredList L → Cell L
  frontends_cell : List (StoredFrontend L) → Cell L
  backend_spec_cell : StoredBackendSpec → Cell L
  backend_status_cell : StoredConditions → Cell L
  backend_cell : StoredBackend L → Cell L
  backend_list_cell : StoredList L → Cell L
  backends_cell : List (StoredBackend L) → Cell L
  load_balancer_spec_cell : StoredLoadBalancerSpec L → Cell L
  load_balancer_status_cell : StoredConditions → Cell L
  load_balancer_cell : StoredLoadBalancer L → Cell L
  load_balancer_list_cell : StoredList L → Cell L
  load_balancers_cell : List (StoredLoadBalancer L) → Cell L
  peer_status_cell : StoredPeerStatus → Cell L
  peer_cell : StoredPeer L → Cell L
  peer_list_cell : StoredList L → Cell L
  peers_cell : List (StoredPeer L) → Cell L
  other_cell : L.other → Cell L
