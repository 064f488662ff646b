-- ===== src/DeepCopy/Kinds/Parts.antt =====
-- Reading and writing a cell as one of the types that the objects are made of.
use k8s_glb_operator.Base.{Bool, String, Option, none, some, List, refl}
use k8s_glb_operator.Base.GoMap.{GoMap}
use k8s_glb_operator.Api.{Int32, BackendServerSpec, LoadBalancerReference, PeersSpec}
use k8s_glb_operator.Memory.{Ptr, Kind}
use k8s_glb_operator.DeepCopy.{Library}
use k8s_glb_operator.DeepCopy.Structs.{StoredServiceSpec, FrontendEntry}
use k8s_glb_operator.DeepCopy.Cells.{
  Cell, text_cell, flag_cell, int32_cell, text_map_cell, conditions_cell, servers_cell,
  backend_server_cell, load_balancer_reference_cell, peers_spec_cell, frontend_entry_cell,
  frontend_service_spec_cell,
}

module _ {L : Library} where
  abbrev get_text : Cell L → Option (String)
  get_text (text_cell x) = some x
  get_text _ = none

  abbrev get_flag : Cell L → Option (Bool)
  get_flag (flag_cell x) = some x
  get_flag _ = none

  abbrev get_int32 : Cell L → Option (Int32)
  get_int32 (int32_cell x) = some x
  get_int32 _ = none

  abbrev get_text_map : Cell L → Option (GoMap String String)
  get_text_map (text_map_cell x) = some x
  get_text_map _ = none

  abbrev get_conditions : Cell L → Option (List L.condition)
  get_conditions (conditions_cell x) = some x
  get_conditions _ = none

  abbrev get_servers : Cell L → Option (List (Option Ptr))
  get_servers (servers_cell x) = some x
  get_servers _ = none

  abbrev get_backend_server : Cell L → Option (BackendServerSpec)
  get_backend_server (backend_server_cell x) = some x
  get_backend_server _ = none

  abbrev get_load_balancer_reference : Cell L → Option (LoadBalancerReference)
  get_load_balancer_reference (load_balancer_reference_cell x) = some x
  get_load_balancer_reference _ = none

  abbrev get_peers_spec : Cell L → Option (PeersSpec)
  get_peers_spec (peers_spec_cell x) = some x
  get_peers_spec _ = none

  abbrev get_frontend_entry : Cell L → Option (FrontendEntry)
  get_frontend_entry (frontend_entry_cell x) = some x
  get_frontend_entry _ = none

  abbrev get_frontend_service_spec : Cell L → Option (StoredServiceSpec)
  get_frontend_service_spec (frontend_service_spec_cell x) = some x
  get_frontend_service_spec _ = none

  abbrev pub text_kind : Kind (Cell L) (String)
  text_kind = record { put = text_cell; get = get_text; got = λ x. refl }

  abbrev pub flag_kind : Kind (Cell L) (Bool)
  flag_kind = record { put = flag_cell; get = get_flag; got = λ x. refl }

  abbrev pub int32_kind : Kind (Cell L) (Int32)
  int32_kind = record { put = int32_cell; get = get_int32; got = λ x. refl }

  abbrev pub text_map_kind : Kind (Cell L) (GoMap String String)
  text_map_kind = record { put = text_map_cell; get = get_text_map; got = λ x. refl }

  abbrev pub conditions_kind : Kind (Cell L) (List L.condition)
  conditions_kind = record { put = conditions_cell; get = get_conditions; got = λ x. refl }

  abbrev pub servers_kind : Kind (Cell L) (List (Option Ptr))
  servers_kind = record { put = servers_cell; get = get_servers; got = λ x. refl }

  abbrev pub backend_server_kind : Kind (Cell L) (BackendServerSpec)
  backend_server_kind = record {
    put = backend_server_cell;
    get = get_backend_server;
    got = λ x. refl;
  }

  abbrev pub load_balancer_reference_kind : Kind (Cell L) (LoadBalancerReference)
  load_balancer_reference_kind = record {
    put = load_balancer_reference_cell;
    get = get_load_balancer_reference;
    got = λ x. refl;
  }

  abbrev pub peers_spec_kind : Kind (Cell L) (PeersSpec)
  peers_spec_kind = record { put = peers_spec_cell; get = get_peers_spec; got = λ x. refl }

  abbrev pub frontend_entry_kind : Kind (Cell L) (FrontendEntry)
  frontend_entry_kind = record {
    put = frontend_entry_cell;
    get = get_frontend_entry;
    got = λ x. refl;
  }

  abbrev pub frontend_service_spec_kind : Kind (Cell L) (StoredServiceSpec)
  frontend_service_spec_kind = record {
    put = frontend_service_spec_cell;
    get = get_frontend_service_spec;
    got = λ x. refl;
  }
