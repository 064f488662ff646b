-- ===== src/DeepCopy/Kinds.antt =====
-- Reading and writing a cell as one of its types.
pub mod Parts
pub mod Resources
pub use Parts.{
  text_kind, flag_kind, int32_kind, text_map_kind, conditions_kind, servers_kind,
  backend_server_kind, load_balancer_reference_kind, peers_spec_kind, frontend_entry_kind,
  frontend_service_spec_kind,
}
pub use Resources.{
  frontend_spec_kind, frontend_status_kind, frontend_kind, frontend_list_kind, frontends_kind,
  backend_spec_kind, backend_status_kind, backend_kind, backend_list_kind, backends_kind,
  load_balancer_spec_kind, load_balancer_status_kind, load_balancer_kind, load_balancer_list_kind,
  load_balancers_kind, peer_status_kind, peer_kind, peer_list_kind, peers_kind,
}
