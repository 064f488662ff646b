-- ===== src/DeepCopy/Frontends.antt =====
-- The copies of `Frontend` and of what it is made of (api/v1alpha1/zz_generated.deepcopy.go).
pub mod Copied
use k8s_glb_operator.Base.{Option}
use k8s_glb_operator.Api.{LoadBalancerReference}
use k8s_glb_operator.Memory.{Ptr, Cmd, pure, ◌>>=◌, copy_pointer, copy_each, copy_map}
use k8s_glb_operator.DeepCopy.{Library, LibraryCopies}
use k8s_glb_operator.DeepCopy.Structs.{
  StoredServiceSpec, StoredFrontendSpec, StoredFrontendStatus, StoredFrontend, StoredList,
}
use k8s_glb_operator.DeepCopy.Cells.{Cell}
use k8s_glb_operator.DeepCopy.Kinds.{
  text_kind, int32_kind, text_map_kind, conditions_kind, load_balancer_reference_kind,
  frontend_service_spec_kind, frontend_spec_kind, frontend_status_kind, frontend_kind,
  frontend_list_kind, frontends_kind,
}

module _ {L : Library} where
  unfoldable pub copy_load_balancer_reference_into :
      LoadBalancerReference → Cmd (Cell L) (LoadBalancerReference)
  copy_load_balancer_reference_into = pure

  unfoldable pub copy_load_balancer_reference : Option Ptr → Cmd (Cell L) (Option Ptr)
  unfolding copy_pointer copy_load_balancer_reference_into
  copy_load_balancer_reference =
      copy_pointer load_balancer_reference_kind copy_load_balancer_reference_into

module _ {L : Library} (lib : LibraryCopies L (Cell L)) where
  unfoldable pub copy_frontend_service_spec_into :
      StoredServiceSpec → Cmd (Cell L) StoredServiceSpec
  unfolding copy_pointer copy_map
  copy_frontend_service_spec_into t = do
    ip_address ← copy_pointer text_kind pure t.ip_address
    annotations ← copy_pointer text_map_kind (copy_map lib.range) t.annotations
    pure (record t { ip_address = ip_address; annotations = annotations })

  unfoldable pub copy_frontend_service_spec : Option Ptr → Cmd (Cell L) (Option Ptr)
  unfolding copy_pointer copy_frontend_service_spec_into
  copy_frontend_service_spec =
      copy_pointer frontend_service_spec_kind copy_frontend_service_spec_into

  unfoldable pub copy_frontend_spec_into :
      StoredFrontendSpec L → Cmd (Cell L) (StoredFrontendSpec L)
  unfolding copy_pointer copy_frontend_service_spec_into
  copy_frontend_spec_into t = do
    service ← copy_pointer frontend_service_spec_kind copy_frontend_service_spec_into t.service
    backend_selector ← lib.copy_label_selector t.backend_selector
    pure (record t { service = service; backend_selector = backend_selector })

  unfoldable pub copy_frontend_spec : Option Ptr → Cmd (Cell L) (Option Ptr)
  unfolding copy_pointer copy_frontend_spec_into
  copy_frontend_spec = copy_pointer frontend_spec_kind copy_frontend_spec_into

  unfoldable pub copy_frontend_status_into :
      StoredFrontendStatus → Cmd (Cell L) StoredFrontendStatus
  unfolding copy_pointer copy_each
  copy_frontend_status_into t = do
    conditions ← copy_pointer conditions_kind (copy_each lib.copy_condition) t.conditions
    port ← copy_pointer int32_kind pure t.port
    load_balancer ← copy_pointer load_balancer_reference_kind pure t.load_balancer
    pure (record t { conditions = conditions; port = port; load_balancer = load_balancer })

  unfoldable pub copy_frontend_status : Option Ptr → Cmd (Cell L) (Option Ptr)
  unfolding copy_pointer copy_frontend_status_into
  copy_frontend_status = copy_pointer frontend_status_kind copy_frontend_status_into

  unfoldable pub copy_frontend_into : StoredFrontend L → Cmd (Cell L) (StoredFrontend L)
  unfolding copy_frontend_spec_into copy_frontend_status_into
  copy_frontend_into t = do
    metadata ← lib.copy_object_meta t.metadata
    spec ← copy_frontend_spec_into t.spec
    status ← copy_frontend_status_into t.status
    pure (record t { metadata = metadata; spec = spec; status = status })

  unfoldable pub copy_frontend : Option Ptr → Cmd (Cell L) (Option Ptr)
  unfolding copy_pointer copy_frontend_into
  copy_frontend = copy_pointer frontend_kind copy_frontend_into

  unfoldable pub copy_frontend_list_into : StoredList L → Cmd (Cell L) (StoredList L)
  unfolding copy_pointer copy_each copy_frontend_into
  copy_frontend_list_into t = do
    metadata ← lib.copy_list_meta t.metadata
    items ← copy_pointer frontends_kind (copy_each copy_frontend_into) t.items
    pure (record t { metadata = metadata; items = items })

  unfoldable pub copy_frontend_list : Option Ptr → Cmd (Cell L) (Option Ptr)
  unfolding copy_pointer copy_frontend_list_into
  copy_frontend_list = copy_pointer frontend_list_kind copy_frontend_list_into
