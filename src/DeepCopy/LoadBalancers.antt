-- ===== src/DeepCopy/LoadBalancers.antt =====
-- The copies of `GlobalLoadBalancer` and of what it is made of (api/v1alpha1/zz_generated.deepcopy.go).
pub mod Copied
use k8s_glb_operator.Base.{Option}
use k8s_glb_operator.Api.{PeersSpec}
use k8s_glb_operator.Memory.{Ptr, Cmd, pure, ◌>>=◌, copy_pointer, copy_each}
use k8s_glb_operator.DeepCopy.{Library, LibraryCopies}
use k8s_glb_operator.DeepCopy.Structs.{
  FrontendEntry, StoredLoadBalancerSpec, StoredConditions, StoredLoadBalancer, StoredList,
}
use k8s_glb_operator.DeepCopy.Cells.{Cell}
use k8s_glb_operator.DeepCopy.Kinds.{
  conditions_kind, peers_spec_kind, frontend_entry_kind, load_balancer_spec_kind,
  load_balancer_status_kind, load_balancer_kind, load_balancer_list_kind, load_balancers_kind,
}

module _ {L : Library} where
  unfoldable pub copy_peers_spec_into : PeersSpec → Cmd (Cell L) (PeersSpec)
  copy_peers_spec_into = pure

  unfoldable pub copy_peers_spec : Option Ptr → Cmd (Cell L) (Option Ptr)
  unfolding copy_pointer copy_peers_spec_into
  copy_peers_spec = copy_pointer peers_spec_kind copy_peers_spec_into

  unfoldable pub copy_frontend_entry_into : FrontendEntry → Cmd (Cell L) (FrontendEntry)
  copy_frontend_entry_into = pure

  unfoldable pub copy_frontend_entry : Option Ptr → Cmd (Cell L) (Option Ptr)
  unfolding copy_pointer copy_frontend_entry_into
  copy_frontend_entry = copy_pointer frontend_entry_kind copy_frontend_entry_into

module _ {L : Library} (lib : LibraryCopies L (Cell L)) where
  unfoldable pub copy_load_balancer_spec_into :
      StoredLoadBalancerSpec L → Cmd (Cell L) (StoredLoadBalancerSpec L)
  unfolding copy_pointer
  copy_load_balancer_spec_into t = do
    peers ← copy_pointer peers_spec_kind pure t.peers
    frontend_selector ← lib.copy_label_selector t.frontend_selector
    pure (record t { peers = peers; frontend_selector = frontend_selector })

  unfoldable pub copy_load_balancer_spec : Option Ptr → Cmd (Cell L) (Option Ptr)
  unfolding copy_pointer copy_load_balancer_spec_into
  copy_load_balancer_spec = copy_pointer load_balancer_spec_kind copy_load_balancer_spec_into

  unfoldable pub copy_load_balancer_status_into : StoredConditions → Cmd (Cell L) StoredConditions
  unfolding copy_pointer copy_each
  copy_load_balancer_status_into t = do
    conditions ← copy_pointer conditions_kind (copy_each lib.copy_condition) t.conditions
    pure (record t { conditions = conditions })

  unfoldable pub copy_load_balancer_status : Option Ptr → Cmd (Cell L) (Option Ptr)
  unfolding copy_pointer copy_load_balancer_status_into
  copy_load_balancer_status = copy_pointer load_balancer_status_kind copy_load_balancer_status_into

  unfoldable pub copy_load_balancer_into :
      StoredLoadBalancer L → Cmd (Cell L) (StoredLoadBalancer L)
  unfolding copy_load_balancer_spec_into copy_load_balancer_status_into
  copy_load_balancer_into t = do
    metadata ← lib.copy_object_meta t.metadata
    spec ← copy_load_balancer_spec_into t.spec
    status ← copy_load_balancer_status_into t.status
    pure (record t { metadata = metadata; spec = spec; status = status })

  unfoldable pub copy_load_balancer : Option Ptr → Cmd (Cell L) (Option Ptr)
  unfolding copy_pointer copy_load_balancer_into
  copy_load_balancer = copy_pointer load_balancer_kind copy_load_balancer_into

  unfoldable pub copy_load_balancer_list_into : StoredList L → Cmd (Cell L) (StoredList L)
  unfolding copy_pointer copy_each copy_load_balancer_into
  copy_load_balancer_list_into t = do
    metadata ← lib.copy_list_meta t.metadata
    items ← copy_pointer load_balancers_kind (copy_each copy_load_balancer_into) t.items
    pure (record t { metadata = metadata; items = items })

  unfoldable pub copy_load_balancer_list : Option Ptr → Cmd (Cell L) (Option Ptr)
  unfolding copy_pointer copy_load_balancer_list_into
  copy_load_balancer_list = copy_pointer load_balancer_list_kind copy_load_balancer_list_into
