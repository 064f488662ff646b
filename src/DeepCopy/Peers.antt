-- ===== src/DeepCopy/Peers.antt =====
-- The copies of `Peer` and of what it is made of (api/v1alpha1/zz_generated.deepcopy.go).
pub mod Copied
use k8s_glb_operator.Base.{Option}
use k8s_glb_operator.Memory.{Ptr, Cmd, pure, ◌>>=◌, copy_pointer, copy_each}
use k8s_glb_operator.DeepCopy.{Library, LibraryCopies}
use k8s_glb_operator.DeepCopy.Structs.{StoredPeerStatus, StoredPeer, StoredList}
use k8s_glb_operator.DeepCopy.Cells.{Cell}
use k8s_glb_operator.DeepCopy.Kinds.{
  conditions_kind, peer_status_kind, peer_kind, peer_list_kind, peers_kind,
}

module _ {L : Library} (lib : LibraryCopies L (Cell L)) where
  unfoldable pub copy_peer_status_into : StoredPeerStatus → Cmd (Cell L) StoredPeerStatus
  unfolding copy_pointer copy_each
  copy_peer_status_into t = do
    conditions ← copy_pointer conditions_kind (copy_each lib.copy_condition) t.conditions
    pure (record t { conditions = conditions })

  unfoldable pub copy_peer_status : Option Ptr → Cmd (Cell L) (Option Ptr)
  unfolding copy_pointer copy_peer_status_into
  copy_peer_status = copy_pointer peer_status_kind copy_peer_status_into

  unfoldable pub copy_peer_into : StoredPeer L → Cmd (Cell L) (StoredPeer L)
  unfolding copy_peer_status_into
  copy_peer_into t = do
    metadata ← lib.copy_object_meta t.metadata
    status ← copy_peer_status_into t.status
    pure (record t { metadata = metadata; status = status })

  unfoldable pub copy_peer : Option Ptr → Cmd (Cell L) (Option Ptr)
  unfolding copy_pointer copy_peer_into
  copy_peer = copy_pointer peer_kind copy_peer_into

  unfoldable pub copy_peer_list_into : StoredList L → Cmd (Cell L) (StoredList L)
  unfolding copy_pointer copy_each copy_peer_into
  copy_peer_list_into t = do
    metadata ← lib.copy_list_meta t.metadata
    items ← copy_pointer peers_kind (copy_each copy_peer_into) t.items
    pure (record t { metadata = metadata; items = items })

  unfoldable pub copy_peer_list : Option Ptr → Cmd (Cell L) (Option Ptr)
  unfolding copy_pointer copy_peer_list_into
  copy_peer_list = copy_pointer peer_list_kind copy_peer_list_into
