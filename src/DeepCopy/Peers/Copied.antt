-- ===== src/DeepCopy/Peers/Copied.antt =====
-- What a `Peer` in memory stands for, with its parts, and their copies (api/v1alpha1/zz_generated.deepcopy.go).
use k8s_glb_operator.Base.{◌≡◌, Option, List, []}
use k8s_glb_operator.Api.{PeerStatus, Peer, Condition}
use k8s_glb_operator.Memory.{Ptr}
use k8s_glb_operator.Memory.Views.{View, IsLocal}
use k8s_glb_operator.Memory.Copies.{Copies}
use k8s_glb_operator.Memory.Fields.{
  Field, nilable_field, each_field, one, two, and_IsLocal, on_field_IsLocal, on_plain_IsLocal,
}
use k8s_glb_operator.DeepCopy.{Library, LibraryCopies}
use k8s_glb_operator.DeepCopy.Structs.{StoredPeerStatus, StoredPeer, StoredList}
use k8s_glb_operator.DeepCopy.Cells.{Cell}
use k8s_glb_operator.DeepCopy.Kinds.{conditions_kind, peers_kind}
use k8s_glb_operator.DeepCopy.Held.{
  LibraryViews, LibraryLaws, object_meta_field, list_meta_field, condition_field, Typed, Listed,
}
use k8s_glb_operator.DeepCopy.Peers.{copy_peer_status_into, copy_peer_into, copy_peer_list_into}

module _ {L : Library} (views : LibraryViews L) (lib : LibraryCopies L (Cell L))
    (laws : LibraryLaws views lib) where
  abbrev pub conditions_field : Field (Cell L) (Option Ptr) (List Condition)
  conditions_field = nilable_field conditions_kind (each_field (condition_field views lib laws)) []

  abbrev pub peer_status_view : View (Cell L) StoredPeerStatus PeerStatus
  peer_status_view lo hi h t v =
      (t.peer_name ≡ v.peer_name)
      × ((t.local_ip ≡ v.local_ip)
          × ((t.remote_ip ≡ v.remote_ip)
              × (conditions_field.view lo hi h t.conditions v.conditions)))

  pub peer_status-IsLocal : IsLocal peer_status_view
  peer_status-IsLocal =
      and_IsLocal
        (on_plain_IsLocal (λ (t : StoredPeerStatus). t.peer_name) (λ (v : PeerStatus). v.peer_name))
        (and_IsLocal
          (on_plain_IsLocal (λ (t : StoredPeerStatus). t.local_ip) (λ (v : PeerStatus). v.local_ip))
          (and_IsLocal
            (on_plain_IsLocal (λ (t : StoredPeerStatus). t.remote_ip)
              (λ (v : PeerStatus). v.remote_ip))
            (on_field_IsLocal conditions_field (λ (t : StoredPeerStatus). t.conditions)
              (λ (v : PeerStatus). v.conditions))))

  pub peer_status-Copies : Copies peer_status_view (copy_peer_status_into lib)
  unfolding copy_peer_status_into
  peer_status-Copies lo h t v (same_peer_name, (same_local_ip, (same_remote_ip, held_conditions))) =
      one peer_status_view conditions_field (λ x. record t { conditions = x }) v v.conditions
        (λ lo hi m x p. (same_peer_name, (same_local_ip, (same_remote_ip, p)))) lo h t.conditions
        held_conditions

  abbrev pub peer_status_field : Field (Cell L) StoredPeerStatus PeerStatus
  peer_status_field = record {
    view = peer_status_view;
    local = peer_status-IsLocal;
    copy = copy_peer_status_into lib;
    copies = peer_status-Copies;
  }

  abbrev pub peer_view : View (Cell L) (StoredPeer L) (Typed Peer)
  peer_view lo hi h t v =
      (t.type_meta ≡ v.type_meta)
      × ((object_meta_field views lib laws).view lo hi h t.metadata v.object.metadata
          × (peer_status_field.view lo hi h t.status v.object.status))

  pub peer-IsLocal : IsLocal peer_view
  peer-IsLocal =
      and_IsLocal
        (on_plain_IsLocal (λ (t : (StoredPeer L)). t.type_meta) (λ (v : (Typed Peer)). v.type_meta))
        (and_IsLocal
          (on_field_IsLocal (object_meta_field views lib laws) (λ (t : (StoredPeer L)). t.metadata)
            (λ (v : (Typed Peer)). v.object.metadata))
          (on_field_IsLocal peer_status_field (λ (t : (StoredPeer L)). t.status)
            (λ (v : (Typed Peer)). v.object.status)))

  pub peer-Copies : Copies peer_view (copy_peer_into lib)
  unfolding copy_peer_into
  peer-Copies lo h t v (same_type_meta, (held_metadata, held_status)) =
      two peer_view (object_meta_field views lib laws) peer_status_field
        (λ x y. record t { metadata = x; status = y }) v v.object.metadata v.object.status
        (λ lo hi m x y p q. (same_type_meta, (p, q))) lo h t.metadata t.status held_metadata
        held_status

  abbrev pub peer_field : Field (Cell L) (StoredPeer L) (Typed Peer)
  peer_field = record {
    view = peer_view;
    local = peer-IsLocal;
    copy = copy_peer_into lib;
    copies = peer-Copies;
  }

  abbrev pub peers_field : Field (Cell L) (Option Ptr) (List (Typed Peer))
  peers_field = nilable_field peers_kind (each_field peer_field) []

  abbrev pub peer_list_view : View (Cell L) (StoredList L) (Listed L Peer)
  peer_list_view lo hi h t v =
      (t.type_meta ≡ v.type_meta)
      × ((list_meta_field views lib laws).view lo hi h t.metadata v.metadata
          × (peers_field.view lo hi h t.items v.items))

  pub peer_list-IsLocal : IsLocal peer_list_view
  peer_list-IsLocal =
      and_IsLocal
        (on_plain_IsLocal (λ (t : (StoredList L)). t.type_meta)
          (λ (v : (Listed L Peer)). v.type_meta))
        (and_IsLocal
          (on_field_IsLocal (list_meta_field views lib laws) (λ (t : (StoredList L)). t.metadata)
            (λ (v : (Listed L Peer)). v.metadata))
          (on_field_IsLocal peers_field (λ (t : (StoredList L)). t.items)
            (λ (v : (Listed L Peer)). v.items)))

  pub peer_list-Copies : Copies peer_list_view (copy_peer_list_into lib)
  unfolding copy_peer_list_into
  peer_list-Copies lo h t v (same_type_meta, (held_metadata, held_items)) =
      two peer_list_view (list_meta_field views lib laws) peers_field
        (λ x y. record t { metadata = x; items = y }) v v.metadata v.items
        (λ lo hi m x y p q. (same_type_meta, (p, q))) lo h t.metadata t.items held_metadata
        held_items

  abbrev pub peer_list_field : Field (Cell L) (StoredList L) (Listed L Peer)
  peer_list_field = record {
    view = peer_list_view;
    local = peer_list-IsLocal;
    copy = copy_peer_list_into lib;
    copies = peer_list-Copies;
  }
