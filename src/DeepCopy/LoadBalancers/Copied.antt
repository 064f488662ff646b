-- ===== src/DeepCopy/LoadBalancers/Copied.antt =====
-- What a `GlobalLoadBalancer` in memory stands for, with its parts, and their copies (api/v1alpha1/zz_generated.deepcopy.go).
use k8s_glb_operator.Base.{◌≡◌, Option, List, []}
use k8s_glb_operator.Api.{
  PeersSpec, GlobalLoadBalancerSpec, GlobalLoadBalancerStatus, GlobalLoadBalancer, Condition,
}
use k8s_glb_operator.Memory.{Ptr}
use k8s_glb_operator.Memory.Views.{View, IsLocal}
use k8s_glb_operator.Memory.Copies.{Copies}
use k8s_glb_operator.Memory.Fields.{
  Field, plain_field, pointer_field, nilable_field, each_field, one, two, three, and_IsLocal,
  on_field_IsLocal, on_plain_IsLocal,
}
use k8s_glb_operator.DeepCopy.{Library, LibraryCopies}
use k8s_glb_operator.DeepCopy.Structs.{
  StoredLoadBalancerSpec, StoredConditions, StoredLoadBalancer, StoredList,
}
use k8s_glb_operator.DeepCopy.Cells.{Cell}
use k8s_glb_operator.DeepCopy.Kinds.{conditions_kind, peers_spec_kind, load_balancers_kind}
use k8s_glb_operator.DeepCopy.Held.{
  LibraryViews, LibraryLaws, object_meta_field, list_meta_field, label_selector_field,
  condition_field, Typed, Listed,
}
use k8s_glb_operator.DeepCopy.LoadBalancers.{
  copy_load_balancer_spec_into, copy_load_balancer_status_into, copy_load_balancer_into,
  copy_load_balancer_list_into,
}

module _ {L : Library} where
  abbrev pub peers_field : Field (Cell L) (Option Ptr) (Option PeersSpec)
  peers_field = pointer_field peers_spec_kind (plain_field PeersSpec)

module _ {L : Library} (views : LibraryViews L) (lib : LibraryCopies L (Cell L))
    (laws : LibraryLaws views lib) where
  abbrev pub conditions_field : Field (Cell L) (Option Ptr) (List Condition)
  conditions_field = nilable_field conditions_kind (each_field (condition_field views lib laws)) []

  abbrev pub load_balancer_spec_view :
      View (Cell L) (StoredLoadBalancerSpec L) GlobalLoadBalancerSpec
  load_balancer_spec_view lo hi h t v =
      (t.replicas ≡ v.replicas)
      × ((t.image ≡ v.image)
          × (peers_field.view lo hi h t.peers v.peers
              × ((label_selector_field views lib laws).view lo hi h t.frontend_selector
                  v.frontend_selector)))

  pub load_balancer_spec-IsLocal : IsLocal load_balancer_spec_view
  load_balancer_spec-IsLocal =
      and_IsLocal
        (on_plain_IsLocal (λ (t : (StoredLoadBalancerSpec L)). t.replicas)
          (λ (v : GlobalLoadBalancerSpec). v.replicas))
        (and_IsLocal
          (on_plain_IsLocal (λ (t : (StoredLoadBalancerSpec L)). t.image)
            (λ (v : GlobalLoadBalancerSpec). v.image))
          (and_IsLocal
            (on_field_IsLocal peers_field (λ (t : (StoredLoadBalancerSpec L)). t.peers)
              (λ (v : GlobalLoadBalancerSpec). v.peers))
            (on_field_IsLocal (label_selector_field views lib laws)
              (λ (t : (StoredLoadBalancerSpec L)). t.frontend_selector)
              (λ (v : GlobalLoadBalancerSpec). v.frontend_selector))))

  pub load_balancer_spec-Copies : Copies load_balancer_spec_view (copy_load_balancer_spec_into lib)
  unfolding copy_load_balancer_spec_into
  load_balancer_spec-Copies lo h t v
        (same_replicas, (same_image, (held_peers, held_frontend_selector))) =
      two load_balancer_spec_view peers_field (label_selector_field views lib laws)
        (λ x y. record t { peers = x; frontend_selector = y }) v v.peers v.frontend_selector
        (λ lo hi m x y p q. (same_replicas, (same_image, (p, q)))) lo h t.peers t.frontend_selector
        held_peers held_frontend_selector

  abbrev pub load_balancer_spec_field :
      Field (Cell L) (StoredLoadBalancerSpec L) GlobalLoadBalancerSpec
  load_balancer_spec_field = record {
    view = load_balancer_spec_view;
    local = load_balancer_spec-IsLocal;
    copy = copy_load_balancer_spec_into lib;
    copies = load_balancer_spec-Copies;
  }

  abbrev pub load_balancer_status_view : View (Cell L) StoredConditions GlobalLoadBalancerStatus
  load_balancer_status_view lo hi h t v = conditions_field.view lo hi h t.conditions v.conditions

  pub load_balancer_status-IsLocal : IsLocal load_balancer_status_view
  load_balancer_status-IsLocal =
      on_field_IsLocal conditions_field (λ (t : StoredConditions). t.conditions)
        (λ (v : GlobalLoadBalancerStatus). v.conditions)

  pub load_balancer_status-Copies :
      Copies load_balancer_status_view (copy_load_balancer_status_into lib)
  unfolding copy_load_balancer_status_into
  load_balancer_status-Copies lo h t v held_conditions =
      one load_balancer_status_view conditions_field (λ x. record t { conditions = x }) v
        v.conditions (λ lo hi m x p. p) lo h t.conditions held_conditions

  abbrev pub load_balancer_status_field : Field (Cell L) StoredConditions GlobalLoadBalancerStatus
  load_balancer_status_field = record {
    view = load_balancer_status_view;
    local = load_balancer_status-IsLocal;
    copy = copy_load_balancer_status_into lib;
    copies = load_balancer_status-Copies;
  }

  abbrev pub load_balancer_view : View (Cell L) (StoredLoadBalancer L) (Typed GlobalLoadBalancer)
  load_balancer_view lo hi h t v =
      (t.type_meta ≡ v.type_meta)
      × ((object_meta_field views lib laws).view lo hi h t.metadata v.object.metadata
          × (load_balancer_spec_field.view lo hi h t.spec v.object.spec
              × (load_balancer_status_field.view lo hi h t.status v.object.status)))

  pub load_balancer-IsLocal : IsLocal load_balancer_view
  load_balancer-IsLocal =
      and_IsLocal
        (on_plain_IsLocal (λ (t : (StoredLoadBalancer L)). t.type_meta)
          (λ (v : (Typed GlobalLoadBalancer)). v.type_meta))
        (and_IsLocal
          (on_field_IsLocal (object_meta_field views lib laws)
            (λ (t : (StoredLoadBalancer L)). t.metadata)
            (λ (v : (Typed GlobalLoadBalancer)). v.object.metadata))
          (and_IsLocal
            (on_field_IsLocal load_balancer_spec_field (λ (t : (StoredLoadBalancer L)). t.spec)
              (λ (v : (Typed GlobalLoadBalancer)). v.object.spec))
            (on_field_IsLocal load_balancer_status_field (λ (t : (StoredLoadBalancer L)). t.status)
              (λ (v : (Typed GlobalLoadBalancer)). v.object.status))))

  pub load_balancer-Copies : Copies load_balancer_view (copy_load_balancer_into lib)
  unfolding copy_load_balancer_into
  load_balancer-Copies lo h t v (same_type_meta, (held_metadata, (held_spec, held_status))) =
      three load_balancer_view (object_meta_field views lib laws) load_balancer_spec_field
        load_balancer_status_field (λ x y z. record t { metadata = x; spec = y; status = z }) v
        v.object.metadata v.object.spec v.object.status
        (λ lo hi m x y z p q r. (same_type_meta, (p, (q, r)))) lo h t.metadata t.spec t.status
        held_metadata held_spec held_status

  abbrev pub load_balancer_field : Field (Cell L) (StoredLoadBalancer L) (Typed GlobalLoadBalancer)
  load_balancer_field = record {
    view = load_balancer_view;
    local = load_balancer-IsLocal;
    copy = copy_load_balancer_into lib;
    copies = load_balancer-Copies;
  }

  abbrev pub load_balancers_field : Field (Cell L) (Option Ptr) (List (Typed GlobalLoadBalancer))
  load_balancers_field = nilable_field load_balancers_kind (each_field load_balancer_field) []

  abbrev pub load_balancer_list_view : View (Cell L) (StoredList L) (Listed L GlobalLoadBalancer)
  load_balancer_list_view lo hi h t v =
      (t.type_meta ≡ v.type_meta)
      × ((list_meta_field views lib laws).view lo hi h t.metadata v.metadata
          × (load_balancers_field.view lo hi h t.items v.items))

  pub load_balancer_list-IsLocal : IsLocal load_balancer_list_view
  load_balancer_list-IsLocal =
      and_IsLocal
        (on_plain_IsLocal (λ (t : (StoredList L)). t.type_meta)
          (λ (v : (Listed L GlobalLoadBalancer)). v.type_meta))
        (and_IsLocal
          (on_field_IsLocal (list_meta_field views lib laws) (λ (t : (StoredList L)). t.metadata)
            (λ (v : (Listed L GlobalLoadBalancer)). v.metadata))
          (on_field_IsLocal load_balancers_field (λ (t : (StoredList L)). t.items)
            (λ (v : (Listed L GlobalLoadBalancer)). v.items)))

  pub load_balancer_list-Copies : Copies load_balancer_list_view (copy_load_balancer_list_into lib)
  unfolding copy_load_balancer_list_into
  load_balancer_list-Copies lo h t v (same_type_meta, (held_metadata, held_items)) =
      two load_balancer_list_view (list_meta_field views lib laws) load_balancers_field
        (λ x y. record t { metadata = x; items = y }) v v.metadata v.items
        (λ lo hi m x y p q. (same_type_meta, (p, q))) lo h t.metadata t.items held_metadata
        held_items

  abbrev pub load_balancer_list_field : Field (Cell L) (StoredList L) (Listed L GlobalLoadBalancer)
  load_balancer_list_field = record {
    view = load_balancer_list_view;
    local = load_balancer_list-IsLocal;
    copy = copy_load_balancer_list_into lib;
    copies = load_balancer_list-Copies;
  }
