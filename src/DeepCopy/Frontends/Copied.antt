-- ===== src/DeepCopy/Frontends/Copied.antt =====
-- What a `Frontend` in memory stands for, with its parts, and their copies (api/v1alpha1/zz_generated.deepcopy.go).
use k8s_glb_operator.Base.{◌≡◌, String, Option, List, []}
use k8s_glb_operator.Api.{
  Int32, Labels, LoadBalancerReference, FrontendServiceSpec, FrontendSpec, FrontendStatus, Frontend,
  Condition,
}
use k8s_glb_operator.Memory.{Ptr}
use k8s_glb_operator.Memory.Views.{View, IsLocal}
use k8s_glb_operator.Memory.Copies.{Copies}
use k8s_glb_operator.Memory.Fields.{
  Field, plain_field, pointer_field, nilable_field, each_field, two, three, and_IsLocal,
  on_field_IsLocal, on_plain_IsLocal,
}
use k8s_glb_operator.Memory.Maps.{entries_field}
use k8s_glb_operator.DeepCopy.{Library, LibraryCopies}
use k8s_glb_operator.DeepCopy.Structs.{
  StoredServiceSpec, StoredFrontendSpec, StoredFrontendStatus, StoredFrontend, StoredList,
}
use k8s_glb_operator.DeepCopy.Cells.{Cell}
use k8s_glb_operator.DeepCopy.Kinds.{
  text_kind, int32_kind, text_map_kind, conditions_kind, load_balancer_reference_kind,
  frontend_service_spec_kind, frontends_kind,
}
use k8s_glb_operator.DeepCopy.Held.{
  LibraryViews, LibraryLaws, object_meta_field, list_meta_field, label_selector_field,
  condition_field, Typed, Listed,
}
use k8s_glb_operator.DeepCopy.Frontends.{
  copy_frontend_service_spec_into, copy_frontend_spec_into, copy_frontend_status_into,
  copy_frontend_into, copy_frontend_list_into,
}

module _ {L : Library} where
  abbrev pub ip_address_field : Field (Cell L) (Option Ptr) (Option String)
  ip_address_field = pointer_field text_kind (plain_field String)

  abbrev pub port_field : Field (Cell L) (Option Ptr) (Option Int32)
  port_field = pointer_field int32_kind (plain_field Int32)

  abbrev pub reference_field : Field (Cell L) (Option Ptr) (Option LoadBalancerReference)
  reference_field = pointer_field load_balancer_reference_kind (plain_field LoadBalancerReference)

module _ {L : Library} (views : LibraryViews L) (lib : LibraryCopies L (Cell L))
    (laws : LibraryLaws views lib) where
  abbrev pub conditions_field : Field (Cell L) (Option Ptr) (List Condition)
  conditions_field = nilable_field conditions_kind (each_field (condition_field views lib laws)) []

  abbrev pub annotations_field : Field (Cell L) (Option Ptr) Labels
  annotations_field = nilable_field text_map_kind (entries_field lib.range laws.ranges) []

  abbrev pub frontend_service_spec_view : View (Cell L) StoredServiceSpec FrontendServiceSpec
  frontend_service_spec_view lo hi h t v =
      (t.port ≡ v.port)
      × (ip_address_field.view lo hi h t.ip_address v.ip_address
          × (annotations_field.view lo hi h t.annotations v.annotations))

  pub frontend_service_spec-IsLocal : IsLocal frontend_service_spec_view
  frontend_service_spec-IsLocal =
      and_IsLocal
        (on_plain_IsLocal (λ (t : StoredServiceSpec). t.port) (λ (v : FrontendServiceSpec). v.port))
        (and_IsLocal
          (on_field_IsLocal ip_address_field (λ (t : StoredServiceSpec). t.ip_address)
            (λ (v : FrontendServiceSpec). v.ip_address))
          (on_field_IsLocal annotations_field (λ (t : StoredServiceSpec). t.annotations)
            (λ (v : FrontendServiceSpec). v.annotations)))

  pub frontend_service_spec-Copies :
      Copies frontend_service_spec_view (copy_frontend_service_spec_into lib)
  unfolding copy_frontend_service_spec_into
  frontend_service_spec-Copies lo h t v (same_port, (held_ip_address, held_annotations)) =
      two frontend_service_spec_view ip_address_field annotations_field
        (λ x y. record t { ip_address = x; annotations = y }) v v.ip_address v.annotations
        (λ lo hi m x y p q. (same_port, (p, q))) lo h t.ip_address t.annotations held_ip_address
        held_annotations

  abbrev pub frontend_service_spec_field : Field (Cell L) StoredServiceSpec FrontendServiceSpec
  frontend_service_spec_field = record {
    view = frontend_service_spec_view;
    local = frontend_service_spec-IsLocal;
    copy = copy_frontend_service_spec_into lib;
    copies = frontend_service_spec-Copies;
  }

  abbrev pub service_field : Field (Cell L) (Option Ptr) (Option FrontendServiceSpec)
  service_field = pointer_field frontend_service_spec_kind frontend_service_spec_field

  abbrev pub frontend_spec_view : View (Cell L) (StoredFrontendSpec L) FrontendSpec
  frontend_spec_view lo hi h t v =
      service_field.view lo hi h t.service v.service
      × ((label_selector_field views lib laws).view lo hi h t.backend_selector v.backend_selector)

  pub frontend_spec-IsLocal : IsLocal frontend_spec_view
  frontend_spec-IsLocal =
      and_IsLocal
        (on_field_IsLocal service_field (λ (t : (StoredFrontendSpec L)). t.service)
          (λ (v : FrontendSpec). v.service))
        (on_field_IsLocal (label_selector_field views lib laws)
          (λ (t : (StoredFrontendSpec L)). t.backend_selector)
          (λ (v : FrontendSpec). v.backend_selector))

  pub frontend_spec-Copies : Copies frontend_spec_view (copy_frontend_spec_into lib)
  unfolding copy_frontend_spec_into
  frontend_spec-Copies lo h t v (held_service, held_backend_selector) =
      two frontend_spec_view service_field (label_selector_field views lib laws)
        (λ x y. record t { service = x; backend_selector = y }) v v.service v.backend_selector
        (λ lo hi m x y p q. (p, q)) lo h t.service t.backend_selector held_service
        held_backend_selector

  abbrev pub frontend_spec_field : Field (Cell L) (StoredFrontendSpec L) FrontendSpec
  frontend_spec_field = record {
    view = frontend_spec_view;
    local = frontend_spec-IsLocal;
    copy = copy_frontend_spec_into lib;
    copies = frontend_spec-Copies;
  }

  abbrev pub frontend_status_view : View (Cell L) StoredFrontendStatus FrontendStatus
  frontend_status_view lo hi h t v =
      conditions_field.view lo hi h t.conditions v.conditions
      × (port_field.view lo hi h t.port v.port
          × (reference_field.view lo hi h t.load_balancer v.load_balancer))

  pub frontend_status-IsLocal : IsLocal frontend_status_view
  frontend_status-IsLocal =
      and_IsLocal
        (on_field_IsLocal conditions_field (λ (t : StoredFrontendStatus). t.conditions)
          (λ (v : FrontendStatus). v.conditions))
        (and_IsLocal
          (on_field_IsLocal port_field (λ (t : StoredFrontendStatus). t.port)
            (λ (v : FrontendStatus). v.port))
          (on_field_IsLocal reference_field (λ (t : StoredFrontendStatus). t.load_balancer)
            (λ (v : FrontendStatus). v.load_balancer)))

  pub frontend_status-Copies : Copies frontend_status_view (copy_frontend_status_into lib)
  unfolding copy_frontend_status_into
  frontend_status-Copies lo h t v (held_conditions, (held_port, held_load_balancer)) =
      three frontend_status_view conditions_field port_field reference_field
        (λ x y z. record t { conditions = x; port = y; load_balancer = z }) v v.conditions v.port
        v.load_balancer (λ lo hi m x y z p q r. (p, (q, r))) lo h t.conditions t.port
        t.load_balancer held_conditions held_port held_load_balancer

  abbrev pub frontend_status_field : Field (Cell L) StoredFrontendStatus FrontendStatus
  frontend_status_field = record {
    view = frontend_status_view;
    local = frontend_status-IsLocal;
    copy = copy_frontend_status_into lib;
    copies = frontend_status-Copies;
  }

  abbrev pub frontend_view : View (Cell L) (StoredFrontend L) (Typed Frontend)
  frontend_view lo hi h t v =
      (t.type_meta ≡ v.type_meta)
      × ((object_meta_field views lib laws).view lo hi h t.metadata v.object.metadata
          × (frontend_spec_field.view lo hi h t.spec v.object.spec
              × (frontend_status_field.view lo hi h t.status v.object.status)))

  pub frontend-IsLocal : IsLocal frontend_view
  frontend-IsLocal =
      and_IsLocal
        (on_plain_IsLocal (λ (t : (StoredFrontend L)). t.type_meta)
          (λ (v : (Typed Frontend)). v.type_meta))
        (and_IsLocal
          (on_field_IsLocal (object_meta_field views lib laws)
            (λ (t : (StoredFrontend L)). t.metadata) (λ (v : (Typed Frontend)). v.object.metadata))
          (and_IsLocal
            (on_field_IsLocal frontend_spec_field (λ (t : (StoredFrontend L)). t.spec)
              (λ (v : (Typed Frontend)). v.object.spec))
            (on_field_IsLocal frontend_status_field (λ (t : (StoredFrontend L)). t.status)
              (λ (v : (Typed Frontend)). v.object.status))))

  pub frontend-Copies : Copies frontend_view (copy_frontend_into lib)
  unfolding copy_frontend_into
  frontend-Copies lo h t v (same_type_meta, (held_metadata, (held_spec, held_status))) =
      three frontend_view (object_meta_field views lib laws) frontend_spec_field
        frontend_status_field (λ x y z. record t { metadata = x; spec = y; status = z }) v
        v.object.metadata v.object.spec v.object.status
        (λ lo hi m x y z p q r. (same_type_meta, (p, (q, r)))) lo h t.metadata t.spec t.status
        held_metadata held_spec held_status

  abbrev pub frontend_field : Field (Cell L) (StoredFrontend L) (Typed Frontend)
  frontend_field = record {
    view = frontend_view;
    local = frontend-IsLocal;
    copy = copy_frontend_into lib;
    copies = frontend-Copies;
  }

  abbrev pub frontends_field : Field (Cell L) (Option Ptr) (List (Typed Frontend))
  frontends_field = nilable_field frontends_kind (each_field frontend_field) []

  abbrev pub frontend_list_view : View (Cell L) (StoredList L) (Listed L Frontend)
  frontend_list_view lo hi h t v =
      (t.type_meta ≡ v.type_meta)
      × ((list_meta_field views lib laws).view lo hi h t.metadata v.metadata
          × (frontends_field.view lo hi h t.items v.items))

  pub frontend_list-IsLocal : IsLocal frontend_list_view
  frontend_list-IsLocal =
      and_IsLocal
        (on_plain_IsLocal (λ (t : (StoredList L)). t.type_meta)
          (λ (v : (Listed L Frontend)). v.type_meta))
        (and_IsLocal
          (on_field_IsLocal (list_meta_field views lib laws) (λ (t : (StoredList L)). t.metadata)
            (λ (v : (Listed L Frontend)). v.metadata))
          (on_field_IsLocal frontends_field (λ (t : (StoredList L)). t.items)
            (λ (v : (Listed L Frontend)). v.items)))

  pub frontend_list-Copies : Copies frontend_list_view (copy_frontend_list_into lib)
  unfolding copy_frontend_list_into
  frontend_list-Copies lo h t v (same_type_meta, (held_metadata, held_items)) =
      two frontend_list_view (list_meta_field views lib laws) frontends_field
        (λ x y. record t { metadata = x; items = y }) v v.metadata v.items
        (λ lo hi m x y p q. (same_type_meta, (p, q))) lo h t.metadata t.items held_metadata
        held_items

  abbrev pub frontend_list_field : Field (Cell L) (StoredList L) (Listed L Frontend)
  frontend_list_field = record {
    view = frontend_list_view;
    local = frontend_list-IsLocal;
    copy = copy_frontend_list_into lib;
    copies = frontend_list-Copies;
  }
