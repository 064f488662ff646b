-- ===== src/DeepCopy/Backends/Copied.antt =====
-- What a `Backend` in memory stands for, with its parts, and their copies (api/v1alpha1/zz_generated.deepcopy.go).
use k8s_glb_operator.Base.{◌≡◌, Bool, String, Option, List, []}
use k8s_glb_operator.Api.{BackendServerSpec, BackendSpec, BackendStatus, Backend, Condition}
use k8s_glb_operator.Memory.{Ptr}
use k8s_glb_operator.Memory.Views.{View, IsLocal}
use k8s_glb_operator.Memory.Copies.{Copies}
use k8s_glb_operator.Memory.Fields.{
  Field, plain_field, pointer_field, nilable_field, each_field, one, two, three, and_IsLocal,
  on_field_IsLocal, on_plain_IsLocal,
}
use k8s_glb_operator.DeepCopy.{Library, LibraryCopies}
use k8s_glb_operator.DeepCopy.Structs.{
  StoredBackendSpec, StoredConditions, StoredBackend, StoredList,
}
use k8s_glb_operator.DeepCopy.Cells.{Cell}
use k8s_glb_operator.DeepCopy.Kinds.{
  text_kind, flag_kind, conditions_kind, servers_kind, backend_server_kind, backends_kind,
}
use k8s_glb_operator.DeepCopy.Held.{
  LibraryViews, LibraryLaws, object_meta_field, list_meta_field, condition_field, Typed, Listed,
}
use k8s_glb_operator.DeepCopy.Backends.{
  copy_backend_spec_into, copy_backend_status_into, copy_backend_into, copy_backend_list_into,
}

module _ {L : Library} where
  abbrev pub strategy_field : Field (Cell L) (Option Ptr) (Option String)
  strategy_field = pointer_field text_kind (plain_field String)

  abbrev pub sticky_field : Field (Cell L) (Option Ptr) (Option Bool)
  sticky_field = pointer_field flag_kind (plain_field Bool)

  abbrev pub servers_field : Field (Cell L) (Option Ptr) (List (Option BackendServerSpec))
  servers_field =
      nilable_field servers_kind
        (each_field (pointer_field backend_server_kind (plain_field BackendServerSpec))) []

  abbrev pub backend_spec_view : View (Cell L) StoredBackendSpec BackendSpec
  backend_spec_view lo hi h t v =
      (t.host ≡ v.host)
      × (strategy_field.view lo hi h t.strategy v.strategy
          × (sticky_field.view lo hi h t.sticky_sessions v.sticky_sessions
              × (servers_field.view lo hi h t.servers v.servers)))

  pub backend_spec-IsLocal : IsLocal backend_spec_view
  backend_spec-IsLocal =
      and_IsLocal
        (on_plain_IsLocal (λ (t : StoredBackendSpec). t.host) (λ (v : BackendSpec). v.host))
        (and_IsLocal
          (on_field_IsLocal strategy_field (λ (t : StoredBackendSpec). t.strategy)
            (λ (v : BackendSpec). v.strategy))
          (and_IsLocal
            (on_field_IsLocal sticky_field (λ (t : StoredBackendSpec). t.sticky_sessions)
              (λ (v : BackendSpec). v.sticky_sessions))
            (on_field_IsLocal servers_field (λ (t : StoredBackendSpec). t.servers)
              (λ (v : BackendSpec). v.servers))))

  pub backend_spec-Copies : Copies backend_spec_view (copy_backend_spec_into)
  unfolding copy_backend_spec_into
  backend_spec-Copies lo h t v (same_host, (held_strategy, (held_sticky_sessions, held_servers))) =
      three backend_spec_view strategy_field sticky_field servers_field
        (λ x y z. record t { strategy = x; sticky_sessions = y; servers = z }) v v.strategy
        v.sticky_sessions v.servers (λ lo hi m x y z p q r. (same_host, (p, (q, r)))) lo h
        t.strategy t.sticky_sessions t.servers held_strategy held_sticky_sessions held_servers

  abbrev pub backend_spec_field : Field (Cell L) StoredBackendSpec BackendSpec
  backend_spec_field = record {
    view = backend_spec_view;
    local = backend_spec-IsLocal;
    copy = copy_backend_spec_into;
    copies = backend_spec-Copies;
  }

module _ {L : Library} (views : LibraryViews L) (lib : LibraryCopies L (Cell L))
    (laws : LibraryLaws views lib) where
  abbrev pub conditions_field : Field (Cell L) (Option Ptr) (List Condition)
  conditions_field = nilable_field conditions_kind (each_field (condition_field views lib laws)) []

  abbrev pub backend_status_view : View (Cell L) StoredConditions BackendStatus
  backend_status_view lo hi h t v = conditions_field.view lo hi h t.conditions v.conditions

  pub backend_status-IsLocal : IsLocal backend_status_view
  backend_status-IsLocal =
      on_field_IsLocal conditions_field (λ (t : StoredConditions). t.conditions)
        (λ (v : BackendStatus). v.conditions)

  pub backend_status-Copies : Copies backend_status_view (copy_backend_status_into lib)
  unfolding copy_backend_status_into
  backend_status-Copies lo h t v held_conditions =
      one backend_status_view conditions_field (λ x. record t { conditions = x }) v v.conditions
        (λ lo hi m x p. p) lo h t.conditions held_conditions

  abbrev pub backend_status_field : Field (Cell L) StoredConditions BackendStatus
  backend_status_field = record {
    view = backend_status_view;
    local = backend_status-IsLocal;
    copy = copy_backend_status_into lib;
    copies = backend_status-Copies;
  }

  abbrev pub backend_view : View (Cell L) (StoredBackend L) (Typed Backend)
  backend_view lo hi h t v =
      (t.type_meta ≡ v.type_meta)
      × ((object_meta_field views lib laws).view lo hi h t.metadata v.object.metadata
          × (backend_spec_field.view lo hi h t.spec v.object.spec
              × (backend_status_field.view lo hi h t.status v.object.status)))

  pub backend-IsLocal : IsLocal backend_view
  backend-IsLocal =
      and_IsLocal
        (on_plain_IsLocal (λ (t : (StoredBackend L)). t.type_meta)
          (λ (v : (Typed Backend)). v.type_meta))
        (and_IsLocal
          (on_field_IsLocal (object_meta_field views lib laws)
            (λ (t : (StoredBackend L)). t.metadata) (λ (v : (Typed Backend)). v.object.metadata))
          (and_IsLocal
            (on_field_IsLocal backend_spec_field (λ (t : (StoredBackend L)). t.spec)
              (λ (v : (Typed Backend)). v.object.spec))
            (on_field_IsLocal backend_status_field (λ (t : (StoredBackend L)). t.status)
              (λ (v : (Typed Backend)). v.object.status))))

  pub backend-Copies : Copies backend_view (copy_backend_into lib)
  unfolding copy_backend_into
  backend-Copies lo h t v (same_type_meta, (held_metadata, (held_spec, held_status))) =
      three backend_view (object_meta_field views lib laws) backend_spec_field backend_status_field
        (λ x y z. record t { metadata = x; spec = y; status = z }) v v.object.metadata v.object.spec
        v.object.status (λ lo hi m x y z p q r. (same_type_meta, (p, (q, r)))) lo h t.metadata
        t.spec t.status held_metadata held_spec held_status

  abbrev pub backend_field : Field (Cell L) (StoredBackend L) (Typed Backend)
  backend_field = record {
    view = backend_view;
    local = backend-IsLocal;
    copy = copy_backend_into lib;
    copies = backend-Copies;
  }

  abbrev pub backends_field : Field (Cell L) (Option Ptr) (List (Typed Backend))
  backends_field = nilable_field backends_kind (each_field backend_field) []

  abbrev pub backend_list_view : View (Cell L) (StoredList L) (Listed L Backend)
  backend_list_view lo hi h t v =
      (t.type_meta ≡ v.type_meta)
      × ((list_meta_field views lib laws).view lo hi h t.metadata v.metadata
          × (backends_field.view lo hi h t.items v.items))

  pub backend_list-IsLocal : IsLocal backend_list_view
  backend_list-IsLocal =
      and_IsLocal
        (on_plain_IsLocal (λ (t : (StoredList L)). t.type_meta)
          (λ (v : (Listed L Backend)). v.type_meta))
        (and_IsLocal
          (on_field_IsLocal (list_meta_field views lib laws) (λ (t : (StoredList L)). t.metadata)
            (λ (v : (Listed L Backend)). v.metadata))
          (on_field_IsLocal backends_field (λ (t : (StoredList L)). t.items)
            (λ (v : (Listed L Backend)). v.items)))

  pub backend_list-Copies : Copies backend_list_view (copy_backend_list_into lib)
  unfolding copy_backend_list_into
  backend_list-Copies lo h t v (same_type_meta, (held_metadata, held_items)) =
      two backend_list_view (list_meta_field views lib laws) backends_field
        (λ x y. record t { metadata = x; items = y }) v v.metadata v.items
        (λ lo hi m x y p q. (same_type_meta, (p, q))) lo h t.metadata t.items held_metadata
        held_items

  abbrev pub backend_list_field : Field (Cell L) (StoredList L) (Listed L Backend)
  backend_list_field = record {
    view = backend_list_view;
    local = backend_list-IsLocal;
    copy = copy_backend_list_into lib;
    copies = backend_list-Copies;
  }
