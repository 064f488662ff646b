-- ===== src/DeepCopy/Tests.antt =====
-- A frontend in memory, with a service, a port and a load balancer, and its copy.
use k8s_glb_operator.Base.{
  refl, String, Option, none, some, List, [], ◌∷◌, arith, eqb, if◌then◌else◌,
}
use k8s_glb_operator.Base.GoMap.{GoMap, lookup}
use k8s_glb_operator.Api.{
  GlobalLoadBalancer, ObjectMeta, LabelSelector, Condition, Frontend, bare_meta,
}
use k8s_glb_operator.Memory.{Ptr, Heap, pure}
use k8s_glb_operator.Memory.Views.{plain, plain-IsLocal}
use k8s_glb_operator.Memory.Copies.{Returns, plain-Copies}
use k8s_glb_operator.DeepCopy.{Library, LibraryCopies}
use k8s_glb_operator.DeepCopy.Structs.{TypeMeta, StoredFrontend}
use k8s_glb_operator.DeepCopy.Cells.{
  Cell, frontend_cell, frontend_service_spec_cell, text_map_cell, int32_cell,
  load_balancer_reference_cell,
}
use k8s_glb_operator.DeepCopy.Held.{LibraryViews, LibraryLaws, Typed}
use k8s_glb_operator.DeepCopy.Frontends.Copied.{frontend_spec_field, frontend_status_field}
use k8s_glb_operator.Controller.Frontends.{assign}
use k8s_glb_operator.Controller.Frontends.InMemory.{
  assign_in_memory, IsAssigned, assign_in_memory_lem,
}
use k8s_glb_operator.DeepCopy.Objects.{frontend_object, copy_object}
use k8s_glb_operator.DeepCopy.Objects.Separate.{
  ObjectValue, frontend_value, Holds, frontend_held, IsSeparate, copy_object-IsSeparate,
}

-- A library whose structs hold no pointer.
abbrev library : Library
library = record {
  object_meta = ObjectMeta;
  list_meta = String;
  list_meta_value = String;
  label_selector = LabelSelector;
  condition = Condition;
  other = String;
}

abbrev views : LibraryViews library
views = record {
  object_meta = plain {T = ObjectMeta};
  list_meta = plain {T = String};
  label_selector = plain {T = LabelSelector};
  condition = plain {T = Condition};
}

abbrev in_order : GoMap String String → List (String × String)
in_order m = m

abbrev copies : LibraryCopies library (Cell library)
copies = record {
  copy_object_meta = pure;
  copy_list_meta = pure;
  copy_label_selector = pure;
  copy_condition = pure;
  range = in_order;
}

laws : LibraryLaws views copies
laws = record {
  object_meta_local = plain-IsLocal;
  list_meta_local = plain-IsLocal;
  label_selector_local = plain-IsLocal;
  condition_local = plain-IsLocal;
  object_meta_copied = plain-Copies;
  list_meta_copied = plain-Copies;
  label_selector_copied = plain-Copies;
  condition_copied = plain-Copies;
  ranges = record { distinct = λ m d. d; same = λ m k d. refl };
}

abbrev any_labels : LabelSelector
any_labels = record { match_labels = []; match_expressions = [] }

abbrev typed : TypeMeta
typed = record { kind = "Frontend"; api_version = "glb.antware.xyz/v1alpha1" }

abbrev web : Frontend
web = record {
  metadata = bare_meta "glb" "web";
  spec = record {
    service = some (record { ip_address = none; port = 443; annotations = ("team", "edge") ∷ [] });
    backend_selector = any_labels;
  };
  status = record {
    conditions = [];
    port = some 10001;
    load_balancer = some (record { name = "lb"; namespace = "glb" });
  };
}

abbrev stored : StoredFrontend library
stored = record {
  type_meta = typed;
  metadata = bare_meta "glb" "web";
  spec = record { service = some 1; backend_selector = any_labels };
  status = record { conditions = none; port = some 3; load_balancer = some 4 };
}

abbrev cell_at : Ptr → Option (Cell library)
cell_at a =
    if eqb a 0
    then some (frontend_cell stored)
    else if eqb a 1
    then some (
        frontend_service_spec_cell (record { ip_address = none; port = 443; annotations = some 2 }))
    else if eqb a 2
    then some (text_map_cell (("team", "edge") ∷ []))
    else if eqb a 3
    then some (int32_cell 10001)
    else if eqb a 4
    then some (load_balancer_reference_cell (record { name = "lb"; namespace = "glb" }))
    else none

abbrev heap : Heap (Cell library)
heap = record { next = 5; cells = cell_at }

abbrev value : ObjectValue library
value = frontend_value (record { type_meta = typed; object = web })

web_spec_held : (frontend_spec_field views copies laws).view 0 5 heap stored.spec web.spec
unfolding lookup
web_spec_held = (
  record {
    from = omega arith;
    below = omega arith;
    target = record { ip_address = none; port = 443; annotations = some 2 };
    at = refl;
    held = (
      refl,
      (
        tt,
        record {
          from = omega arith;
          below = omega arith;
          target = ("team", "edge") ∷ [];
          at = refl;
          held = ((refl, tt), λ k. refl);
        },
      ),
    );
  },
  refl,
)

web_status_held : (frontend_status_field views copies laws).view 0 5 heap stored.status web.status
web_status_held = (
  refl,
  (
    record { from = omega arith; below = omega arith; target = 10001; at = refl; held = refl },
    record {
      from = omega arith;
      below = omega arith;
      target = record { name = "lb"; namespace = "glb" };
      at = refl;
      held = refl;
    },
  ),
)

web_held : Holds views copies laws 0 5 heap (frontend_object (some 0)) value
web_held = frontend_held 0 _ (record {
  from = omega arith;
  below = omega arith;
  target = stored;
  at = refl;
  held = (refl, (refl, (web_spec_held, web_status_held)));
})

copy_object-IsSeparate_example :
    IsSeparate views copies laws 0 heap
      (frontend_object (some 0))
      value
      (copy_object copies (frontend_object (some 0)) heap)
copy_object-IsSeparate_example =
    copy_object-IsSeparate views copies laws 0 heap (frontend_object (some 0)) value web_held

-- The frontend before a load balancer has taken it up: the loop gives it both.
abbrev vacant : StoredFrontend library
vacant = record stored { status = record { conditions = none; port = none; load_balancer = none } }

abbrev vacant_value : Typed Frontend
vacant_value = record {
  type_meta = typed;
  object = record web { status = record { conditions = []; port = none; load_balancer = none } };
}

abbrev edge : GlobalLoadBalancer
edge = record {
  metadata = bare_meta "glb" "edge";
  spec = record { replicas = 2; image = ""; peers = none; frontend_selector = any_labels };
  status = record { conditions = [] };
}

assign_in_memory_lem_example :
    Returns heap
      (IsAssigned views copies laws edge 10001 0 vacant vacant_value
        (assign edge 10001 vacant_value.object))
      (assign_in_memory edge 10001 vacant heap)
assign_in_memory_lem_example =
    assign_in_memory_lem views copies laws edge 10001 0 heap vacant vacant_value (omega arith)
      (refl, (refl, (web_spec_held, (refl, (tt, tt)))))
