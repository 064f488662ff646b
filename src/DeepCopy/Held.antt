-- ===== src/DeepCopy/Held.antt =====
-- What the library's structs stand for in memory, and that its copies are copies.
use k8s_glb_operator.Base.{List}
use k8s_glb_operator.Api.{ObjectMeta, LabelSelector, Condition}
use k8s_glb_operator.Memory.Views.{View, IsLocal}
use k8s_glb_operator.Memory.Copies.{Copies}
use k8s_glb_operator.Memory.Fields.{Field}
use k8s_glb_operator.Memory.Maps.{RangesEntries}
use k8s_glb_operator.DeepCopy.{Library, LibraryCopies}
use k8s_glb_operator.DeepCopy.Structs.{TypeMeta}
use k8s_glb_operator.DeepCopy.Cells.{Cell}

-- An object with the kind and the version that Go keeps beside it, and a list of such.
pub record Typed (A : Type 0) : Type 0 where
  pub type_meta : TypeMeta
  pub object : A

pub record Listed (L : Library) (A : Type 0) : Type 0 where
  pub type_meta : TypeMeta
  pub metadata : L.list_meta_value
  pub items : List (Typed A)

pub record LibraryViews (L : Library) : Type 1 where
  pub object_meta : View (Cell L) L.object_meta ObjectMeta
  pub list_meta : View (Cell L) L.list_meta L.list_meta_value
  pub label_selector : View (Cell L) L.label_selector LabelSelector
  pub condition : View (Cell L) L.condition Condition

pub record LibraryLaws {L : Library} (views : LibraryViews L) (lib : LibraryCopies L (Cell L))
    : Type 0 where
  pub object_meta_local : IsLocal views.object_meta
  pub list_meta_local : IsLocal views.list_meta
  pub label_selector_local : IsLocal views.label_selector
  pub condition_local : IsLocal views.condition
  pub object_meta_copied : Copies views.object_meta lib.copy_object_meta
  pub list_meta_copied : Copies views.list_meta lib.copy_list_meta
  pub label_selector_copied : Copies views.label_selector lib.copy_label_selector
  pub condition_copied : Copies views.condition lib.copy_condition
  pub ranges : RangesEntries lib.range

module _ {L : Library} (views : LibraryViews L) (lib : LibraryCopies L (Cell L))
    (laws : LibraryLaws views lib) where
  abbrev pub object_meta_field : Field (Cell L) L.object_meta ObjectMeta
  object_meta_field = record {
    view = views.object_meta;
    local = laws.object_meta_local;
    copy = lib.copy_object_meta;
    copies = laws.object_meta_copied;
  }

  abbrev pub list_meta_field : Field (Cell L) L.list_meta L.list_meta_value
  list_meta_field = record {
    view = views.list_meta;
    local = laws.list_meta_local;
    copy = lib.copy_list_meta;
    copies = laws.list_meta_copied;
  }

  abbrev pub label_selector_field : Field (Cell L) L.label_selector LabelSelector
  label_selector_field = record {
    view = views.label_selector;
    local = laws.label_selector_local;
    copy = lib.copy_label_selector;
    copies = laws.label_selector_copied;
  }

  abbrev pub condition_field : Field (Cell L) L.condition Condition
  condition_field = record {
    view = views.condition;
    local = laws.condition_local;
    copy = lib.copy_condition;
    copies = laws.condition_copied;
  }
