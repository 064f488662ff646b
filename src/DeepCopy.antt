-- ===== src/DeepCopy.antt =====
-- api/v1alpha1/zz_generated.deepcopy.go: the copies of the API's objects, over a memory of cells. Of the
-- library's own structs, which can hold pointers too, the types and the copies are parameters.
pub mod Structs
pub mod Cells
pub mod Kinds
pub mod Held
pub mod Backends
pub mod Frontends
pub mod LoadBalancers
pub mod Peers
pub mod Objects
mod Tests
use k8s_glb_operator.Base.{String, List}
use k8s_glb_operator.Base.GoMap.{GoMap}
use k8s_glb_operator.Memory.{Cmd}

-- `metav1.ObjectMeta`, `metav1.ListMeta` with what it stands for, `metav1.LabelSelector`,
-- `metav1.Condition`, and what the cells hold that these point to.
pub record Library : Type 1 where
  pub object_meta : Type 0
  pub list_meta : Type 0
  pub list_meta_value : Type 0
  pub label_selector : Type 0
  pub condition : Type 0
  pub other : Type 0

-- Their `DeepCopyInto`, and the order in which Go ranges over a map.
pub record LibraryCopies (L : Library) (C : Type 0) : Type 0 where
  pub copy_object_meta : L.object_meta → Cmd C L.object_meta
  pub copy_list_meta : L.list_meta → Cmd C L.list_meta
  pub copy_label_selector : L.label_selector → Cmd C L.label_selector
  pub copy_condition : L.condition → Cmd C L.condition
  pub range : GoMap String String → List (String × String)
