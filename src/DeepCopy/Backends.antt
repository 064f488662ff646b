-- ===== src/DeepCopy/Backends.antt =====
-- The copies of `Backend` and of what it is made of (api/v1alpha1/zz_generated.deepcopy.go).
-- A `DeepCopyInto` is given what `*in` holds and gives what `*out` holds then; `*out = *in` is its argument, of
-- which the fields are replaced that a pointer lies in. A `DeepCopy` is given the address `in` and gives
-- the address `out`.
pub mod Copied
use k8s_glb_operator.Base.{Option}
use k8s_glb_operator.Api.{BackendServerSpec}
use k8s_glb_operator.Memory.{Ptr, Cmd, pure, ◌>>=◌, copy_pointer, copy_each}
use k8s_glb_operator.DeepCopy.{Library, LibraryCopies}
use k8s_glb_operator.DeepCopy.Structs.{
  StoredBackendSpec, StoredConditions, StoredBackend, StoredList,
}
use k8s_glb_operator.DeepCopy.Cells.{Cell}
use k8s_glb_operator.DeepCopy.Kinds.{
  text_kind, flag_kind, conditions_kind, servers_kind, backend_server_kind, backend_spec_kind,
  backend_status_kind, backend_kind, backend_list_kind, backends_kind,
}

module _ {L : Library} where
  unfoldable pub copy_backend_server_into : BackendServerSpec → Cmd (Cell L) (BackendServerSpec)
  copy_backend_server_into = pure

  unfoldable pub copy_backend_server : Option Ptr → Cmd (Cell L) (Option Ptr)
  unfolding copy_pointer copy_backend_server_into
  copy_backend_server = copy_pointer backend_server_kind copy_backend_server_into

  unfoldable pub copy_backend_spec_into : StoredBackendSpec → Cmd (Cell L) StoredBackendSpec
  unfolding copy_pointer copy_each
  copy_backend_spec_into t = do
    strategy ← copy_pointer text_kind pure t.strategy
    sticky_sessions ← copy_pointer flag_kind pure t.sticky_sessions
    servers ←
        copy_pointer servers_kind (copy_each (copy_pointer backend_server_kind pure)) t.servers
    pure (record t { strategy = strategy; sticky_sessions = sticky_sessions; servers = servers })

  unfoldable pub copy_backend_spec : Option Ptr → Cmd (Cell L) (Option Ptr)
  unfolding copy_pointer copy_backend_spec_into
  copy_backend_spec = copy_pointer backend_spec_kind copy_backend_spec_into

module _ {L : Library} (lib : LibraryCopies L (Cell L)) where
  unfoldable pub copy_backend_status_into : StoredConditions → Cmd (Cell L) StoredConditions
  unfolding copy_pointer copy_each
  copy_backend_status_into t = do
    conditions ← copy_pointer conditions_kind (copy_each lib.copy_condition) t.conditions
    pure (record t { conditions = conditions })

  unfoldable pub copy_backend_status : Option Ptr → Cmd (Cell L) (Option Ptr)
  unfolding copy_pointer copy_backend_status_into
  copy_backend_status = copy_pointer backend_status_kind copy_backend_status_into

  unfoldable pub copy_backend_into : StoredBackend L → Cmd (Cell L) (StoredBackend L)
  unfolding copy_backend_spec_into copy_backend_status_into
  copy_backend_into t = do
    metadata ← lib.copy_object_meta t.metadata
    spec ← copy_backend_spec_into t.spec
    status ← copy_backend_status_into t.status
    pure (record t { metadata = metadata; spec = spec; status = status })

  unfoldable pub copy_backend : Option Ptr → Cmd (Cell L) (Option Ptr)
  unfolding copy_pointer copy_backend_into
  copy_backend = copy_pointer backend_kind copy_backend_into

  unfoldable pub copy_backend_list_into : StoredList L → Cmd (Cell L) (StoredList L)
  unfolding copy_pointer copy_each copy_backend_into
  copy_backend_list_into t = do
    metadata ← lib.copy_list_meta t.metadata
    items ← copy_pointer backends_kind (copy_each copy_backend_into) t.items
    pure (record t { metadata = metadata; items = items })

  unfoldable pub copy_backend_list : Option Ptr → Cmd (Cell L) (Option Ptr)
  unfolding copy_pointer copy_backend_list_into
  copy_backend_list = copy_pointer backend_list_kind copy_backend_list_into
