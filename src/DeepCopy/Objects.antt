-- ===== src/DeepCopy/Objects.antt =====
-- `DeepCopyObject` of the eight kinds of objects (api/v1alpha1/zz_generated.deepcopy.go).
pub mod Separate
use k8s_glb_operator.Base.{Option, none, some}
use k8s_glb_operator.Memory.{Ptr, Cmd, pure, ◌>>=◌}
use k8s_glb_operator.DeepCopy.{Library, LibraryCopies}
use k8s_glb_operator.DeepCopy.Cells.{Cell}
use k8s_glb_operator.DeepCopy.Backends.{copy_backend, copy_backend_list}
use k8s_glb_operator.DeepCopy.Frontends.{copy_frontend, copy_frontend_list}
use k8s_glb_operator.DeepCopy.LoadBalancers.{copy_load_balancer, copy_load_balancer_list}
use k8s_glb_operator.DeepCopy.Peers.{copy_peer, copy_peer_list}

-- `runtime.Object`, an interface: a kind with a pointer.
pub data Object : Type 0 where
  backend_object : Option Ptr → Object
  backend_list_object : Option Ptr → Object
  frontend_object : Option Ptr → Object
  frontend_list_object : Option Ptr → Object
  load_balancer_object : Option Ptr → Object
  load_balancer_list_object : Option Ptr → Object
  peer_object : Option Ptr → Object
  peer_list_object : Option Ptr → Object

-- `if c := in.DeepCopy(); c != nil { return c }; return nil`
abbrev pub as_object : (Option Ptr → Object) → Option Ptr → Option Object
as_object kind none = none
as_object kind (some p) = some (kind (some p))

module _ {L : Library} (lib : LibraryCopies L (Cell L)) where
  unfoldable pub copy_backend_object : Option Ptr → Cmd (Cell L) (Option Object)
  unfolding copy_backend
  copy_backend_object p = do c ← copy_backend lib p; pure (as_object backend_object c)

  unfoldable pub copy_backend_list_object : Option Ptr → Cmd (Cell L) (Option Object)
  unfolding copy_backend_list
  copy_backend_list_object p = do
    c ← copy_backend_list lib p
    pure (as_object backend_list_object c)

  unfoldable pub copy_frontend_object : Option Ptr → Cmd (Cell L) (Option Object)
  unfolding copy_frontend
  copy_frontend_object p = do c ← copy_frontend lib p; pure (as_object frontend_object c)

  unfoldable pub copy_frontend_list_object : Option Ptr → Cmd (Cell L) (Option Object)
  unfolding copy_frontend_list
  copy_frontend_list_object p = do
    c ← copy_frontend_list lib p
    pure (as_object frontend_list_object c)

  unfoldable pub copy_load_balancer_object : Option Ptr → Cmd (Cell L) (Option Object)
  unfolding copy_load_balancer
  copy_load_balancer_object p = do
    c ← copy_load_balancer lib p
    pure (as_object load_balancer_object c)

  unfoldable pub copy_load_balancer_list_object : Option Ptr → Cmd (Cell L) (Option Object)
  unfolding copy_load_balancer_list
  copy_load_balancer_list_object p = do
    c ← copy_load_balancer_list lib p
    pure (as_object load_balancer_list_object c)

  unfoldable pub copy_peer_object : Option Ptr → Cmd (Cell L) (Option Object)
  unfolding copy_peer
  copy_peer_object p = do c ← copy_peer lib p; pure (as_object peer_object c)

  unfoldable pub copy_peer_list_object : Option Ptr → Cmd (Cell L) (Option Object)
  unfolding copy_peer_list
  copy_peer_list_object p = do c ← copy_peer_list lib p; pure (as_object peer_list_object c)

  -- The call through the interface.
  unfoldable pub copy_object : Object → Cmd (Cell L) (Option Object)
  unfolding copy_backend_object copy_backend_list_object copy_frontend_object
      copy_frontend_list_object copy_load_balancer_object copy_load_balancer_list_object
      copy_peer_object copy_peer_list_object
  copy_object (backend_object p) = copy_backend_object p
  copy_object (backend_list_object p) = copy_backend_list_object p
  copy_object (frontend_object p) = copy_frontend_object p
  copy_object (frontend_list_object p) = copy_frontend_list_object p
  copy_object (load_balancer_object p) = copy_load_balancer_object p
  copy_object (load_balancer_list_object p) = copy_load_balancer_list_object p
  copy_object (peer_object p) = copy_peer_object p
  copy_object (peer_list_object p) = copy_peer_list_object p
