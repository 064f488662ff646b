-- ===== src/DeepCopy/Objects/Separate.antt =====
-- An object in memory beside its copy (api/v1alpha1/zz_generated.deepcopy.go).
use k8s_glb_operator.Base.{◌≡◌, refl, ap, ◌∙◌, ◌≤◌, ◌<◌, Option, none, some, arith}
use k8s_glb_operator.Api.{Backend, Frontend, GlobalLoadBalancer, Peer}
use k8s_glb_operator.Memory.{Ptr, Heap, Kind, pure, ◌>>=◌, copy_pointer}
use k8s_glb_operator.Memory.Views.{Same, PointsTo, pointer, PointsTo-kept}
use k8s_glb_operator.Memory.Copies.{Returns, bind, returned, PointsTo-copied}
use k8s_glb_operator.Memory.Fields.{Field}
use k8s_glb_operator.DeepCopy.{Library, LibraryCopies}
use k8s_glb_operator.DeepCopy.Cells.{Cell}
use k8s_glb_operator.DeepCopy.Kinds.{
  backend_kind, backend_list_kind, frontend_kind, frontend_list_kind, load_balancer_kind,
  load_balancer_list_kind, peer_kind, peer_list_kind,
}
use k8s_glb_operator.DeepCopy.Held.{LibraryViews, LibraryLaws, Typed, Listed}
use k8s_glb_operator.DeepCopy.Backends.Copied.{backend_field, backend_list_field}
use k8s_glb_operator.DeepCopy.Frontends.Copied.{frontend_field, frontend_list_field}
use k8s_glb_operator.DeepCopy.LoadBalancers.Copied.{load_balancer_field, load_balancer_list_field}
use k8s_glb_operator.DeepCopy.Peers.Copied.{peer_field, peer_list_field}
use k8s_glb_operator.DeepCopy.Objects.{
  Object, as_object, copy_object, backend_object, backend_list_object, frontend_object,
  frontend_list_object, load_balancer_object, load_balancer_list_object, peer_object,
  peer_list_object,
}

-- What an object is, apart from where it lies.
pub data ObjectValue (L : Library) : Type 0 where
  backend_value : Typed Backend → ObjectValue L
  backend_list_value : Listed L Backend → ObjectValue L
  frontend_value : Typed Frontend → ObjectValue L
  frontend_list_value : Listed L Frontend → ObjectValue L
  load_balancer_value : Typed GlobalLoadBalancer → ObjectValue L
  load_balancer_list_value : Listed L GlobalLoadBalancer → ObjectValue L
  peer_value : Typed Peer → ObjectValue L
  peer_list_value : Listed L Peer → ObjectValue L

module _ {L : Library} (views : LibraryViews L) (lib : LibraryCopies L (Cell L))
    (laws : LibraryLaws views lib) where
  -- The object stands for the value, and all that it reaches lies from `lo` to below `hi`.
  pub data Holds (lo hi : Ptr) (h : Heap (Cell L)) : Object → ObjectValue L → Type 0 where
    backend_held :
        (p : Ptr) (v : Typed Backend)
        → PointsTo backend_kind (backend_field views lib laws).view lo hi h p v
        → Holds lo hi h (backend_object (some p)) (backend_value v)
    backend_list_held :
        (p : Ptr) (v : Listed L Backend)
        → PointsTo backend_list_kind (backend_list_field views lib laws).view lo hi h p v
        → Holds lo hi h (backend_list_object (some p)) (backend_list_value v)
    frontend_held :
        (p : Ptr) (v : Typed Frontend)
        → PointsTo frontend_kind (frontend_field views lib laws).view lo hi h p v
        → Holds lo hi h (frontend_object (some p)) (frontend_value v)
    frontend_list_held :
        (p : Ptr) (v : Listed L Frontend)
        → PointsTo frontend_list_kind (frontend_list_field views lib laws).view lo hi h p v
        → Holds lo hi h (frontend_list_object (some p)) (frontend_list_value v)
    load_balancer_held :
        (p : Ptr) (v : Typed GlobalLoadBalancer)
        → PointsTo load_balancer_kind (load_balancer_field views lib laws).view lo hi h p v
        → Holds lo hi h (load_balancer_object (some p)) (load_balancer_value v)
    load_balancer_list_held :
        (p : Ptr) (v : Listed L GlobalLoadBalancer)
        → PointsTo load_balancer_list_kind
            (load_balancer_list_field views lib laws).view
            lo
            hi
            h
            p
            v
        → Holds lo hi h (load_balancer_list_object (some p)) (load_balancer_list_value v)
    peer_held :
        (p : Ptr) (v : Typed Peer)
        → PointsTo peer_kind (peer_field views lib laws).view lo hi h p v
        → Holds lo hi h (peer_object (some p)) (peer_value v)
    peer_list_held :
        (p : Ptr) (v : Listed L Peer)
        → PointsTo peer_list_kind (peer_list_field views lib laws).view lo hi h p v
        → Holds lo hi h (peer_list_object (some p)) (peer_list_value v)

  pub Holds-kept :
      (lo hi lo' hi' : Ptr) (h g : Heap (Cell L)) (o : Object) (v : ObjectValue L)
      → lo' ≤ lo
      → hi ≤ hi'
      → Same lo hi h g
      → Holds lo hi h o v
      → Holds lo' hi' g o v
  Holds-kept lo hi lo' hi' h g o w from to same (backend_held p v held) = backend_held p v (
      PointsTo-kept backend_kind (backend_field views lib laws).view
        (backend_field views lib laws).local lo hi lo' hi' h g p v from to same held)
  Holds-kept lo hi lo' hi' h g o w from to same (backend_list_held p v held) =
      backend_list_held p v (
        PointsTo-kept backend_list_kind (backend_list_field views lib laws).view
          (backend_list_field views lib laws).local lo hi lo' hi' h g p v from to same held)
  Holds-kept lo hi lo' hi' h g o w from to same (frontend_held p v held) = frontend_held p v (
      PointsTo-kept frontend_kind (frontend_field views lib laws).view
        (frontend_field views lib laws).local lo hi lo' hi' h g p v from to same held)
  Holds-kept lo hi lo' hi' h g o w from to same (frontend_list_held p v held) =
      frontend_list_held p v (
        PointsTo-kept frontend_list_kind (frontend_list_field views lib laws).view
          (frontend_list_field views lib laws).local lo hi lo' hi' h g p v from to same held)
  Holds-kept lo hi lo' hi' h g o w from to same (load_balancer_held p v held) =
      load_balancer_held p v (
        PointsTo-kept load_balancer_kind (load_balancer_field views lib laws).view
          (load_balancer_field views lib laws).local lo hi lo' hi' h g p v from to same held)
  Holds-kept lo hi lo' hi' h g o w from to same (load_balancer_list_held p v held) =
      load_balancer_list_held p v (
        PointsTo-kept load_balancer_list_kind (load_balancer_list_field views lib laws).view
          (load_balancer_list_field views lib laws).local lo hi lo' hi' h g p v from to same held)
  Holds-kept lo hi lo' hi' h g o w from to same (peer_held p v held) = peer_held p v (
      PointsTo-kept peer_kind (peer_field views lib laws).view (peer_field views lib laws).local lo
        hi lo' hi' h g p v from to same held)
  Holds-kept lo hi lo' hi' h g o w from to same (peer_list_held p v held) = peer_list_held p v (
      PointsTo-kept peer_list_kind (peer_list_field views lib laws).view
        (peer_list_field views lib laws).local lo hi lo' hi' h g p v from to same held)

  -- An object that is not nil and stands for the value.
  pub record Stands (lo : Ptr) (g : Heap (Cell L)) (r : Option Object) (w : ObjectValue L)
      : Type 0 where
    pub copy : Object
    pub is_some : r ≡ some copy
    pub holds : Holds lo g.next g copy w

  module _ {A V : Type 0} (kind : Kind (Cell L) A) (f : Field (Cell L) A V) (v : V)
      (make : Option Ptr → Object) (w : ObjectValue L)
      (held : (lo hi : Ptr) (h : Heap (Cell L)) (p : Ptr)
        → PointsTo kind f.view lo hi h p v
        → Holds lo hi h (make (some p)) w) where
    object_Stands :
        (lo : Ptr) (g : Heap (Cell L)) (q : Option Ptr)
        → pointer kind f.view lo g.next g q (some v)
        → Stands lo g (as_object make q) w
    object_Stands lo g none points = absurd points
    object_Stands lo g (some q) points = record {
      copy = make (some q);
      is_some = refl;
      holds = held lo g.next g q points;
    }

    object_copied :
        (lo : Ptr) (h : Heap (Cell L)) (p : Ptr)
        → PointsTo kind f.view lo h.next h p v
        → Returns h
            (λ r g. Stands h.next g r w)
            ((copy_pointer kind f.copy (some p) >>= λ q. pure (as_object make q)) h)
    object_copied lo h p points =
        let copied = PointsTo-copied kind f.view f.local f.copy f.copies lo h p v points in
        bind h (copy_pointer kind f.copy (some p)) (λ q. pure (as_object make q)) copied
          (returned copied.after (as_object make copied.value)
            (object_Stands h.next copied.after copied.value copied.reached))

  copied :
      (lo : Ptr) (h : Heap (Cell L)) (o : Object) (w : ObjectValue L)
      → Holds lo h.next h o w
      → Returns h (λ r g. Stands h.next g r w) (copy_object lib o h)
  unfolding copy_object
  copied lo h o w (backend_held p v points) =
      object_copied backend_kind (backend_field views lib laws) v backend_object (backend_value v)
        (λ lo hi m q. backend_held q v) lo h p points
  copied lo h o w (backend_list_held p v points) =
      object_copied backend_list_kind (backend_list_field views lib laws) v backend_list_object
        (backend_list_value v) (λ lo hi m q. backend_list_held q v) lo h p points
  copied lo h o w (frontend_held p v points) =
      object_copied frontend_kind (frontend_field views lib laws) v frontend_object
        (frontend_value v) (λ lo hi m q. frontend_held q v) lo h p points
  copied lo h o w (frontend_list_held p v points) =
      object_copied frontend_list_kind (frontend_list_field views lib laws) v frontend_list_object
        (frontend_list_value v) (λ lo hi m q. frontend_list_held q v) lo h p points
  copied lo h o w (load_balancer_held p v points) =
      object_copied load_balancer_kind (load_balancer_field views lib laws) v load_balancer_object
        (load_balancer_value v) (λ lo hi m q. load_balancer_held q v) lo h p points
  copied lo h o w (load_balancer_list_held p v points) =
      object_copied load_balancer_list_kind (load_balancer_list_field views lib laws) v
        load_balancer_list_object (load_balancer_list_value v)
        (λ lo hi m q. load_balancer_list_held q v) lo h p points
  copied lo h o w (peer_held p v points) =
      object_copied peer_kind (peer_field views lib laws) v peer_object (peer_value v)
        (λ lo hi m q. peer_held q v) lo h p points
  copied lo h o w (peer_list_held p v points) =
      object_copied peer_list_kind (peer_list_field views lib laws) v peer_list_object
        (peer_list_value v) (λ lo hi m q. peer_list_held q v) lo h p points

  -- `r` is a copy of the object `o`, made in the heap `h`.
  pub record IsSeparate (lo : Ptr) (h : Heap (Cell L)) (o : Object) (w : ObjectValue L)
      (r : Option (Option Object × Heap (Cell L))) : Type 0 where
    pub copy : Object
    pub after : Heap (Cell L)
    pub returns : r ≡ some (some copy, after)
    pub grows : h.next ≤ after.next
    pub untouched : (a : Ptr) → a < h.next → after.cells a ≡ h.cells a
    pub stands : Holds h.next after.next after copy w
    pub copy_kept :
        (g : Heap (Cell L)) → Same h.next after.next after g → Holds h.next after.next g copy w
    pub original_kept : (g : Heap (Cell L)) → Same lo h.next after g → Holds lo h.next g o w

  -- `DeepCopyObject` of an object of any of the eight kinds, whose pointers, slices and maps all lead to cells
  -- that are in use, never faults: it gives an object, not nil, that stands for the same value and
  -- reaches new cells alone, and no cell that was in use is written. Whatever is written later to the
  -- cells that were in use before, the copy stands for the value; whatever is written to the new ones,
  -- the original does. The copies of the library's own structs do the same, and Go ranges over each entry
  -- of a map once. A slice or a map that is nil stands for an empty one.
  pub copy_object-IsSeparate :
      (lo : Ptr) (h : Heap (Cell L)) (o : Object) (w : ObjectValue L)
      → Holds lo h.next h o w
      → IsSeparate lo h o w (copy_object lib o h)
  copy_object-IsSeparate lo h o w held =
      let made = copied lo h o w held in
      let stands = made.reached in
      record {
        copy = stands.copy;
        after = made.after;
        returns = made.done ∙ ap (λ r. some (r, made.after)) stands.is_some;
        grows = made.grows;
        untouched = made.old;
        stands = stands.holds;
        copy_kept = λ g same.
            Holds-kept h.next made.after.next h.next made.after.next made.after g stands.copy w
              (omega arith) (omega arith) same stands.holds;
        original_kept = λ g same.
            Holds-kept lo h.next lo h.next h g o w (omega arith) (omega arith)
              (λ a from below. same a from below ∙ made.old a below) held;
      }
