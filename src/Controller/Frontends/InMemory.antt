-- ===== src/Controller/Frontends/InMemory.antt =====
-- The body of the loop of `ReconcileFrontends` (internal/controller/globalloadbalancer_controller.go) over
-- memory: its `frontend` is a copy of the element of the list, whose pointers are those of the element.
use mathlib.Core.Option
use k8s_glb_operator.Base.{
  ◌≡◌, refl, sym, subst, ◌≤◌, Bool, true, false, ◌||◌, Option, none, some, arith,
}
use k8s_glb_operator.Api.{Int32, Frontend, GlobalLoadBalancer}
use k8s_glb_operator.Memory.{Ptr, Heap, Cmd, Kind, pure, ◌>>=◌, ◌>>◌, new, store}
use k8s_glb_operator.Memory.Views.{plain, pointer}
use k8s_glb_operator.Memory.Copies.{Returns, bind, returned}
use k8s_glb_operator.Memory.Fields.{still}
use k8s_glb_operator.DeepCopy.{Library, LibraryCopies}
use k8s_glb_operator.DeepCopy.Structs.{StoredFrontend}
use k8s_glb_operator.DeepCopy.Cells.{Cell}
use k8s_glb_operator.DeepCopy.Kinds.{load_balancer_reference_kind, int32_kind}
use k8s_glb_operator.DeepCopy.Held.{LibraryViews, LibraryLaws, Typed}
use k8s_glb_operator.DeepCopy.Frontends.Copied.{
  frontend_view, frontend_field, port_field, reference_field,
}
use k8s_glb_operator.Controller.Frontends.{is_none, claim, give_port, assign}
use k8s_glb_operator.Controller.Frontends.Assigned.{completed, is_incomplete}

-- `if x == nil { x = &a; updated = true }`
unfoldable pub fill : {C A : Type 0} → Kind C A → A → Option Ptr → Cmd C (Option Ptr × Bool)
unfolding new store
fill kind a none = do p ← new; store kind p a; pure (some p, true)
fill kind a (some p) = pure (some p, false)

-- The frontend with the pointers of its status, and whether one of them is new.
abbrev updated :
    {L : Library}
    → StoredFrontend L
    → Option Ptr × Bool
    → Option Ptr × Bool
    → StoredFrontend L × Bool
updated frontend owner port = (
  record frontend { status = record (frontend.status) { load_balancer = owner.0; port = port.0 } },
  owner.1 || port.1,
)

unfoldable pub assign_in_memory :
    {L : Library}
    → GlobalLoadBalancer
    → Int32
    → StoredFrontend L
    → Cmd (Cell L) (StoredFrontend L × Bool)
unfolding fill
assign_in_memory lb next_port frontend = do
  owner ←
      fill load_balancer_reference_kind (record { name = lb.name; namespace = lb.namespace })
        frontend.status.load_balancer
  port ← fill int32_kind next_port frontend.status.port
  pure (updated frontend owner port)

module _ {C A : Type 0} (kind : Kind C A) (a : A) where
  fill_lem :
      (lo : Ptr) (h : Heap C) (o : Option Ptr) (v : Option A)
      → lo ≤ h.next
      → pointer kind plain lo h.next h o v
      → Returns h
          (λ r g. pointer kind plain lo g.next g r.0 (some (Option.get_or v a)) × (r.1 ≡ is_none v))
          (fill kind a o h)
  unfolding fill new store
  fill_lem lo h none none low held = record {
    value = (some h.next, true);
    after = _;
    done = refl;
    grows = omega arith;
    old = λ b below. ground (arith, below);
    reached = (
      record { from = low; below = omega arith; target = a; at = ground arith; held = refl },
      refl,
    );
  }
  fill_lem lo h none (some v) low held = absurd held
  fill_lem lo h (some p) none low held = absurd held
  fill_lem lo h (some p) (some v) low held = returned h (some p, false) (held, refl)

-- The frontend that the status is filled in of.
filled : GlobalLoadBalancer → Int32 → Frontend → Frontend
filled lb n fe = record fe { status = completed lb n fe.status }

assign-filled :
    (lb : GlobalLoadBalancer) (n : Int32) (fe : Frontend)
    → assign lb n fe ≡ (filled lb n fe, is_incomplete fe.status)
unfolding assign claim give_port filled
assign-filled lb n fe = ground arith

module _ {L : Library} (views : LibraryViews L) (lib : LibraryCopies L (Cell L))
    (laws : LibraryLaws views lib) (lb : GlobalLoadBalancer) (n : Int32) where
  -- What the frontend, the loop's copy of it and the flag are after the body of the loop.
  abbrev pub IsAssigned :
      Ptr
      → StoredFrontend L
      → Typed Frontend
      → Frontend × Bool
      → StoredFrontend L × Bool
      → Heap (Cell L)
      → Type 0
  IsAssigned lo fe v result r g =
      frontend_view views lib laws lo g.next g r.0 (record v { object = result.0 })
      × ((r.1 ≡ result.1) × frontend_view views lib laws lo g.next g fe v)

  assign_in_memory-filled :
      (lo : Ptr) (h : Heap (Cell L)) (fe : StoredFrontend L) (v : Typed Frontend)
      → lo ≤ h.next
      → frontend_view views lib laws lo h.next h fe v
      → Returns h
          (IsAssigned lo fe v (filled lb n v.object, is_incomplete v.object.status))
          (assign_in_memory lb n fe h)
  unfolding assign_in_memory filled
  assign_in_memory-filled lo h fe v low held =
      let status = held.1.1.1 in
      let owner =
        fill_lem load_balancer_reference_kind (record { name = lb.name; namespace = lb.namespace })
          lo h fe.status.load_balancer v.object.status.load_balancer low status.1.1 in
      let port =
        fill_lem int32_kind n lo owner.after fe.status.port v.object.status.port
          (omega (arith, low, owner.grows))
          (still port_field owner lo fe.status.port v.object.status.port status.1.0) in
      let before = still (frontend_field views lib laws) owner lo fe v held in
      let kept = still (frontend_field views lib laws) port lo fe v before in
      bind h
        (fill load_balancer_reference_kind (record { name = lb.name; namespace = lb.namespace })
          fe.status.load_balancer)
        (λ o. fill int32_kind n fe.status.port >>= λ p. pure (updated fe o p)) owner
        (bind owner.after (fill int32_kind n fe.status.port) (λ p. pure (updated fe owner.value p))
          port
          (returned port.after (updated fe owner.value port.value) (
            (
              kept.0,
              (
                kept.1.0,
                (
                  kept.1.1.0,
                  (
                    kept.1.1.1.0,
                    (
                      port.reached.0,
                      still reference_field port lo owner.value.0
                          (some (
                            Option.get_or v.object.status.load_balancer
                              (record { name = lb.name; namespace = lb.namespace })))
                          owner.reached.0,
                    ),
                  ),
                ),
              ),
            ),
            (cc (owner.reached.1, port.reached.1), kept),
          )))

  -- On memory in which the frontend of the list stands for an object, the body of the loop never faults and
  -- writes no address in use: the loop's copy then stands for what `assign` gives that object, the flag is
  -- that of `assign`, and the frontend of the list stands for what it stood for.
  pub assign_in_memory_lem :
      (lo : Ptr) (h : Heap (Cell L)) (fe : StoredFrontend L) (v : Typed Frontend)
      → lo ≤ h.next
      → frontend_view views lib laws lo h.next h fe v
      → Returns h (IsAssigned lo fe v (assign lb n v.object)) (assign_in_memory lb n fe h)
  assign_in_memory_lem lo h fe v low held =
      subst (λ result. Returns h (IsAssigned lo fe v result) (assign_in_memory lb n fe h))
        (sym (assign-filled lb n v.object)) (assign_in_memory-filled lo h fe v low held)
