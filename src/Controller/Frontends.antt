-- ===== src/Controller/Frontends.antt =====
-- `getFrontends` and `ReconcileFrontends` of internal/controller/globalloadbalancer_controller.go.
-- The API server behind the client is a parameter, over an unknown state.
pub mod Assigned
pub mod Kept
pub mod Reconciled
pub mod Refused
pub mod InMemory
pub mod Again
pub mod Unchanged
use k8s_glb_operator.Base.{
  ℕ, zero, suc, ◌<◌, Bool, true, false, ◌&&◌, ◌||◌, String, Option, none, some, List, [], ◌∷◌,
  if◌then◌else◌, ◌==◌, string_eq, length, ltb,
}
use k8s_glb_operator.Api.{
  Int32, Labels, LabelSelector, Error, wrapped, Result, ok, err, ◌>>=◌, Frontend,
  GlobalLoadBalancer, LoadBalancerReference,
}
use k8s_glb_operator.Controller.Ports.{get_next_port}

-- `r.List` with a label selector, and `r.Client.Status().Update`.
pub record FrontendClient (S : Type 0) : Type 0 where
  pub list_frontends : S → (Labels → Bool) → Result (List Frontend)
  pub update_status : S → Frontend → S × Option Error

abbrev pub is_none {ℓ} : {A : Type ℓ} → Option A → Bool
is_none none = true
is_none (some a) = false

-- Whether the reference names the load balancer.
abbrev pub refers_to : GlobalLoadBalancer → Option LoadBalancerReference → Bool
refers_to lb none = false
refers_to lb (some ref) = ref.namespace == lb.namespace && ref.name == lb.name

-- The loop of `getFrontends`.
unfoldable pub keep_frontends : GlobalLoadBalancer → Bool → List Frontend → List Frontend
keep_frontends lb only_owned [] = []
keep_frontends lb only_owned (fe ∷ fes) =
    let rest = keep_frontends lb only_owned fes in
    if only_owned && is_none fe.status.load_balancer
    then rest
    else if is_none fe.status.load_balancer || refers_to lb fe.status.load_balancer
    then fe ∷ rest
    else rest

-- The body of the loop of `ReconcileFrontends`, on the loop's own copy of a frontend: what it gets,
-- and whether it was updated.
unfoldable pub claim : GlobalLoadBalancer → Frontend → Frontend × Bool
claim lb fe = elim fe.status.load_balancer [
  | none ↦ (
    record fe {
      status = record (fe.status) {
        load_balancer = some (record { name = lb.name; namespace = lb.namespace });
      };
    },
    true,
  )
  | some ref ↦ (fe, false)
]

unfoldable pub give_port : Int32 → Frontend × Bool → Frontend × Bool
give_port next_port (fe, updated) = elim fe.status.port [
  | none ↦ (record fe { status = record (fe.status) { port = some next_port } }, true)
  | some port ↦ (fe, updated)
]

unfoldable pub assign : GlobalLoadBalancer → Int32 → Frontend → Frontend × Bool
unfolding claim give_port
assign lb next_port fe = give_port next_port (claim lb fe)

module _ {S : Type 0} (client : FrontendClient S)
    (as_selector : LabelSelector → Result (Labels → Bool)) where
  unfoldable pub get_frontends : S → GlobalLoadBalancer → Bool → Result (List Frontend)
  unfolding keep_frontends
  get_frontends s lb only_owned = elim (as_selector lb.spec.frontend_selector) [
    | err e ↦ err (wrapped "invalid backend selector on GlobalLoadBalancer" e)
    | ok matches ↦ do fes ← client.list_frontends s matches; ok (keep_frontends lb only_owned fes)
  ]

-- The next port before the loop.
unfoldable pub first_port : Int32 → List Frontend → Int32
first_port starting_port frontends =
    if ltb 0 (length frontends) then get_next_port frontends starting_port else starting_port

-- A failed update is logged, and `continue` passes the computation of the next port over.
unfoldable pub after_update : {S : Type 0} → Int32 → Int32 → S × Option Error → S × Int32
after_update next_port recomputed (s, none) = (s, recomputed)
after_update next_port recomputed (s, some e) = (s, next_port)

module _ {S : Type 0} (client : FrontendClient S) (lb : GlobalLoadBalancer)
    (starting_port : Int32) where
  -- One round of the loop: the state after it, and the next port. That is computed from the list
  -- that is ranged over, whose elements the loop does not change: its `frontend` is a copy.
  unfoldable pub round : List Frontend → Frontend → S × Int32 → S × Int32
  round frontends fe (s, next_port) =
      let (fe', updated) = assign lb next_port fe in
      let recomputed = get_next_port frontends starting_port in
      if updated
      then after_update next_port recomputed (client.update_status s fe')
      else (s, recomputed)

  unfoldable pub rounds : List Frontend → List Frontend → S × Int32 → S
  rounds frontends [] at = at.0
  rounds frontends (fe ∷ fes) at = rounds frontends fes (round frontends fe at)

module _ {S : Type 0} (client : FrontendClient S)
    (as_selector : LabelSelector → Result (Labels → Bool)) (starting_port : Int32) where
  unfoldable pub reconcile_frontends : S → GlobalLoadBalancer → S × Option Error
  unfolding get_frontends rounds first_port
  reconcile_frontends s lb = elim (get_frontends client as_selector s lb false) [
    | err e ↦ (s, some e)
    | ok frontends ↦ (
      rounds client lb starting_port frontends frontends (s, first_port starting_port frontends),
      none,
    )
  ]
