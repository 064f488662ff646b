-- ===== src/Controller/Frontends/Unchanged.antt =====
-- What `ReconcileFrontends` leaves as it is (internal/controller/globalloadbalancer_controller.go):
-- whatever its status updates do.
use k8s_glb_operator.Base.{◌≡◌, refl, ◌∙◌, Bool, false, Option, none, some, List, [], ◌∷◌, arith}
use k8s_glb_operator.Api.{
  Int32, Labels, LabelSelector, Error, Result, ok, Frontend, GlobalLoadBalancer,
}
use k8s_glb_operator.Controller.Ports.{get_next_port}
use k8s_glb_operator.Controller.Frontends.{
  FrontendClient, assign, after_update, round, rounds, first_port, get_frontends,
  reconcile_frontends,
}

-- `see` is something that is read of the server and that no status update changes.
module _ {S X : Type 0} (client : FrontendClient S) (see : S → X)
    (kept : (s : S) (fe : Frontend) → see (client.update_status s fe).0 ≡ see s)
    (lb : GlobalLoadBalancer) (starting_port : Int32) where
  after_update-kept : (n m : Int32) (r : S × Option Error) → see (after_update n m r).0 ≡ see r.0
  unfolding after_update
  after_update-kept n m (s, none) = refl
  after_update-kept n m (s, some e) = refl

  round-kept :
      (fes : List Frontend) (fe : Frontend) (at : S × Int32)
      → see (round client lb starting_port fes fe at).0 ≡ see at.0
  unfolding round
  round-kept fes fe (s, n) = ground (
    arith,
    after_update-kept n (get_next_port fes starting_port)
        (client.update_status s (assign lb n fe).0),
    kept s (assign lb n fe).0,
  )

  rounds-kept :
      (fes rest : List Frontend) (at : S × Int32)
      → see (rounds client lb starting_port fes rest at) ≡ see at.0
  unfolding rounds
  rounds-kept fes [] at = refl
  rounds-kept fes (fe ∷ rest) at =
      rounds-kept fes rest (round client lb starting_port fes fe at) ∙ round-kept fes fe at

  pub reconcile_frontends-kept :
      (as_selector : LabelSelector → Result (Labels → Bool)) (s : S) (fes : List Frontend)
      → get_frontends client as_selector s lb false ≡ ok fes
      → ((reconcile_frontends client as_selector starting_port s lb).1 ≡ none)
        × (see (reconcile_frontends client as_selector starting_port s lb).0 ≡ see s)
  unfolding reconcile_frontends
  reconcile_frontends-kept as_selector s fes read =
      rw (read, reconcile_frontends) (refl, rounds-kept fes fes (s, first_port starting_port fes))
