-- ===== src/Controller/Frontends/Again.antt =====
-- A second pass of `ReconcileFrontends` (internal/controller/globalloadbalancer_controller.go).
use mathlib.Core.List.{Mem, Nodup, exists_of_mem-map}
use mathlib.Core.Logic.{∥∥₁_elim}
use k8s_glb_operator.Base.Members.{All-mem}
use k8s_glb_operator.Base.{
  ◌≡◌, refl, ap, subst, ◌∙◌, Bool, true, false, not, ◌||◌, Option, none, some, List, [], ◌∷◌, map,
  All, if◌then◌else◌, arith,
}
use k8s_glb_operator.Api.{
  Int32, Labels, LabelSelector, NamespacedName, Result, ok, Frontend, FrontendStatus, frontend_key,
  GlobalLoadBalancer,
}
use k8s_glb_operator.Controller.Ports.{get_next_port}
use k8s_glb_operator.Controller.Frontends.{
  FrontendClient, is_none, claim, give_port, assign, round, rounds, first_port, get_frontends,
  reconcile_frontends,
}
use k8s_glb_operator.Controller.Frontends.Assigned.{Accepts, status_set}
use k8s_glb_operator.Controller.Frontends.Reconciled.{status_after}

-- Whether a status names a load balancer and a port.
abbrev pub complete_in : Option FrontendStatus → Bool
complete_in none = false
complete_in (some status) = not (is_none status.load_balancer || is_none status.port)

complete_in-assign :
    (lb : GlobalLoadBalancer) (n : Int32) (fe : Frontend)
    → complete_in (if (assign lb n fe).1 then some (assign lb n fe).0.status else some fe.status)
      ≡ true
unfolding assign claim give_port
complete_in-assign lb n fe = ground arith

nothing_missing :
    (lb : GlobalLoadBalancer) (n : Int32) (fe : Frontend)
    → complete_in (some fe.status) ≡ true
    → (assign lb n fe).1 ≡ false
unfolding assign claim give_port
nothing_missing lb n fe h = ground arith

module _ {S : Type 0} (client : FrontendClient S) (lb : GlobalLoadBalancer) (starting_port : Int32)
    (frontends : List Frontend) where
  -- The loop writes nothing where nothing is missing.
  round-quiet :
      (fe : Frontend) (s : S) (n : Int32)
      → complete_in (some fe.status) ≡ true
      → (round client lb starting_port frontends fe (s, n)).0 ≡ s
  unfolding round
  round-quiet fe s n h = ground (arith, nothing_missing lb n fe h)

  rounds-quiet :
      (fes : List Frontend) (s : S) (n : Int32)
      → All (λ (fe : Frontend). complete_in (some fe.status) ≡ true) fes
      → rounds client lb starting_port frontends fes (s, n) ≡ s
  unfolding rounds
  rounds-quiet [] s n h = refl
  rounds-quiet (fe ∷ fes) s n h =
      let after = round client lb starting_port frontends fe (s, n) in
      rounds-quiet fes after.0 after.1 h.1 ∙ round-quiet fe s n h.0

-- A pass over frontends that lack nothing has no error and leaves the state exactly as it is.
pub complete_pass :
    {S : Type 0} (client : FrontendClient S) (lb : GlobalLoadBalancer) (starting_port : Int32)
    (as_selector : LabelSelector → Result (Labels → Bool)) (s : S) (fes : List Frontend)
    → get_frontends client as_selector s lb false ≡ ok fes
    → All (λ (fe : Frontend). complete_in (some fe.status) ≡ true) fes
    → reconcile_frontends client as_selector starting_port s lb ≡ (s, none)
unfolding reconcile_frontends
complete_pass {S} client lb starting_port as_selector s fes listed complete =
    rw (listed, reconcile_frontends)
      (ap (λ (s' : S). (s', none))
        (rounds-quiet client lb starting_port fes fes s (first_port starting_port fes) complete))

module _ {S : Type 0} (client : FrontendClient S)
    (status_of : S → NamespacedName → Option FrontendStatus) (laws : Accepts client status_of)
    (as_selector : LabelSelector → Result (Labels → Bool)) (starting_port : Int32) (s : S)
    (lb : GlobalLoadBalancer) (fes : List Frontend)
    (listed : get_frontends client as_selector s lb false ≡ ok fes)
    (distinct : Nodup (map frontend_key fes))
    (stored : All (λ (fe : Frontend). status_of s (frontend_key fe) ≡ some fe.status) fes) where
  abbrev pub after_pass : S
  after_pass = (reconcile_frontends client as_selector starting_port s lb).0

  stored_at : (fe : Frontend) → Mem fe fes → status_of s (frontend_key fe) ≡ some fe.status
  stored_at =
      All-mem (λ (fe : Frontend). status_of s (frontend_key fe) ≡ some fe.status)
        (λ fe. status_set _ _) fes stored

  complete_after :
      (fe : Frontend) → Mem fe fes → complete_in (status_of after_pass (frontend_key fe)) ≡ true
  complete_after fe m =
      ap complete_in
        (status_after client status_of laws as_selector starting_port s lb fes listed distinct fe
          m).0
      ∙ rw (stored_at fe m) (complete_in-assign lb (get_next_port fes starting_port) fe)

  complete_at :
      (k : NamespacedName)
      → Mem k (map frontend_key fes)
      → complete_in (status_of after_pass k) ≡ true
  complete_at k m =
      ∥∥₁_elim (exists_of_mem-map m) (hlevel)
        (λ (t : (fe : Frontend) × Mem fe fes × (frontend_key fe ≡ k)).
          subst (λ j. complete_in (status_of after_pass j) ≡ true) t.2 (complete_after t.0 t.1))

  -- A frontend among the listed ones, with the status that the pass has left.
  abbrev pub IsFresh : Frontend → Type 0
  IsFresh fe =
      Mem (frontend_key fe) (map frontend_key fes)
      × (status_of after_pass (frontend_key fe) ≡ some fe.status)

  complete_again :
      (again : List Frontend)
      → All IsFresh again
      → All (λ (fe : Frontend). complete_in (some fe.status) ≡ true) again
  complete_again [] h = tt
  complete_again (fe ∷ again) ((among, fresh), h) = (
    subst (λ o. complete_in o ≡ true) fresh (complete_at (frontend_key fe) among),
    complete_again again h,
  )

  -- With the listed frontends under distinct names and stored as listed, and a client whose updates
  -- succeed, a pass that follows the first one and lists some of the same frontends, each with its
  -- stored status, has no error and leaves the state exactly as it is.
  pub second_pass :
      (again : List Frontend)
      → get_frontends client as_selector after_pass lb false ≡ ok again
      → All IsFresh again
      → reconcile_frontends client as_selector starting_port after_pass lb ≡ (after_pass, none)
  second_pass again relisted fresh =
      complete_pass client lb starting_port as_selector after_pass again relisted
        (complete_again again fresh)
