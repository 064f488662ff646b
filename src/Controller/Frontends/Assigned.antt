-- ===== src/Controller/Frontends/Assigned.antt =====
-- The load balancer and the port that each frontend has after `ReconcileFrontends`
-- (internal/controller/globalloadbalancer_controller.go).
use mathlib.Core.List.{
  Mem, Nodup, Nodup-cons, mem-cons, mem-cons_of_mem, not-mem-nil, mem-map_of_mem,
}
use mathlib.Core.Logic.Or
use mathlib.Core.Option
use k8s_glb_operator.Base.{
  ◌≡◌, ◌≢◌, refl, subst, ap, ◌∙◌, String-set, Option, none, some, List, [], ◌∷◌, map, if◌then◌else◌,
  Bool, false, not, ◌&&◌, ◌||◌, ◌==◌, string_eq, arith,
}
use k8s_glb_operator.Api.{
  Int32, Labels, LabelSelector, NamespacedName, namespaced_name_eq, Error, Result, ok, Frontend,
  FrontendStatus, frontend_key, GlobalLoadBalancer,
}
use k8s_glb_operator.Controller.Ports.{get_next_port}
use k8s_glb_operator.Controller.Frontends.{
  FrontendClient, is_none, claim, give_port, assign, after_update, round, rounds, first_port,
  get_frontends, reconcile_frontends,
}

-- A client whose status updates succeed, and the statuses that its API server then holds.
pub record Accepts {S : Type 0} (client : FrontendClient S)
    (status_of : S → NamespacedName → Option FrontendStatus) : Type 0 where
  pub accepted : (s : S) (fe : Frontend) → (client.update_status s fe).1 ≡ none
  pub written :
      (s : S) (fe : Frontend) (k : NamespacedName)
      → status_of (client.update_status s fe).0 k
        ≡ (if k == frontend_key fe then some fe.status else status_of s k)

-- A client of whose status updates the API server refuses those of some frontends, and leaves what it holds.
pub record Answers {S : Type 0} (client : FrontendClient S)
    (status_of : S → NamespacedName → Option FrontendStatus) (refuses : NamespacedName → Bool)
    : Type 0 where
  pub answered :
      (s : S) (fe : Frontend) (k : NamespacedName)
      → status_of (client.update_status s fe).0 k
        ≡ (if k == frontend_key fe && not (refuses k) then some fe.status else status_of s k)

pub Accepts-Answers :
    {S : Type 0} (client : FrontendClient S)
    (status_of : S → NamespacedName → Option FrontendStatus)
    → Accepts client status_of
    → Answers client status_of (λ k. false)
Accepts-Answers client status_of laws = record {
  answered = λ s fe k. ground (arith, laws.written s fe k);
}

-- A failed update leaves the next port, which is the one that is computed again anyhow.
after_update-same : {S : Type 0} (n : Int32) (r : S × Option Error) → after_update n n r ≡ (r.0, n)
unfolding after_update
after_update-same n (s, none) = refl
after_update-same n (s, some e) = refl

pub status_set : IsSet (Option FrontendStatus)
status_set = hlevel String-set

assign-key :
    (lb : GlobalLoadBalancer) (n : Int32) (fe : Frontend)
    → frontend_key (assign lb n fe).0 ≡ frontend_key fe
unfolding assign claim give_port
assign-key lb n fe = ground arith

-- What a status lacks is filled in, and the rest stays.
abbrev pub completed : GlobalLoadBalancer → Int32 → FrontendStatus → FrontendStatus
completed lb port status = record status {
  port = some (Option.get_or status.port port);
  load_balancer =
      some
        (Option.get_or status.load_balancer (record { name = lb.name; namespace = lb.namespace }));
}

abbrev pub is_incomplete : FrontendStatus → Bool
is_incomplete status = is_none status.load_balancer || is_none status.port

pub assign-completed :
    (lb : GlobalLoadBalancer) (n : Int32) (fe : Frontend)
    → ((assign lb n fe).1 ≡ is_incomplete fe.status)
      × ((assign lb n fe).0.status ≡ completed lb n fe.status)
unfolding assign claim give_port
assign-completed lb n fe = (ground arith, ground arith)

module _ {S : Type 0} (client : FrontendClient S)
    (status_of : S → NamespacedName → Option FrontendStatus) (refuses : NamespacedName → Bool)
    (laws : Answers client status_of refuses) (lb : GlobalLoadBalancer)
    (starting_port : Int32) where
  -- The status that a pass leaves a frontend with.
  abbrev pub after : Int32 → Frontend → Option FrontendStatus → Option FrontendStatus
  after n fe old =
      if (assign lb n fe).1 && not (refuses (frontend_key fe))
      then some (assign lb n fe).0.status
      else old

  module _ (frontends : List Frontend) where
    abbrev pub next : Int32
    next = get_next_port frontends starting_port

    round-next :
        (fe : Frontend) (s : S) → (round client lb starting_port frontends fe (s, next)).1 ≡ next
    unfolding round
    round-next fe s =
        ground (arith, after_update-same next (client.update_status s (assign lb next fe).0))

    round-status :
        (fe : Frontend) (s : S) (k : NamespacedName)
        → status_of (round client lb starting_port frontends fe (s, next)).0 k
          ≡ (if k == frontend_key fe then after next fe (status_of s k) else status_of s k)
    unfolding round
    round-status fe s k = ground (
      arith,
      after_update-same next (client.update_status s (assign lb next fe).0),
      laws.answered s (assign lb next fe).0 k,
      assign-key lb next fe,
    )

    rounds-step :
        (fe : Frontend) (fes : List Frontend) (s : S)
        → rounds client lb starting_port frontends (fe ∷ fes) (s, next)
          ≡ rounds client lb starting_port frontends fes
              ((round client lb starting_port frontends fe (s, next)).0, next)
    unfolding rounds
    rounds-step fe fes s =
        ap
          (λ n.
            rounds client lb starting_port frontends fes
              ((round client lb starting_port frontends fe (s, next)).0, n))
          (round-next fe s)

    rounds-absent :
        (fes : List Frontend) (s : S) (k : NamespacedName)
        → ¬ Mem k (map frontend_key fes)
        → status_of (rounds client lb starting_port frontends fes (s, next)) k ≡ status_of s k
    unfolding rounds
    rounds-absent [] s k absent = refl
    rounds-absent (fe ∷ fes) s k absent =
        let other : k ≢ frontend_key fe = λ e. absent (mem-cons.1 (Or.inl e)) in
        rw (rounds-step fe fes s) (
          rounds-absent fes (round client lb starting_port frontends fe (s, next)).0 k
            (λ m. absent (mem-cons_of_mem (frontend_key fe) m))
          ∙ ground (arith, round-status fe s k))

    rounds-head :
        (fe : Frontend) (fes : List Frontend) (s : S)
        → ¬ Mem (frontend_key fe) (map frontend_key fes)
        → status_of
            (rounds client lb starting_port frontends (fe ∷ fes) (s, next))
            (frontend_key fe)
          ≡ after next fe (status_of s (frontend_key fe))
    rounds-head fe fes s absent = rw (rounds-step fe fes s) (
        rounds-absent fes (round client lb starting_port frontends fe (s, next)).0 (frontend_key fe)
          absent
        ∙ ground (arith, round-status fe s (frontend_key fe)))

    pub rounds-answered :
        (fes : List Frontend) (s : S) (fe : Frontend)
        → Nodup (map frontend_key fes)
        → Mem fe fes
        → status_of (rounds client lb starting_port frontends fes (s, next)) (frontend_key fe)
          ≡ after next fe (status_of s (frontend_key fe))
    rounds-answered [] s fe distinct m = absurd (not-mem-nil m)
    rounds-answered (x ∷ fes) s fe distinct m =
        Or.elim (status_set _ _) (mem-cons.0 m)
          (λ e. rw e (rounds-head x fes s (Nodup-cons.0 distinct).0))
          (λ n.
            let other : frontend_key fe ≢ frontend_key x = λ e.
              (Nodup-cons.0 distinct).0
                (subst (λ k. Mem k (map frontend_key fes)) e (mem-map_of_mem frontend_key n)) in
            rw (rounds-step x fes s) (
              rounds-answered fes (round client lb starting_port frontends x (s, next)).0 fe
                (Nodup-cons.0 distinct).1 n
              ∙ ap (after next fe) (round-status x s (frontend_key fe) ∙ ground arith)))

pub rounds-status :
    {S : Type 0} (client : FrontendClient S)
    (status_of : S → NamespacedName → Option FrontendStatus) (laws : Accepts client status_of)
    (lb : GlobalLoadBalancer) (starting_port : Int32) (frontends fes : List Frontend) (s : S)
    (fe : Frontend)
    → Nodup (map frontend_key fes)
    → Mem fe fes
    → status_of
        (rounds client lb starting_port frontends fes (s, get_next_port frontends starting_port))
        (frontend_key fe)
      ≡ (if (assign lb (get_next_port frontends starting_port) fe).1
          then some (assign lb (get_next_port frontends starting_port) fe).0.status
          else status_of s (frontend_key fe))
rounds-status client status_of laws lb starting_port frontends fes s fe distinct m =
    rounds-answered client status_of (λ k. false) (Accepts-Answers client status_of laws) lb
      starting_port frontends fes s fe distinct m
    ∙ ground arith

first_port-eq :
    (starting_port : Int32) (fes : List Frontend)
    → first_port starting_port fes ≡ get_next_port fes starting_port
unfolding first_port get_next_port
first_port-eq starting_port [] = refl
first_port-eq starting_port (fe ∷ fes) = ground arith

-- The pass is the loop, from the next port of the list that it reads.
pub reconcile_frontends-rounds :
    {S : Type 0} (client : FrontendClient S) (as_selector : LabelSelector → Result (Labels → Bool))
    (starting_port : Int32) (s : S) (lb : GlobalLoadBalancer) (fes : List Frontend)
    → get_frontends client as_selector s lb false ≡ ok fes
    → reconcile_frontends client as_selector starting_port s lb
      ≡ (rounds client lb starting_port fes fes (s, get_next_port fes starting_port), none)
unfolding reconcile_frontends
reconcile_frontends-rounds client as_selector starting_port s lb fes listed =
    rw (listed, reconcile_frontends) (rw (first_port-eq starting_port fes))
