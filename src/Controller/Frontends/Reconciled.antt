-- ===== src/Controller/Frontends/Reconciled.antt =====
-- What `ReconcileFrontends` achieves, and what it does not
-- (internal/controller/globalloadbalancer_controller.go).
use mathlib.Core.List.{Mem, Mem-prop, Nodup, mem-cons, mem-cons_self, mem-cons_of_mem, not-mem-nil}
use mathlib.Core.Logic.Or
use mathlib.Core.Option
use k8s_glb_operator.Base.{
  ◌<◌, ◌≡◌, ◌≢◌, sym, ap, ◌∙◌, Bool, true, false, Option, none, some, List, [], ◌∷◌, map, All,
  if◌then◌else◌, arith, Option-cases, inl, inr,
}
use k8s_glb_operator.Api.{
  Int32, Labels, LabelSelector, NamespacedName, namespaced_name_eq, Error, Result, ok, Frontend,
  FrontendStatus, frontend_key, GlobalLoadBalancer, LoadBalancerReference,
}
use k8s_glb_operator.Api.Words.{sign_bit}
use k8s_glb_operator.Controller.Ports.{ports_of, add_port, get_next_port}
use k8s_glb_operator.Controller.Ports.Gap.{HasRoom}
use k8s_glb_operator.Controller.Ports.Next.{get_next_port-free}
use k8s_glb_operator.Controller.Frontends.{
  FrontendClient, claim, give_port, assign, get_frontends, reconcile_frontends, refers_to,
}
use k8s_glb_operator.Controller.Frontends.Kept.{IsKept, listed-IsKept}
use k8s_glb_operator.Controller.Frontends.Assigned.{
  Accepts, rounds-status, reconcile_frontends-rounds,
}

-- The port in a frontend's status.
abbrev pub port_in : Option FrontendStatus → Option Int32
port_in none = none
port_in (some status) = status.port

mem-add_port :
    (o : Option Int32) (p : Int32) (ports : List Int32) → Mem p ports → Mem p (add_port o ports)
unfolding add_port
mem-add_port none p ports m = m
mem-add_port (some q) p ports m = mem-cons_of_mem q m

mem-ports_of :
    (fes : List Frontend) (fe : Frontend) (p : Int32)
    → Mem fe fes
    → fe.status.port ≡ some p
    → Mem p (ports_of fes)
unfolding ports_of add_port
mem-ports_of [] fe p m e = absurd (not-mem-nil m)
mem-ports_of (x ∷ fes) fe p m e =
    Or.elim Mem-prop (mem-cons.0 m) (λ same. rw (← same, e) mem-cons_self)
      (λ n. mem-add_port x.status.port p (ports_of fes) (mem-ports_of fes fe p n e))

next_port-ne :
    (fes : List Frontend) (starting_port p : Int32) (fe : Frontend)
    → All HasRoom (ports_of fes)
    → starting_port < sign_bit
    → Mem fe fes
    → fe.status.port ≡ some p
    → get_next_port fes starting_port ≢ p
next_port-ne fes starting_port p fe room start m e same =
    get_next_port-free fes starting_port room start (rw same (mem-ports_of fes fe p m e))

-- The port of a frontend after a pass that gives out the port `n`.
abbrev given : Int32 → Frontend → Int32
given n fe = Option.get_or fe.status.port n

given-ne :
    (fes : List Frontend) (starting_port : Int32) (a b : Frontend)
    → All HasRoom (ports_of fes)
    → starting_port < sign_bit
    → Mem a fes
    → Mem b fes
    → a.status.port ≢ b.status.port
    → given (get_next_port fes starting_port) a ≢ given (get_next_port fes starting_port) b
given-ne fes starting_port a b room start ma mb differ = elim (Option-cases a.status.port) [
  | inl na ↦ elim (Option-cases b.status.port) [
    | inl nb ↦ absurd (differ (na ∙ sym nb))
    | inr (q, eb) ↦ rw (na, eb) (next_port-ne fes starting_port q b room start mb eb)
  ]
  | inr (p, ea) ↦ elim (Option-cases b.status.port) [
    | inl nb ↦ rw (ea, nb) (λ e. next_port-ne fes starting_port p a room start ma ea (sym e))
    | inr (q, eb) ↦ rw (ea, eb) (λ e. differ (ea ∙ ap some e ∙ sym eb))
  ]
]

abbrev pub owner_in : Option FrontendStatus → Option LoadBalancerReference
owner_in none = none
owner_in (some status) = status.load_balancer

claimed_owner :
    (lb : GlobalLoadBalancer) (n : Int32) (fe : Frontend)
    → IsKept lb false fe
    → refers_to lb
        (owner_in (if (assign lb n fe).1 then some (assign lb n fe).0.status else some fe.status))
      ≡ true
unfolding assign claim give_port
claimed_owner lb n fe h = ground arith

module _ {S : Type 0} (client : FrontendClient S)
    (status_of : S → NamespacedName → Option FrontendStatus) (laws : Accepts client status_of)
    (as_selector : LabelSelector → Result (Labels → Bool)) (starting_port : Int32) (s : S)
    (lb : GlobalLoadBalancer) (fes : List Frontend)
    (listed : get_frontends client as_selector s lb false ≡ ok fes)
    (distinct : Nodup (map frontend_key fes)) where
  abbrev after_pass : S
  after_pass = (reconcile_frontends client as_selector starting_port s lb).0

  pub status_after :
      (fe : Frontend)
      → Mem fe fes
      → (status_of after_pass (frontend_key fe) ≡ (
          if (assign lb (get_next_port fes starting_port) fe).1
          then some (assign lb (get_next_port fes starting_port) fe).0.status
          else status_of s (frontend_key fe)))
        × ((reconcile_frontends client as_selector starting_port s lb).1 ≡ none)
  status_after fe m = (
    ap (λ (r : S × Option Error). status_of r.0 (frontend_key fe))
          (reconcile_frontends-rounds client as_selector starting_port s lb fes listed)
        ∙ rounds-status client status_of laws lb starting_port fes fes s fe distinct m,
    ap (λ (r : S × Option Error). r.1)
        (reconcile_frontends-rounds client as_selector starting_port s lb fes listed),
  )

  -- The port after the pass: the frontend's own, or the next one.
  pub port_after :
      (fe : Frontend)
      → Mem fe fes
      → status_of s (frontend_key fe) ≡ some fe.status
      → port_in (status_of after_pass (frontend_key fe))
        ≡ some (Option.get_or fe.status.port (get_next_port fes starting_port))
  unfolding assign claim give_port
  port_after fe m stored = ap port_in (status_after fe m).0 ∙ ground arith

  -- With the listed frontends under distinct names and a client whose updates succeed, two of them
  -- that both lack a port get the same one: the next port of the list as it was read.
  pub same_port :
      (a b : Frontend)
      → Mem a fes
      → Mem b fes
      → a.status.port ≡ none
      → b.status.port ≡ none
      → (port_in (status_of after_pass (frontend_key a)) ≡ some (get_next_port fes starting_port))
        × (port_in (status_of after_pass (frontend_key b)) ≡ some (get_next_port fes starting_port))
  unfolding assign claim give_port
  same_port a b ma mb na nb = (
    ap port_in (status_after a ma).0 ∙ ground arith,
    ap port_in (status_after b mb).0 ∙ ground arith,
  )

  -- With the listed frontends under distinct names and stored as listed, a client whose updates
  -- succeed, ports that are neither negative nor the largest `int32` and a first allowed one that is
  -- not negative, two listed frontends whose ports differ, of which so at most one lacks a port, have different ports after the pass.
  pub distinct_ports :
      All HasRoom (ports_of fes)
      → starting_port < sign_bit
      → (a b : Frontend) → Mem a fes
      → Mem b fes
      → status_of s (frontend_key a) ≡ some a.status
      → status_of s (frontend_key b) ≡ some b.status
      → a.status.port ≢ b.status.port
      → port_in (status_of after_pass (frontend_key a))
        ≢ port_in (status_of after_pass (frontend_key b))
  distinct_ports room start a b ma mb sa sb differ same =
      given-ne fes starting_port a b room start ma mb differ
        (Option.some-injective _ _ (sym (port_after a ma sa) ∙ same ∙ port_after b mb sb))

  -- With the listed frontends under distinct names and a client whose updates succeed, each listed
  -- frontend that is stored as listed refers to the load balancer after the pass.
  claimed :
      (fe : Frontend)
      → Mem fe fes
      → status_of s (frontend_key fe) ≡ some fe.status
      → refers_to lb (owner_in (status_of after_pass (frontend_key fe))) ≡ true
  claimed fe m stored =
      rw ((status_after fe m).0, stored)
        (claimed_owner lb (get_next_port fes starting_port) fe
          (listed-IsKept client as_selector s lb false fes listed fe m))
