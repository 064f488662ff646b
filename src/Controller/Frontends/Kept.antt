-- ===== src/Controller/Frontends/Kept.antt =====
-- Which frontends `getFrontends` gives a load balancer
-- (internal/controller/globalloadbalancer_controller.go).
use mathlib.Core.List.{Mem, Mem-prop, mem-cons, mem-cons_self, mem-cons_of_mem, not-mem-nil}
use mathlib.Core.Bool.{Bool-discrete}
use mathlib.Core.HLevel.{×_prop, hedberg}
use mathlib.Core.Logic.Or
use k8s_glb_operator.Base.{
  ◌≡◌, ◌↔◌, refl, subst, Bool, true, false, not, ◌&&◌, ◌||◌, Option, none, some, List, [], ◌∷◌,
  if◌then◌else◌, arith, Bool-cases, inl, inr, ◌⊎◌,
}
use k8s_glb_operator.Api.{
  Labels, LabelSelector, Result, ok, Result-cases, Frontend, GlobalLoadBalancer,
  LoadBalancerReference,
}
use k8s_glb_operator.Controller.Frontends.{
  is_none, refers_to, keep_frontends, FrontendClient, get_frontends,
}

-- A frontend that is free, where free ones are wanted, or that refers to the load balancer.
abbrev pub IsKept : GlobalLoadBalancer → Bool → Frontend → Type 0
IsKept lb only_owned fe =
    ((not only_owned && is_none fe.status.load_balancer || refers_to lb fe.status.load_balancer)
      ≡ true)

keep_cases :
    (lb : GlobalLoadBalancer) (only_owned : Bool) (ref : Option LoadBalancerReference) {A : Type 0}
    (xs ys : A)
    → (((not only_owned && is_none ref || refers_to lb ref) ≡ true)
        × ((if only_owned && is_none ref
              then ys
              else if is_none ref || refers_to lb ref
              then xs
              else ys)
            ≡ xs))
      ⊎ ((¬ ((not only_owned && is_none ref || refers_to lb ref) ≡ true))
          × ((if only_owned && is_none ref
                then ys
                else if is_none ref || refers_to lb ref
                then xs
                else ys)
              ≡ ys))
keep_cases lb true none xs ys = inr (λ h. cc, refl)
keep_cases lb false none xs ys = inl (refl, refl)
keep_cases lb only_owned (some ref) xs ys = elim (Bool-cases (refers_to lb (some ref))) [
  | inl ours ↦ inl (ground arith, ground arith)
  | inr theirs ↦ inr (ground arith, ground arith)
]

keep_frontends_cases :
    (lb : GlobalLoadBalancer) (only_owned : Bool) (fe : Frontend) (fes : List Frontend)
    → (IsKept lb only_owned fe
        × (keep_frontends lb only_owned (fe ∷ fes) ≡ fe ∷ keep_frontends lb only_owned fes))
      ⊎ ((¬ IsKept lb only_owned fe)
          × (keep_frontends lb only_owned (fe ∷ fes) ≡ keep_frontends lb only_owned fes))
unfolding keep_frontends
keep_frontends_cases lb only_owned fe fes =
    keep_cases lb only_owned fe.status.load_balancer (fe ∷ keep_frontends lb only_owned fes)
      (keep_frontends lb only_owned fes)

kept :
    (lb : GlobalLoadBalancer) (only_owned : Bool) (fes : List Frontend) (fe : Frontend)
    → Mem fe (keep_frontends lb only_owned fes)
    → Mem fe fes × IsKept lb only_owned fe
unfolding keep_frontends
kept lb only_owned [] fe m = absurd (not-mem-nil m)
kept lb only_owned (x ∷ fes) fe m = elim (keep_frontends_cases lb only_owned x fes) [
  | inl (keep, e) ↦
      Or.elim (×_prop Mem-prop (hedberg Bool-discrete _ _)) (mem-cons.0 (rw e at m))
        (λ same. (rw same mem-cons_self, rw same keep))
        (λ n. let (a, b) = kept lb only_owned fes fe n in (mem-cons_of_mem x a, b))
  | inr (drop, e) ↦ let (a, b) = kept lb only_owned fes fe (rw e at m) in (mem-cons_of_mem x a, b)
]

keep :
    (lb : GlobalLoadBalancer) (only_owned : Bool) (fes : List Frontend) (fe : Frontend)
    → Mem fe fes
    → IsKept lb only_owned fe
    → Mem fe (keep_frontends lb only_owned fes)
keep lb only_owned [] fe m h = absurd (not-mem-nil m)
keep lb only_owned (x ∷ fes) fe m h = elim (keep_frontends_cases lb only_owned x fes) [
  | inl (_, e) ↦ rw e (
      Or.elim Mem-prop (mem-cons.0 m) (λ same. rw same mem-cons_self)
        (λ n. mem-cons_of_mem x (keep lb only_owned fes fe n h)))
  | inr (drop, e) ↦ rw e (
      Or.elim Mem-prop (mem-cons.0 m) (λ same. absurd (drop (rw same at h)))
        (λ n. keep lb only_owned fes fe n h))
]

-- The loop keeps exactly the listed frontends that refer to the load balancer and, unless only owned
-- ones are wanted, those that refer to none.
pub mem-keep_frontends :
    (lb : GlobalLoadBalancer) (only_owned : Bool) (fes : List Frontend) (fe : Frontend)
    → Mem fe (keep_frontends lb only_owned fes) ↔ (Mem fe fes × IsKept lb only_owned fe)
mem-keep_frontends lb only_owned fes fe =
    (kept lb only_owned fes fe, λ (m, h). keep lb only_owned fes fe m h)

module _ {S : Type 0} (client : FrontendClient S)
    (as_selector : LabelSelector → Result (Labels → Bool)) (s : S) (lb : GlobalLoadBalancer)
    (only_owned : Bool) (fes : List Frontend) where
  items_of :
      get_frontends client as_selector s lb only_owned ≡ ok fes
      → (items : List Frontend) × (fes ≡ keep_frontends lb only_owned items)
  unfolding get_frontends
  items_of e = elim (Result-cases (as_selector lb.spec.frontend_selector)) [
    | inl (_, bad) ↦ absurd (ground arith)
    | inr (matches, fine) ↦ elim (Result-cases (client.list_frontends s matches)) [
      | inl (_, bad) ↦ absurd (ground arith)
      | inr (items, read) ↦ (items, ground arith)
    ]
  ]

  pub listed-IsKept :
      get_frontends client as_selector s lb only_owned ≡ ok fes
      → (fe : Frontend) → Mem fe fes
      → IsKept lb only_owned fe
  listed-IsKept e fe m =
      let (items, same) = items_of e in (kept lb only_owned items fe (subst (Mem fe) same m)).1
