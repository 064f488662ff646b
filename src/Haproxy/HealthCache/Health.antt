-- ===== src/Haproxy/HealthCache/Health.antt =====
-- The health that a list of endpoints states of an address: its last entry wins, as in the map that
-- `Update` builds.
use mathlib.Core.HLevel.{⊥_prop}
use mathlib.Core.List.{
  Mem, Nodup, Nodup-cons, mem-cons, mem-cons_of_mem, not-mem-nil, exists_of_mem-map,
}
use mathlib.Core.Logic.Or
use k8s_glb_operator.Base.{
  ◌≡◌, refl, ◌∙◌, ◌≢◌, ◌↔◌, Bool, String, Option, none, some, List, [], ◌∷◌, map, arith,
  if◌then◌else◌, ◌==◌, string_eq, Option-cases, inl, inr,
}
use k8s_glb_operator.Base.GoMap.{GoMap, lookup, insert, lookup-insert}
use k8s_glb_operator.Haproxy.HealthCache.{Endpoint, existing_map}

abbrev pub or_else {ℓ} : {A : Type ℓ} → Option A → Option A → Option A
or_else none b = b
or_else (some a) b = some a

abbrev pub addresses : List Endpoint → List String
addresses = map (λ ep. ep.ip_address)

unfoldable pub health_of : String → List Endpoint → Option Bool
health_of ip [] = none
health_of ip (ep ∷ eps) =
    or_else (health_of ip eps) (if ip == ep.ip_address then some ep.healthy else none)

pub lookup-existing_map :
    (ip : String) (eps : List Endpoint) (m : GoMap String Bool)
    → lookup ip (existing_map eps m) ≡ or_else (health_of ip eps) (lookup ip m)
unfolding existing_map health_of
lookup-existing_map ip [] m = refl
lookup-existing_map ip (ep ∷ eps) m =
    lookup-existing_map ip eps (insert ep.ip_address ep.healthy m)
    ∙ ground (arith, lookup-insert ip ep.ip_address ep.healthy m)

-- The endpoint's own entry is what the list states of its address.
abbrev pub IsAgreed : List Endpoint → Endpoint → Type 0
IsAgreed existing ep = health_of ep.ip_address existing ≡ some ep.healthy

pub IsAgreed-prop : (existing : List Endpoint) (ep : Endpoint) → IsProp (IsAgreed existing ep)
IsAgreed-prop existing ep = hlevel

health_of-none :
    (ip : String) (eps : List Endpoint) → ¬ Mem ip (addresses eps) → health_of ip eps ≡ none
unfolding health_of
health_of-none ip [] h = refl
health_of-none ip (ep ∷ eps) h =
    let rest = health_of-none ip eps (λ m. h (mem-cons_of_mem ep.ip_address m)) in
    let other : ip ≢ ep.ip_address = λ e. h (mem-cons.1 (Or.inl e)) in ground (arith, rest)

pub mem_of_health_of :
    (ip : String) (eps : List Endpoint) (h : Bool)
    → health_of ip eps ≡ some h
    → Mem ip (addresses eps)
unfolding health_of
mem_of_health_of ip [] h e = cc
mem_of_health_of ip (ep ∷ eps) h e = elim (Option-cases (health_of ip eps)) [
  | inr (b, found) ↦ mem-cons_of_mem ep.ip_address (mem_of_health_of ip eps b found)
  | inl missing ↦ mem-cons.1 (Or.inl (ground arith))
]

-- With distinct addresses every entry counts.
pub health_of-mem :
    (eps : List Endpoint) → Nodup (addresses eps) → (ep : Endpoint) → Mem ep eps → IsAgreed eps ep
unfolding health_of
health_of-mem [] distinct ep m = absurd (not-mem-nil m)
health_of-mem (x ∷ eps) distinct ep m =
    Or.elim (IsAgreed-prop (x ∷ eps) ep) (mem-cons.0 m)
      (λ e. ground (arith, health_of-none x.ip_address eps (Nodup-cons.0 distinct).0))
      (λ later. ground (arith, health_of-mem eps (Nodup-cons.0 distinct).1 ep later))

-- An address that the list names is stated by one of its endpoints.
pub endpoint_of_mem :
    (ip : String) (eps : List Endpoint)
    → Mem ip (addresses eps)
    → ∥ ((ep : Endpoint) × Mem ep eps × (ep.ip_address ≡ ip)) ∥₁
endpoint_of_mem ip eps m = exists_of_mem-map m

named-not_none :
    (ip : String) (eps : List Endpoint) → Mem ip (addresses eps) → health_of ip eps ≢ none
unfolding health_of
named-not_none ip [] m e = not-mem-nil m
named-not_none ip (ep ∷ eps) m e =
    Or.elim ⊥_prop (mem-cons.0 m) (λ here. ground arith)
      (λ later. named-not_none ip eps later (ground arith))

-- An address has a health exactly if the list names it.
pub health_of-none_iff :
    (ip : String) (eps : List Endpoint) → (health_of ip eps ≡ none) ↔ (¬ Mem ip (addresses eps))
health_of-none_iff ip eps = (λ missing m. named-not_none ip eps m missing, health_of-none ip eps)
