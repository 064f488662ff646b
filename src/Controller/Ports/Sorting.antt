-- ===== src/Controller/Ports/Sorting.antt =====
-- The ports in ascending order (internal/controller/globalloadbalancer_controller.go).
use mathlib.Core.List.{Perm}
use mathlib.Core.List.Perm
use k8s_glb_operator.Base.{ℕ, ◌≤◌, ◌<◌, List, [], ◌∷◌, All, arith, Bool-cases, inl, inr}
use k8s_glb_operator.Api.{Int32}
use k8s_glb_operator.Api.Words.{sign_bit, lt32, lt32-ltb}
use k8s_glb_operator.Controller.Ports.{insert_port, sort}

abbrev pub IsPort : Int32 → Type 0
IsPort p = p < sign_bit

-- Each number is at least the one before it, the first at least `p`.
abbrev pub Ascending : ℕ → List ℕ → Type 0
Ascending p [] = Unit {0}
Ascending p (q ∷ ports) = (p ≤ q) × Ascending q ports

abbrev pub IsSorted : List ℕ → Type 0
IsSorted [] = Unit {0}
IsSorted (p ∷ ports) = Ascending p ports

insert_port-Ascending :
    (p q : ℕ) (ports : List ℕ)
    → IsPort p
    → All IsPort ports
    → q ≤ p
    → Ascending q ports
    → Ascending q (insert_port p ports)
unfolding insert_port
insert_port-Ascending p q [] hp h le s = (le, tt)
insert_port-Ascending p q (r ∷ ports) hp h le s =
    ground (arith, lt32-ltb r p h.0 hp, insert_port-Ascending p r ports hp h.1)

insert_port-IsSorted :
    (p : ℕ) (ports : List ℕ)
    → IsPort p
    → All IsPort ports
    → IsSorted ports
    → IsSorted (insert_port p ports)
unfolding insert_port
insert_port-IsSorted p [] hp h s = tt
insert_port-IsSorted p (q ∷ ports) hp h s =
    ground (arith, lt32-ltb q p h.0 hp, insert_port-Ascending p q ports hp h.1)

pub insert_port-All :
    (P : ℕ → Type 0) (p : ℕ) (ports : List ℕ) → P p → All P ports → All P (insert_port p ports)
unfolding insert_port
insert_port-All P p [] hp h = (hp, tt)
insert_port-All P p (q ∷ ports) hp h = ground (arith, insert_port-All P p ports hp h.1)

pub sort-All : (P : ℕ → Type 0) (ports : List ℕ) → All P ports → All P (sort ports)
unfolding sort
sort-All P [] h = tt
sort-All P (p ∷ ports) h = insert_port-All P p (sort ports) h.0 (sort-All P ports h.1)

pub sort-IsSorted : (ports : List ℕ) → All IsPort ports → IsSorted (sort ports)
unfolding sort
sort-IsSorted [] h = tt
sort-IsSorted (p ∷ ports) h =
    insert_port-IsSorted p (sort ports) h.0 (sort-All IsPort ports h.1) (sort-IsSorted ports h.1)

insert_port-perm : (p : ℕ) (ports : List ℕ) → Perm (p ∷ ports) (insert_port p ports)
unfolding insert_port
insert_port-perm p [] = Perm.refl (p ∷ [])
insert_port-perm p (q ∷ ports) = elim (Bool-cases (lt32 q p)) [
  | inl above ↦ rw above (Perm.trans (Perm.swap q p ports) (Perm.cons q (insert_port-perm p ports)))
  | inr below ↦ rw below (Perm.refl (p ∷ q ∷ ports))
]

pub sort-perm : (ports : List ℕ) → Perm ports (sort ports)
unfolding sort
sort-perm [] = Perm.nil
sort-perm (p ∷ ports) = Perm.trans (Perm.cons p (sort-perm ports)) (insert_port-perm p (sort ports))
