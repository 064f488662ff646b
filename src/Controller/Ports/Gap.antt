-- ===== src/Controller/Ports/Gap.antt =====
-- Which port `GetNextPort` finds (internal/controller/globalloadbalancer_controller.go).
use mathlib.Core.List.{Mem, mem-cons_self, mem-cons_of_mem}
use k8s_glb_operator.Base.{
  ℕ, ◌+◌, ◌≤◌, ◌<◌, ◌≡◌, ◌≢◌, sym, subst, List, [], ◌∷◌, All, arith, ltb, ltb→lt, Bool-cases, inl,
  inr, ◌⊎◌,
}
use k8s_glb_operator.Api.{Int32}
use k8s_glb_operator.Api.Words.{sign_bit, lt32, add32, sub32}
use k8s_glb_operator.Controller.Ports.{find_gap}
use k8s_glb_operator.Controller.Ports.Sorting.{Ascending}

-- A port with room above it: one more is still an `int32` that is not negative.
abbrev pub HasRoom : Int32 → Type 0
HasRoom p = p + 1 < sign_bit

-- The test of the loop, on ascending ports.
step-ltb : (p q : ℕ) → HasRoom p → HasRoom q → p ≤ q → lt32 1 (sub32 q p) ≡ ltb (p + 1) q
unfolding lt32 sub32
step-ltb p q hp hq le = ground arith

succ-eq : (p : ℕ) → HasRoom p → add32 p 1 ≡ p + 1
unfolding add32
succ-eq p h = omega arith

-- One round of the loop: it stops where the next port leaves a gap, and goes on otherwise.
find_gap_cases :
    (p q : ℕ) (ports : List ℕ)
    → HasRoom p
    → HasRoom q
    → p ≤ q
    → ((p + 1 < q) × (find_gap p (q ∷ ports) ≡ p + 1))
      ⊎ ((q ≤ p + 1) × (find_gap p (q ∷ ports) ≡ find_gap q ports))
unfolding find_gap
find_gap_cases p q ports hp hq le = ground (arith, step-ltb p q hp hq le, succ-eq p hp)

-- No port from `p` on is the one found, which lies above `p`; every number between is a port.
pub record IsGap (p : ℕ) (ports : List ℕ) (r : ℕ) : Type 0 where
  pub above : p < r
  pub fresh : All (λ q. q ≢ r) ports
  pub least : (x : ℕ) → p ≤ x → x < r → Mem x (p ∷ ports)

Ascending-ne : (p x : ℕ) (ports : List ℕ) → x < p → Ascending p ports → All (λ q. q ≢ x) ports
Ascending-ne p x [] lt s = tt
Ascending-ne p x (q ∷ ports) lt s = (omega arith, Ascending-ne q x ports (omega arith) s.1)

mem_first : (p x : ℕ) (ports : List ℕ) → p ≤ x → x < p + 1 → Mem x (p ∷ ports)
mem_first p x ports lo hi = let e : x ≡ p = omega arith in rw e mem-cons_self

pub find_gap-IsGap :
    (p : ℕ) (ports : List ℕ)
    → HasRoom p
    → All HasRoom ports
    → Ascending p ports
    → IsGap p ports (find_gap p ports)
unfolding find_gap
find_gap-IsGap p [] hp h s =
    rw (succ-eq p hp) (record { above = omega arith; fresh = tt; least = λ x. mem_first p x [] })
find_gap-IsGap p (q ∷ ports) hp h s = elim (find_gap_cases p q ports hp h.0 s.0) [
  | inl (wide, e) ↦ subst (IsGap p (q ∷ ports)) (sym e) (record {
    above = omega arith;
    fresh = (omega arith, Ascending-ne q (p + 1) ports wide s.1);
    least = λ x. mem_first p x (q ∷ ports);
  })
  | inr (close, e) ↦
      let g = find_gap-IsGap q ports h.0 h.1 s.1 in
      subst (IsGap p (q ∷ ports)) (sym e) (record {
        above = omega (arith, g.above, s.0);
        fresh = (omega (arith, g.above), g.fresh);
        least = λ x lo hi. elim (Bool-cases (ltb x q)) [
          | inl before ↦ elim (Bool-cases (ltb x (p + 1))) [
            | inl first ↦ mem_first p x (q ∷ ports) lo (ltb→lt x (p + 1) first)
            | inr second ↦ absurd (ground arith)
          ]
          | inr after ↦ mem-cons_of_mem p (g.least x (ground arith) hi)
        ];
      })
]
