-- ===== src/Controller/Ports/Next.antt =====
-- What `GetNextPort` promises (internal/controller/globalloadbalancer_controller.go).
use mathlib.Core.List.{Mem, mem-cons, mem-cons_self, not-mem-nil}
use mathlib.Core.List.Perm
use mathlib.Core.HLevel.{⊥_prop, Π_prop}
use mathlib.Core.Logic.Or
use native.Mathlib.Bridge.{le_prop}
use k8s_glb_operator.Base.{
  ℕ, ◌+◌, ◌≤◌, ◌<◌, ◌≡◌, ◌≢◌, refl, ◌∙◌, List, [], ◌∷◌, All, arith, ltb, ltb→lt, Bool-cases, ◌⊎◌,
  inl, inr,
}
use k8s_glb_operator.Base.Members.{All-mem}
use k8s_glb_operator.Api.{Frontend}
use k8s_glb_operator.Api.Words.{sign_bit, lt32-ltb}
use k8s_glb_operator.Controller.Ports.{ports_of, sort, find_gap, first_free, get_next_port}
use k8s_glb_operator.Controller.Ports.Sorting.{
  Ascending, IsSorted, IsPort, sort-All, sort-IsSorted, sort-perm,
}
use k8s_glb_operator.Controller.Ports.Gap.{HasRoom, IsGap, find_gap-IsGap}

-- The port is none of the ports, not below the first allowed one, and no number from there up to it
-- is free.
pub record IsLeastFree (min_port : ℕ) (ports : List ℕ) (r : ℕ) : Type 0 where
  pub free : ¬ Mem r ports
  pub allowed : min_port ≤ r
  pub least : (x : ℕ) → min_port ≤ x → x < r → Mem x ports

not-mem_of_All : (r : ℕ) (ports : List ℕ) → All (λ q. q ≢ r) ports → ¬ Mem r ports
not-mem_of_All r ports h m = All-mem (λ q. q ≢ r) (λ q. Π_prop (λ _. ⊥_prop)) ports h r m refl

Ascending-le : (p x : ℕ) (ports : List ℕ) → Ascending p ports → Mem x ports → p ≤ x
Ascending-le p x [] s m = absurd (not-mem-nil m)
Ascending-le p x (q ∷ ports) s m =
    Or.elim le_prop (mem-cons.0 m) (λ e. omega (arith, s.0))
      (λ n. omega (arith, Ascending-le q x ports s.1 n, s.0))

HasRoom-All : (ports : List ℕ) → All HasRoom ports → All IsPort ports
HasRoom-All [] h = tt
HasRoom-All (p ∷ ports) h = (omega (arith, h.0), HasRoom-All ports h.1)

-- What `first_free` does on sorted ports: it takes the first allowed port if that lies below all of
-- them, and else the first gap.
first_free_cases :
    (p min_port : ℕ) (ports : List ℕ)
    → HasRoom p
    → min_port < sign_bit
    → ((min_port < p) × (first_free (p ∷ ports) min_port ≡ min_port))
      ⊎ ((p ≤ min_port) × (first_free (p ∷ ports) min_port ≡ find_gap p ports))
unfolding first_free
first_free_cases p min_port ports hp hm = ground (arith, lt32-ltb min_port p hm)

not-mem_below : (p x : ℕ) (ports : List ℕ) → Ascending p ports → x < p → ¬ Mem x (p ∷ ports)
not-mem_below p x ports s lt m =
    Or.elim ⊥_prop (mem-cons.0 m) (λ e. omega arith)
      (λ n. omega (arith, Ascending-le p x ports s n))

not-mem_gap : (p r : ℕ) (ports : List ℕ) → IsGap p ports r → ¬ Mem r (p ∷ ports)
not-mem_gap p r ports g m =
    Or.elim ⊥_prop (mem-cons.0 m) (λ e. omega (arith, g.above)) (not-mem_of_All r ports g.fresh)

first_le : (p x : ℕ) (ports : List ℕ) → Ascending p ports → Mem x (p ∷ ports) → p ≤ x
first_le p x ports s m =
    Or.elim le_prop (mem-cons.0 m) (λ e. omega arith) (Ascending-le p x ports s)

first_free-free :
    (ports : List ℕ) (min_port : ℕ)
    → IsSorted ports
    → All HasRoom ports
    → min_port < sign_bit
    → ¬ Mem (first_free ports min_port) ports
first_free-free [] min_port s h hm = not-mem-nil
first_free-free (p ∷ ports) min_port s h hm = elim (first_free_cases p min_port ports h.0 hm) [
  | inl (lt, e) ↦ rw e (not-mem_below p min_port ports s lt)
  | inr (le, e) ↦ rw e (not-mem_gap p (find_gap p ports) ports (find_gap-IsGap p ports h.0 h.1 s))
]

first_free-IsLeastFree :
    (ports : List ℕ) (min_port : ℕ)
    → IsSorted ports
    → All HasRoom ports
    → min_port < sign_bit
    → All (λ p. min_port ≤ p) ports
    → IsLeastFree min_port ports (first_free ports min_port)
unfolding first_free
first_free-IsLeastFree [] min_port s h hm low = record {
  free = not-mem-nil;
  allowed = omega arith;
  least = λ x lo hi. absurd (omega arith);
}
first_free-IsLeastFree (p ∷ ports) min_port s h hm low =
    let free = first_free-free (p ∷ ports) min_port s h hm in
    elim (first_free_cases p min_port ports h.0 hm) [
      | inl (lt, e) ↦ record {
        free = free;
        allowed = omega (arith, e);
        least = λ x lo hi. absurd (omega (arith, e));
      }
      | inr (le, e) ↦
          let g = find_gap-IsGap p ports h.0 h.1 s in
          record {
            free = free;
            allowed = omega (arith, e, g.above, low.0);
            least = λ x lo hi. g.least x (omega (arith, low.0)) (rw e at hi);
          }
    ]

-- If no port is negative or the largest `int32`, `GetNextPort` gives a port that no frontend has,
-- whatever the first allowed port is.
pub get_next_port-free :
    (fes : List Frontend) (min_port : ℕ)
    → All HasRoom (ports_of fes)
    → min_port < sign_bit
    → ¬ Mem (get_next_port fes min_port) (ports_of fes)
unfolding get_next_port ports_of
get_next_port-free [] min_port h hm m = not-mem-nil m
get_next_port-free (fe ∷ fes) min_port h hm m =
    let ports = ports_of (fe ∷ fes) in
    first_free-free (sort ports) min_port (sort-IsSorted ports (HasRoom-All ports h))
      (sort-All HasRoom ports h) hm
      (Perm.subset (sort-perm ports) (first_free (sort ports) min_port) m)

-- If no port is negative or the largest `int32`, the first allowed one is not negative and no port lies
-- below it, `GetNextPort` gives the least allowed port that no frontend has.
pub get_next_port-IsLeastFree :
    (fes : List Frontend) (min_port : ℕ)
    → All HasRoom (ports_of fes)
    → min_port < sign_bit
    → All (λ p. min_port ≤ p) (ports_of fes)
    → IsLeastFree min_port (ports_of fes) (get_next_port fes min_port)
unfolding get_next_port ports_of
get_next_port-IsLeastFree [] min_port h hm low = record {
  free = not-mem-nil;
  allowed = omega arith;
  least = λ x lo hi. absurd (omega arith);
}
get_next_port-IsLeastFree (fe ∷ fes) min_port h hm low =
    let ports = ports_of (fe ∷ fes) in
    let found =
      first_free-IsLeastFree (sort ports) min_port (sort-IsSorted ports (HasRoom-All ports h))
        (sort-All HasRoom ports h) hm (sort-All (λ p. min_port ≤ p) ports low) in
    record {
      free = λ m. found.free (Perm.subset (sort-perm ports) _ m);
      allowed = found.allowed;
      least = λ x lo hi. Perm.subset (Perm.symm (sort-perm ports)) x (found.least x lo hi);
    }

first_free_below :
    (ports : List ℕ) (p min_port : ℕ)
    → IsSorted ports
    → All HasRoom ports
    → min_port < sign_bit
    → Mem p ports
    → ((q : ℕ) → Mem q ports → (p ≤ q) × (q ≢ p + 1))
    → p + 1 < min_port
    → first_free ports min_port ≡ p + 1
first_free_below [] p min_port s h hm m lowest below = absurd (not-mem-nil m)
first_free_below (f ∷ ports) p min_port s h hm m lowest below =
    let same : f ≡ p = omega (arith, (lowest f mem-cons_self).0, first_le f p ports s m) in
    elim (first_free_cases f min_port ports h.0 hm) [
      | inl (lt, e) ↦ absurd (omega (arith, same))
      | inr (le, e) ↦
          let g = find_gap-IsGap f ports h.0 h.1 s in
          e ∙ elim (Bool-cases (ltb (p + 1) (find_gap f ports))) [
            | inl above ↦
                absurd (
                  (lowest (p + 1) (g.least (p + 1) (omega (arith, same)) (ltb→lt _ _ above))).1
                    refl)
            | inr at ↦ ground (arith, g.above, same)
          ]
    ]

-- The first allowed port, which is not negative, is no lower bound of the answer: where no port is
-- negative or the largest `int32` and the lowest of all lies more than one below it, with no port right
-- after it, the answer is the next number, not allowed either.
pub get_next_port_below :
    (fes : List Frontend) (p min_port : ℕ)
    → All HasRoom (ports_of fes)
    → min_port < sign_bit
    → Mem p (ports_of fes)
    → ((q : ℕ) → Mem q (ports_of fes) → (p ≤ q) × (q ≢ p + 1))
    → p + 1 < min_port
    → (get_next_port fes min_port ≡ p + 1) × (get_next_port fes min_port < min_port)
unfolding get_next_port ports_of
get_next_port_below [] p min_port h hm m lowest below = absurd (not-mem-nil m)
get_next_port_below (fe ∷ fes) p min_port h hm m lowest below =
    let ports = ports_of (fe ∷ fes) in
    let found =
      first_free_below (sort ports) p min_port (sort-IsSorted ports (HasRoom-All ports h))
        (sort-All HasRoom ports h) hm (Perm.subset (sort-perm ports) p m)
        (λ q n. lowest q (Perm.subset (Perm.symm (sort-perm ports)) q n)) below in
    (found, omega (arith, found))
