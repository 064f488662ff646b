-- ===== src/Controller/Ports/Exhausted.antt =====
-- `GetNextPort` (internal/controller/globalloadbalancer_controller.go) where the usable ports are taken.
use mathlib.Core.List.{Mem}
use k8s_glb_operator.Base.{ℕ, ◌<◌, ◌≤◌, List, All, arith, ltb, Bool-cases, inl, inr, ltb→lt}
use k8s_glb_operator.Api.{Frontend}
use k8s_glb_operator.Api.Words.{sign_bit}
use k8s_glb_operator.Controller.Ports.{ports_of, get_next_port}
use k8s_glb_operator.Controller.Ports.Gap.{HasRoom}
use k8s_glb_operator.Controller.Ports.Next.{get_next_port-IsLeastFree}

-- The answer has no upper bound: where no port is negative or the largest `int32`, the first allowed one
-- is not negative, no port lies below it, and each from that one to `top` is in use, for whatever `top`, the largest port
-- of TCP among them, the answer lies above `top`.
pub get_next_port_exhausted :
    (fes : List Frontend) (min_port top : ℕ)
    → All HasRoom (ports_of fes)
    → min_port < sign_bit
    → All (λ p. min_port ≤ p) (ports_of fes)
    → ((q : ℕ) → min_port ≤ q → q ≤ top → Mem q (ports_of fes))
    → top < get_next_port fes min_port
get_next_port_exhausted fes min_port top room start low taken =
    let least = get_next_port-IsLeastFree fes min_port room start low in
    elim (Bool-cases (ltb top (get_next_port fes min_port))) [
      | inl above ↦ ltb→lt _ _ above
      | inr within ↦
          absurd
            (least.free (taken (get_next_port fes min_port) least.allowed (ground (arith, within))))
    ]
