-- ===== src/Controller/Ports.antt =====
-- `GetNextPort` of internal/controller/globalloadbalancer_controller.go.
pub mod Sorting
pub mod Gap
pub mod Next
pub mod Exhausted
use k8s_glb_operator.Base.{ℕ, Option, none, some, List, [], ◌∷◌, if◌then◌else◌}
use k8s_glb_operator.Api.{Int32, Frontend}
use k8s_glb_operator.Api.Words.{lt32, add32, sub32}

-- The loop that collects the ports: a frontend without one is passed over.
unfoldable pub add_port : Option Int32 → List Int32 → List Int32
add_port none ports = ports
add_port (some port) ports = port ∷ ports

unfoldable pub ports_of : List Frontend → List Int32
unfolding add_port
ports_of [] = []
ports_of (fe ∷ fes) = add_port fe.status.port (ports_of fes)

-- `slices.Sort`: the library promises the ascending order and nothing of the method.
unfoldable pub insert_port : Int32 → List Int32 → List Int32
insert_port p [] = p ∷ []
insert_port p (q ∷ ports) =
    let rest = insert_port p ports in if lt32 q p then q ∷ rest else p ∷ q ∷ ports

unfoldable pub sort : List Int32 → List Int32
unfolding insert_port
sort [] = []
sort (p ∷ ports) = insert_port p (sort ports)

-- The last loop, from the port `p` on, and the return after it.
unfoldable pub find_gap : Int32 → List Int32 → Int32
find_gap p [] = add32 p 1
find_gap p (q ∷ ports) =
    let rest = find_gap q ports in if lt32 1 (sub32 q p) then add32 p 1 else rest

-- What follows the sort.
unfoldable pub first_free : List Int32 → Int32 → Int32
unfolding find_gap
first_free [] min_port = min_port
first_free (p ∷ ports) min_port = if lt32 min_port p then min_port else find_gap p ports

unfoldable pub get_next_port : List Frontend → Int32 → Int32
unfolding first_free sort ports_of
get_next_port [] min_port = min_port
get_next_port (fe ∷ fes) min_port = first_free (sort (ports_of (fe ∷ fes))) min_port
