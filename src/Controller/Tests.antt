-- ===== src/Controller/Tests.antt =====
-- The reconciler of internal/controller/globalloadbalancer_controller.go at three frontends: one with a
-- port, two without.
mod Served
mod Sets
mod Passes
mod Quiet
mod Listed
mod Again
mod Refused
mod Provisioned
use mathlib.Core.List.{Mem, Nodup, Nodup-nil, mem-cons_self, mem-cons_of_mem}
use mathlib.Core.HLevel.{⊥_prop, Π_prop, ×_prop}
use native.Mathlib.Bridge.{le_prop}
use k8s_glb_operator.Base.Members.{All-mem, Nodup-cons_of_All}
use k8s_glb_operator.Base.{
  ℕ, ◌+◌, ◌<◌, ◌≤◌, ◌≡◌, ◌≢◌, ◌↔◌, refl, ap, arith, Bool, true, false, String, Option, some, none,
  [], ◌∷◌, List, All, map, string_eq, if◌then◌else◌, ne_of_test,
}
use k8s_glb_operator.Base.GoMap.{GoMap, lookup, insert, lookup-insert}
use k8s_glb_operator.Api.{
  Int32, Labels, LabelSelector, NamespacedName, namespaced_name_eq, ObjectMeta, Result, ok,
  Frontend, FrontendStatus, frontend_key, GlobalLoadBalancer, LoadBalancerReference,
}
use k8s_glb_operator.Controller.Ports.{ports_of, add_port, get_next_port}
use k8s_glb_operator.Controller.Ports.Gap.{HasRoom}
use k8s_glb_operator.Controller.Ports.Next.{
  IsLeastFree, get_next_port-IsLeastFree, get_next_port_below,
}
use k8s_glb_operator.Controller.Ports.Exhausted.{get_next_port_exhausted}
use k8s_glb_operator.Controller.Frontends.{
  FrontendClient, keep_frontends, get_frontends, assign, reconcile_frontends, refers_to,
}
use k8s_glb_operator.Controller.Frontends.Assigned.{Accepts, completed}
use k8s_glb_operator.Controller.Frontends.Reconciled.{port_in, owner_in, same_port, distinct_ports}

abbrev meta : String → ObjectMeta
meta name = record {
  namespace = "glb";
  name = name;
  uid = name;
  labels = [];
  annotations = [];
  owner_references = [];
  creation_timestamp = none;
}

abbrev any_labels : LabelSelector
any_labels = record { match_labels = []; match_expressions = [] }

abbrev frontend : String → Option Int32 → Option LoadBalancerReference → Frontend
frontend name port owner = record {
  metadata = meta name;
  spec = record { service = none; backend_selector = any_labels };
  status = record { conditions = []; port = port; load_balancer = owner };
}

abbrev lb : GlobalLoadBalancer
lb = record {
  metadata = meta "lb";
  spec = record { replicas = 2; image = "haproxy"; peers = none; frontend_selector = any_labels };
  status = record { conditions = [] };
}

abbrev ours : LoadBalancerReference
ours = record { name = "lb"; namespace = "glb" }

abbrev api : Frontend
api = frontend "api" (some 10000) (some ours)

abbrev web : Frontend
web = frontend "web" none none

abbrev shop : Frontend
shop = frontend "shop" none (some ours)

abbrev all : List Frontend
all = api ∷ web ∷ shop ∷ []

abbrev Store : Type 0
Store = GoMap NamespacedName FrontendStatus

abbrev client : FrontendClient Store
client = record {
  list_frontends = λ s matches. ok all;
  update_status = λ s fe. (insert (frontend_key fe) fe.status s, none);
}

abbrev status_of : Store → NamespacedName → Option FrontendStatus
status_of s k = lookup k s

accepts : Accepts client status_of
accepts = record {
  accepted = λ s fe. refl;
  written = λ s fe k. lookup-insert k (frontend_key fe) fe.status s;
}

abbrev stored : Store
stored =
    (frontend_key api, api.status)
    ∷ (frontend_key web, web.status)
    ∷ (frontend_key shop, shop.status)
    ∷ []

abbrev match_all : LabelSelector → Result (Labels → Bool)
match_all _ = ok (λ _. true)

listed : get_frontends client match_all stored lb false ≡ ok all
unfolding get_frontends keep_frontends string_eq
listed = refl

room : All HasRoom (ports_of all)
unfolding ports_of add_port
room = (omega arith, tt)

low : All (λ p. 10000 ≤ p) (ports_of all)
unfolding ports_of add_port
low = (omega arith, tt)

get_next_port-IsLeastFree_example : IsLeastFree 10000 (ports_of all) (get_next_port all 10000)
get_next_port-IsLeastFree_example = get_next_port-IsLeastFree all 10000 room (omega arith) low

only_10000 : (q : ℕ) → Mem q (ports_of all) → (10000 ≤ q) × (q ≢ 10000 + 1)
unfolding ports_of add_port
only_10000 q m =
    All-mem (λ q. (10000 ≤ q) × (q ≢ 10000 + 1)) (λ q. ×_prop le_prop (Π_prop (λ _. ⊥_prop)))
      (10000 ∷ []) (((omega arith, λ same. omega arith)), tt) q m

get_next_port_below_example :
    (get_next_port all 20000 ≡ 10000 + 1) × (get_next_port all 20000 < 20000)
unfolding ports_of add_port
get_next_port_below_example =
    get_next_port_below all 10000 20000 room (omega arith) mem-cons_self only_10000 (omega arith)

-- The largest port of TCP is taken, and the first allowed one.
abbrev last : List Frontend
last = frontend "last" (some 65535) (some ours) ∷ []

last_taken : (q : ℕ) → 65535 ≤ q → q ≤ 65535 → Mem q (ports_of last)
unfolding ports_of add_port
last_taken q lo hi = let same : q ≡ 65535 = omega arith in rw same mem-cons_self

get_next_port_exhausted_example : 65535 < get_next_port last 65535
unfolding ports_of add_port
get_next_port_exhausted_example =
    get_next_port_exhausted last 65535 65535 (omega arith, tt) (omega arith) (omega arith, tt)
      last_taken

other_key : (a b : NamespacedName) → a.name ≢ b.name → a ≢ b
other_key a b differ e = differ (ap (λ (k : NamespacedName). k.name) e)

distinct : Nodup (map frontend_key all)
distinct =
    Nodup-cons_of_All _ _
      (other_key _ _ (ne_of_test _ _ refl), (other_key _ _ (ne_of_test _ _ refl), tt))
      (Nodup-cons_of_All _ _ (other_key _ _ (ne_of_test _ _ refl), tt)
        (Nodup-cons_of_All _ _ tt Nodup-nil))

web_listed : Mem web all
web_listed = mem-cons_of_mem api mem-cons_self

shop_listed : Mem shop all
shop_listed = mem-cons_of_mem api (mem-cons_of_mem web mem-cons_self)

abbrev after_pass : Store
after_pass = (reconcile_frontends client match_all 10000 stored lb).0

same_port_example :
    (port_in (status_of after_pass (frontend_key web)) ≡ some (get_next_port all 10000))
    × (port_in (status_of after_pass (frontend_key shop)) ≡ some (get_next_port all 10000))
same_port_example =
    same_port client status_of accepts match_all 10000 stored lb all listed distinct web shop
      web_listed shop_listed refl refl

distinct_ports_example :
    port_in (status_of after_pass (frontend_key api))
    ≢ port_in (status_of after_pass (frontend_key web))
unfolding lookup namespaced_name_eq string_eq
distinct_ports_example =
    distinct_ports client status_of accepts match_all 10000 stored lb all listed distinct room
      (omega arith) api web mem-cons_self web_listed refl refl (λ e. cc)
