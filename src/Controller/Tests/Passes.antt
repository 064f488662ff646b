-- ===== src/Controller/Tests/Passes.antt =====
-- A pass of the reconciler of the load balancers over a server with two maps, and the start-up of pods.
use mathlib.Core.Option
use k8s_glb_operator.Base.{
  ℕ, Bool, ◌≡◌, refl, false, String, ◌<>◌, Option, none, some, List, [], ◌∷◌, All, string_eq, arith,
  eqb, if◌then◌else◌, ◌==◌,
}
use k8s_glb_operator.Base.GoMap.{GoMap, lookup, insert}
use k8s_glb_operator.Api.{
  Labels, NamespacedName, namespaced_name_eq, ObjectMeta, OwnerReference, nil_map_write, ok,
  Backend, ConfigMap, StatefulSet, Pod, EnvVar, bare_meta,
}
use k8s_glb_operator.Api.Named.{find}
use k8s_glb_operator.Api.Objects.{
  base_of, map_apply, map_apply-Applies, on_first, on_second, on_second-Applies,
}
use k8s_glb_operator.Haproxy.HealthCache.{new_health_cache}
use k8s_glb_operator.Haproxy.HealthManager.{new_health_manager}
use k8s_glb_operator.Haproxy.Monitor.{
  Monitor, new_haproxy_monitor, on_add, on_delete, pod, filter, pod_requirement,
}
use k8s_glb_operator.Haproxy.ConfigBuilder.{passes}
use k8s_glb_operator.Haproxy.ConfigBuilder.Text.{fixed_text, frontends_text}
use k8s_glb_operator.Haproxy.ConfigBuilder.Printed.{IsPrintable}
use k8s_glb_operator.Controller.Backends.{get_backends}
use k8s_glb_operator.Controller.Client.{LoadBalancerClient}
use k8s_glb_operator.Controller.Config.{new_config_map, reconcile_config, config_map_name}
use k8s_glb_operator.Controller.Config.Server.{Applies-Stores}
use k8s_glb_operator.Controller.Config.Written.{RangesConfigs, HoldsConfigs, config_map_key}
use k8s_glb_operator.Controller.Config.Stuck.{config_stuck}
use k8s_glb_operator.Controller.Frontends.{
  get_frontends, keep_frontends, first_port, rounds, round, assign, claim, give_port, after_update,
  reconcile_frontends,
}
use k8s_glb_operator.Controller.Ports.{get_next_port}
use k8s_glb_operator.Controller.Reconcile.Reconciled.{
  Manages, with_set, with_ports, after_pass, reconciled,
}
use k8s_glb_operator.Controller.StatefulSets.{
  mutate_set, new_set, set_labels, pod_template, ensure_haproxy_stateful_set,
}
use k8s_glb_operator.Controller.StatefulSets.Fresh.{set_key, IsWanted, ensured}
use k8s_glb_operator.Controller.StatefulSets.Server.{Stamp}
use k8s_glb_operator.Controller.Reconcile.Started.{IsStarted, numbers}
use k8s_glb_operator.Controller.Tests.Sets.{Sets, find_in, stamp_in, apply_set, on_first-Populates}
use k8s_glb_operator.Controller.StatefulSets.Template.{Expands, field_of}
use k8s_glb_operator.Controller.StatefulSets.Watched.{Selects, one_of, pods_watched}
use k8s_glb_operator.Controller.Tests.{lb, match_all}
use k8s_glb_operator.Controller.Tests.Served.{served}

abbrev pub Stored : Type 0
Stored = Sets × GoMap NamespacedName ConfigMap

abbrev pub find_set : Stored → NamespacedName → Option StatefulSet
find_set s = find_in s.0

abbrev pub stamp_of : Stored → NamespacedName → Stamp
stamp_of s = stamp_in s.0

abbrev pub updates : Stored → ℕ
updates s = s.0.updates

abbrev pub nothing : Stored
nothing = (record { held = []; updates = 0 }, [])

abbrev pub find_config : Stored → NamespacedName → Option ConfigMap
find_config s = find (λ (cm : ConfigMap). cm.metadata) s.1

abbrev pub owners : ObjectMeta → ObjectMeta → List OwnerReference
owners owner m = record { kind = ""; name = owner.name; uid = owner.uid } ∷ []

abbrev pub client : LoadBalancerClient Stored
client = record {
  get_load_balancer = λ s k. ok lb;
  frontends = record {
    list_frontends = λ s matches. ok (served ∷ []);
    update_status = λ s fe. (s, none);
  };
  list_backends = λ s matches. ok [];
  apply_stateful_set = on_first apply_set;
  apply_config_map = on_second (map_apply (λ (cm : ConfigMap). cm.metadata));
  set_controller_reference = λ owner m. ok (record m { owner_references = owners owner m });
}

pub manages : Manages client find_set find_config stamp_of updates owners
manages = record {
  sets = on_first-Populates;
  configs =
      Applies-Stores _ _
        (on_second-Applies _ _ _ (map_apply-Applies (λ (cm : ConfigMap). cm.metadata)));
  owned = λ owner m. refl;
  kept_by_status = λ s fe k. refl;
  kept_by_config = λ s made mutate k. refl;
}

abbrev pub digit : ℕ → String
digit n = if eqb n 0 then "0" else if eqb n 1 then "1" else "443"

abbrev pub in_order : GoMap String String → List (String × String)
in_order m = m

pub once : RangesConfigs in_order
once = record { distinct = λ m d. d; same = λ m k d. refl }

pub listed : (s : Stored) → get_frontends client.frontends match_all s lb false ≡ ok (served ∷ [])
unfolding get_frontends keep_frontends string_eq
listed s = refl

abbrev pub no_backends : GoMap String (List Backend)
no_backends = ("web", []) ∷ []

pub selected :
    (s : Stored) → get_backends match_all (client.list_backends s) (served ∷ []) ≡ ok no_backends
unfolding get_backends insert
selected s = refl

pub printable : IsPrintable no_backends served
unfolding lookup string_eq
printable = ((_, refl), tt)

abbrev file_in : String → String → Option String → String
file_in name file none = file
file_in name file (some path) =
    if path == "metadata.name" then "/etc/haproxy/static/" <> name <> ".cfg" else file

abbrev put_name : List EnvVar → String → String → String
put_name env name file = file_in name file (field_of "POD_NAME" env)

expands : Expands put_name
expands env name found = rw found (ground arith)

abbrev numbered : StatefulSet → ℕ → String
numbered set i = set.name <> "-" <> digit i

ensured_example :
    ((ensure_haproxy_stateful_set client nothing lb).1 ≡ none)
    × (set : StatefulSet) × (find_set (ensure_haproxy_stateful_set client nothing lb).0 (set_key lb)
        ≡ some set)
    × IsWanted owners (stamp_of nothing (set_key lb)) lb set
ensured_example =
    ensured client find_set stamp_of updates manages.sets owners manages.owned lb nothing

-- What the server gives for a ConfigMap that was created for no replica.
abbrev emptied : Stored
emptied = (
  nothing.0,
  (config_map_key lb, record { metadata = bare_meta "glb" (config_map_name lb); entries = none })
      ∷ [],
)

config_stuck_example :
    reconcile_config client match_all digit digit in_order emptied lb
    ≡ (emptied, some nil_map_write)
unfolding lookup namespaced_name_eq string_eq
config_stuck_example =
    config_stuck client match_all digit digit in_order emptied lb (served ∷ []) no_backends
      (listed emptied) (selected emptied) (printable, tt) find_config manages.configs once _ refl
      refl (omega arith)

abbrev pub req : NamespacedName
req = record { namespace = "glb"; name = "lb" }

abbrev at_set : Stored
at_set =
    with_set client find_set find_config stamp_of updates owners manages match_all digit digit
      in_order once 10240 req nothing lb refl

abbrev at_ports : Stored
at_ports =
    with_ports client find_set find_config stamp_of updates owners manages match_all digit digit
      in_order once 10240 req nothing lb refl

no_config :
    (base_of (find_config at_ports (config_map_key lb)) (new_config_map lb)).entries ≡ some []
unfolding ensure_haproxy_stateful_set reconcile_frontends lookup new_config_map insert mutate_set
    new_set get_frontends keep_frontends string_eq first_port rounds round assign claim give_port
    after_update get_next_port
no_config = refl

reconciled_example :
    let after =
      after_pass client find_set find_config stamp_of updates owners manages match_all digit digit
        in_order once 10240 req nothing lb refl in
    (after.1 ≡ none)
    × (set : StatefulSet) × (find_set after.0 (set_key lb) ≡ some set)
    × IsWanted owners (stamp_of nothing (set_key lb)) lb set
    × (cfg_map : ConfigMap) × (find_config after.0 (config_map_key lb) ≡ some cfg_map)
    × All
        (λ i.
          IsStarted put_name set cfg_map
            (fixed_text <> frontends_text digit digit (served ∷ []) no_backends)
            (numbered set i))
        (numbers (passes lb.spec.replicas))
    × HoldsConfigs digit digit
        (some cfg_map)
        lb
        (fixed_text <> frontends_text digit digit (served ∷ []) no_backends)
        []
reconciled_example =
    reconciled client find_set find_config stamp_of updates owners manages match_all digit digit
      in_order once 10240 req nothing lb refl (served ∷ []) (served ∷ []) no_backends
      (listed at_set) (listed at_ports) (selected at_ports) (printable, tt) [] no_config put_name
      expands numbered (λ set i. refl) (omega arith)

abbrev selected_name : Labels → Bool
selected_name labels =
    Option.get_or
      (Option.map (λ v. v == "global-load-balancer") (lookup "app.kubernetes.io/name" labels)) false

selected_one_of :
    (found : Option String)
    → Option.get_or (Option.map (λ v. v == "global-load-balancer") found) false
      ≡ one_of ("global-load-balancer" ∷ []) found
selected_one_of none = refl
selected_one_of (some v) = ground arith

selects : Selects pod_requirement selected_name
selects = record {
  matches_in = λ is_in labels. selected_one_of (lookup "app.kubernetes.io/name" labels);
  matches_not_in = λ is_not_in. absurd cc is_not_in;
}

abbrev haproxy_0 : Pod
haproxy_0 = record {
  metadata = record (bare_meta "glb" "lb-haproxy-0") { uid = "u1"; labels = set_labels };
  node_name = "node-1";
  pod_ip = "10.0.0.1";
}

abbrev watching : Monitor
watching =
    new_haproxy_monitor
      (new_health_manager new_health_cache (record { waiting = 0; delivered = [] })) "glb" 8405 "/"

pods_watched_example :
    (filter selected_name on_add watching (pod haproxy_0) ≡ on_add watching haproxy_0)
    × (filter selected_name on_delete watching (pod haproxy_0) ≡ on_delete watching haproxy_0)
unfolding pod_template
pods_watched_example = pods_watched selected_name lb watching haproxy_0 selects (λ k v found. found)
