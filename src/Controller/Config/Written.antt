-- ===== src/Controller/Config/Written.antt =====
-- The ConfigMap after `ReconcileConfig` (internal/controller/globalloadbalancer_controller.go).
use text.Mathlib.TextLemmas.{append_cancel_right}
use mathlib.Core.Option
use k8s_glb_operator.Base.{
  ℕ, ◌<◌, ◌≡◌, ◌≢◌, refl, sym, false, ap, ◌∙◌, Bool, String, ◌<>◌, Option, none, some, List, [],
  ◌∷◌, if◌then◌else◌, ◌==◌, string_eq, arith, All,
}
use k8s_glb_operator.Base.GoMap.{GoMap, lookup, insert, lookup-insert, lookup-nil, NodupKeys}
use k8s_glb_operator.Api.{
  Int32, NamespacedName, Labels, LabelSelector, Error, error_of, Result, ok, ◌>>=◌, Frontend,
  Backend, GlobalLoadBalancer, ConfigMap, meta_key,
}
use k8s_glb_operator.Api.Objects.{base_of}
use k8s_glb_operator.Controller.Config.Server.{Stores}
use k8s_glb_operator.Haproxy.HealthCache.Health.{or_else}
use k8s_glb_operator.Haproxy.ConfigBuilder.{add_replicas, passes}
use k8s_glb_operator.Haproxy.ConfigBuilder.Printed.{IsPrintable}
use k8s_glb_operator.Haproxy.ConfigBuilder.Text.{fixed_text, frontends_text}
use k8s_glb_operator.Haproxy.ConfigBuilder.Replicas.{
  is_pod, is_pod-replica, built, lookup-add_replicas, add_replicas-NodupKeys,
}
use k8s_glb_operator.Controller.Client.{LoadBalancerClient}
use k8s_glb_operator.Controller.Frontends.{get_frontends}
use k8s_glb_operator.Controller.Backends.{get_backends}
use k8s_glb_operator.Controller.Config.{
  config_map_name, new_config_map, desired_config, write_config, reconcile_config, config_key,
  set_entry, set_entries, mutate_config,
}

-- The last configuration that is written under a key.
under : String → List (String × String) → Option String
under k [] = none
under k ((pod, config) ∷ configs) =
    or_else (under k configs) (if k == config_key pod then some config else none)

set_entries-ok :
    (configs : List (String × String)) (m : GoMap String String)
    → (new : GoMap String String) × (set_entries configs (some m) ≡ ok (some new))
      × ((k : String) → lookup k new ≡ or_else (under k configs) (lookup k m))
unfolding set_entries set_entry under
set_entries-ok [] m = (m, refl, λ k. refl)
set_entries-ok ((pod, config) ∷ configs) m =
    let (new, e, found) = set_entries-ok configs (insert (config_key pod) config m) in
    (new, e, λ k. ground (arith, found k, lookup-insert k (config_key pod) config m))

config_key-eq : (p q : String) → (config_key p == config_key q) ≡ (p == q)
config_key-eq p q = elim (string_eq.dec p q) [
  | yes same ↦ ground (arith, same)
  | no differ ↦
      ground (arith, λ (e : config_key p ≡ config_key q). differ (append_cancel_right p q ".cfg" e))
]

under-lookup :
    (p : String) (configs : List (String × String))
    → NodupKeys configs
    → under (config_key p) configs ≡ lookup p configs
unfolding under lookup
under-lookup p [] d = refl
under-lookup p ((q, config) ∷ configs) (fresh, d) =
    ground (arith, config_key-eq p q, under-lookup p configs d)

not_empty : (k v : String) (m : GoMap String String) → lookup k m ≡ some v → m ≢ []
not_empty k v m found empty =
    Option.none-ne-some v (sym (lookup-nil k) ∙ ap (λ n. lookup k n) (sym empty) ∙ found)

-- Go ranges over each entry of a map once.
pub record RangesConfigs (range_configs : GoMap String String → List (String × String))
    : Type 0 where
  pub distinct : (m : GoMap String String) → NodupKeys m → NodupKeys (range_configs m)
  pub same :
      (m : GoMap String String) (k : String) → NodupKeys m → lookup k (range_configs m) ≡ lookup k m

-- A ConfigMap that holds `text` for the pod of each replica, and under the key of any other name what
-- `old` holds.
pub record HoldsConfigs (show32 : Int32 → String) (show64 : ℕ → String) (stored : Option ConfigMap)
    (lb : GlobalLoadBalancer) (text : String) (old : GoMap String String) : Type 0 where
  pub cfg_map : ConfigMap
  pub is_stored : stored ≡ some cfg_map
  pub held : GoMap String String
  pub has_entries : cfg_map.entries ≡ some held
  pub lookup-held :
      (pod : String)
      → lookup (config_key pod) held ≡ (
          if is_pod show32 show64 lb pod (passes lb.spec.replicas)
          then some text
          else lookup (config_key pod) old)

abbrev pub config_map_key : GlobalLoadBalancer → NamespacedName
config_map_key lb = record { namespace = lb.namespace; name = config_map_name lb }

pub mutate_config-ok :
    (configs : List (String × String)) (cm : ConfigMap) (old new : GoMap String String)
    → cm.entries ≡ some old
    → set_entries configs (some old) ≡ ok (some new)
    → mutate_config configs cm ≡ ok (record cm { entries = some new })
unfolding mutate_config
mutate_config-ok configs cm old new e set =
    ap
      (λ (m : Option (GoMap String String)).
        set_entries configs m >>= λ es. ok (record cm { entries = es }))
      e
    ∙ ap
        (λ (r : Result (Option (GoMap String String))). r >>= λ es. ok (record cm { entries = es }))
        set

module _ {S : Type 0} (client : LoadBalancerClient S)
    (as_selector : LabelSelector → Result (Labels → Bool)) (show32 : Int32 → String)
    (show64 : ℕ → String) (range_configs : GoMap String String → List (String × String)) (s : S)
    (lb : GlobalLoadBalancer) (fes : List Frontend) (backends : GoMap String (List Backend))
    (listed : get_frontends client.frontends as_selector s lb false ≡ ok fes)
    (selected : get_backends as_selector (client.list_backends s) fes ≡ ok backends)
    (printable : All (IsPrintable backends) fes) where
  -- What is built for these frontends and backends is what the pass goes on with.
  pub desired :
      reconcile_config client as_selector show32 show64 range_configs s lb
      ≡ write_config client as_selector show32 show64 range_configs s lb (
          ok (
            add_replicas show32 show64 lb
              (frontends_text show32 show64 fes backends)
              (passes lb.spec.replicas)))
  unfolding reconcile_config desired_config
  desired = rw (listed, selected, built show32 show64 lb fes backends printable) refl

  module _ (find_config : S → NamespacedName → Option ConfigMap)
      (laws : Stores client.apply_config_map find_config) (once : RangesConfigs range_configs)
      (old : GoMap String String)
      (has_old : (base_of (find_config s (config_map_key lb)) (new_config_map lb)).entries
        ≡ some old) where
    abbrev base : ConfigMap
    base = base_of (find_config s (config_map_key lb)) (new_config_map lb)

    -- The ConfigMap that is given to the changing function has the name that was asked for.
    base-key :
        (found : Option ConfigMap)
        → find_config s (config_map_key lb) ≡ found
        → meta_key (base_of found (new_config_map lb)).metadata ≡ config_map_key lb
    unfolding new_config_map
    base-key none e = refl
    base-key (some cm) e = laws.named s (config_map_key lb) cm e

    written :
        (configs : List (String × String)) (new : GoMap String String)
        → set_entries configs (some old) ≡ ok (some new)
        → new ≢ []
        → (stored : ConfigMap) × ((client.apply_config_map s
              (new_config_map lb)
              (mutate_config configs)).1
            ≡ ok stored)
          × (find_config
                (client.apply_config_map s (new_config_map lb) (mutate_config configs)).0
                (config_map_key lb)
              ≡ some stored)
          × (stored.entries ≡ some new)
    unfolding new_config_map
    written configs new e any =
        laws.applied s (new_config_map lb) (record base { entries = some new })
          (mutate_config configs) (mutate_config-ok configs base old new has_old e)
          (base-key (find_config s (config_map_key lb)) refl)
          (λ empty. any (Option.some-injective _ _ empty))

    -- Where the client's calls succeed, the frontends and their backends are read, nothing that is
    -- printed is a nil pointer, there is a replica and the stored ConfigMap has a map of entries or is
    -- not there yet, `ReconcileConfig` has no error. Then the ConfigMap holds one text, the fixed part with that of
    -- the frontends, under the pod of each replica, and what it held under every other pod.
    pub config_written :
        0 < passes lb.spec.replicas
        → ((reconcile_config client as_selector show32 show64 range_configs s lb).1 ≡ none)
          × HoldsConfigs show32 show64
              (find_config
                (reconcile_config client as_selector show32 show64 range_configs s lb).0
                (config_map_key lb))
              lb
              (fixed_text <> frontends_text show32 show64 fes backends)
              old
    unfolding write_config
    config_written positive =
        let config = frontends_text show32 show64 fes backends in
        let configs =
          range_configs (add_replicas show32 show64 lb config (passes lb.spec.replicas)) in
        let keys = add_replicas-NodupKeys show32 show64 lb config (passes lb.spec.replicas) in
        let (new, set, found) = set_entries-ok configs old in
        let looked : (pod : String)
            → lookup (config_key pod) new ≡ (
                if is_pod show32 show64 lb pod (passes lb.spec.replicas)
                then some (fixed_text <> config)
                else lookup (config_key pod) old) =
          λ pod. ground (
            arith,
            found (config_key pod),
            under-lookup pod configs (once.distinct _ keys),
            once.same (add_replicas show32 show64 lb config (passes lb.spec.replicas)) pod keys,
            lookup-add_replicas show32 show64 lb config pod (passes lb.spec.replicas),
          ) in
        let (stored, done, there, same) = written configs new set (
          not_empty (config_key (lb.name <> "-haproxy-" <> show32 0)) (fixed_text <> config) new (
            looked _
            ∙ rw (is_pod-replica show32 show64 lb 0 (passes lb.spec.replicas) positive) refl)) in
        (
          ap (λ (r : S × Option Error). r.1) desired ∙ ap error_of done,
          record {
            cfg_map = stored;
            is_stored =
                ap (λ (r : S × Option Error). find_config r.0 (config_map_key lb)) desired ∙ there;
            held = new;
            has_entries = same;
            lookup-held = looked;
          },
        )
