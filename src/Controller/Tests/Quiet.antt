-- ===== src/Controller/Tests/Quiet.antt =====
-- A pass of the reconciler of the load balancers that finds the ConfigMap of an earlier one.
use k8s_glb_operator.Base.{arith, ◌+◌, ◌≡◌, refl, String, ◌<>◌, none, some, [], ◌∷◌, string_eq}
use k8s_glb_operator.Base.GoMap.{lookup}
use k8s_glb_operator.Api.{namespaced_name_eq, ConfigMap, StatefulSet}
use k8s_glb_operator.Api.Objects.{IsIdle, map_apply-IsIdle, on_second-IsIdle}
use k8s_glb_operator.Haproxy.ConfigBuilder.Text.{
  fixed_text, frontends_text, load_balancer_config-eq,
}
use k8s_glb_operator.Controller.Config.{new_config_map, reconcile_config}
use k8s_glb_operator.Controller.Config.Written.{HoldsConfigs, config_map_key, config_written}
use k8s_glb_operator.Controller.Reconcile.{reconcile}
use k8s_glb_operator.Controller.Reconcile.Quiet.{after_set, quiet_pass}
use k8s_glb_operator.Controller.StatefulSets.{new_set, ensure_haproxy_stateful_set}
use k8s_glb_operator.Controller.StatefulSets.Fresh.{set_key}
use k8s_glb_operator.Controller.Tests.{lb, match_all}
use k8s_glb_operator.Controller.Tests.Passes.{
  Stored, find_set, find_config, stamp_of, updates, nothing, owners, client, manages, digit,
  in_order, once, listed, no_backends, selected, printable, req,
}
use k8s_glb_operator.Controller.Tests.Served.{served}

configs-IsIdle : IsIdle client.apply_config_map (λ cm. cm.metadata) find_config
configs-IsIdle = on_second-IsIdle _ _ _ (map_apply-IsIdle (λ (cm : ConfigMap). cm.metadata))

abbrev first : Stored
first = (reconcile_config client match_all digit digit in_order nothing lb).0

abbrev text : String
text = frontends_text digit digit (served ∷ []) no_backends

first_written :
    ((reconcile_config client match_all digit digit in_order nothing lb).1 ≡ none)
    × HoldsConfigs digit digit (find_config first (config_map_key lb)) lb (fixed_text <> text) []
unfolding new_config_map lookup
first_written =
    config_written client match_all digit digit in_order nothing lb (served ∷ []) no_backends
      (listed nothing) (selected nothing) (printable, tt) find_config manages.configs once [] refl
      (omega arith)

-- A set that the server has made.
abbrev made_set : StatefulSet
made_set = record (new_set lb) {
  metadata = record ((new_set lb).metadata) { uid = "u7"; creation_timestamp = some 1 };
}

abbrev start : Stored
start = (record { held = (set_key lb, made_set) ∷ []; updates = 1 }, first.1)

abbrev at_set : Stored
at_set =
    after_set client find_set find_config stamp_of updates owners manages configs-IsIdle match_all
      digit digit in_order once 10240 req start lb refl

quiet_pass_example :
    (reconcile client match_all digit digit in_order 10240 req start ≡ (at_set, none))
    × (updates (reconcile client match_all digit digit in_order 10240 req start).0 ≡ 1 + 1)
unfolding ensure_haproxy_stateful_set new_set lookup namespaced_name_eq string_eq
quiet_pass_example =
    quiet_pass client find_set find_config stamp_of updates owners manages configs-IsIdle match_all
      digit digit in_order once 10240 req start lb refl (served ∷ []) no_backends text [] made_set
      (listed at_set) (refl, tt) (selected at_set)
      (load_balancer_config-eq digit digit (served ∷ []) no_backends (printable, tt))
      first_written.1 refl
