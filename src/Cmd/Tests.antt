-- ===== src/Cmd/Tests.antt =====
-- Concrete texts of WATCH_NAMESPACE.
use mathlib.Core.List.{Mem}
use k8s_glb_operator.Base.{
  ◌≡◌, ◌↔◌, refl, ap, true, Bool, String, Option, none, some, List, [], ◌∷◌, arith, string_eq,
}
use k8s_glb_operator.Base.GoMap.{lookup, insert}
use k8s_glb_operator.Api.{Labels, LabelSelector, Backend, Result, failure, wrapped, err, ok}
use k8s_glb_operator.Haproxy.Monitor.{new_haproxy_monitor}
use k8s_glb_operator.Haproxy.Monitor.Publish.{Ranges, Lister, update_health_manager}
use k8s_glb_operator.Cmd.Namespaces.{CacheConfig, empty_config, trim_space, setup_cache_namespaces}
use k8s_glb_operator.Cmd.Namespaces.Parsed.{setup_cache_namespaces-join}
use k8s_glb_operator.Cmd.Namespaces.Several.{several_namespaces}
use k8s_glb_operator.Cmd.StartUp.{main_monitor}

spaces_go :
    setup_cache_namespaces "web , mail" ≡ ("web", empty_config) ∷ ("mail", empty_config) ∷ []
unfolding setup_cache_namespaces insert string_eq trim_space
spaces_go = refl

abbrev names : List String
names = "web" ∷ "mail" ∷ []

setup_cache_namespaces-join_example :
    (lookup "mail" (setup_cache_namespaces "web,mail") ≡ some empty_config) ↔ Mem "mail" names
unfolding trim_space
setup_cache_namespaces-join_example =
    setup_cache_namespaces-join names (λ e. cc)
      (
        (ground arith, (ground arith, (ground arith, tt))),
        ((ground arith, (ground arith, (ground arith, (ground arith, tt)))), tt),
      )
      (refl, (refl, tt)) "mail"

abbrev match_all : LabelSelector → Option (Labels → Bool)
match_all _ = some (λ _. true)

abbrev in_order : Ranges
in_order = record { range_targets = λ m. m; range_states = λ m. m; range_frontends = λ m. m }

abbrev list_or_refuse : Option CacheConfig → Result (List Backend)
list_or_refuse none = err (failure "unknown namespace for the cache")
list_or_refuse (some _) = ok []

-- A cache that refuses what it is not set up for.
abbrev cache_of : String → Lister
cache_of raw = record {
  list_backends = λ n. list_or_refuse (lookup n (setup_cache_namespaces raw));
  list_frontends = λ n. ok [];
}

several_namespaces_example :
    update_health_manager match_all in_order (cache_of "web,mail") (main_monitor "web,mail") ≡ (
      main_monitor "web,mail",
      some (wrapped "failed to list backend CRDs" (failure "unknown namespace for the cache")),
    )
unfolding new_haproxy_monitor
several_namespaces_example =
    several_namespaces match_all in_order (cache_of "web,mail") (main_monitor "web,mail")
      (failure "unknown namespace for the cache") (λ n missing. ap list_or_refuse missing)
      (λ h. h.1.1.1.0 refl)
