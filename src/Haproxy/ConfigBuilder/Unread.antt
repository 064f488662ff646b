-- ===== src/Haproxy/ConfigBuilder/Unread.antt =====
-- What `BuildConfig` of internal/haproxy/configbuilder.go does not read.
use k8s_glb_operator.Base.{ℕ, ◌≡◌, refl, String, List, [], ◌∷◌, map, string_eq}
use k8s_glb_operator.Base.GoMap.{GoMap}
use k8s_glb_operator.Api.{Int32, Frontend, FrontendStatus, Backend, GlobalLoadBalancer}
use k8s_glb_operator.Haproxy.ConfigBuilder.{frontend_config, load_balancer_config, build_config}

abbrev pub with_status : (Frontend → FrontendStatus) → Frontend → Frontend
with_status status fe = record fe { status = status fe }

module _ (show32 : Int32 → String) (show64 : ℕ → String) (status : Frontend → FrontendStatus) where
  frontend_config-with_status :
      (fe : Frontend) (backends : List Backend)
      → frontend_config show32 show64 (with_status status fe) backends
        ≡ frontend_config show32 show64 fe backends
  unfolding frontend_config
  frontend_config-with_status fe backends = refl

  load_balancer_config-with_status :
      (fes : List Frontend) (backends : GoMap String (List Backend))
      → load_balancer_config show32 show64 (map (with_status status) fes) backends
        ≡ load_balancer_config show32 show64 fes backends
  unfolding load_balancer_config
  load_balancer_config-with_status [] backends = refl
  load_balancer_config-with_status (fe ∷ fes) backends =
      rw (load_balancer_config-with_status fes backends) refl

  -- `BuildConfig` gives the same, an error included, whatever the statuses of the frontends hold, the
  -- ports that were allotted to them among it.
  pub status_unread :
      (lb : GlobalLoadBalancer) (fes : List Frontend) (backends : GoMap String (List Backend))
      → build_config show32 show64 lb (map (with_status status) fes) backends
        ≡ build_config show32 show64 lb fes backends
  unfolding build_config
  status_unread lb fes backends = rw (load_balancer_config-with_status fes backends) refl
