-- ===== src/Haproxy/ConfigBuilder/Replicas.antt =====
-- The configurations that `BuildConfig` makes (internal/haproxy/configbuilder.go).
use k8s_glb_operator.Base.{
  ℕ, zero, suc, ◌≡◌, ◌<◌, refl, Bool, true, false, ◌||◌, String, ◌<>◌, none, some, List,
  if◌then◌else◌, ◌==◌, ltb, ltb→lt, Bool-cases, inl, inr, string_eq, arith, All,
}
use k8s_glb_operator.Base.GoMap.{
  GoMap, lookup, insert, lookup-insert, lookup-nil, NodupKeys, insert-NodupKeys,
}
use k8s_glb_operator.Api.{Int32, ok, Frontend, Backend, GlobalLoadBalancer}
use k8s_glb_operator.Haproxy.ConfigBuilder.Printed.{IsPrintable}
use k8s_glb_operator.Haproxy.ConfigBuilder.Text.{
  fixed_text, frontends_text, load_balancer_config-eq,
}
use k8s_glb_operator.Haproxy.ConfigBuilder.{
  or_blank, base_config, pod_name, add_replica, add_replicas, passes, build_config,
}

lookup-add_replica :
    (config pod k : String) (m : GoMap String String)
    → lookup k (add_replica config pod m)
      ≡ (if k == pod then some (base_config <> config) else lookup k m)
unfolding add_replica
lookup-add_replica config pod k m = ground (
  arith,
  lookup-insert pod pod base_config m,
  lookup-insert k pod base_config m,
  lookup-insert k pod (or_blank (lookup pod (insert pod base_config m)) <> config)
      (insert pod base_config m),
)

module _ (show32 : Int32 → String) (show64 : ℕ → String) where
  -- Whether one of the first `n` replicas has the name.
  unfoldable pub is_pod : GlobalLoadBalancer → String → ℕ → Bool
  is_pod lb k zero = false
  is_pod lb k (suc i) = k == lb.name <> "-haproxy-" <> show32 i || is_pod lb k i

  pub lookup-add_replicas :
      (lb : GlobalLoadBalancer) (config k : String) (n : ℕ)
      → lookup k (add_replicas show32 show64 lb config n)
        ≡ (if is_pod lb k n then some (base_config <> config) else none)
  unfolding add_replicas is_pod pod_name
  lookup-add_replicas lb config k zero = lookup-nil k
  lookup-add_replicas lb config k (suc i) = ground (
    arith,
    lookup-add_replica config (pod_name show32 show64 lb i) k
        (add_replicas show32 show64 lb config i),
    lookup-add_replicas lb config k i,
  )

  pub add_replicas-NodupKeys :
      (lb : GlobalLoadBalancer) (config : String) (n : ℕ)
      → NodupKeys (add_replicas show32 show64 lb config n)
  unfolding add_replicas add_replica
  add_replicas-NodupKeys lb config zero = tt
  add_replicas-NodupKeys lb config (suc i) =
      insert-NodupKeys _ _ _ (insert-NodupKeys _ _ _ (add_replicas-NodupKeys lb config i))

  -- The pod of a replica is one of them.
  pub is_pod-replica :
      (lb : GlobalLoadBalancer) (i n : ℕ)
      → i < n
      → is_pod lb (lb.name <> "-haproxy-" <> show32 i) n ≡ true
  unfolding is_pod
  is_pod-replica lb i zero h = absurd (omega arith)
  is_pod-replica lb i (suc n) h = elim (Bool-cases (ltb i n)) [
    | inl below ↦ ground (arith, is_pod-replica lb i n (ltb→lt i n below))
    | inr last ↦ let same : i ≡ n = ground (arith, last, h) in ground (arith, same)
  ]

  -- The map that is built, where nothing that is printed is a nil pointer.
  pub built :
      (lb : GlobalLoadBalancer) (fes : List Frontend) (backends : GoMap String (List Backend))
      → All (IsPrintable backends) fes
      → build_config show32 show64 lb fes backends
        ≡ ok (
            add_replicas show32 show64 lb
              (frontends_text show32 show64 fes backends)
              (passes lb.spec.replicas))
  unfolding build_config
  built lb fes backends h = rw (load_balancer_config-eq show32 show64 fes backends h) refl

  -- If nothing that is printed is a nil pointer, `BuildConfig` succeeds, and what it makes has one entry for
  -- each replica, under the name of the load balancer with "-haproxy-" and the replica's number, and no
  -- other. All of them hold the same text: the fixed part, then for each frontend its section, which binds
  -- the port of its service, with a rule for each of its backends that takes the requests for the backend's
  -- host there, and the sections of these backends with a line for each server, its address and its port.
  pub lookup-build_config :
      (lb : GlobalLoadBalancer) (fes : List Frontend) (backends : GoMap String (List Backend))
      → All (IsPrintable backends) fes
      → (m : GoMap String String) × (build_config show32 show64 lb fes backends ≡ ok m)
        × ((k : String)
            → lookup k m ≡ (
                if is_pod lb k (passes lb.spec.replicas)
                then some (fixed_text <> frontends_text show32 show64 fes backends)
                else none))
  lookup-build_config lb fes backends h = (
    add_replicas show32 show64 lb (frontends_text show32 show64 fes backends)
        (passes lb.spec.replicas),
    built lb fes backends h,
    λ k.
        lookup-add_replicas lb (frontends_text show32 show64 fes backends) k
          (passes lb.spec.replicas),
  )
