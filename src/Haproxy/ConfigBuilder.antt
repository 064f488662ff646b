-- ===== src/Haproxy/ConfigBuilder.antt =====
-- `BuildConfig` of internal/haproxy/configbuilder.go. The formatting of numbers by the verb `%d` is a
-- parameter. A nil pointer in what is printed makes it panic.
pub mod Printed
pub mod Text
pub mod Replicas
pub mod Unread
pub mod Twice
use k8s_glb_operator.Base.{
  ℕ, zero, suc, String, ◌<>◌, Option, none, some, List, [], ◌∷◌, if◌then◌else◌, ltb, string_eq,
}
use k8s_glb_operator.Base.GoMap.{GoMap, lookup, insert}
use k8s_glb_operator.Api.{
  Int32, Error, nil_dereference, Result, ok, err, ◌>>=◌, Frontend, FrontendServiceSpec, Backend,
  BackendServerSpec, GlobalLoadBalancer,
}
use k8s_glb_operator.Api.Words.{sign_bit}
use k8s_glb_operator.Haproxy.HealthCache.{or_empty}

-- The text of `configMap[podName]` before the load balancer's own.
abbrev pub base_config : String
base_config =
    "\nglobal\n  log stdout format raw local0\n\ndefaults\n  log global\n  option dontlognull\n"
    <> "  timeout connect 5s\n  timeout client 50s\n  timeout client-fin 50s\n  timeout server 50s\n"
    <> "  timeout tunnel 1h\n\nfrontend stats\n  mode http\n  bind :8404\n  stats enable\n"
    <> "  stats refresh 10s\n  stats uri /stats\n  stats show-modules\n\nfrontend prometheus\n"
    <> "  bind :8405\n  mode http\n  http-request use-service prometheus-exporter\n  no log\n"

abbrev pub or_blank : Option String → String
or_blank none = ""
or_blank (some s) = s

-- One pass of the loop over the replicas.
unfoldable pub add_replica : String → String → GoMap String String → GoMap String String
add_replica config pod m =
    let m' = insert pod base_config m in insert pod (or_blank (lookup pod m') <> config) m'

-- `range` over a number that is not positive has no pass.
abbrev pub passes : Int32 → ℕ
passes replicas = if ltb replicas sign_bit then replicas else 0

-- `show32` prints an `int32` and `show64` an `int`, each given by its bit pattern.
module _ (show32 : Int32 → String) (show64 : ℕ → String) where
  unfoldable pub server_line : Option BackendServerSpec → Result String
  server_line none = err nil_dereference
  server_line (some server) = ok (
      "\n  server "
      <> server.name
      <> " "
      <> server.address
      <> ":"
      <> show64 server.port
      <> " check\n")

  unfoldable pub server_lines : List (Option BackendServerSpec) → Result String
  unfolding server_line
  server_lines [] = ok ""
  server_lines (server ∷ servers) = do
    line ← server_line server
    lines ← server_lines servers
    ok (line <> lines)

  unfoldable pub use_backends : List Backend → String
  use_backends [] = ""
  use_backends (backend ∷ backends) =
      "\n  use_backend "
      <> backend.name
      <> " if { req_ssl_sni -i "
      <> backend.spec.host
      <> " }\n"
      <> use_backends backends

  unfoldable pub backend_blocks : List Backend → Result String
  unfolding server_lines
  backend_blocks [] = ok ""
  backend_blocks (backend ∷ backends) = do
    servers ← server_lines backend.spec.servers
    blocks ← backend_blocks backends
    ok ("\nbackend " <> backend.name <> "\n  mode tcp\n" <> servers <> blocks)

  unfoldable pub frontend_head : Frontend → Option FrontendServiceSpec → Result String
  frontend_head fe none = err nil_dereference
  frontend_head fe (some spec) = ok (
      "\nfrontend "
      <> fe.name
      <> "\n  bind *:"
      <> show32 spec.port
      <> "\n  mode tcp\n  option tcplog\n\n  tcp-request inspect-delay 5s\n"
      <> "  tcp-request content accept if { req_ssl_hello_type 1 }\n\n")

  -- One pass of the loop over the frontends.
  unfoldable pub frontend_config : Frontend → List Backend → Result String
  unfolding frontend_head use_backends backend_blocks
  frontend_config fe backends = do
    head ← frontend_head fe fe.spec.service
    blocks ← backend_blocks backends
    ok (head <> use_backends backends <> blocks)

  unfoldable pub load_balancer_config : List Frontend → GoMap String (List Backend) → Result String
  unfolding frontend_config
  load_balancer_config [] backends = ok ""
  load_balancer_config (fe ∷ fes) backends = do
    config ← frontend_config fe (or_empty (lookup fe.name backends))
    configs ← load_balancer_config fes backends
    ok (config <> configs)

  unfoldable pub pod_name : GlobalLoadBalancer → Int32 → String
  pod_name lb i = lb.name <> "-haproxy-" <> show32 i

  unfoldable pub add_replicas : GlobalLoadBalancer → String → ℕ → GoMap String String
  unfolding add_replica pod_name
  add_replicas lb config zero = []
  add_replicas lb config (suc i) = add_replica config (pod_name lb i) (add_replicas lb config i)

  unfoldable pub build_config :
      GlobalLoadBalancer
      → List Frontend
      → GoMap String (List Backend)
      → Result (GoMap String String)
  unfolding load_balancer_config add_replicas
  build_config lb frontends backends = do
    config ← load_balancer_config frontends backends
    ok (add_replicas lb config (passes lb.spec.replicas))
