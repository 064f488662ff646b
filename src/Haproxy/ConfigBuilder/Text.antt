-- ===== src/Haproxy/ConfigBuilder/Text.antt =====
-- The text of a configuration (internal/haproxy/configbuilder.go), line by line.
use text.Mathlib.TextLemmas.{append_assoc}
use k8s_glb_operator.Base.{
  ℕ, ◌≡◌, refl, ap, string_eq, String, ◌<>◌, Option, none, some, List, [], ◌∷◌, All,
}
use k8s_glb_operator.Base.GoMap.{GoMap, lookup}
use k8s_glb_operator.Api.{Int32, ok, Frontend, FrontendServiceSpec, Backend, BackendServerSpec}
use k8s_glb_operator.Haproxy.HealthCache.{or_empty}
use k8s_glb_operator.Haproxy.ConfigBuilder.{
  base_config, server_line, server_lines, use_backends, backend_blocks, frontend_head,
  frontend_config, load_balancer_config,
}
use k8s_glb_operator.Haproxy.ConfigBuilder.Printed.{IsServer, HasServers, IsPrintable}

abbrev texts : {A : Type 0} → (A → String) → List A → String
texts print [] = ""
texts print (a ∷ rest) = print a <> texts print rest

-- What every configuration starts with.
abbrev pub fixed_text : String
fixed_text =
    "\n"
    <> texts (λ line. line <> "\n")
        ("global" ∷ "  log stdout format raw local0" ∷ "" ∷ "defaults" ∷ "  log global"
          ∷ "  option dontlognull" ∷ "  timeout connect 5s" ∷ "  timeout client 50s"
          ∷ "  timeout client-fin 50s" ∷ "  timeout server 50s" ∷ "  timeout tunnel 1h" ∷ ""
          ∷ "frontend stats" ∷ "  mode http" ∷ "  bind :8404" ∷ "  stats enable"
          ∷ "  stats refresh 10s" ∷ "  stats uri /stats" ∷ "  stats show-modules" ∷ ""
          ∷ "frontend prometheus" ∷ "  bind :8405" ∷ "  mode http"
          ∷ "  http-request use-service prometheus-exporter" ∷ "  no log" ∷ [])

pub base_config-eq : base_config ≡ fixed_text
base_config-eq = refl

module _ (show32 : Int32 → String) (show64 : ℕ → String) where
  -- A server at its address and port, which HAProxy checks.
  abbrev server_text : Option BackendServerSpec → String
  server_text none = ""
  server_text (some server) =
      "\n  server "
      <> server.name
      <> " "
      <> server.address
      <> ":"
      <> show64 server.port
      <> " check\n"

  -- The rule that takes the requests for a backend's host to this backend.
  abbrev rule_text : Backend → String
  rule_text backend =
      "\n  use_backend " <> backend.name <> " if { req_ssl_sni -i " <> backend.spec.host <> " }\n"

  -- The section of a backend, with all of its servers.
  abbrev backend_text : Backend → String
  backend_text backend =
      "\nbackend " <> backend.name <> "\n  mode tcp\n" <> texts server_text backend.spec.servers

  -- The section of a frontend: it binds the service's port and reads the name that a client asks for.
  abbrev head_text : Frontend → Option FrontendServiceSpec → String
  head_text fe none = ""
  head_text fe (some service) =
      "\nfrontend "
      <> fe.name
      <> "\n  bind *:"
      <> show32 service.port
      <> "\n  mode tcp\n  option tcplog\n\n  tcp-request inspect-delay 5s\n"
      <> "  tcp-request content accept if { req_ssl_hello_type 1 }\n\n"

  -- A frontend with the rules for its backends, and then the sections of these.
  abbrev frontend_text : Frontend → List Backend → String
  frontend_text fe backends =
      head_text fe fe.spec.service <> texts rule_text backends <> texts backend_text backends

  abbrev pub frontends_text : List Frontend → GoMap String (List Backend) → String
  frontends_text fes backends =
      texts (λ fe. frontend_text fe (or_empty (lookup fe.name backends))) fes

  server_lines-eq :
      (servers : List (Option BackendServerSpec))
      → All IsServer servers
      → server_lines show32 show64 servers ≡ ok (texts server_text servers)
  unfolding server_lines server_line
  server_lines-eq [] h = refl
  server_lines-eq (none ∷ servers) ((spec, e), h) = absurd cc e
  server_lines-eq (some server ∷ servers) (_, h) = rw (server_lines-eq servers h) refl

  backend_blocks-eq :
      (backends : List Backend)
      → All HasServers backends
      → backend_blocks show32 show64 backends ≡ ok (texts backend_text backends)
  unfolding backend_blocks
  backend_blocks-eq [] h = refl
  backend_blocks-eq (backend ∷ backends) (servers, h) =
      rw (server_lines-eq backend.spec.servers servers, backend_blocks-eq backends h)
        (ap ok (simp append_assoc refl))

  use_backends-eq :
      (backends : List Backend) → use_backends show32 show64 backends ≡ texts rule_text backends
  unfolding use_backends
  use_backends-eq [] = refl
  use_backends-eq (backend ∷ backends) = rw (use_backends-eq backends) (simp append_assoc refl)

  frontend_head-eq :
      (fe : Frontend) (service : Option FrontendServiceSpec)
      → ((spec : FrontendServiceSpec) × (service ≡ some spec))
      → frontend_head show32 show64 fe service ≡ ok (head_text fe service)
  unfolding frontend_head
  frontend_head-eq fe none (spec, e) = absurd cc e
  frontend_head-eq fe (some service) h = refl

  pub load_balancer_config-eq :
      (fes : List Frontend) (backends : GoMap String (List Backend))
      → All (IsPrintable backends) fes
      → load_balancer_config show32 show64 fes backends ≡ ok (frontends_text fes backends)
  unfolding load_balancer_config frontend_config
  load_balancer_config-eq [] backends h = refl
  load_balancer_config-eq (fe ∷ fes) backends ((service, servers), h) =
      let listed = or_empty (lookup fe.name backends) in
      rw
        (
          frontend_head-eq fe fe.spec.service service,
          backend_blocks-eq listed servers,
          use_backends-eq listed,
          load_balancer_config-eq fes backends h,
        )
        refl
