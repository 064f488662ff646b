-- ===== src/Haproxy/ConfigBuilder/Printed.antt =====
-- Which configurations `BuildConfig` can print (internal/haproxy/configbuilder.go).
use k8s_glb_operator.Base.{
  ℕ, ◌≡◌, ◌↔◌, ◌⊎◌, inl, inr, refl, ap, ◌∙◌, String, Option, none, some, List, [], ◌∷◌, string_eq,
  All,
}
use k8s_glb_operator.Base.GoMap.{GoMap, lookup}
use k8s_glb_operator.Api.{
  Int32, nil_dereference, Result, ok, err, ◌>>=◌, Frontend, FrontendServiceSpec, Backend,
  BackendServerSpec, GlobalLoadBalancer,
}
use k8s_glb_operator.Haproxy.HealthCache.{or_empty}
use k8s_glb_operator.Haproxy.ConfigBuilder.{
  server_line, server_lines, backend_blocks, frontend_head, frontend_config, load_balancer_config,
  add_replicas, passes, build_config,
}

abbrev pub IsServer : Option BackendServerSpec → Type 0
IsServer server = (spec : BackendServerSpec) × (server ≡ some spec)

abbrev pub HasServers : Backend → Type 0
HasServers backend = All IsServer backend.spec.servers

-- Nothing that is printed is a nil pointer.
abbrev pub IsPrintable : GoMap String (List Backend) → Frontend → Type 0
IsPrintable backends fe =
    ((spec : FrontendServiceSpec) × (fe.spec.service ≡ some spec))
    × All HasServers (or_empty (lookup fe.name backends))

-- A result that is a value if `P` holds, and else the panic on a nil pointer.
abbrev Outcome {ℓ} : {A : Type 0} → Type ℓ → Result A → Type ℓ
Outcome {A = A} P r = (P × (a : A) × (r ≡ ok a)) ⊎ ((¬ P) × (r ≡ err nil_dereference))

Outcome-bind :
    {A B P Q : Type 0} (r : Result A) (f : A → Result B)
    → Outcome P r
    → ((a : A) → Outcome Q (f a))
    → Outcome (P × Q) (r >>= f)
Outcome-bind r f (inr (np, e)) h = inr (λ (p, q). np p, ap (λ x. x >>= f) e)
Outcome-bind r f (inl (p, a, e)) h = elim (h a) [
  | inl (q, b, e') ↦ inl ((p, q), b, ap (λ x. x >>= f) e ∙ e')
  | inr (nq, e') ↦ inr (λ (p, q). nq q, ap (λ x. x >>= f) e ∙ e')
]

Outcome-map :
    {A B P : Type 0} (r : Result A) (f : A → B) → Outcome P r → Outcome P (r >>= λ a. ok (f a))
Outcome-map r f (inr (np, e)) = inr (np, ap (λ x. x >>= λ a. ok (f a)) e)
Outcome-map r f (inl (p, a, e)) = inl (p, f a, ap (λ x. x >>= λ a. ok (f a)) e)

module _ (show32 : Int32 → String) (show64 : ℕ → String) where
  server_line-Outcome :
      (server : Option BackendServerSpec)
      → Outcome (IsServer server) (server_line show32 show64 server)
  unfolding server_line
  server_line-Outcome none = inr (λ (spec, e). cc, refl)
  server_line-Outcome (some server) = inl ((server, refl), _, refl)

  server_lines-Outcome :
      (servers : List (Option BackendServerSpec))
      → Outcome (All IsServer servers) (server_lines show32 show64 servers)
  unfolding server_lines
  server_lines-Outcome [] = inl (tt, "", refl)
  server_lines-Outcome (server ∷ servers) =
      Outcome-bind _ _ (server_line-Outcome server)
        (λ line. Outcome-map _ _ (server_lines-Outcome servers))

  backend_blocks-Outcome :
      (backends : List Backend)
      → Outcome (All HasServers backends) (backend_blocks show32 show64 backends)
  unfolding backend_blocks
  backend_blocks-Outcome [] = inl (tt, "", refl)
  backend_blocks-Outcome (backend ∷ backends) =
      Outcome-bind _ _ (server_lines-Outcome backend.spec.servers)
        (λ servers. Outcome-map _ _ (backend_blocks-Outcome backends))

  frontend_head-Outcome :
      (fe : Frontend) (service : Option FrontendServiceSpec)
      → Outcome
          ((spec : FrontendServiceSpec) × (service ≡ some spec))
          (frontend_head show32 show64 fe service)
  unfolding frontend_head
  frontend_head-Outcome fe none = inr (λ (spec, e). cc, refl)
  frontend_head-Outcome fe (some spec) = inl ((spec, refl), _, refl)

  frontend_config-Outcome :
      (fe : Frontend) (backends : GoMap String (List Backend))
      → Outcome
          (IsPrintable backends fe)
          (frontend_config show32 show64 fe (or_empty (lookup fe.name backends)))
  unfolding frontend_config
  frontend_config-Outcome fe backends =
      Outcome-bind _ _ (frontend_head-Outcome fe fe.spec.service)
        (λ head. Outcome-map _ _ (backend_blocks-Outcome (or_empty (lookup fe.name backends))))

  load_balancer_config-Outcome :
      (fes : List Frontend) (backends : GoMap String (List Backend))
      → Outcome (All (IsPrintable backends) fes) (load_balancer_config show32 show64 fes backends)
  unfolding load_balancer_config
  load_balancer_config-Outcome [] backends = inl (tt, "", refl)
  load_balancer_config-Outcome (fe ∷ fes) backends =
      Outcome-bind _ _ (frontend_config-Outcome fe backends)
        (λ config. Outcome-map _ _ (load_balancer_config-Outcome fes backends))

  pub load_balancer_config-ok :
      (fes : List Frontend) (backends : GoMap String (List Backend))
      → All (IsPrintable backends) fes
      → (config : String) × (load_balancer_config show32 show64 fes backends ≡ ok config)
  load_balancer_config-ok fes backends h = elim (load_balancer_config-Outcome fes backends) [
    | inl (_, config, e) ↦ (config, e)
    | inr (bad, _) ↦ absurd (bad h)
  ]

  -- `BuildConfig` panics on a nil pointer exactly if a frontend has no `Spec.Service`, or a backend that
  -- is listed for a frontend's name has a server that is nil, whatever the number of replicas is.
  pub build_config_nil :
      (lb : GlobalLoadBalancer) (fes : List Frontend) (backends : GoMap String (List Backend))
      → (build_config show32 show64 lb fes backends ≡ err nil_dereference)
        ↔ (¬ All (IsPrintable backends) fes)
  unfolding build_config
  build_config_nil lb fes backends =
      elim (Outcome-map _ (λ config. add_replicas show32 show64 lb config (passes lb.spec.replicas))
        (load_balancer_config-Outcome fes backends)) [
          | inl (h, m, e) ↦ (λ bad. cc (e, bad), λ n. absurd (n h))
          | inr (n, e) ↦ (λ _. n, λ _. e)
        ]
