-- ===== src/Haproxy/Monitor/Publish.antt =====
-- `updateHealthManager` of internal/haproxy/haproxymonitor.go: the recorded states joined with the
-- backends and frontends of the cluster, one list of endpoints for each frontend.
use k8s_glb_operator.Base.{
  Bool, false, ◌||◌, String, Option, none, some, List, [], ◌∷◌, ◌++◌, map, if◌then◌else◌, string_eq,
}
use k8s_glb_operator.Base.GoMap.{GoMap, lookup, insert}
use k8s_glb_operator.Api.{
  Uid, Labels, NamespacedName, namespaced_name_eq, LabelSelector, Error, wrapped, Result, ok, err,
  Backend, Frontend, frontend_key,
}
use k8s_glb_operator.Haproxy.HealthCache.{Endpoint, or_empty}
use k8s_glb_operator.Haproxy.HealthManager
use k8s_glb_operator.Haproxy.HealthManager.{HealthManager}
use k8s_glb_operator.Haproxy.Monitor.{Monitor, ScrapeTarget, EndpointStates}
use k8s_glb_operator.Haproxy.Monitor.Scrape.{inner_map}

-- A missing key of a `map[types.UID]bool` reads as false.
abbrev pub or_false : Option Bool → Bool
or_false none = false
or_false (some b) = b

-- `consolidated[backendName][uid] = consolidated[backendName][uid] || isUp`
unfoldable pub merge_state : String → Uid → Bool → EndpointStates → EndpointStates
merge_state backend uid is_up acc =
    let inner = inner_map (lookup backend acc) in
    insert backend (insert uid (or_false (lookup uid inner) || is_up) inner) acc

unfoldable pub consolidate_backend : String → GoMap Uid Bool → EndpointStates → EndpointStates
consolidate_backend backend [] acc = acc
consolidate_backend backend ((uid, is_up) ∷ m) acc =
    consolidate_backend backend m (merge_state backend uid is_up acc)

unfoldable pub consolidate : EndpointStates → EndpointStates → EndpointStates
consolidate [] acc = acc
consolidate ((backend, m) ∷ states) acc = consolidate states (consolidate_backend backend m acc)

-- `ep := w.scrapeTargets[uid]`: the zero target if the pod is not in the snapshot.
abbrev pub or_zero : Option ScrapeTarget → ScrapeTarget
or_zero none = record { uid = ""; name = ""; namespace = ""; node_name = ""; ip = "" }
or_zero (some target) = target

unfoldable pub endpoint_of : GoMap Uid ScrapeTarget → Uid × Bool → Endpoint
endpoint_of targets (uid, is_up) =
    let ep = or_zero (lookup uid targets) in
    record { node_name = ep.node_name; ip_address = ep.ip; healthy = is_up }

abbrev pub FrontendEndpoints : Type 0
FrontendEndpoints = GoMap NamespacedName (List Endpoint)

-- `metav1.LabelSelectorAsSelector` is a parameter: `none` is an invalid selector. So is the order in
-- which Go's `range` gives the entries of a map, which the language leaves open.
pub record Ranges : Type 0 where
  pub range_targets : GoMap Uid ScrapeTarget → List (Uid × ScrapeTarget)
  pub range_states : GoMap Uid Bool → List (Uid × Bool)
  pub range_frontends : FrontendEndpoints → List (NamespacedName × List Endpoint)

-- What the loop over `uidStates` appends.
abbrev pub backend_endpoints : Ranges → GoMap Uid ScrapeTarget → GoMap Uid Bool → List Endpoint
backend_endpoints ranges targets uid_states =
    map (endpoint_of targets) (ranges.range_states uid_states)

module _ (as_selector : LabelSelector → Option (Labels → Bool)) where
  unfoldable pub selects : Frontend → Backend → Bool
  selects fe backend = elim (as_selector fe.spec.backend_selector) [
    | none ↦ false
    | some matches ↦ matches backend.labels
  ]

  unfoldable pub add_to_frontend :
      Backend → List Endpoint → Frontend → FrontendEndpoints → FrontendEndpoints
  unfolding selects
  add_to_frontend backend eps fe acc =
      if selects fe backend
      then insert (frontend_key fe) (or_empty (lookup (frontend_key fe) acc) ++ eps) acc
      else acc

  -- The loop over the frontends, for a backend with the endpoints `eps`.
  unfoldable pub add_to_frontends :
      Backend → List Endpoint → List Frontend → FrontendEndpoints → FrontendEndpoints
  unfolding add_to_frontend
  add_to_frontends backend eps [] acc = acc
  add_to_frontends backend eps (fe ∷ fes) acc =
      add_to_frontends backend eps fes (add_to_frontend backend eps fe acc)

  module _ (ranges : Ranges) (targets : GoMap Uid ScrapeTarget)
      (consolidated : EndpointStates) where
    -- A backend with no recorded state is passed over.
    unfoldable pub add_backend : Backend → List Frontend → FrontendEndpoints → FrontendEndpoints
    unfolding add_to_frontends
    add_backend backend fes acc = elim (lookup backend.name consolidated) [
      | none ↦ acc
      | some uid_states ↦
          add_to_frontends backend (backend_endpoints ranges targets uid_states) fes acc
    ]

    -- The loop over the backends.
    unfoldable pub frontend_endpoints :
        List Backend → List Frontend → FrontendEndpoints → FrontendEndpoints
    unfolding add_backend
    frontend_endpoints [] fes acc = acc
    frontend_endpoints (backend ∷ backends) fes acc =
        frontend_endpoints backends fes (add_backend backend fes acc)

-- The last loop: one call of the health manager for each frontend.
unfoldable pub publish : List (NamespacedName × List Endpoint) → HealthManager → HealthManager
publish [] m = m
publish ((frontend, eps) ∷ rest) m = publish rest (HealthManager.update m frontend eps)

module _ (as_selector : LabelSelector → Option (Labels → Bool)) (ranges : Ranges) where
  unfoldable pub collect : Monitor → List Backend → List Frontend → FrontendEndpoints
  unfolding consolidate frontend_endpoints
  collect w backends frontends =
      frontend_endpoints as_selector ranges w.scrape_targets (consolidate w.endpoint_states [])
        backends frontends []

-- What `w.Client.List` gives in a namespace.
pub record Lister : Type 0 where
  pub list_backends : String → Result (List Backend)
  pub list_frontends : String → Result (List Frontend)

module _ (as_selector : LabelSelector → Option (Labels → Bool)) (ranges : Ranges)
    (client : Lister) where
  unfoldable pub update_health_manager : Monitor → Monitor × Option Error
  unfolding collect publish
  update_health_manager w = elim (client.list_backends w.namespace) [
    | err e ↦ (w, some (wrapped "failed to list backend CRDs" e))
    | ok backends ↦ elim (client.list_frontends w.namespace) [
      | err e ↦ (w, some (wrapped "failed to list frontend CRDs" e))
      | ok frontends ↦ (
        record w {
          health_mgr =
              publish (ranges.range_frontends (collect as_selector ranges w backends frontends))
                w.health_mgr;
        },
        none,
      )
    ]
  ]
