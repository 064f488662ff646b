-- ===== src/Haproxy/Monitor/Published.antt =====
-- What a publication leaves in the health cache for each frontend
-- (`updateHealthManager` of internal/haproxy/haproxymonitor.go).
use mathlib.Core.List.{Mem, Nodup}
use k8s_glb_operator.Base.{
  ◌≡◌, refl, ap, ◌∙◌, ◌≢◌, Bool, String, Option, none, some, List, [], ◌∷◌, ◌++◌, arith, string_eq,
  Option-cases, inl, inr, if_pos, if_neg,
}
use k8s_glb_operator.Base.GoMap.{GoMap, lookup, NodupKeys, insert-NodupKeys}
use k8s_glb_operator.Api.{
  Uid, Labels, LabelSelector, NamespacedName, namespaced_name_eq, Backend, Frontend, frontend_key,
  ok,
}
use k8s_glb_operator.Haproxy.HealthCache.{Endpoint, or_empty}
use k8s_glb_operator.Haproxy.HealthCache
use k8s_glb_operator.Haproxy.HealthCache.Health.{addresses, health_of}
use k8s_glb_operator.Haproxy.HealthCache.Changes.{
  lookup-update, refreshed, lookup-update_self, refreshed-health_of,
}
use k8s_glb_operator.Haproxy.HealthManager.{HealthManager}
use k8s_glb_operator.Haproxy.HealthManager
use k8s_glb_operator.Haproxy.HealthManager.Events
use k8s_glb_operator.Haproxy.Monitor.{Monitor, ScrapeTarget, EndpointStates}
use k8s_glb_operator.Haproxy.Monitor.Publish.{
  Ranges, Lister, FrontendEndpoints, add_to_frontend, add_to_frontends, backend_endpoints,
  add_backend, frontend_endpoints, publish, collect, update_health_manager,
}
use k8s_glb_operator.Haproxy.Monitor.Invariant.{IsValid}
use k8s_glb_operator.Haproxy.Monitor.Consolidate.{consolidate-eq}
use k8s_glb_operator.Haproxy.Monitor.Selected.{keys_of, endpoints_for, lookup-frontend_endpoints}

-- Go ranges over each entry of a map once.
pub record RangesOnce (ranges : Ranges) : Type 0 where
  pub distinct : (m : FrontendEndpoints) → NodupKeys m → NodupKeys (ranges.range_frontends m)
  pub same :
      (m : FrontendEndpoints) (k : NamespacedName)
      → NodupKeys m
      → lookup k (ranges.range_frontends m) ≡ lookup k m

-- A frontend's entry in the cache, where the publication has endpoints for it or has none.
abbrev pub entry_after : Option (List Endpoint) → Option (List Endpoint) → Option (List Endpoint)
entry_after old none = old
entry_after old (some eps) = some (refreshed old eps)

entry_of-update :
    (m : HealthManager) (k frontend : NamespacedName) (eps : List Endpoint)
    → k ≢ frontend
    → lookup k (HealthManager.update m frontend eps).cache.endpoints ≡ lookup k m.cache.endpoints
entry_of-update m k frontend eps other =
    rw (Events.update_lem m frontend eps).0 (lookup-update m.cache frontend eps k ∙ ground arith)

entry_of-update_self :
    (m : HealthManager) (frontend : NamespacedName) (eps : List Endpoint)
    → lookup frontend (HealthManager.update m frontend eps).cache.endpoints
      ≡ some (refreshed (lookup frontend m.cache.endpoints) eps)
entry_of-update_self m frontend eps =
    rw (Events.update_lem m frontend eps).0 (lookup-update_self m.cache frontend eps)

publish-none :
    (l : FrontendEndpoints) (m : HealthManager) (k : NamespacedName)
    → lookup k l ≡ none
    → lookup k (publish l m).cache.endpoints ≡ lookup k m.cache.endpoints
unfolding publish lookup
publish-none [] m k absent = refl
publish-none ((frontend, eps) ∷ l) m k absent = elim (namespaced_name_eq.dec k frontend) [
  | yes same ↦ absurd (ground arith)
  | no other ↦
      publish-none l (HealthManager.update m frontend eps) k (ground arith)
      ∙ entry_of-update m k frontend eps other
]

-- The calls of a publication reach each frontend's entry once.
lookup-publish :
    (l : FrontendEndpoints) (m : HealthManager) (k : NamespacedName)
    → NodupKeys l
    → lookup k (publish l m).cache.endpoints ≡ entry_after (lookup k m.cache.endpoints) (lookup k l)
unfolding publish lookup
lookup-publish [] m k d = refl
lookup-publish ((frontend, eps) ∷ l) m k (fresh, d) = elim (namespaced_name_eq.dec k frontend) [
  | yes same ↦
      publish-none l (HealthManager.update m frontend eps) k (rw same fresh)
      ∙ rw (if_pos _ same) (rw same (entry_of-update_self m frontend eps))
  | no other ↦
      rw (if_neg _ other, ← entry_of-update m k frontend eps other)
        (lookup-publish l (HealthManager.update m frontend eps) k d)
]

-- The gathered map has each frontend once.
module _ (as_selector : LabelSelector → Option (Labels → Bool)) where
  add_to_frontends-NodupKeys :
      (backend : Backend) (eps : List Endpoint) (fes : List Frontend) (acc : FrontendEndpoints)
      → NodupKeys acc
      → NodupKeys (add_to_frontends as_selector backend eps fes acc)
  unfolding add_to_frontends add_to_frontend
  add_to_frontends-NodupKeys backend eps [] acc d = d
  add_to_frontends-NodupKeys backend eps (fe ∷ fes) acc d =
      add_to_frontends-NodupKeys backend eps fes _ (
        ground (
          arith,
          insert-NodupKeys (frontend_key fe) (or_empty (lookup (frontend_key fe) acc) ++ eps) acc d,
        ))

  module _ (ranges : Ranges) (targets : GoMap Uid ScrapeTarget) (states : EndpointStates) where
    add_backend-NodupKeys :
        (backend : Backend) (fes : List Frontend) (acc : FrontendEndpoints)
        → NodupKeys acc
        → NodupKeys (add_backend as_selector ranges targets states backend fes acc)
    unfolding add_backend
    add_backend-NodupKeys backend fes acc d = elim (Option-cases (lookup backend.name states)) [
      | inl missing ↦ rw (missing, add_backend) d
      | inr (m, found) ↦
          rw (found, add_backend)
            (add_to_frontends-NodupKeys backend (backend_endpoints ranges targets m) fes acc d)
    ]

    frontend_endpoints-NodupKeys :
        (backends : List Backend) (fes : List Frontend) (acc : FrontendEndpoints)
        → NodupKeys acc
        → NodupKeys (frontend_endpoints as_selector ranges targets states backends fes acc)
    unfolding frontend_endpoints
    frontend_endpoints-NodupKeys [] fes acc d = d
    frontend_endpoints-NodupKeys (backend ∷ backends) fes acc d =
        frontend_endpoints-NodupKeys backends fes _ (add_backend-NodupKeys backend fes acc d)

module _ (as_selector : LabelSelector → Option (Labels → Bool)) (ranges : Ranges) (client : Lister)
    (w : Monitor) (backends : List Backend) (fes : List Frontend)
    (listed_backends : client.list_backends w.namespace ≡ ok backends)
    (listed_frontends : client.list_frontends w.namespace ≡ ok fes) where
  pub update_health_manager-ok : update_health_manager as_selector ranges client w ≡ (
    record w {
      health_mgr =
          publish (ranges.range_frontends (collect as_selector ranges w backends fes)) w.health_mgr;
    },
    none,
  )
  unfolding update_health_manager
  update_health_manager-ok =
      rw (listed_backends, update_health_manager) (rw (listed_frontends, update_health_manager))

  module _ (once : RangesOnce ranges) (valid : IsValid w) (distinct : Nodup (keys_of fes))
      (fe : Frontend) (member : Mem fe fes) where
    lookup-collect :
        lookup (frontend_key fe) (collect as_selector ranges w backends fes)
        ≡ endpoints_for as_selector ranges w.scrape_targets w.endpoint_states fe backends
    unfolding collect
    lookup-collect = rw (consolidate-eq w.endpoint_states valid.recorded) (
        lookup-frontend_endpoints as_selector ranges w.scrape_targets w.endpoint_states backends fes
          fe distinct member)

    -- A publication on a valid monitor, with both lists read and the frontends under distinct names,
    -- refreshes the entry of each listed frontend with the endpoints of the backends that it selects,
    -- and leaves the entry of a frontend that selects no backend with a recorded state.
    published_entry :
        lookup
          (frontend_key fe)
          (update_health_manager as_selector ranges client w).0.health_mgr.cache.endpoints
        ≡ entry_after
            (lookup (frontend_key fe) w.health_mgr.cache.endpoints)
            (endpoints_for as_selector ranges w.scrape_targets w.endpoint_states fe backends)
    published_entry = rw update_health_manager-ok (
        lookup-publish (ranges.range_frontends collected) w.health_mgr (frontend_key fe)
          (once.distinct collected collected-NodupKeys)
        ∙ ap (entry_after (lookup (frontend_key fe) w.health_mgr.cache.endpoints))
            (once.same collected (frontend_key fe) collected-NodupKeys ∙ lookup-collect))
      where
        collected : FrontendEndpoints
        collected = collect as_selector ranges w backends fes

        collected-NodupKeys : NodupKeys collected
        collected-NodupKeys =
            unfold collect in
            frontend_endpoints-NodupKeys as_selector ranges w.scrape_targets _ backends fes [] tt

    -- After a publication on a valid monitor, with both lists read and the frontends under distinct
    -- names, the cache states of every address the health that the endpoints gathered for a listed
    -- frontend state, if some were gathered and their addresses are distinct.
    pub published_health :
        (eps : List Endpoint)
        → endpoints_for as_selector ranges w.scrape_targets w.endpoint_states fe backends ≡ some eps
        → Nodup (addresses eps)
        → (ip : String)
        → health_of ip (
            HealthCache.get
              (update_health_manager as_selector ranges client w).0.health_mgr.cache
              (frontend_key fe))
          ≡ health_of ip eps
    unfolding HealthCache.get
    published_health eps gathered separate ip =
        rw (published_entry, gathered)
          (refreshed-health_of (lookup (frontend_key fe) w.health_mgr.cache.endpoints) eps separate
            ip)
