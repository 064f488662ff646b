-- ===== src/Haproxy/Monitor/Stale.antt =====
-- Health that outlives its pod (internal/haproxy/haproxymonitor.go): a scrape that ends after its pod
-- was deleted, a deletion that the watch missed, and the last pod of the load balancer.
use k8s_glb_operator.Base.{
  ◌≡◌, refl, ap, ◌∙◌, ◌≢◌, Bool, true, String, Option, none, some, List, [], ◌∷◌, arith,
  if◌then◌else◌, ◌==◌, string_eq, inl, inr, if_pos, if_neg,
}
use k8s_glb_operator.Base.GoMap.{GoMap, lookup, lookup-erase, lookup-nil}
use k8s_glb_operator.Api.{
  NamespacedName, namespaced_name_eq, Uid, Labels, LabelSelector, Pod, Backend, Frontend,
  Result-cases,
}
use k8s_glb_operator.Haproxy.HealthCache.{Endpoint}
use k8s_glb_operator.Haproxy.Monitor.{Monitor, ScrapeTarget, EndpointStates, on_delete}
use k8s_glb_operator.Haproxy.Monitor.Scrape.{
  Metric, labels_of, record_metric, record_state, snapshot_targets,
}
use k8s_glb_operator.Haproxy.Monitor.Publish.{
  Ranges, Lister, FrontendEndpoints, endpoint_of, collect, consolidate, frontend_endpoints,
  add_backend, publish, update_health_manager,
}
use k8s_glb_operator.Haproxy.Monitor.States.{
  state_of, IsWellFormed, state_of-set_state, state_of-drop_pod,
}
use k8s_glb_operator.Haproxy.Monitor.Invariant.{IsValid, on_delete-IsValid, record_state-IsValid}
use k8s_glb_operator.Haproxy.Monitor.Targets.{snapshot-target}
use k8s_glb_operator.Haproxy.Monitor.Published.{RangesOnce, update_health_manager-ok}

-- After `onDelete` of a valid monitor the pod is gone, no backend has a state of it, and the states
-- of every other pod are as they were.
pub on_delete_lem :
    (w : Monitor) (p : Pod)
    → IsValid w
    → (lookup p.uid (on_delete w p).pods ≡ none)
      × ((b : String) (u : Uid)
          → state_of b u (on_delete w p).endpoint_states
            ≡ (if u == p.uid then none else state_of b u w.endpoint_states))
unfolding on_delete
on_delete_lem w p v = (
  ground (arith, lookup-erase p.uid p.uid w.pods),
  λ b u. state_of-drop_pod b u p.uid w.endpoint_states v.recorded.distinct,
)

abbrev pub no_target : Endpoint
no_target = record { node_name = ""; ip_address = ""; healthy = true }

recorded_late :
    (w : Monitor) (p : Pod) (backend : String)
    → IsValid w
    → let after = snapshot_targets (record_state backend p.uid true (on_delete w p)) in
      (lookup p.uid after.pods ≡ none)
      × (state_of backend p.uid after.endpoint_states ≡ some true)
      × (endpoint_of after.scrape_targets (p.uid, true) ≡ no_target)
unfolding snapshot_targets record_state endpoint_of
recorded_late w p backend v =
    let gone = (on_delete_lem w p v).0 in
    let valid = record_state-IsValid backend p.uid true (on_delete w p) (on_delete-IsValid w p v) in
    let target = snapshot-target (record_state backend p.uid true (on_delete w p)) p.uid valid in
    (
      gone,
      state_of-set_state backend backend p.uid p.uid true (on_delete w p).endpoint_states
          ∙ ground arith,
      rw (target, gone),
    )

-- A scrape of a valid monitor that ends after its pod was deleted: an "UP" metric with a gauge above
-- zero records the pod as up. At the next snapshot there is no pod with its UID, the state is still
-- recorded, and the endpoint made for it is healthy with an empty address and node name.
pub late_scrape :
    {Number : Type 0} (above_zero : Number → Bool) (w : Monitor) (p : Pod) (metric : Metric Number)
    (g : Number)
    → IsValid w
    → metric.gauge ≡ some g
    → (labels_of metric.labels).state ≡ "UP"
    → above_zero g ≡ true
    → let after = snapshot_targets (record_metric above_zero p.uid metric (on_delete w p)) in
      (lookup p.uid after.pods ≡ none)
      × (state_of (labels_of metric.labels).backend_name p.uid after.endpoint_states ≡ some true)
      × (endpoint_of after.scrape_targets (p.uid, true) ≡ no_target)
unfolding record_metric
late_scrape above_zero w p metric g v gauged up positive =
    let recorded : record_metric above_zero p.uid metric (on_delete w p)
        ≡ record_state (labels_of metric.labels).backend_name p.uid true (on_delete w p) =
      ground arith in
    rw recorded (recorded_late w p (labels_of metric.labels).backend_name v)

first_state :
    (b : String) (u : Uid) (up : Bool) (m : GoMap Uid Bool) (states : EndpointStates)
    → ¬ ((c : String) (v : Uid) → state_of c v ((b, (u, up) ∷ m) ∷ states) ≡ none)
unfolding lookup
first_state b u up m states h = ground (arith, h b u)

no_states :
    (states : EndpointStates)
    → IsWellFormed states
    → ((b : String) (u : Uid) → state_of b u states ≡ none)
    → states ≡ []
no_states [] v h = refl
no_states ((b, []) ∷ states) v h = absurd (v.inner.0.0 refl)
no_states ((b, (u, up) ∷ m) ∷ states) v h = absurd (first_state b u up m states h)

-- When every recorded state is of one pod, deleting it leaves no state at all.
on_delete_last :
    (w : Monitor) (p : Pod)
    → IsValid w
    → ((b : String) (u : Uid) → u ≢ p.uid → state_of b u w.endpoint_states ≡ none)
    → (on_delete w p).endpoint_states ≡ []
on_delete_last w p v only =
    no_states (on_delete w p).endpoint_states (on_delete-IsValid w p v).recorded λ b u.
      (on_delete_lem w p v).1 b u ∙ elim (string_eq.dec u p.uid) [
        | yes same ↦ rw (if_pos _ same)
        | no differ ↦ rw (if_neg _ differ) (only b u differ)
      ]

empty_of_lookup : (m : FrontendEndpoints) → ((k : NamespacedName) → lookup k m ≡ none) → m ≡ []
unfolding lookup
empty_of_lookup [] h = refl
empty_of_lookup ((k, eps) ∷ m) h = absurd (ground (arith, h k))

module _ (as_selector : LabelSelector → Option (Labels → Bool)) (ranges : Ranges) where
  nothing_gathered :
      (targets : GoMap Uid ScrapeTarget) (backends : List Backend) (fes : List Frontend)
      → frontend_endpoints as_selector ranges targets [] backends fes [] ≡ []
  unfolding frontend_endpoints add_backend lookup
  nothing_gathered targets [] fes = refl
  nothing_gathered targets (backend ∷ backends) fes = nothing_gathered targets backends fes

  nothing_ranged : RangesOnce ranges → ranges.range_frontends [] ≡ []
  nothing_ranged once =
      empty_of_lookup (ranges.range_frontends []) (λ k. once.same [] k tt ∙ lookup-nil k)

  nothing_published :
      (w : Monitor) (backends : List Backend) (fes : List Frontend)
      → RangesOnce ranges
      → w.endpoint_states ≡ []
      → publish (ranges.range_frontends (collect as_selector ranges w backends fes)) w.health_mgr
        ≡ w.health_mgr
  unfolding collect consolidate publish
  nothing_published w backends fes once empty =
      rw (empty, nothing_gathered w.scrape_targets backends fes, nothing_ranged once)

  -- Without a recorded state a publication does nothing, whatever the cluster holds: the health
  -- cache keeps what it has and no event is sent.
  pub publish_without_states :
      (client : Lister) (w : Monitor)
      → RangesOnce ranges
      → w.endpoint_states ≡ []
      → (update_health_manager as_selector ranges client w).0 ≡ w
  unfolding update_health_manager
  publish_without_states client w once empty =
      elim (Result-cases (client.list_backends w.namespace)) [
        | inl (e, failed) ↦ ground arith
        | inr (backends, listed) ↦ elim (Result-cases (client.list_frontends w.namespace)) [
          | inl (e, failed) ↦ ground arith
          | inr (fes, listed') ↦ rw (
            update_health_manager-ok as_selector ranges client w backends fes listed listed',
            nothing_published w backends fes once empty,
          )
        ]
      ]

  -- On a valid monitor where no pod but one has a recorded state, and maps that are ranged over once
  -- per entry, the snapshot and the publication that follow this pod's deletion leave the health
  -- manager, and so every cached endpoint, as they were.
  pub last_pod_kept :
      (client : Lister) (w : Monitor) (p : Pod)
      → RangesOnce ranges
      → IsValid w
      → ((b : String) (u : Uid) → u ≢ p.uid → state_of b u w.endpoint_states ≡ none)
      → (update_health_manager as_selector ranges client
          (snapshot_targets (on_delete w p))).0.health_mgr
        ≡ w.health_mgr
  unfolding snapshot_targets on_delete
  last_pod_kept client w p once v only =
      ap (λ (u : Monitor). u.health_mgr)
        (publish_without_states client (snapshot_targets (on_delete w p)) once
          (on_delete_last w p v only))
