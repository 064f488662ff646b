-- ===== src/Haproxy/Monitor/Start.antt =====
-- `Start` of internal/haproxy/haproxymonitor.go. A tick is its critical sections in a row; between
-- them the informer's handlers may run, and so may the goroutines of the scrapes among themselves.
use k8s_glb_operator.Base.{
  inl, inr, Bool, String, Option, List, [], ◌∷◌, string_eq, eqb, Bool-cases, if_pos, if_neg,
}
use k8s_glb_operator.Api.{Uid, Int32, Labels, LabelSelector, Error}
use k8s_glb_operator.Haproxy.HealthManager.{HealthManager}
use k8s_glb_operator.Haproxy.Monitor.{
  Monitor, ScrapeTarget, InformerObject, new_haproxy_monitor, on_add, on_update, on_delete, filter,
  filter_update,
}
use k8s_glb_operator.Haproxy.Monitor.Scrape.{
  Metric, Decoded, family, malformed, HttpResult, unreachable, response, Url, snapshot_targets,
  record_metric, record_metrics, MetricFamily, record_family, record_families, record_response,
  scrape_metrics, scrape_url, scrape_all,
}
use k8s_glb_operator.Haproxy.Monitor.Publish.{Ranges, Lister, update_health_manager}
use k8s_glb_operator.Haproxy.Monitor.Invariant.{
  IsValid, on_add-IsValid, on_delete-IsValid, snapshot_targets-IsValid, filter-IsValid,
  filter_update-IsValid, record_metric-IsValid, update_health_manager-IsValid,
}

module _ {Number : Type 0} (selected : Labels → Bool) (above_zero : Number → Bool)
    (as_selector : LabelSelector → Option (Labels → Bool)) (ranges : Ranges) where
  -- One tick of `Start` with nothing in between. The error is only logged.
  unfoldable pub tick : (Url → HttpResult Number) → Lister → Monitor → Monitor × Option Error
  tick http_get client w =
      let w' = snapshot_targets w in
      update_health_manager as_selector ranges client
        (scrape_all above_zero http_get (ranges.range_targets w'.scrape_targets) w')

  -- A critical section of one of the goroutines. A scrape may record for any target: it may have
  -- been started before a pod went.
  pub data Step (w : Monitor) : Monitor → Type 0 where
    added : (obj : InformerObject) → Step w (filter selected on_add w obj)
    updated : (old new : InformerObject) → Step w (filter_update selected on_update w old new)
    deleted : (obj : InformerObject) → Step w (filter selected on_delete w obj)
    snapshot : Step w (snapshot_targets w)
    scraped :
        (target : ScrapeTarget) (metric : Metric Number)
        → Step w (record_metric above_zero target.uid metric w)
    published : (client : Lister) → Step w (update_health_manager as_selector ranges client w).0

  pub data Reach (w : Monitor) : Monitor → Type 0 where
    here : Reach w w
    next : {u v : Monitor} → Reach w u → Step u v → Reach w v

  Step-IsValid : {w u : Monitor} → Step w u → IsValid w → IsValid u
  Step-IsValid {w} (added obj) v = filter-IsValid selected on_add on_add-IsValid w obj v
  Step-IsValid {w} (updated old new) v = filter_update-IsValid selected w old new v
  Step-IsValid {w} (deleted obj) v = filter-IsValid selected on_delete on_delete-IsValid w obj v
  Step-IsValid {w} snapshot v = snapshot_targets-IsValid w v
  Step-IsValid {w} (scraped target metric) v =
      record_metric-IsValid above_zero target.uid metric w v
  Step-IsValid {w} (published client) v =
      update_health_manager-IsValid as_selector ranges client w v

  pub Reach-IsValid : {w u : Monitor} → IsValid w → Reach w u → IsValid u
  Reach-IsValid v here = v
  Reach-IsValid v (next r s) = Step-IsValid s (Reach-IsValid v r)

  -- Whatever the order in which handlers, scrapes and ticks run after the monitor is made, each pod
  -- stands under its own UID and once, each scrape target has its pod's UID and an address, and the
  -- recorded states hold no key twice and no backend without a pod.
  pub reachable-IsValid :
      (health_mgr : HealthManager) (namespace : String) (port : Int32) (path : String) {w : Monitor}
      → Reach (new_haproxy_monitor health_mgr namespace port path) w
      → IsValid w
  unfolding new_haproxy_monitor
  reachable-IsValid health_mgr namespace port path r =
      Reach-IsValid
        (record {
          pods_distinct = tt;
          pods_keyed = tt;
          targeted = tt;
          recorded = record { distinct = tt; inner = tt };
        })
        r

  Reach-trans : {w u v : Monitor} → Reach w u → Reach u v → Reach w v
  Reach-trans r here = r
  Reach-trans r (next q s) = next (Reach-trans r q) s

  record_metrics-Reach :
      (target : ScrapeTarget) (metrics : List (Metric Number)) (w : Monitor)
      → Reach w (record_metrics above_zero target.uid metrics w)
  unfolding record_metrics
  record_metrics-Reach target [] w = here
  record_metrics-Reach target (metric ∷ metrics) w =
      Reach-trans (next here (scraped target metric))
        (record_metrics-Reach target metrics (record_metric above_zero target.uid metric w))

  record_family-Reach :
      (target : ScrapeTarget) (mf : MetricFamily Number) (w : Monitor)
      → Reach w (record_family above_zero target.uid mf w)
  unfolding record_family
  record_family-Reach target mf w =
      elim (string_eq.dec mf.name "haproxy_backend_agg_server_status") [
        | yes same ↦ rw (if_pos _ same) (record_metrics-Reach target mf.metrics w)
        | no differ ↦ rw (if_neg _ differ) here
      ]

  record_families-Reach :
      (target : ScrapeTarget) (stream : List (Decoded Number)) (w : Monitor)
      → Reach w (record_families above_zero target.uid stream w).0
  unfolding record_families
  record_families-Reach target [] w = here
  record_families-Reach target (malformed e ∷ stream) w = here
  record_families-Reach target (family mf ∷ stream) w =
      Reach-trans (record_family-Reach target mf w)
        (record_families-Reach target stream (record_family above_zero target.uid mf w))

  response-Reach :
      (target : ScrapeTarget) (r : HttpResult Number) (w : Monitor)
      → Reach w (record_response above_zero w target r).0
  unfolding record_response
  response-Reach target (unreachable e) w = here
  response-Reach target (response status stream) w = elim (Bool-cases (eqb status 200)) [
    | inl ok ↦ rw ok (record_families-Reach target stream w)
    | inr bad ↦ rw bad here
  ]

  scrape_all-Reach :
      (http_get : Url → HttpResult Number) (targets : List (Uid × ScrapeTarget)) (w : Monitor)
      → Reach w (scrape_all above_zero http_get targets w)
  unfolding scrape_all scrape_metrics
  scrape_all-Reach http_get [] w = here
  scrape_all-Reach http_get ((uid, target) ∷ targets) w =
      Reach-trans (response-Reach target (http_get (scrape_url w target)) w)
        (scrape_all-Reach http_get targets (scrape_metrics above_zero http_get w target).0)

  -- A tick with nothing in between is one of the interleavings, whatever the pods answer and
  -- whatever order the maps are ranged over in.
  pub tick-Reach :
      (http_get : Url → HttpResult Number) (client : Lister) (w : Monitor)
      → Reach w (tick http_get client w).0
  unfolding tick
  tick-Reach http_get client w =
      next
        (Reach-trans (next here snapshot) (
          scrape_all-Reach http_get (ranges.range_targets (snapshot_targets w).scrape_targets)
            (snapshot_targets w)))
        (published client)
