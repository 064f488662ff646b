-- ===== src/Haproxy/Monitor/Scrape.antt =====
-- `scrapeMetrics` of internal/haproxy/haproxymonitor.go, and the snapshot of the pods that `Start`
-- takes at each tick. The HTTP client and the decoder of the metrics format are parameters: a
-- request gives a failure, or a status with the decoded metric families, which end in `EOF` or in
-- a decoding error.
use Prim.Native.Char.{code}
use k8s_glb_operator.Base.{
  ℕ, Bool, not, String, ◌<>◌, Option, none, some, List, [], ◌∷◌, if◌then◌else◌, ◌==◌, string_eq,
  eqb, ◌≡◌, ◌⊎◌, inl, inr, Option-cases, arith,
}
use k8s_glb_operator.Base.GoMap.{GoMap, lookup, insert}
use k8s_glb_operator.Api.{Uid, Int32, Pod, Error}
use k8s_glb_operator.Haproxy.Monitor.{Monitor, ScrapeTarget, EndpointStates}

abbrev pub target_of : Uid → Pod → ScrapeTarget
target_of uid p = record {
  uid = uid;
  name = p.name;
  namespace = p.namespace;
  node_name = p.node_name;
  ip = p.pod_ip;
}

-- A pod without an address is left out.
unfoldable pub add_target : Uid → Pod → GoMap Uid ScrapeTarget → GoMap Uid ScrapeTarget
add_target uid p targets =
    if not (p.pod_ip == "") then insert p.uid (target_of uid p) targets else targets

-- The loop over `w.pods`.
unfoldable pub collect_targets : GoMap Uid Pod → GoMap Uid ScrapeTarget → GoMap Uid ScrapeTarget
unfolding add_target
collect_targets [] targets = targets
collect_targets ((uid, p) ∷ pods) targets = collect_targets pods (add_target uid p targets)

-- The part of a tick under the read lock.
unfoldable pub snapshot_targets : Monitor → Monitor
unfolding collect_targets
snapshot_targets w = record w { scrape_targets = collect_targets w.pods [] }

pub record LabelPair : Type 0 where
  pub name : String
  pub value : String

-- `Number` is the type of a gauge's value, a float.
pub record Metric (Number : Type 0) : Type 0 where
  pub labels : List LabelPair
  pub gauge : Option Number

pub record MetricFamily (Number : Type 0) : Type 0 where
  pub name : String
  pub metrics : List (Metric Number)

pub data Decoded (Number : Type 0) : Type 0 where
  family : MetricFamily Number → Decoded Number
  malformed : Error → Decoded Number

pub data HttpResult (Number : Type 0) : Type 0 where
  unreachable : Error → HttpResult Number
  response : ℕ → List (Decoded Number) → HttpResult Number

-- `Host` is kept as the two arguments of `net.JoinHostPort`.
pub record Url : Type 0 where
  pub scheme : String
  pub host : String
  pub port : Int32
  pub path : String

pub data ScrapeError : Type 0 where
  transport decode : Error → ScrapeError
  unexpected_status : ℕ → Url → ScrapeError

-- `strings.TrimPrefix(path, "/")`
unfoldable pub trim_slash : String → String
trim_slash String.[] = ""
trim_slash (String.◌∷◌ c path) = if eqb (code c) b'/' then path else String.◌∷◌ c path

unfoldable pub scrape_url : Monitor → ScrapeTarget → Url
unfolding trim_slash
scrape_url w target = record {
  scheme = "http";
  host = target.ip;
  port = w.metrics_port;
  path = "/" <> trim_slash w.metrics_path;
}

-- The variables `state` and `backendName` of the loop over a metric's labels.
pub record MetricLabels : Type 0 where
  pub state : String
  pub backend_name : String

unfoldable pub read_labels : List LabelPair → MetricLabels → MetricLabels
read_labels [] found = found
read_labels (lp ∷ lps) found = read_labels lps (
    if lp.name == "state"
    then record found { state = lp.value }
    else if lp.name == "proxy"
    then record found { backend_name = lp.value }
    else found)

-- What the loop over the labels finds; both variables start out empty.
unfoldable pub labels_of : List LabelPair → MetricLabels
unfolding read_labels
labels_of lps = read_labels lps (record { state = ""; backend_name = "" })

abbrev pub inner_map : Option (GoMap Uid Bool) → GoMap Uid Bool
inner_map none = []
inner_map (some m) = m

-- `w.endpointStates[backendName][uid] = isHealthy`, with the inner map made first where it lacks.
unfoldable pub set_state : String → Uid → Bool → EndpointStates → EndpointStates
set_state backend uid healthy states =
    insert backend (insert uid healthy (inner_map (lookup backend states))) states

-- The locked part of `scrapeMetrics`.
unfoldable pub record_state : String → Uid → Bool → Monitor → Monitor
unfolding set_state
record_state backend uid healthy w = record w {
  endpoint_states = set_state backend uid healthy w.endpoint_states;
}

module _ {Number : Type 0} (above_zero : Number → Bool) where
  -- One pass of the loop over the metrics. Its locked part is one step.
  unfoldable pub record_metric : Uid → Metric Number → Monitor → Monitor
  unfolding labels_of record_state
  record_metric uid metric w =
      let found = labels_of metric.labels in
      if not (found.state == "UP") then w else elim metric.gauge [
        | none ↦ w
        | some g ↦ record_state found.backend_name uid (above_zero g) w
      ]

  unfoldable pub record_metrics : Uid → List (Metric Number) → Monitor → Monitor
  record_metrics uid [] w = w
  record_metrics uid (metric ∷ metrics) w = record_metrics uid metrics (record_metric uid metric w)

  -- A family of another name is passed over.
  unfoldable pub record_family : Uid → MetricFamily Number → Monitor → Monitor
  record_family uid mf w =
      if not (mf.name == "haproxy_backend_agg_server_status")
      then w
      else record_metrics uid mf.metrics w

  -- The decoding loop: a malformed family ends the scrape.
  unfoldable pub record_families :
      Uid → List (Decoded Number) → Monitor → Monitor × Option ScrapeError
  record_families uid [] w = (w, none)
  record_families uid (malformed e ∷ stream) w = (w, some (decode e))
  record_families uid (family mf ∷ stream) w = record_families uid stream (record_family uid mf w)

  -- What is done with the answer: only a status of 200 is decoded.
  unfoldable pub record_response :
      Monitor → ScrapeTarget → HttpResult Number → Monitor × Option ScrapeError
  record_response w target (unreachable e) = (w, some (transport e))
  record_response w target (response status stream) =
      if not (eqb status 200)
      then (w, some (unexpected_status status (scrape_url w target)))
      else record_families target.uid stream w

  unfoldable pub scrape_metrics :
      (Url → HttpResult Number) → Monitor → ScrapeTarget → Monitor × Option ScrapeError
  unfolding record_response scrape_url
  scrape_metrics http_get w target = record_response w target (http_get (scrape_url w target))

  -- The goroutines of a tick, one after the other. An error is only logged.
  unfoldable pub scrape_all :
      (Url → HttpResult Number) → List (Uid × ScrapeTarget) → Monitor → Monitor
  scrape_all http_get [] w = w
  scrape_all http_get ((uid, target) ∷ targets) w =
      scrape_all http_get targets (scrape_metrics http_get w target).0

module _ {Number : Type 0} (above_zero : Number → Bool) where
  -- A metric is recorded if its `state` label is "UP" and it has a gauge, and else passed over.
  pub record_metric_cases :
      (uid : Uid) (metric : Metric Number) (w : Monitor)
      → (record_metric above_zero uid metric w ≡ w)
        ⊎ ((g : Number) × (metric.gauge ≡ some g)
            × ((labels_of metric.labels).state ≡ "UP")
            × (record_metric above_zero uid metric w
                ≡ record_state (labels_of metric.labels).backend_name uid (above_zero g) w))
  unfolding record_metric
  record_metric_cases uid metric w = elim (Option-cases metric.gauge) [
    | inl missing ↦ inl (ground arith)
    | inr (g, found) ↦ elim (string_eq.dec (labels_of metric.labels).state "UP") [
      | yes up ↦ inr (g, found, up, ground arith)
      | no down ↦ inl (ground arith)
    ]
  ]
