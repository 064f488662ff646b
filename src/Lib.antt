-- ===== src/Lib.antt =====
-- k8s-glb-operator: a Kubernetes operator that runs HAProxy pods as a global load balancer.
--
-- The program has two halves that meet in the health cache. The monitor (internal/haproxy) keeps the
-- HAProxy pods that the informer shows it, scrapes their metrics at each tick, records which backend
-- is up on which pod, and publishes a list of endpoints for each Frontend to the health manager. That
-- writes the cache and sends an event where a health changed. The reconcilers (internal/controller)
-- give each Frontend a load balancer and a port, write the StatefulSet of the HAProxy pods and the
-- ConfigMap that they read, and turn the cache into EndpointSlices. cmd/main.go makes the parts and joins
-- them.
--
--   Base        what the modules share: Boolean tests, native lengths, decidable equality, Go maps as
--               association lists (`lookup` of a missing key is `none`)
--   Api         api/v1alpha1: the custom resources (Types), Kubernetes' own types and the results of a
--               client (Kube), Services and EndpointSlices (Cluster), StatefulSets and ConfigMaps
--               (Workloads), `int32` as a bit pattern below 2 ^ 32 (Words), objects in a map under their
--               own names (Named), what a `CreateOrUpdate` promises, with an implementation (Objects), the
--               registration of the types (Scheme)
--   Haproxy/HealthCache      internal/haproxy/healthcache.go: `Get`, `GetHealthy`, `Update`
--     Health, Changes        the health that a list of endpoints states; when `Update` reports a change
--   Haproxy/HealthManager    internal/haproxy/healthmanager.go: `Update` and the event channel
--     Events                 which events are delivered
--   Haproxy/Monitor          internal/haproxy/haproxymonitor.go: the state and the informer's handlers
--     Scrape, Publish        `scrapeMetrics` with the snapshot of a tick; `updateHealthManager`
--     States, Invariant      the recorded states, the invariant of the monitor and its preservation
--     Start                  `Start` as a step relation over the critical sections
--     Selected, Consolidate, Published, Targets, Stale    what a publication puts into the cache
--   Controller/Ports         `GetNextPort` of internal/controller/globalloadbalancer_controller.go
--     Sorting, Gap, Next, Exhausted    the sort, the search for a gap, the port that is found, and that
--                            it has no upper bound
--   Controller/Frontends     `getFrontends` and `ReconcileFrontends` of the same file
--     Kept, Assigned, Reconciled    which frontends are kept, and what a pass leaves them with
--     Again, Unchanged       a second pass, and what no pass changes
--     InMemory               the body of the loop over pointers, where the loop's copy of a frontend shares
--                            those of the list
--     Refused                a pass some of whose status updates are refused
--   Controller/Services      internal/controller/frontend_controller.go: `Reconcile`, `ReconcileService`
--     Applied, Elsewhere, Kept, Idle    the Service and the EndpointSlice that it leaves, the EndpointSlices
--                            of other frontends, what no pass changes, and a second pass
--   Controller/Backends      `getBackends` of internal/controller/globalloadbalancer_controller.go
--     Selected               the backends that its map holds for a frontend's name
--   Haproxy/ConfigBuilder    internal/haproxy/configbuilder.go: `BuildConfig`
--     Text                   the text of a configuration, line by line
--     Printed, Replicas      when it succeeds, and the entries of the map that it makes
--     Unread, Twice          what it does not read, and the sections that it prints twice
--   Watchers                 internal/watchers/peerServiceWatcher.go: the handlers of the service informer
--     Start                  its constructor and `Start`, and the calls of a registered informer
--     Recorded, Dispatched   the peer that an added service leaves, and the peers after any events
--   Controller/Client        what the reconciler of the load balancers calls
--   Controller/StatefulSets  internal/controller/statefulset.go: `EnsureHAProxyStatefulSet`
--     Server                 what is assumed of the server that holds the sets
--     Template, Fresh, Watched    what a pod of the set reads, the set that is left, and the pods that
--                            the monitor's selector keeps
--   Controller/Config        `ReconcileConfig` of internal/controller/globalloadbalancer_controller.go
--     Server                 what is assumed of the server that holds the ConfigMaps
--     Written, Stuck, Idle   the ConfigMap that it leaves, one that it cannot write, and one that it
--                            leaves alone
--   Controller/Reconcile     `Reconcile` of the same file
--     Started                the entries of the ConfigMap with which the pods are started
--     Reconciled, Quiet      what a pass leaves, and one that finds nothing to do
--   Controller/Provisioned   both reconcilers of internal/controller, one after the other
--   Controller/Wiring        their `SetupWithManager`: the watches, and the requests that they ask for
--   Delivery                 the health manager and the frontend reconciler over one cache and one channel,
--                            as cmd/main.go and `SetupWithManager` of frontend_controller.go join them
--     Synced, Delivered      how the EndpointSlices follow the cache, and the monitor by way of it
--     Allotted               the same for a frontend to which a port was allotted just before
--   Cmd                      cmd/main.go: the options of the servers (Flags), the calls of `main` (StartUp)
--     Namespaces             `getWatchNamespace` and `setupCacheNamespaces`
--     Namespaces/Parsed, Several    the namespaces that are listed, and the monitor under several of them
--   Memory                   Go's pointers: cells at addresses, and commands that fault on a wrong read
--     Views, Copies, Fields, Maps    what a piece of memory stands for, and the commands that make
--                            it stand for that a second time
--   DeepCopy                 api/v1alpha1/zz_generated.deepcopy.go
--     Structs, Cells, Kinds  the structs of the API as they lie in memory, and what a cell can hold
--     Held                   what is assumed of the copies of the library's structs
--     Backends, Frontends, LoadBalancers, Peers    their `DeepCopyInto` and `DeepCopy`, with what they
--                            stand for (Copied)
--     Objects                `DeepCopyObject`; an object and its copy (Separate)
--   Version                  version/version.go
--
-- The Tests modules hold concrete runs and the theorems at inputs where their hypotheses hold.
--
-- A critical section under a lock is one function on the state; the goroutines of a tick and the
-- handlers are interleaved by `Step`, one critical section at a time. Every loop of the source ranges
-- over a slice or a map and is a structural recursion on a list, so nothing needs fuel; the loop of
-- `Start` is `Reach`, and that of the event channel and the reconciler is `Run`. The order in which Go
-- ranges over a map is a parameter (`Ranges`) where a result could depend on it, and a pod in it comes
-- once (`RangesOnce`). An error is a value of `Result` or an `Option Error` beside the state.
--
-- Parameters, for they are not the repository's code: the API server behind the client, the label
-- selectors, the HTTP client and the decoder of the metrics format, the sign test of a gauge's float,
-- the formatting of numbers, the parser of semantic versions, the library's manager behind `main`,
-- the library's structs that objects in memory hold, with their copies, the names of a StatefulSet's pods
-- and what the kubelet makes of a container's arguments.
-- `slices.Sort` is an insertion sort, of which the proofs use the order and that it permutes.
--
-- Structs are immutable values, but in Memory, DeepCopy and Controller/Frontends/InMemory, where pointers
-- are addresses. There a slice is the address of an array, all of which it covers.
--
-- Not modelled: the parsing of the command line (cmd/main.go), logging, contexts and timers, and the
-- controllers' queues, which are the library's.
-- Nor are the end-to-end tests (test), which run kubectl, and a constant that nothing reads
-- (internal/consts/main.go).
mod Base
pub mod Api
pub mod Version
pub mod Haproxy
pub mod Controller
pub mod Watchers
pub mod Delivery
pub mod Cmd
pub mod Memory
pub mod DeepCopy
