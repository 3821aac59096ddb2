-- ===== src/Lib.antt =====
-- Prometheus multi-tenant proxy: the core of the program, modelled and verified.
--
-- The program reads MetricAccess resources, which say what each tenant may see, keeps a table of
-- tenants that the HTTP proxy checks its answers against, and runs for every resource with remote
-- write enabled a job that collects the tenant's metrics from the discovered Prometheus servers and
-- sends them on. A watchdog recreates the jobs that have stalled and, as a last resort, restarts the
-- pod.
--
-- Parts and files:
--   Api            api/v1alpha1/metricaccess_types.go: the records of the resource.
--   Config         internal/config/config.go: structures, `setDefaults`, `validate`, `Load`;
--                  Config/Laws for what a loaded configuration guarantees.
--   Discovery      internal/discovery/kubernetes.go: the record of a target; Labels (annotations and
--                  target labels), Ports (the port of an object), Kubernetes (`discover` down to the
--                  lists of services, pods and endpoints) and Kubernetes/Subscribers (the state, its
--                  updates, its notifications and its runs).
--   RemoteWrite    internal/remote_write: Job (the controller's state, periods, stall detection,
--                  creation and stop of jobs), Reconcile (`hasConfigurationChanged`,
--                  `reconcileRemoteWriteJobs`), Query (`queryPromQL`), Collect
--                  (`collectFromTarget`), Collect/Send (`sendMetrics`), Collect/Cycle
--                  (`collectMetrics`, `updateJobStatus`), Batch (`splitIntoBatches`), Dedup
--                  (`deduplicateMetrics`), SelfHeal (`shouldEscalatePodRestart`,
--                  `evaluateSelfHeal`), System (`Start`, `reconcileLoop`: the steps in any order, and
--                  the readers), Collector (collector.go: Relabel for `applyMetricRelabelings`,
--                  Series for `buildTimeseries`, Write for `sendRemoteWrite`, Send for the three
--                  collectors) and HealthMetrics (metrics.go, a scrape).
--   Tenant         internal/tenant/manager.go: Pattern (parsers and matchers), Access (the table and
--                  `ValidateAccess`), Load (`loadExistingTenants` and what it calls).
--   Proxy          internal/proxy: LoadBalancer (loadbalancer.go, the choice of a target), Health
--                  (health.go, the checks of the targets, in any order) and handler.go: Json (decoded
--                  JSON), Identity (`extractTenantInfo`), Aggregate (`queryAllTargetsAndAggregate`),
--                  Filter (`filterQueryResponse`), Api (`handlePrometheusAPI`), Pages (health and
--                  debug), Direct (collected metrics and the direct query behind them) and Server
--                  (`ServeHTTP`, with gorilla/mux as a parameter).
--   Shared         numbers, machine words, floats, instants, texts, maps and lists.
-- A component's theorems stand in its child modules, its runs at concrete inputs in Examples.
--
-- How the code is translated: names are the source's in snake case. A struct is a record, a Go map
-- an association list, in whose order a loop over the map runs, and an error a value. The
-- controller's state is passed explicitly: an operation takes a Controller and returns the one after
-- it. A function that can panic returns an Option, whose `none` is the panic; `evaluateSelfHeal`
-- returns a Turn, which says whether the sweep went through, exited the process or panicked. An
-- instant is a number of nanoseconds since the zero time, with `Sub` saturating as Go's; a counter
-- is a 64-bit pattern whose increment wraps; a float is its bit pattern. What the program only calls
-- is a parameter: the Kubernetes client, the HTTP exchange, the reverse proxy, JSON and YAML
-- decoding, regular expressions, protobuf encoding, label fingerprints and the clocks. Locks have no
-- counterpart: an operation is one step, and so is a whole collection cycle; the health checks of
-- one round and the writes of a fan-out finish in any order.
--
-- Fuel: `batches_from` has the number of metrics, which suffices since each round takes at least
-- one; the decimal printing of a number has 20, the digits of a 64-bit integer. The three attempts
-- of a write are counted down. All other loops are structural.
--
-- How the parts meet: the collection cycle takes a collector as a parameter, and Collector/Send/Laws
-- puts the program's own collectors in its place, Collector/Delivery for a whole cycle; the proxy's
-- answers are stated with the tenant manager's table and the load balancer's targets; the health
-- metrics read the table of jobs that the controller's steps keep well formed.
--
-- Not modelled: logging, the periods of the tickers, the interleavings within a cycle, the proxy's
-- own metrics but the counter of its requests, cmd/proxy/main.go (flags, wiring, leader election
-- and signals) and generated code.
pub mod Api
pub mod Config
pub mod Discovery
pub mod Proxy
pub mod RemoteWrite
pub mod Shared
pub mod Tenant
