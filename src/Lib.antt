-- ===== src/Lib.antt =====
-- The billing and serving core of a proxy that swaps local inference servers and spreads requests
-- over peers. A request is admitted by the rate limiter, the credit gate and the cap of its peer,
-- served by a process or a peer, and billed: the gate holds a worst-case price in the ledger when it
-- admits a request and resolves the hold when the request ends; the metered event goes through the
-- emitter into the debit log, from which the home side pulls it, and comes back netted in a pushed
-- allowance.
--
--   Pricing        proxy/pricing.go, proxy/pricing_config.go: ceilDiv, ReserveCost, ActualCost, and
--                  priceBookFromConfig
--   Ledger         proxy/credit_ledger.go: Reserve, Release, TrueUp, Confirm, SetAllowance
--   Gate           proxy/credit_gate.go, proxy/credit_gate_wiring.go, and the billing block of
--                  proxyInferenceHandler in proxy/proxymanager.go
--   Allowance      proxy/allowance.go: parseAllowanceSnapshot, Apply, snapshotFreshness
--   DebitLog       proxy/debit_log.go: Append, SinceWithHead, load
--   DebitEmitter   proxy/debit_emitter.go: Emit, run, Close
--   RateLimiter    proxy/rate_limiter.go
--   PeerAdmission  proxy/peer_admission.go
--   Peers          proxy/peerproxy.go (the pick), proxy/peer_affinity.go (the key of a request in
--                  Affinity), proxy/scheduler.go
--   Process        proxy/process.go
--   ProcessGroup   proxy/processgroup.go
--   LogMonitor     proxy/logMonitor.go: the circular buffer, the history, and the levels and format
--                  of messages
--   UsageMeter     proxy/usage_meter.go: Record, Snapshot, Reset, flush, load
--   MetricsMonitor proxy/metrics_monitor.go: addMetrics, processStreamingResponse, parseMetrics,
--                  wrapHandler
--   Filters        proxy/config/filters.go
--   Dispatcher     event/event.go
--   Inference      proxy/proxymanager.go: proxyInferenceHandler (Handler has the whole request) and
--                  proxyOAIPostFormHandler (Form)
--   Macros, Loader proxy/config/config.go: the macros, and LoadConfigFromReader from the decoded file
--                  on
--   ModelNames     proxy/config/config.go: RealModelName, AddDefaultGroupToConfig, StripComments;
--                  findModelInPath of proxy/proxymanager.go
--   ProxyManager   proxy/proxymanager.go: swapProcessGroup, StopProcesses, apiKeyAuth (Auth), emitDebit
--                  and debitsPullHandler (Debits), with a puller as the comment of the latter has it
--   PeerAddress    proxy/peeraddress.go: the grammar of an address, what is polled of a peer, and
--                  ResolveAddress
--   Prelude        shared: tests, lists, maps, integers, and int64 with wrap-around
--
-- Each definition has the name of the Go function in the spelling of this library; a method takes the
-- receiver's state and returns the new one. A method that runs under a mutex is one step, and the runs
-- of Ledger, DebitLog and DebitEmitter are lists of such steps in any order.
--
-- Bounds: an int64 sum or product is written with its wrap-around. The statements about exact amounts
-- ask for allowances up to 2^61 credits and for products and times below 2^62, so that no sum of a few
-- of them wraps. Sequence numbers count below 2^64. Loops are structural recursions; the drain of the
-- emitter has as much fuel as there are queued events, which empties the queue.
--
-- Parameters: the JSON decoder and codec, gjson, sjson, the multipart package, base64,
-- strconv.ParseUint, SHA-256, the hash of a key and of an affinity score, the sink of the emitter, what
-- the pick reads of a polled peer, the case tables of Unicode in an address, and what a guarded call or
-- a dispatched request does. The clock, the end of a write, of a wait and of a health check, and a
-- peer's reply are inputs.
--
-- Not modelled: HTTP and YAML, log lines and texts of errors; the reverse proxies, the polling of
-- peers, the unload timer and the status stream of a process, which are I/O and goroutines around what
-- is modelled; the listing handlers of proxy/proxymanager.go and those of proxy/proxymanager_api.go,
-- which print the state or call the operations above; and the programs under cmd.
-- The runs of the debit log leave out an append that fails after a byte of its line is written while
-- the process goes on, and those of the usage meter leave out flushes that overlap: in both cases the
-- property can fail.
pub mod Allowance
pub mod DebitEmitter
pub mod DebitLog
pub mod Dispatcher
pub mod Filters
pub mod Gate
pub mod Inference
pub mod Ledger
pub mod Loader
pub mod LogMonitor
pub mod Macros
pub mod MetricsMonitor
pub mod ModelNames
pub mod PeerAddress
pub mod PeerAdmission
pub mod Peers
pub mod Prelude
pub mod Pricing
pub mod Process
pub mod ProcessGroup
pub mod ProxyManager
pub mod RateLimiter
pub mod UsageMeter
