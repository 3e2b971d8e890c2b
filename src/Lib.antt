-- ===== src/Lib.antt =====
-- GuardDNS: a DNS server for split routing. A supervisor (cmd/guarddns) writes the configuration,
-- starts and restarts two Unbound processes and a MosDNS (cmd/mosdns) with plugins of its own
-- (internal/), runs a bridge from plain DNS to DNS over HTTPS, and sends snapshots of its state to a
-- plugin in MosDNS, which answers the health checks.
--
-- What is modelled, and where:
--   * Backoff: the three retry delays (`exponentialDelay` and `jitterDelay` in
--     internal/circuitplugin/circuit.go, `jitterDoHBackoff` in cmd/guarddns/dohbridge.go,
--     `restartDelay` in cmd/guarddns/process.go).
--   * Circuit: the circuit breaker plugin of internal/circuitplugin/circuit.go. Circuit itself has the
--     breaker (`acquire`, `succeed`, `fail`), Circuit/Plugin has `initPlugin`, `attemptOnce` and `Exec`.
--   * Doh: the bridge of cmd/guarddns/dohbridge.go. Doh itself has the retry state of an upstream,
--     Doh/Cache the dial addresses, Doh/Exchange one request, Doh/Upstreams the choice of upstreams
--     and their probe, Doh/Bridge `ServeDNS`, Doh/Lifecycle the start and the end of the bridge.
--     Doh/Failover and Doh/Exhausted are about the loop of `ServeDNS`, Doh/Service about what it writes.
--   * State, Wire: the supervisor's state, cmd/guarddns/state.go, and the snapshot that it sends,
--     internal/statewire/state.go.
--   * Supervisor: the plugin of internal/supervisorplugin/plugin.go that receives the snapshots and
--     answers the health endpoints. Supervisor/Ready follows the state from the supervisor to them.
--     Supervisor/Metrics has `Describe` and `Collect`, Supervisor/Scrape is about what they
--     send, Supervisor/Lifecycle has `initPlugin` and `Close`.
--   * Health: the health check command, cmd/guarddns/healthcheck.go. Health/Reflects composes it with
--     the plugin and the state.
--   * Config: cmd/guarddns/config.go. Config itself has `loadConfig` and `parseForwardEndpoint`,
--     Config/Files the calls of the system on a state of files, Config/Runtime `prepareRuntime`.
--     Config/Endpoint, Config/Settings and Config/Rendering are about the settings, Config/Lists about
--     the domain lists, Config/Prepared, with Frame, Stages, Filled and Passed, about a whole start.
--   * Child: `superviseChild` of cmd/guarddns/process.go as a machine beside the other goroutines.
--     Child/Shown, Child/Delays and Child/Restarts are about the component of the child in the state.
--     Child/Writer has the log writer of a child, Child/Dedupe the filter of repeated lines,
--     Child/Wait `waitForTCP`.
--   * Cancel: internal/cancelclassify/cancel.go, which Listener and Requests use.
--   * Listener: the TCP server plugin of internal/tcpserverplugin/server.go: the core of its logger,
--     which Listener/Log is about, and in Listener/Start `initPlugin`.
--   * Requests: the collector of internal/requestmetricsplugin/collector.go; Requests/Flying lets many
--     queries pass through it at once.
--   * Decision: the decision counters of internal/decisionplugin/decision.go.
--   * Rules: the rule files of internal/rulesplugin/rulesplugin.go. Rules itself has `sanitizeRules` and
--     `normalizeRule`, Rules/Reload has `reload`, `restoreOrClear` and `buildMatcher`. Rules/Patterns,
--     Rules/Plain and Rules/Lines are about the rules, Rules/FixedPoint and Rules/Growth about the text
--     that is written, Rules/Reload/Consistent and Rules/Reload/Settled about the state and the file.
--     Rules/Watch has `newRuleFile` and `watch` with its timer; Rules/Watch/History runs it with what it
--     was told, Rules/Watch/Debounced is about the reloads and their times, Rules/Watch/Serving about the
--     matcher in use.
--   * Main: cmd/guarddns/main.go and the levels of cmd/guarddns/logger.go; Main/Serving is about when
--     the program serves.
--   * Prelude, Dns: shared helpers, 64-bit words, times, maps, texts, and the parts of a DNS message.
--
-- How the code is read. A method that holds a mutex is one step on a record: it takes the state and
-- returns the new one. Where queries run at the same time, a sequence of such steps stands for an
-- interleaving of them. A Go integer is a 64-bit pattern, and sums wrap around; signed comparisons
-- flip the sign bit. A duration is a count of nanoseconds; a time counts them from Go's zero time.
-- Readings of the clock, random draws, the content of files, the MosDNS matcher, the HTTP client, the
-- DNS library, JSON, the registry of metrics, what a call of the operating system answers and
-- `unicode.ToLower` outside ASCII are arguments. The rule files that come with the program (the
-- includes of `buildMatcher`) do not change while it runs, so reading one is a function of its path; the
-- rule file that is watched changes as it likes. A counter of Prometheus is a `float64`, which is exact
-- up to 2 ^ 53; here it is a number, and a gauge in seconds an exact number of nanoseconds. A text is a
-- list of code points. Loops are recursions on what is left
-- (attempts, resolvers, doubling rounds), so none needs fuel, but two: the loop of
-- `childLogWriter.Write` has as many rounds as there are characters pending, and one more, and each takes
-- a line; that of `waitForTCP` has a round for each pause in its time, and two more. A step that
-- counts to 2 ^ 64 would wrap to "closed"; the theorems on sequences ask that the step plus the number
-- of calls stays below that.
--
-- Not modelled: what sockets, processes, signals and process groups do, the texts that are logged, and
-- cmd/mosdns/main.go, which only starts MosDNS. `ServeTCP`, the DNS servers and the HTTP client are
-- outside, and so is the end of `main`, which waits for the children.
pub mod Prelude
pub mod Dns
pub mod Backoff
pub mod Circuit
pub mod Wire
pub mod State
pub mod Doh
pub mod Supervisor
pub mod Rules
pub mod Child
pub mod Config
pub mod Cancel
pub mod Listener
pub mod Requests
pub mod Decision
pub mod Health
pub mod Main
