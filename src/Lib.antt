-- ===== src/Lib.antt =====
-- A verification library of the load balancer: a reverse proxy that selects a healthy backend by
-- one of four strategies, guards each backend by a circuit breaker, and retries failed requests.
--
-- Base holds what the models share: Boolean tests, lists, machine words, text, rings read round
-- and round, and maps with text keys.
--
-- Balancer (internal/balancer): Balancer/Backend is backend.go, with a backend behind a pointer
-- into a heap; Balancer/Pool is pool.go; RoundRobin, Weighted, LeastConnections and ConsistentHash
-- are the four strategies, their Select (and SelectKey) as `select` (and `select_key`). FNV-1a,
-- binary search and decimal printing of the Go library are written out; sort.Slice is insertion.
--
-- Breaker (internal/circuitbreaker): breaker.go is Breaker and Breaker/Types; manager.go is
-- Breaker/Manager. Time is an argument. Breaker/Calls, Open, Recovery and Window are about
-- histories.
--
-- Retry (internal/retry): the two loops, over given answers, and the backoff over a parameter that
-- stands for float64.
--
-- Config (internal/config): the records are Config, validator.go is Config/Validator, and the
-- manager with the watcher is Config/Manager. Config/Valid describes a valid configuration
-- without the validator, by the sections in Config/Parts, BackendPart and TlsPart. Reading files,
-- YAML, url.Parse and os.Stat are parameters.
--
-- Errors (internal/errors), Metrics (internal/metrics) and Health (internal/health) are errors.go,
-- collector.go and checker.go: chains of wrapped errors, the collector's tables and the samples it
-- sends, and the probes that set a backend's health; Health/Loop is Start, with rounds that
-- overlap.
--
-- Server (internal/server): Server/Selection is selectAvailableBackend, Server/Director the
-- director, Server/Transport the counting transport, Server/Proxy the handlers and ServeHTTP of
-- proxy.go, and Server/FastProxy fastproxy.go with its map of clients in Server/Clients;
-- Availability, Proxied, Outcome, Relay and Probed are about them. Server/Trips takes the requests
-- to both proxies apart into steps that may interleave. Server/Session is about
-- whole lives of the proxy, with the checker and the admin routes between the requests, and
-- Server/Aggregate about the count of active connections under requests at once. A `World` holds
-- the backends, the pool, the strategy's state (Balancer/Strategy is the interface), the breakers
-- and the collector. What the backends answer is given.
--
-- Middleware (internal/middleware): RateLimit, IpFilter, SizeLimit, Security, Chain, Logging and
-- Recovery are the files of those names. In Middleware/Exchange a handler is a function on what
-- has been sent, the log and the state, with a panic or none. The token bucket, and the parsing of
-- addresses and nets, are parameters. Tracing (internal/tracing) is request_id.go, Tls
-- (internal/tls) tls.go with certificates and files as parameters, and BytePools and BufferPool
-- are internal/pool.
--
-- Entry (cmd): Entry/Startup and Entry/Main are what main.go makes of a configuration and of its
-- file, Entry/Settings what it sets in the checker and the servers, Entry/NetHttp and
-- Entry/FastHttp the handlers that net.go and fasthttp.go put together around a proxy, which is a
-- parameter there, Entry/Routes the mux of the public server, Entry/Shutdown the end of the
-- process as a step relation, and Entry/DummyServer is cmd/server. Server/Admin and
-- Server/FastAdmin are the admin routes that change breakers and backends, Server/StatusPages
-- those that show them, and Entry/FastRoutes the mux of the admin server of fasthttp.go. Started,
-- Guards and FastServed are about these, and Site and FastSite about the whole of the program
-- behind each of the two servers, and Lifetime about what a life of it keeps.
--
-- Not modelled: what the servers do with connections, and the files of the dashboard; the
-- construction of the transport; the switch of protocols in ReverseProxy after a response of 101,
-- where errorHandler may run after modifyResponse; Flush, Hijack and Push of the writers, which pass a call on; the
-- texts of the log; and what the Go library, fasthttp and Prometheus do with connections, bodies
-- and vectors, since their code is not in the repository.
--
-- Integers of w bits are natural numbers below 2^w with the wrap written out; int64 and int are
-- bit patterns with signed tests. Methods under a lock, and atomic operations, are single steps.
-- The binary search has fuel for each of the places of the ring, which a round at least halves;
-- decimal printing has fuel for as many digits as the number's value. The retry loop counts its
-- rounds down from MaxRetries + 1, the bound of the source's loop. The weights of the backends are
-- taken to add up to less than 2^63. In Balancer/Weighted/Race the
-- load and the store of a counter are steps of their own, in any order among the goroutines, and
-- so are the reads and writes of the map of clients in Server/Clients/Race, and those of the
-- aggregate in Server/Aggregate.
pub mod Base
pub mod Balancer
pub mod Breaker
pub mod Retry
pub mod Config
pub mod Errors
pub mod Metrics
pub mod Health
pub mod Server
pub mod BytePools
pub mod BufferPool
pub mod Middleware
pub mod Tracing
pub mod Tls
pub mod Entry
mod Tests
