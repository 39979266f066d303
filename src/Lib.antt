-- ===== src/Lib.antt =====
-- Baseplate.go: a verification library for parts of the Go service framework of this repository.
--
-- The parts and their files:
--   * clientpool (clientpool/channel.go) is the pool of clients over a buffered channel: ClientPool has
--     its state and Get, Release and Close, ClientPool/New has NewChannelPool. What a client answers to
--     IsOpen and Close and what the opener returns is an argument (`Env`, `Attempt`) of each call.
--   * secrets (secrets/secrets.go, secrets/encoding.go, secrets/store.go): Secrets has the kinds of secrets
--     and the getters, Secrets/Load has Document.Validate and secretsValidate, Secrets/Store the store, which
--     puts the secrets of a file behind the watcher of Filewatcher. The JSON decoder is an argument.
--   * signing (signing/v1.go, signing/versions.go): Signing has Sign and the two Verify functions. It
--     takes the keys from a versioned secret of the secrets. HMAC-SHA256 is a parameter.
--   * experiments (experiments/variants.go, experiments/targeting.go, experiments/experiments.go):
--     Experiments/Variants has the variant sets, Experiments/Targeting and Experiments/Evaluate the
--     targeting trees, Experiments/Simple has NewSimpleExperiment and Variant, which use both. JSON comes
--     decoded; SHA-1, ParseFloat and the text of a float64 are parameters; lower case is that of ASCII.
--   * httpbp (httpbp/headers.go): Httpbp/Headers has the span and edge context headers, the message that is
--     signed, and the handlers that sign it with a secret and trust a request by its signature; it calls
--     secrets and signing. Httpbp/Errors has the error responses and the errors that a client makes of a
--     response (httpbp/errors.go), Httpbp/Retries what is retried of them, Httpbp/Middlewares the server's
--     middlewares (httpbp/middlewares.go), Httpbp/Limits MaxConcurrency (httpbp/client_middlewares.go) as a
--     relation on its steps. Handlers and net/http are arguments.
--   * errorsbp (errorsbp/batch.go, errorsbp/suppressor.go): Errorsbp/Batch has the batch of errors and its size,
--     on errors as trees, Errorsbp/Suppressors the suppressors.
--   * retrybp (retrybp/delay.go, retrybp/filters.go, retrybp/retry.go): Retrybp/Delay has the capped exponential
--     backoff, in uint64 arithmetic, Retrybp/Filters the chain of filters, Retrybp/Retry Do around the library. The floor of math.Log2 is a parameter that
--     is bounded from below and above for durations up to 2 ^ 62 nanoseconds.
--   * batchcloser (batchcloser/closers.go): Batchcloser has BatchCloser, whose errors are those of errorsbp.
--   * internal/prometheusbpint (internal/prometheusbpint/high_watermark.go): Prometheusbpint has the gauge with
--     a high watermark, as a list of calls.
--   * filewatcher (filewatcher/v2/filewatcher.go, filewatcher/filewatcher.go, filewatcher/v2/fwtest/fake.go):
--     Filewatcher has the options and openAndParse, Filewatcher/New has New with its first loop, and
--     Filewatcher/Loop the watcher's loop as a relation on events; Filewatcher/Legacy has the first version of the
--     package, Filewatcher/Fakes the fakes. It opens files by internal/limitopen
--     (internal/limitopen/limitopen.go), which is Limitopen. The system's answers, the parser and fsnotify
--     are arguments.
--   * thriftbp: Thriftbp/Ttl has the client that replaces its transport (thriftbp/ttl_client.go), as a relation on
--     events; Thriftbp/Pool has a call through the pool (thriftbp/client_pool.go), over ClientPool;
--     Thriftbp/Headers, Thriftbp/Budget, Thriftbp/Errors and Thriftbp/Middlewares have the headers, the
--     deadline budget, the classes of errors and the middlewares (thriftbp/headers.go, thriftbp/errors.go,
--     thriftbp/client_middlewares.go, thriftbp/server_middlewares.go). The Thrift library is an argument.
--   * randbp (randbp/jitter.go, randbp/string.go): Randbp, which Thriftbp/Ttl uses; the draws are arguments.
--   * timebp (timebp/microsecond.go, timebp/millisecond.go): Timebp has the timestamps in text and JSON.
--   * breakerbp (breakerbp/failure_ratio.go): Breakerbp has when the breaker trips, and its gauge; gobreaker itself
--     is left out.
--   * kafkabp (kafkabp/rack.go): Kafkabp has the rack ids; the network is an argument.
--   * tracing (tracing/span.go, tracing/trace.go, tracing/tracer.go, tracing/hooks.go, tracing/tags.go, tracing/zipkin.go):
--     Tracing has spans and hooks, Tracing/Starts how spans start, with and without a parent or headers, and
--     Tracing/Stops how they end and what is sent. Hooks, ids, the JSON encoder and the queue are arguments.
--   * baseplate (baseplate.go, drainer.go, runtimebp/signal.go): Baseplate has Serve and its shutdown as events on
--     one state, over Batchcloser, and New.
--   * Std has what those parts use of Go's standard library: base64, decimal
--     numbers, paths, instants of time, int and float64.
--   * Common has lists, maps, text and signed numbers.
--
-- Machine integers keep their wrap-around where the code depends on it: the counter of the pool is an
-- int32 (modulo 2 ^ 32), the expiration of a signature a uint32, the offsets of variants and the gauges int64, the delays
-- uint64; a float64 is rounded as IEEE 754 says. Loops are structural; the retry loop of NewChannelPool is
-- over the list of its rounds, and so is the first loop of the file watcher: the list is what happens, of any
-- length, and where it ends New still waits. The fuel of Std is more than any operand needs: 4,200 bits for a product of
-- two float64, 20 digits for an int. A Go map is an association list without repeated keys, in the
-- order in which a range visits it.
--
-- Not modelled: logging, metrics, the text of errors, JSON decoding, files and sockets, and the packages
-- that only join those to libraries (grpcbp, the consumers of kafkabp, metricsbp, redis); of the metrics only the
-- counters and gauges that belong to a part's behaviour are there.
mod Common
pub mod Thriftbp
pub mod Timebp
pub mod Tracing
pub mod Kafkabp
pub mod Limitopen
pub mod Randbp
pub mod Filewatcher
pub mod Breakerbp
pub mod ClientPool
pub mod Std
pub mod Secrets
pub mod Signing
pub mod Experiments
pub mod Httpbp
pub mod Errorsbp
pub mod Retrybp
pub mod Baseplate
pub mod Batchcloser
pub mod Prometheusbpint
