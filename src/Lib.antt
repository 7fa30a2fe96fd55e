-- ===== src/Lib.antt =====
-- The retry governance of an HTTP client, written in Go: http_governance_client.
--
-- A Transport (transport.go) wraps an http.RoundTripper. For each request it classifies the request,
-- resolves a retry policy and a scope from a resolver and an optional configuration provider, sets a
-- deadline, and then sends the request until an attempt is good enough, the retries are used up, the
-- deadline is too near, or the retry budget of the downstream is exhausted. Constraints go on to the
-- next service in headers, and come in from the caller in headers or in the context.
--
-- The files, with the code that each models:
--   Common: integers, int64 arithmetic with wrap-around, ASCII texts, decimal numbers, results.
--   Types: the data of retry.go and dynamic_config.go, and what the code reads of net/http messages.
--   Budget: retry_budget.go. Config is toConfig and the validation of a layer. Ops has the operations
--     on all balances as functions on an association of keys to balances. Threads has the same loops
--     as steps of goroutines on one balance, a CompareAndSwap or a Load being one step; Refines,
--     Account and Alone are about these steps. Bounds and Laws are about Ops.
--   Policy: retry.go, the patches of dynamic_config.go, and retry_governance.go. Normal is
--     normalizeRetryPolicy, Patch is RetryPolicyPatch.Apply, Backoff is retryDelay and
--     parseRetryAfter, Deadline has the deadlines and their header, Reason the reasons of events.
--   Classify: the class of a request (request_classification.go, retry.go) and the baseline policy.
--   Config: retry_config_file.go. Match is the matching of rules, Infer has inferDownstream and
--     inferOperation, Provider is the resolution by a ManagedRetryConfigProvider. File, Patches, Order,
--     Compile and Update are the loading of a file: its data, toPatch, the sort of rules,
--     compileRetryConfigFile and Update; Loaded, Best and Layers are about what is
--     loaded. Infer/First is about the downstream that is inferred. Merge is the merging of layers in
--     retry_consul.go; Named, Valid, Accepted, Fresh, Sections, Rules, Hosts, Policies and Whole are
--     about files that stay valid. Store is the load of the layers from a store, Yaml
--     decodeRetryConfigYAML, and Consul the store in Consul, with Replies and Messages about what it
--     answers; Reload and Layered are about them. Watch is
--     waitForRetryConfigChange, Loop the two loops of the reload, one turn at a time; Changes,
--     Pending and Origin are about them.
--   Transport: transport.go. Retryable is shouldRetry, Attempt is prepareAttemptRequest, Resolve is
--     the head of RoundTrip, Loop its loop with the effects of each round in order, RoundTrip the
--     whole with the event of the outcome. View and Rule are a case analysis of one round and the
--     rule for invariants of the loop; Attempts, Cancels, Settled, Charges, Governed,
--     Skipped and Headers are about them. Capture is captureBody, on a stream of bytes.
--   Metrics: ObserveRequestResult of metrics/prometheus/observer.go; Consistent is about it.
--   Client: http.go, with the package variables of request_classification.go and
--     service_identity.go. Args is parseSetupArgs. Setup is the start of a client from YAML or a store
--     in http.go and retry_consul.go, where a managed provider is a number in a heap, so that the
--     transport, the classifier and the goroutine of the watch can share it; Shared is about that.
--     Sending is Do and RespHandler, Helpers the functions that make a request, Closes about them.
--   Middleware: ginmiddleware/retry_governance.go.
--   Tests: concrete runs.
--
-- How they interact. Setup reads the arguments, loads the layers of the configuration from the store,
-- installs the provider in the transport and the classifier, and starts the watch. The watch updates
-- this provider. RoundTrip asks it for each request, and reports what came of the request to the
-- observer.
--
-- Bounds. The loop of RoundTrip runs over its number of rounds, max_retries + 1, which is what the
-- loop condition of the code allows, so the recursion is the loop. Times and durations are integers
-- in nanoseconds; int64 arithmetic wraps around where the code can overflow. time.Time is exact, as
-- its seconds are apart from its nanoseconds.
--
-- The loops of the watch have no end of their own: they are run over any list of turns, each with
-- what the store answers, whether the context is done and whether a sleep ends by its timer. The
-- counters of the metrics are natural numbers, which a float64 holds exactly up to 2 ^ 53.
--
-- Parameters. What the code takes from elsewhere is an argument: path.Match, time.ParseDuration,
-- http.ParseTime, rand.Int63n, the clock, the wrapped RoundTripper, GetBody, the ends of waits,
-- what other requests do to the balances in the meantime, the client and the addresses of Consul,
-- the YAML decoder, http.Client.Do, http.NewRequestWithContext and the encoders of requests and
-- responses. A load of the configuration reads each path once; an error of a body comes after its
-- bytes.
--
-- Not modelled. Texts are ASCII, so the folding of other characters is left out. What is logged,
-- the HTTP requests of the Consul store and the addresses that net/url builds, the writing of
-- multipart forms and the registration of the metrics are left out: they are input and output, or
-- calls of libraries. The test of a platform's error is a field of an error. Nil arguments that
-- the code rejects, such as a nil provider of the watch, have no value here.
pub mod Common
pub mod Budget
pub mod Types
pub mod Policy
pub mod Classify
pub mod Config
pub mod Transport
pub mod Metrics
mod Tests
pub mod Client
pub mod Middleware
