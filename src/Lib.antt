-- ===== src/Lib.antt =====
-- Verification of the core logic of caddy-agent-gateway, a gateway for LLM, MCP and agent traffic.
--
-- The parts, and the files that model them:
--   * RouteId models pkg/gateway/routecore/routeid.go: the ids that are generated for routes and the
--     check that they are one path segment (`generate_route_id`, `slugify_path`, `validate_route_id`).
--   * VirtualKey models pkg/gateway/virtualkey: Types the key, Checks its validation and the keys that
--     a request's headers carry (validate.go), Limiter the registry of token buckets (ratelimit.go).
--   * LlmRoute models pkg/gateway/llmroute: Policy the target policies and their normalisation
--     (types.go, policy.go), Choose the strategies that choose among candidates, Resolve the
--     resolution of a request to a target, Validate what a stored policy must satisfy (validate.go).
--     Resolve takes the protocol features of pkg/llm/provider/protocol_feature.go with it.
--   * Identity models pkg/agent/runtime/identity.go: correlation identities and run ids.
--   * Runs models pkg/agent/runtime/runs.go: the registry of active runs and tombstones. It takes the
--     validity of a run id from Identity.
--   * Permissions models pkg/agent/runtime/permissions.go: the broker of permission requests, which
--     also asks Identity for the validity of a run id. Decide has what is done over its claims:
--     decisions, expiry, draining and closing.
--   * Scheduler models pkg/credential: Credential the records (model/credential.go), Selector the two
--     selections from a bucket and the test for a block (scheduler/selector.go), and of
--     scheduler/scheduler.go Shard the index of one model in one scope, Mark what a result does to a
--     credential, Scopes the scheduler around them. Its credentials are shared by pointer: a pointer
--     is a number, and a state holds what each number leads to.
--   * Fallback models the loop of pkg/gateway/routedprovider.go that tries a request with one
--     credential and candidate after another. It uses the targets of LlmRoute and the filters and
--     results of Scheduler; the scheduler, the providers and the rest are a record of operations.
--   * Backends models pkg/agent/runtime/registry.go: the backends that run agents, by runtime type.
--   * Base has what the parts share: tests, lists, Go's maps and strings, results, integers, sorting.
--   * Tests runs the models at concrete inputs.
--
-- A virtual key admits a request to a route; the route resolves it to a provider, a model and the
-- scope of its credentials; the scheduler picks one of the scope's credentials and is told how the
-- request went; an agent's turn is a run in the registry, and may wait for a permission.
--
-- Correspondence. A method on a mutable receiver is a function from the state, and the time where
-- it reads the clock, to its result and the new state; one critical section is one function. In two
-- places a function is one step where the code releases the lock in between: the end of Cancel,
-- which reads the tombstone behind Complete, and a virtual key's admission, which takes the token
-- behind the bucket's lookup. Errors are values of a data type for each part, with what their
-- messages name. Maps are association lists in the order in which `range` meets them; every theorem
-- holds for every order. Go's int is an unbounded integer where the code only compares it; the sum
-- of the weights wraps around at 64 bits. Times are natural numbers, counted from the zero time.
-- Strings are texts of code points.
--
-- Parameters stand for what is not in the repository or is an interface in the code: the case table
-- beyond ASCII, the random draw, float arithmetic and the token bucket of golang.org/x/time/rate, the
-- model catalog and the provider configurations, the backends' callbacks and continuations. Where the
-- shares of a weighted choice are stated, a draw is assumed to stay below its bound, as math/rand
-- documents.
--
-- Loops are recursions on the list that the code ranges over, and on the counter of the backoff. Only
-- the loop of Fallback takes fuel; how much is enough is proved.
--
-- Not modelled: JSON codecs, HTTP handlers, storage, provider and agent clients, observability (I/O
-- and glue); RunRegistry.CancelAgent and its retries, and the broker's expiry loop (timers); the
-- managers over stores; the entry points around the fallback, and its panic where the credential
-- manager answers with neither a credential nor an error. Nothing asks a run for a cancellation, so
-- `cancel_requested` is true only where a registry begins so.
pub mod Base
pub mod RouteId
pub mod Identity
pub mod Runs
pub mod Scheduler
pub mod Fallback
pub mod Backends
pub mod Permissions
pub mod VirtualKey
pub mod LlmRoute
pub mod Tests
