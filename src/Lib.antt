-- ===== src/Lib.antt =====
-- warmrunners: a Kubernetes controller that keeps a floor of warm CI runners on a backend.
--
-- A reconcile of a WarmRunnerPolicy (internal/controller/warmrunnerpolicy_controller.go) reads the
-- demand, the backend's floor and two further signals, asks the scheduler for a floor, folds the
-- signals into it, sets it on the backend where it changed, and writes a status and metrics. The
-- parts, and the files that model them:
--
-- - Base: the shared library. Base.Ints has Go's int32 and int64, with their wrap-around written out;
--   Base.Texts, Base.Maps, Base.Sort and Base.Results have strings, maps, sort.Slice and errors.
-- - Clock: `time.Time` and `time.Duration`, with the saturation of `Sub`.
-- - Policy: api/v1alpha1/warmrunnerpolicy_types.go, one record for each struct and `kind` for
--   `Target.Kind`.
-- - Labels: `LabelSetKey` of internal/predictor/predictor.go, `splitLabelSetKey` and `labelsSuperset` of
--   the controller and `labelsMatch` of internal/demand/github_poller.go.
-- - Scheduler: internal/scheduler/heuristic.go; Scheduler.Sscanf is the part of fmt.Sscanf that it uses.
-- - Adapter: internal/adapter/arc_adapter.go and garm_adapter.go, over a record of client calls, with
--   the laws that these document in Adapter.Laws and a client that meets them in Adapter.Memory.
-- - Activity: `IsBotActor` of internal/activity/activity.go; Activity.Feed is event_feed.go beside it.
-- - Demand: internal/demand/github_poller.go. Demand.Retry has its retries and waits; Demand.Poller is
--   `get` with its cache; Demand.Counting has the pages and counts.
-- - Webhook: internal/webhook. Webhook.Replay is replay.go, Webhook.Verify is verify.go, Webhook.Dispatch is
--   app_lookup.go and dispatcher.go, and Webhook.Receiver is receiver.go. A receiver keeps a guard and the
--   feed; a request with what the outside answers to it is one step.
-- - RateLimit: internal/ghapi/ratelimit.go, the gauges of the rate limit.
-- - Tunnel: internal/webhook/tunnel.go. Tunnel.Stream reads the events of a stream, Tunnel.Loop is `Start`,
--   and Tunnel.Registry keeps one tunnel for each app.
-- - Workflow: internal/predictor/workflow/parse.go over the syntax tree of actionlint. Workflow.Combos is
--   the matrix, Workflow.Documents `rejectMultiDoc`, Workflow.References `classifyUses` and the references
--   to the matrix, Workflow.Jobs the rest. The other children hold proofs, as do those of the
--   parts below that are not named.
-- - Predictor: internal/predictor/workflow_needs_graph.go. Predictor.Listing has the listings and their
--   cache, Predictor.Walk the walk through reusable workflows, Predictor.Predict `Predict`.
-- - Fetcher: internal/predictor/cache.go. Fetcher.Eviction is the LRU cache, Fetcher.Fetch is `Fetch`.
-- - Sampler: internal/activity/workflow_runs_sampler.go.
-- - Controller: the reconciler's state (`Reconciler`, `Memory`), its surroundings (`World`) and its
--   operations: Controller.Auth (resolveAuthToken, predictorToken, demandSource), Controller.Signals
--   (computePredicted, computeActivity, computeActivityFromFeed), Controller.Metrics (the three
--   functions that keep state between reconciles), Controller.Floor (the folding and the setting of the
--   floor) and Controller.Reconcile (Reconcile itself). The other children hold proofs.
-- - Tests: the theorems at concrete inputs.
--
-- How state is modelled. `reconcile` takes what the outside answers (`World`), the reconciler's
-- fields, the result of reading the policy and what the last reconcile left in memory; it returns
-- what it did: the calls of SetFloor, the status updates, the cluster, the memory, the metrics and the
-- result. A mutex makes each method one step. A Go map is an association list in the order of one
-- iteration; the theorems hold for every order. The readings of the clock are separate parameters,
-- since the code reads it several times. A gauge in seconds is given in nanoseconds.
--
-- Errors are their texts. Of those of the reconciler, the receiver, the poller and the tunnel the constant
-- part is kept: values that are formatted into a message are left out. A call that returns an error has no
-- effect: a failed SetFloor leaves the cluster as it was, and no one else changes the cluster during a reconcile.
--
-- The calls of hooks are recorded in a list, in their order; an attached hook changes nothing else. A
-- workflow file is a text of code points: its bytes are taken as valid UTF-8. The list of the LRU cache
-- holds the keys of its entries, which stand for the pointers from an entry to its place in the list.
--
-- A call of the poller is given the server's replies to its request, the clock, the jitter and the state of
-- the context by attempt. What `get` decodes is a parameter of the counting, by page.
--
-- A call of the tunnel's `Start` is given by round what the relay answers, where the context is cancelled
-- and the random number of the wait; a line of a stream comes with whether the context is cancelled by then. A call of
-- the registry is given whether the `Start` that it stops returned before the registry gave up waiting.
--
-- Bounds. A floor is an int32, a count of jobs a Go int, added and converted as the code does it, with the
-- wrap-around; theorems that need a bound name it. The recursions are structural, save for the loop
-- over the pages of a listing, which has no bound in the code, and the walk through workflows that call
-- each other, which run on fuel. The theorem on the demand holds for every fuel of more pages than the
-- listings have; the walk of a prediction is given one unit for each nesting of workflows, of which the
-- bound of ten on the depth allows eleven, so that eleven are enough. The loop of
-- `Start` ends with its context only: its fuel is a number of rounds, and as many as the context lives for
-- are enough. Instants are natural numbers, so that times before year 1 are out of the model.
--
-- Parameters: the Kubernetes client, SetStatusCondition, the time-zone database, the GitHub poller behind
-- `demand.Source`, the predictor and the activity sampler behind their interfaces (for the reconciler),
-- actionlint (its parser, `String()` of a value and `ContainsExpression`), the HTTP client of the
-- predictor, the fetcher and the sampler, as a function on a state that stands for all that it calls,
-- the escaping of URLs, the formatting of a time in RFC 3339, HMAC-SHA256 and `json.Unmarshal`.
--
-- Not modelled: the GitHubApp controller, cmd/main.go, the registration of metrics, logging and generated code.
pub mod Base
pub mod Clock
pub mod Policy
pub mod Labels
pub mod Scheduler
pub mod Adapter
pub mod Activity
pub mod Controller
pub mod Demand
pub mod Workflow
pub mod Predictor
pub mod Fetcher
pub mod Sampler
pub mod RateLimit
pub mod Tunnel
pub mod Webhook
mod Tests
