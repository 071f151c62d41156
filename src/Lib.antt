-- ===== src/Lib.antt =====
-- zealish-router is a gateway in front of several providers of language models. A request names a
-- model alias or a combo (a pool of aliases); the router turns the name into a chain of routes,
-- walks the chain with retries until an upstream answers, and keeps for that a circuit breaker per
-- provider, a window of measurements per alias, and the set of providers whose health probe failed.
-- Before a request is routed, its API key passes a rate limit and a monthly budget, and the response
-- cache may answer it.
--
-- The parts of the program, and the files that model them:
--
-- Breaker (internal/router/breaker.go): the record `Breakers` is the struct `breakers`; `allow`,
-- `success`, `failure`, `phase`, `snapshot`, `set_overrides` are its methods, and `set_policy` and
-- `rebuild_breakers` are Engine.SetBreakerPolicy and setBreakerPolicy. The clock is an argument;
-- the transition hook is a log of its calls. Breaker/Single is the machine of one provider alone,
-- Breaker/Isolation, Recovery and Reports hold the proofs.
--
-- Stats (internal/router/stats.go, percentile.go): `Ring` is the ring buffer, `Windows` the map of
-- rings, `aggregate` and `alias_stats` what is reported. Stats/Buffer and Window compare the ring
-- with a list of the last measurements, Sort, Percentile and Aggregate treat the numbers. A float of
-- the source (the success rate) is kept as an exact fraction of natural numbers.
--
-- Quota (internal/auth/quota.go): `take_slot` is takeSlot, `spent_this_month` spentThisMonth, `allow`
-- Allow. The usage log answers as an argument, `none` where it fails; `Readings` is what the clock
-- shows at the two moments when Allow reads it. Quota/Sliding is the specification of the rate limit;
-- Rate and Budget hold the proofs.
--
-- Routing (internal/router/router.go, intelligent.go): Routing/Table is the routing table with
-- Reload, resolve and pick; Pool has rotate and weightedPick; Intelligent has intelligentOrder;
-- Chain has entrypoints and chain; Engine and Dispatch have dispatch and attempt, with
-- internal/provider/errors.go for the error classes and internal/router/trace.go, metrics.go,
-- usage.go and health.go for what a walk writes down and asks. Order, Distinct, Weights, Shares,
-- Eligible and the children of Dispatch hold the proofs. The cursor of a combo is a uint64 that wraps around.
-- For a round-robin combo the source converts it to int before the remainder, so the model is exact
-- below 2 ^ 63 requests.
--
-- Cache (internal/cache/cache.go): the record `Cache`, with the map and the list of the source, `get`,
-- `put`, `purge` and `cache_stats`. A disabled cache, the nil pointer, is `none`.
--
-- Probes (internal/router/health.go): `set_probe` and `check` are set and check, on the map of the
-- providers that are down; `health` is Engine.Health, which merges that map with the breakers. All
-- pings of CheckAll run at once, so a run is a sequence of results in any order.
--
-- Dedup (internal/ponytail/dedup.go): `dedup_messages` is dedupMessages with its three passes;
-- Dedup/Kept compares it with the second pass alone, and that with a rule on the whole conversation.
--
-- Wire (pkg/openai/types.go, pkg/anthropic/types.go): the fields of the two dialects that the stream
-- translators read, after JSON decoding, with toAnthropicUsage and stopReason of
-- internal/api/messages.go, fromAnthropicUsage and finishReason of internal/provider/anthropic.go.
-- Token counts are natural numbers.
--
-- Messages (internal/api/messages_stream.go): `relay_messages` is relayMessages, on a list of what its
-- select receives; `chunk`, `start`, `delta`, `tool_deltas`, `open_block`, `close_block` and `finish`
-- are the methods of messageStream. The writer is a function that says which write succeeds.
-- Messages/Grammar is the order of events that the dialect prescribes, Legal and Brackets the proofs.
--
-- Pump (internal/provider/anthropic.go, anthropic_tools.go): `pump_anthropic` is pumpAnthropic on the
-- decoded events, `start_call` and `argue_call` the methods of toolCallStream. Pump/Pieces says what
-- a stream of chunks says; Heard, Link, Related and RoundTrip compare it across both translators.
--
-- Responses (internal/api/responses_stream.go, responses.go): `relay_responses` is relayResponses, with
-- the methods of responseStream as functions. Responses/Client is what a client may rely on, as a step
-- relation over the frames; Legal, Items, Pieces and Stream hold the proofs.
--
-- Dialects (internal/api/messages.go, internal/provider/anthropic.go, anthropic_tools.go):
-- Dialects/ToChat is toOpenAIRequest with what it calls, Dialects/ToMessages is toAnthropic, Dialects/Replies has
-- fromAnthropic and toAnthropicResponse. Raw JSON is decoded at the edges; json.Valid and the JSON
-- text of a content are parameters. Dialects/Atoms is what a conversation says; Collected, Kept, Prompt,
-- Requests and Replied hold the proofs. Sampling parameters are left out.
--
-- Budget (internal/ponytail/token.go, rank.go): `rank_messages` is rankMessages, `filter_by_budget`
-- filterByBudget, `estimate_tokens` estimateTokensFromMessages; the floating-point score is an exact
-- fraction. Budget/Ranks and Fits hold the proofs.
--
-- Gate (internal/auth/auth.go, admin.go, internal/api/middleware.go): `authenticate` is
-- Service.Authenticate, `set_static_keys` SetStaticKeys, `permits` Identity.Allows; `admit_request` is
-- what a request gets from authenticate, enforceQuota and allowModel (internal/api/handler.go) in turn, with
-- `allow` of Quota. The digest and the key store are arguments. Gate/Decides holds the proof.
--
-- Capability (internal/provider/capability.go): `infer_capabilities` is InferCapabilities,
-- `normalize_capabilities` NormalizeCapabilities; trimming and lower case are one argument.
-- Capability/Canonical and Inferred hold the proofs.
--
-- How the parts meet: `visit` of Routing/Dispatch calls `allow` of Breaker and the health map before
-- a route is attempted, and `attempt` reports to `success` and `failure` of Breaker. A request passes
-- `admit_request` first. Of a request in the Messages dialect, `to_chat_request` and `to_messages_request` are
-- composed when the upstream speaks that dialect too, with `to_upstream` between them for the model that
-- ChatCompletion and ChatCompletionStream set; of a stream, `relay_messages` and
-- `pump_anthropic`.
--
-- Every loop of the source is structural recursion, except the loop of `attempt`, which recurses on
-- the number of tries left (its bound in the source), and the loop of `put`, whose fuel is the
-- length of the list that each round shortens. Locks are not modelled: an operation under a lock is
-- one step. Times are natural numbers in the unit of the source. Maps are association lists; no
-- theorem depends on the order of a map's keys.
--
-- Parameters, which stand for what is not in the repository or not executed in the model: the
-- upstream's answers, the clock and the context of a request (`World`), the answer of the usage log,
-- the digests of messages and keys, the key store, which writes to a client succeed, JSON validity and
-- the JSON of a content, and the floating-point score of an intelligent candidate (an argument
-- of `intelligent_order`).
--
-- Not modelled: the HTTP servers and their handlers, requests and whole responses of the Responses
-- dialect, the other upstream clients, the storage backends, the text passes of the prompt
-- compression, configuration, the metrics exporter and the dashboard. Most of it is input and output
-- around the parts above. The delay between retries is not modelled either: it changes no decision
-- but the moment at which the clock is read.
pub mod Base
pub mod Breaker
pub mod Stats
pub mod Quota
pub mod Routing
pub mod Cache
pub mod Probes
pub mod Dedup
pub mod Wire
pub mod Messages
pub mod Pump
pub mod Responses
pub mod Dialects
pub mod Budget
pub mod Gate
pub mod Capability
mod Tests
