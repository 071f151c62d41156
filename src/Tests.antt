-- ===== src/Tests.antt =====
-- Runs of the definitions at fixed inputs, and each theorem at an input that meets its hypotheses.
mod Breaker
mod Cache
mod Dedup
mod Stats
mod Probes
mod Quota
mod Routing
mod Wire
mod Messages
mod Pump
mod Responses
mod Dialects
mod Budget
mod Gate
mod Capability
