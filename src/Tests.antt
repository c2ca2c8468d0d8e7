-- ===== src/Tests.antt =====
-- Each property at a concrete input that meets its hypotheses.
mod Executing
mod Pool
mod Limits
mod Cache
mod Routing
mod Resolving
mod Streaming
mod Updating
mod Refusing
mod Quotas
mod Judging
