-- ===== src/Tests.antt =====
-- Tests at concrete inputs, and each theorem at an input that meets its hypotheses.
mod Cache
mod WriteThrough
mod ReadThrough
mod Callers
mod Sharded
mod Retry
mod Throttle
mod Schedule
mod Certkit
mod Lifecycle
mod Mtls
mod Pki
mod Fronts
mod Mock
mod Runs
mod Authority
