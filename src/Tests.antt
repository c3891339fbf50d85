-- ===== src/Tests.antt =====
-- Runs of the model, and the theorems at concrete inputs.
mod World
mod CacheRuns
mod CallbackRuns
mod DowRuns
mod BeaconRuns
mod NetRuns
mod TakeoverRuns
mod SystemRuns
mod DemoRuns
