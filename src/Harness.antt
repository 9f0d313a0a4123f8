-- ===== src/Harness.antt =====
-- src/primal_ai/harness: health checks, the interval scheduler and the tool registry.
pub mod Health
pub mod Scheduler
pub mod Discovery
pub mod Facade
pub mod Tests
