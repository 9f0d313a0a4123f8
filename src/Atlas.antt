-- ===== src/Atlas.antt =====
-- src/primal_ai/atlas: provider health, the registry, routing and the cascade.
pub mod Health
pub mod Provider
pub mod Registry
pub mod State
pub mod Router
pub mod Cascade
pub mod Bandits
pub mod Choice
pub mod Decisions
pub mod Exploration
pub mod Finding
pub mod Validity
pub mod Invocation
mod Tests
