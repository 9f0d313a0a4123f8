-- ===== src/Conductor.antt =====
-- src/primal_ai/conductor: agents with advertised capabilities, delegation of a task to one of them,
-- and linear pipelines of delegations.
pub mod Card
pub mod Registry
pub mod Delegate
pub mod Finding
pub mod Pipeline
mod Tests
