-- ===== src/Verifier.antt =====
-- src/primal_ai/verifier: layers that judge an output, and the aggregation of their verdicts.
pub mod Verdict
pub mod Audit
pub mod Rules
pub mod Judge
pub mod Domain
mod Tests
