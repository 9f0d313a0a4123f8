-- ===== src/Guardian.antt =====
-- src/primal_ai/guardian: policies that run before and after an agent, the wrapper that runs them,
-- the combinators, and the built-in policies.
pub mod Policy
pub mod Run
pub mod Combinators
pub mod RateLimit
pub mod DollarCap
pub mod Lists
pub mod Redact
pub mod SchemaValidator
pub mod Dsl
mod Tests
