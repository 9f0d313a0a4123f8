-- ===== src/Continuity.antt =====
-- src/primal_ai/continuity: portable user profiles.
pub mod Profile
pub mod Merging
pub mod Facade
pub mod Autolearn
pub mod RoundTrip
pub mod Learning
pub mod Tests
