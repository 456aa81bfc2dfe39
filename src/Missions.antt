-- ===== src/Missions.antt =====
-- lib/missions: the planner, the retry manager and the runtime of missions.
pub mod Types
pub mod Planner
pub mod RetryManager
pub mod Runtime
