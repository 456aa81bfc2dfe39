-- ===== src/Control.antt =====
-- lib/mission-control: the guards of a running system.
pub mod Incidents
pub mod Actions
