-- ===== src/Tests.antt =====
-- Runs of the models at concrete inputs, and the theorems applied to them.
mod Planner
mod Resilience
mod Runtime
mod Batch
mod Cache
mod Collection
mod Incidents
mod OntologyGraph
mod Actions
