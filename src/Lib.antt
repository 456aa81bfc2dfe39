-- ===== src/Lib.antt =====
-- The decision logic of LAWRENCE (adam_os): what runs, in which order, how often, and who may.
--
-- lib/missions is the mission engine. Missions.Planner is execution-planner.ts (planMission).
-- Missions.RetryManager is retry-manager.ts; Missions.Runtime is mission-runtime.ts: Runtime has
-- the records of a run and the scheduling of a layer, Runtime.Dispatch the executors, their
-- outcomes and the loop over the layers, Runtime.Execute the rest of executeMission.
-- lib/aiops wraps a call of a model provider in middleware. Aiops.Errors is
-- lib/aiops/execution/execution-errors.ts; Aiops.Circuit, Aiops.Retry and Aiops.Fallback are the
-- folders circuit, retry and fallback; Aiops.Effects and Aiops.Stack are the part of
-- lib/aiops/execution/inference-pipeline.ts that composes them round a provider.
-- Aiops.Batch is the folder batch (BatchQueue, BatchCoordinator, the decision of BatchScheduler),
-- and Aiops.Cache is lib/aiops/cache/exact-match-cache-store.ts.
-- Core.Collection is MemoryCollection of lib/lawrence-core/db/collection.ts, and Control.Incidents
-- is lib/mission-control/runtime/failure-threshold.ts, which keeps incidents in one.
-- Control.Actions is lib/mission-control/actions/action-service.ts, with executions in a collection
-- and failures counted by Control.Incidents.
-- Ontology.Graph is lib/dataops/ontology/graph: graph-types.ts, indexRules and the index; Graph.Checks
-- has the validators of graph-integrity.ts that look at one object or edge at a time, Graph.Cycles
-- detectCycles, Graph.Reachability checkReachability and Graph.Validate validateGraph over all of
-- them; Graph.Report and Graph.Components are graph-report.ts, Graph.Enforcement is
-- graph-enforcement.ts. What the rules ask of a graph is Graph.Asked.IsAccepted, which is told over
-- objects and links alone.
--
-- Conventions. A string is the list of its UTF-16 code units; a number is a natural number; a map
-- with string keys is an association list in insertion order (Base.Assoc). A method returns the
-- new state beside its result, and code that may throw returns a Result.
--
-- Fuel. The loop of planMission runs on one round more than there are tasks, since each round
-- takes a task; the retry loop recurs on the attempts left. The depth first search of detectCycles
-- and the breadth first search of checkReachability have one round more than there are ends of links,
-- since each takes a node that it did not take before. The loops of find in graph-report.ts have two
-- more than there are links, since a link makes the way to a root longer by one at most.
--
-- Parameters. The clock, the registry of providers and what a provider answers are fields of
-- Aiops.Effects.Env, arbitrary functions of the number of the reading or call.
-- A run of a mission takes the executors and their hooks, the decision of governance, the approvals,
-- the cancellation predicate by its n-th call, and the order of localeCompare from
-- Missions.Runtime.RunEnv, and what the insertion of a report throws, if it does. An executor is a
-- function of the context that it is handed, so each of its calls ends; one that never settles is not
-- expressible. Publishing an event is taken to succeed. The batch queue has a clock that does not
-- run backwards; the cache takes the key of a request and the reading of the clock.
-- An action takes what the kill switch, the permissions, the object access and the approval services
-- answer, JSON.stringify and the digits of a number from Control.Actions.ActionEnv, and the id of a
-- new execution; the runs of handlers and the audit are lists in the state. None of these services
-- throws in the model, and no precondition does.
-- The middleware stands in the order of its priorities in Aiops.Stack; the sort of the hooks by
-- priority is not modelled. A patch of a row cannot name its id or tenant.
-- The findings of a graph are ordered by a comparison that stands for localeCompare; the texts of
-- findings are left out.
--
-- Not modelled: digests and time stamps of events, the pages and routes under app, the Postgres
-- backend, parsers of file formats and vendor clients, which are input and output.
pub mod Base
pub mod Core
pub mod Control
pub mod Missions
pub mod Aiops
pub mod Ontology
pub mod Tests
