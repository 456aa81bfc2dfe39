-- ===== src/Ontology/Graph/Validate.antt =====
-- `validateGraph` of graph-integrity.ts. What is emitted is a list of events without their data; the
-- graph, the rules, the types that may have cycles, the mode and the time taken are arguments.
pub mod Accepted
pub mod Outcome
use adam_os.Base.{
  ℕ, zero, suc, ◌+◌, Bool, true, false, not, ◌&&◌, Option, none, some, ◌>>=◌, List, [], ◌∷◌, ◌++◌,
  map, Str, filter, any, length, Result, ok, err, is_empty, if◌then◌else◌,
}
use adam_os.Ontology.Graph.{policy, GraphFinding, OntologyGraph, GraphRule, Rules, index_rules}
use adam_os.Ontology.Graph.Checks.{
  detect_duplicate_edges, detect_orphans, check_required_relationships, check_cardinality,
  check_forbidden_paths, check_policies,
}
use adam_os.Ontology.Graph.Cycles.{detect_cycles}
use adam_os.Ontology.Graph.Reachability.{check_reachability}
use adam_os.Ontology.Graph.Report.{GraphStatistics, GraphIntegrityReport, is_code, build_report}
use adam_os.Ontology.Graph.Enforcement.{GraphEnforcementMode, warn, enforce}

pub record GraphMetrics : Type 0 where
  pub graphs_validated : ℕ
  pub graphs_rejected : ℕ
  pub orphans_detected : ℕ
  pub cycles_detected : ℕ
  pub duplicate_edges : ℕ
  pub policy_violations : ℕ
  pub validation_latency_ms_total : ℕ

abbrev pub reset_graph_metrics : GraphMetrics
reset_graph_metrics = record {
  graphs_validated = 0;
  graphs_rejected = 0;
  orphans_detected = 0;
  cycles_detected = 0;
  duplicate_edges = 0;
  policy_violations = 0;
  validation_latency_ms_total = 0;
}

pub data GraphEvent : Type 0 where
  orphan_detected cycle_detected policy_failed validated rejected warned : GraphEvent

pub data GraphIntegrityError : Type 0 where
  integrity_error : GraphIntegrityReport → GraphIntegrityError

-- What a run returns or throws, the counts after it, and what it emits
pub record Validation : Type 0 where
  pub result : Result GraphIntegrityError GraphIntegrityReport
  pub metrics : GraphMetrics
  pub events : List GraphEvent

unfoldable pub all_findings : OntologyGraph → Rules → List Str → Option (List GraphFinding)
unfolding detect_duplicate_edges detect_orphans check_required_relationships check_cardinality
    check_forbidden_paths detect_cycles check_reachability check_policies
all_findings g rules allowed = do
  cycles ← detect_cycles g allowed
  unreachable ← check_reachability g rules
  some (
      detect_duplicate_edges g
      ++ (detect_orphans g rules
          ++ (check_required_relationships g rules
              ++ (check_cardinality g rules
                  ++ (check_forbidden_paths g rules
                      ++ (cycles ++ (unreachable ++ check_policies g rules)))))))

abbrev pub policy_errors : GraphIntegrityReport → List GraphFinding
policy_errors r = filter (λ f. is_code f.code policy) r.errors

abbrev pub count_report : GraphIntegrityReport → GraphMetrics → GraphMetrics
count_report r m = record m {
  graphs_validated = m.graphs_validated + 1;
  orphans_detected = m.orphans_detected + length r.orphan_objects;
  cycles_detected = m.cycles_detected + length r.cycles;
  duplicate_edges = m.duplicate_edges + length r.duplicate_edges;
  policy_violations = m.policy_violations + length (policy_errors r);
  validation_latency_ms_total = m.validation_latency_ms_total + r.statistics.validation_time_ms;
}

-- An event for each category that the report has something of
abbrev pub category_events : GraphIntegrityReport → List GraphEvent
category_events r =
    (if is_empty r.orphan_objects then [] else orphan_detected ∷ [])
    ++ ((if is_empty r.cycles then [] else cycle_detected ∷ [])
        ++ (if is_empty (policy_errors r) then [] else policy_failed ∷ []))

-- The last part: a valid graph is returned, an invalid one is refused or only reported.
unfoldable pub settle :
    GraphEnforcementMode → Bool → GraphIntegrityReport → GraphMetrics → Validation
settle mode true r m = record {
  result = ok r;
  metrics = m;
  events = category_events r ++ validated ∷ [];
}
settle enforce false r m = record {
  result = err (integrity_error r);
  metrics = record m { graphs_rejected = m.graphs_rejected + 1 };
  events = category_events r ++ rejected ∷ [];
}
settle warn false r m = record {
  result = ok r;
  metrics = m;
  events = category_events r ++ warned ∷ [];
}

-- The parameter compares findings by the locale of the host.
unfoldable pub validate_graph :
    (GraphFinding → GraphFinding → Bool)
    → OntologyGraph
    → List GraphRule
    → List Str
    → GraphEnforcementMode
    → ℕ
    → GraphMetrics
    → Option Validation
unfolding all_findings index_rules build_report settle
validate_graph in_order g rules allowed mode time m = do
  findings ← all_findings g (index_rules rules) allowed
  report ← build_report in_order findings g time
  some (settle mode report.valid report (count_report report m))
