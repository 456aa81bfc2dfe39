-- ===== src/Tests/OntologyGraph.antt =====
-- lib/dataops/ontology/graph: three objects in a row, and two in a circle.
use adam_os.Base.{
  sort, str_leb, Bool, ◌≡◌, refl, ◌↔◌, true, false, none, some, List, [], ◌∷◌, All, Str, str,
  contains, filter, length, str_eq, any, lookup,
}
use adam_os.Ontology.Graph.{
  GraphFinding, OntologyObject, OntologyLink, OntologyGraph, GraphRule, outward, index_graph,
  index_rules, edges_for, near_id,
}
use adam_os.Ontology.Graph.Index.{edges_for-index_graph}
use adam_os.Ontology.Graph.Cycles.{cycle_finding, detect_cycles}
use adam_os.Ontology.Graph.Cycles.Complete.{IsAcyclicType, detect_cycles_complete}
use adam_os.Ontology.Graph.Cycles.Sound.{IsCycleFinding, detect_cycles_sound}
use adam_os.Ontology.Graph.Components.{count_disconnected_subgraphs}
use adam_os.Ontology.Graph.Components.Count.{
  IsTransversal, count_disconnected_subgraphs-IsTransversal,
}
use adam_os.Ontology.Graph.Reachability.{reached_types}
use adam_os.Ontology.Graph.Reachability.Paths.{ReachesType, reached_types_iff}
use adam_os.Ontology.Graph.Report.{is_error}
use adam_os.Ontology.Graph.Enforcement.{enforce}
use adam_os.Ontology.Graph.Validate.{Validation, all_findings, reset_graph_metrics, validate_graph}
use adam_os.Ontology.Graph.Asked.{IsAccepted}
use adam_os.Ontology.Graph.Validate.Accepted.{all_findings_iff}
use adam_os.Ontology.Graph.Validate.Outcome.{IsOutcome, validate_graph-IsOutcome}

abbrev object_of : Str → Str → OntologyObject
object_of id t = record { id = id; object_type = t; status = none }

abbrev owns : Str → Str → OntologyLink
owns a b = record { link_type = str "owns"; from_type = []; from_id = a; to_type = []; to_id = b }

abbrev a : Str
a = str "a"

abbrev b : Str
b = str "b"

abbrev c : Str
c = str "c"

abbrev row : OntologyGraph
row = record {
  objects = object_of a (str "Site") ∷ object_of b (str "Well") ∷ object_of c (str "Pump") ∷ [];
  links = owns a b ∷ owns b c ∷ [];
}

abbrev circle : OntologyGraph
circle = record {
  objects = object_of a (str "Site") ∷ object_of b (str "Well") ∷ object_of c (str "Pump") ∷ [];
  links = owns a b ∷ owns b a ∷ [];
}

abbrev site_rule : GraphRule
site_rule = record {
  object_type = str "Site";
  must_connect = some true;
  required_relationships = none;
  cardinality = none;
  unique_relationships = none;
  forbidden_parent_types = none;
  forbidden_target_types = none;
  reachability =
      some (record { must_reach_types = str "Pump" ∷ []; via_link_types = none; severity = none });
  policies = none;
}

abbrev in_order : GraphFinding → GraphFinding → Bool
in_order x y = true

circle_is_cyclic : detect_cycles circle [] ≡ some (cycle_finding (str "owns") (a ∷ b ∷ a ∷ []) ∷ [])
unfolding detect_cycles sort contains str_eq str_leb
circle_is_cyclic = refl

row_is_acyclic : detect_cycles row [] ≡ some []
unfolding detect_cycles sort contains str_eq str_leb
row_is_acyclic = refl

row_reaches : reached_types row none a ≡ some (str "Pump" ∷ str "Well" ∷ [])
unfolding reached_types str_eq contains
row_reaches = refl

circle_has_two_parts : count_disconnected_subgraphs circle ≡ some 2
unfolding count_disconnected_subgraphs str_eq
circle_has_two_parts = refl

validate_graph-IsOutcome_example :
    (v : Validation) × (validate_graph in_order circle
        (site_rule ∷ [])
        []
        enforce
        5
        reset_graph_metrics
      ≡ some v)
    × IsOutcome in_order circle (site_rule ∷ []) [] enforce reset_graph_metrics v
validate_graph-IsOutcome_example =
    validate_graph-IsOutcome in_order circle (site_rule ∷ []) [] enforce 5 reset_graph_metrics
      ((refl, refl), ((refl, refl), tt))

all_findings_iff_example :
    (fs : List GraphFinding) × (all_findings row (index_rules (site_rule ∷ [])) [] ≡ some fs)
    × ((any is_error fs ≡ false) ↔ IsAccepted row (λ t. lookup t (index_rules (site_rule ∷ []))) [])
all_findings_iff_example =
    all_findings_iff row (index_rules (site_rule ∷ [])) [] ((refl, refl), ((refl, refl), tt))

detect_cycles_sound_example :
    All (IsCycleFinding circle.links []) (cycle_finding (str "owns") (a ∷ b ∷ a ∷ []) ∷ [])
detect_cycles_sound_example = detect_cycles_sound circle [] circle_is_cyclic

detect_cycles_complete_example : IsAcyclicType row.links (str "owns")
unfolding contains
detect_cycles_complete_example = detect_cycles_complete row [] (str "owns") row_is_acyclic refl

reached_types_iff_example :
    (ts : List Str) × (reached_types row none a ≡ some ts)
    × ((t : Str) → (contains t ts ≡ true) ↔ ReachesType row none a t)
reached_types_iff_example = reached_types_iff row none a

count_disconnected_subgraphs-IsTransversal_example :
    (roots : List Str) × (count_disconnected_subgraphs circle ≡ some (length roots))
    × IsTransversal circle roots
count_disconnected_subgraphs-IsTransversal_example =
    count_disconnected_subgraphs-IsTransversal circle

edges_for-index_graph_example :
    edges_for (index_graph row) b outward ≡ filter (λ l. str_eq (near_id l outward) b) row.links
edges_for-index_graph_example = edges_for-index_graph row b outward
