-- ===== src/Ontology/Graph/Report.antt =====
-- lib/dataops/ontology/graph/graph-report.ts: `buildReport`. The order of the findings goes by the
-- locale of the host, so the comparison is an argument; the text of a finding is left out.
use adam_os.Base.{
  ℕ, Bool, true, false, not, ◌&&◌, Option, none, some, ◌>>=◌, List, [], ◌∷◌, ◌++◌, map, Str, str,
  dedup_from, filter, flatten, sort, length, or_else, is_empty, if◌then◌else◌,
}
use adam_os.Ontology.Graph.{
  GraphCode, orphan, cycle, duplicate_edge, invalid_path, required_relationship, cardinality,
  policy, unreachable, constraint, error, warning, GraphFinding, OntologyGraph,
}
use adam_os.Ontology.Graph.Components.{count_disconnected_subgraphs}

pub record GraphStatistics : Type 0 where
  pub objects : ℕ
  pub edges : ℕ
  pub disconnected_subgraphs : ℕ
  pub orphan_count : ℕ
  pub validation_time_ms : ℕ

pub record GraphIntegrityReport : Type 0 where
  pub valid : Bool
  pub errors : List GraphFinding
  pub warnings : List GraphFinding
  pub orphan_objects : List Str
  pub duplicate_edges : List Str
  pub invalid_paths : List GraphFinding
  pub cycles : List (List Str)
  pub statistics : GraphStatistics

abbrev pub is_error : GraphFinding → Bool
is_error f = elim f.severity [ error ↦ true | warning ↦ false ]

abbrev pub is_warning : GraphFinding → Bool
is_warning f = elim f.severity [ error ↦ false | warning ↦ true ]

abbrev pub is_code : GraphCode → GraphCode → Bool
is_code orphan orphan = true
is_code cycle cycle = true
is_code duplicate_edge duplicate_edge = true
is_code invalid_path invalid_path = true
is_code required_relationship required_relationship = true
is_code cardinality cardinality = true
is_code policy policy = true
is_code unreachable unreachable = true
is_code constraint constraint = true
is_code _ _ = false

-- `Array.prototype.sort`, which is stable, by a test for "not behind"
unfoldable pub insert_finding :
    (GraphFinding → GraphFinding → Bool) → GraphFinding → List GraphFinding → List GraphFinding
insert_finding in_order f [] = f ∷ []
insert_finding in_order f (x ∷ xs) =
    let rest = insert_finding in_order f xs in if in_order f x then f ∷ x ∷ xs else x ∷ rest

unfoldable pub sort_findings :
    (GraphFinding → GraphFinding → Bool) → List GraphFinding → List GraphFinding
unfolding insert_finding
sort_findings in_order [] = []
sort_findings in_order (f ∷ fs) = insert_finding in_order f (sort_findings in_order fs)

-- The id of the object of an orphan finding, where it has one that is not empty
abbrev pub orphan_id : GraphFinding → List Str
orphan_id f = elim f.object_id [
  | none ↦ []
  | some id ↦ if is_code f.code orphan && not (is_empty id) then id ∷ [] else []
]

abbrev pub join_arrows : List Str → Str
join_arrows [] = []
join_arrows (x ∷ []) = x
join_arrows (x ∷ y ∷ xs) = x ++ (str "->" ++ join_arrows (y ∷ xs))

abbrev pub edge_text : GraphFinding → Str
edge_text f = elim f.path [
  | none ↦ or_else f.link_type (str "undefined") ++ (str ":" ++ or_else f.object_id [])
  | some path ↦ join_arrows path
]

abbrev pub path_of : GraphFinding → List (List Str)
path_of f = elim f.path [ none ↦ [] | some path ↦ path ∷ [] ]

abbrev pub statistics_of : OntologyGraph → ℕ → ℕ → ℕ → GraphStatistics
statistics_of g orphans subgraphs time = record {
  objects = length g.objects;
  edges = length g.links;
  disconnected_subgraphs = subgraphs;
  orphan_count = orphans;
  validation_time_ms = time;
}

-- The report, once the subgraphs are counted
unfoldable pub report_of : List GraphFinding → OntologyGraph → ℕ → ℕ → GraphIntegrityReport
unfolding dedup_from sort
report_of sorted g time subgraphs =
    let errors = filter is_error sorted in
    let orphan_objects = sort (dedup_from [] (flatten (map orphan_id sorted))) in
    record {
      valid = is_empty errors;
      errors = errors;
      warnings = filter is_warning sorted;
      orphan_objects = orphan_objects;
      duplicate_edges =
          sort (dedup_from [] (map edge_text (filter (λ f. is_code f.code duplicate_edge) sorted)));
      invalid_paths = filter (λ f. is_code f.code invalid_path) sorted;
      cycles = flatten (map path_of (filter (λ f. is_code f.code cycle) sorted));
      statistics = statistics_of g (length orphan_objects) subgraphs time;
    }

unfoldable pub build_report :
    (GraphFinding → GraphFinding → Bool)
    → List GraphFinding
    → OntologyGraph
    → ℕ
    → Option GraphIntegrityReport
unfolding sort_findings report_of count_disconnected_subgraphs
build_report in_order findings g time = do
  subgraphs ← count_disconnected_subgraphs g
  some (report_of (sort_findings in_order findings) g time subgraphs)
