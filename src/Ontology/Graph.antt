-- ===== src/Ontology/Graph.antt =====
-- lib/dataops/ontology/graph: the graph, the rules and the findings (graph-types.ts), and the index
-- of a graph (graph-integrity.ts). The text of a finding's message is left out.
pub mod Index
pub mod Asked
pub mod Checks
pub mod Reachability
pub mod Components
pub mod Report
pub mod Enforcement
pub mod Validate
pub mod Cycles
use mathlib.Core.List.{foldl}
use adam_os.Base.{
  ℕ, Bool, true, false, Option, none, some, List, [], ◌∷◌, ◌++◌, map, Str, str_eq, or_else, lookup,
  insert, filter,
}

pub data GraphCode : Type 0 where
  orphan cycle duplicate_edge invalid_path required_relationship cardinality policy unreachable
        constraint :
      GraphCode

pub data GraphSeverity : Type 0 where
  error warning : GraphSeverity

pub data EdgeDirection : Type 0 where
  outward inward : EdgeDirection

pub record OntologyObject : Type 0 where
  pub id : Str
  pub object_type : Str
  pub status : Option Str

pub record OntologyLink : Type 0 where
  pub link_type : Str
  pub from_type : Str
  pub from_id : Str
  pub to_type : Str
  pub to_id : Str

pub record OntologyGraph : Type 0 where
  pub objects : List OntologyObject
  pub links : List OntologyLink

pub record GraphFinding : Type 0 where
  pub code : GraphCode
  pub severity : GraphSeverity
  pub object_id : Option Str
  pub object_type : Option Str
  pub link_type : Option Str
  pub path : Option (List Str)

pub record RequiredRelationshipRule : Type 0 where
  pub link_type : Str
  pub direction : EdgeDirection
  pub other_type : Option Str
  pub min : Option ℕ
  pub severity : Option GraphSeverity

pub record CardinalityRule : Type 0 where
  pub link_type : Str
  pub direction : EdgeDirection
  pub min : Option ℕ
  pub max : Option ℕ
  pub other_type : Option Str
  pub severity : Option GraphSeverity

-- A policy with its `related` object.
pub record PolicyRule : Type 0 where
  pub link_type : Str
  pub direction : EdgeDirection
  pub other_type : Option Str
  pub with_status : Option Str
  pub severity : Option GraphSeverity

pub record ReachabilityRule : Type 0 where
  pub must_reach_types : List Str
  pub via_link_types : Option (List Str)
  pub severity : Option GraphSeverity

pub record GraphRule : Type 0 where
  pub object_type : Str
  pub must_connect : Option Bool
  pub required_relationships : Option (List RequiredRelationshipRule)
  pub cardinality : Option (List CardinalityRule)
  pub unique_relationships : Option (List Str)
  pub forbidden_parent_types : Option (List Str)
  pub forbidden_target_types : Option (List Str)
  pub reachability : Option ReachabilityRule
  pub policies : Option (List PolicyRule)

abbrev pub Rules : Type 0
Rules = List (Str × GraphRule)

-- `indexRules`: a later rule for a type takes the place of an earlier one.
unfoldable pub index_rules : List GraphRule → Rules
unfolding insert
index_rules = foldl (λ m r. insert r.object_type r m) []

abbrev pub Edges : Type 0
Edges = List (Str × List OntologyLink)

pub record GraphIndex : Type 0 where
  pub out_edges : Edges
  pub in_edges : Edges
  pub status_by_id : List (Str × Option Str)

-- `(m.get(k) ?? m.set(k, []).get(k)).push(l)`
unfoldable pub push_to {ℓ} : {A : Type ℓ} → Str → A → List (Str × List A) → List (Str × List A)
unfolding lookup insert
push_to k a m = insert k (or_else (lookup k m) [] ++ a ∷ []) m

unfoldable pub index_links : (OntologyLink → Str) → List OntologyLink → Edges
unfolding push_to
index_links end_of = foldl (λ m l. push_to (end_of l) l m) []

unfoldable pub index_graph : OntologyGraph → GraphIndex
unfolding index_links insert
index_graph g = record {
  out_edges = index_links (λ l. l.from_id) g.links;
  in_edges = index_links (λ l. l.to_id) g.links;
  status_by_id = foldl (λ m o. insert o.id o.status m) [] g.objects;
}

unfoldable pub edges_for : GraphIndex → Str → EdgeDirection → List OntologyLink
unfolding lookup
edges_for idx id outward = or_else (lookup id idx.out_edges) []
edges_for idx id inward = or_else (lookup id idx.in_edges) []

abbrev pub far_type : OntologyLink → EdgeDirection → Str
far_type l outward = l.to_type
far_type l inward = l.from_type

abbrev pub far_id : OntologyLink → EdgeDirection → Str
far_id l outward = l.to_id
far_id l inward = l.from_id

-- The end at which the object of a rule stands.
abbrev pub near_id : OntologyLink → EdgeDirection → Str
near_id l outward = l.from_id
near_id l inward = l.to_id
