-- ===== src/Ontology/Graph/Reachability.antt =====
-- `checkReachability` of graph-integrity.ts: a breadth first search from an object along its links.
pub mod Loop
pub mod Correct
pub mod Paths
pub mod Ruled
use mathlib.Core.List.{foldl}
use adam_os.Base.{
  ◌>>=◌, ℕ, zero, suc, ◌+◌, Bool, true, false, not, ◌&&◌, Option, none, some, List, [], ◌∷◌, ◌++◌,
  map, Str, contains, or_else, lookup, insert, filter, length, if◌then◌else◌,
}
use adam_os.Ontology.Graph.{
  unreachable, error, GraphFinding, OntologyObject, OntologyLink, OntologyGraph, outward,
  ReachabilityRule, GraphRule, Rules, GraphIndex, index_graph, edges_for,
}
use adam_os.Ontology.Graph.Checks.{object_finding}

pub record Bfs : Type 0 where
  pub visited : List Str
  pub reached : List Str
  pub queue : List Str

abbrev pub Types : Type 0
Types = List (Str × Str)

unfoldable pub type_by_id : List OntologyObject → Types
unfolding insert
type_by_id = foldl (λ m o. insert o.id o.object_type m) []

-- `if (t) reachedTypes.add(t)`: an object that is not in the graph, or has no type, adds none.
abbrev pub add_type : Option Str → List Str → List Str
add_type none ts = ts
add_type (some []) ts = ts
add_type (some (c ∷ t)) ts = (c ∷ t) ∷ ts

-- Whether the search follows links of a type
abbrev pub follows : Option (List Str) → Str → Bool
follows none t = true
follows (some ts) t = contains t ts

abbrev pub visit : Types → Str → Bfs → Bfs
visit types v s = record {
  visited = v ∷ s.visited;
  reached = add_type (lookup v types) s.reached;
  queue = s.queue ++ v ∷ [];
}

-- The body of the inner loop
unfoldable pub offer : Types → Option (List Str) → Bfs → OntologyLink → Bfs
unfolding lookup
offer types via s l =
    if follows via l.link_type && not (contains l.to_id s.visited) then visit types l.to_id s else s

unfoldable pub scan : Types → Option (List Str) → Bfs → List OntologyLink → Bfs
unfolding offer
scan types via = foldl (offer types via)

module _ (edges : Str → List OntologyLink) (types : Types) (via : Option (List Str)) where
  abbrev pub pulled : Bfs → Str → List Str → Bfs
  pulled s cur rest = scan types via (record s { queue = rest }) (edges cur)

  -- The `while` loop; `none` is out of fuel.
  unfoldable pub bfs : ℕ → Bfs → Option Bfs
  unfolding scan
  bfs zero s = elim s.queue [ [] ↦ some s | cur ∷ rest ↦ none ]
  bfs (suc fuel) s = elim s.queue [ [] ↦ some s | cur ∷ rest ↦ bfs fuel (pulled s cur rest) ]

abbrev pub started : Str → Bfs
started id = record { visited = id ∷ []; reached = []; queue = id ∷ [] }

abbrev pub reached_of : Option Bfs → Option (List Str)
reached_of none = none
reached_of (some s) = some s.reached

-- The types that are reached from an object. The queue takes an end of a link once, and the start.
unfoldable pub reached_types : OntologyGraph → Option (List Str) → Str → Option (List Str)
unfolding bfs edges_for index_graph type_by_id
reached_types g via id = reached_of (
    bfs (λ u. edges_for (index_graph g) u outward) (type_by_id g.objects) via
      (suc (length g.links + length g.links)) (started id))

unfoldable pub missing_types : OntologyObject → ReachabilityRule → List Str → List GraphFinding
missing_types o r reached =
    map (λ t. object_finding unreachable (or_else r.severity error) o none)
      (filter (λ t. not (contains t reached)) r.must_reach_types)

unfoldable pub reachability_check :
    OntologyGraph → OntologyObject → Option ReachabilityRule → Option (List GraphFinding)
unfolding reached_types missing_types
reachability_check g o none = some []
reachability_check g o (some r) = do
  reached ← reached_types g r.via_link_types o.id
  some (missing_types o r reached)

abbrev pub rule_of : Option GraphRule → Option ReachabilityRule
rule_of none = none
rule_of (some rule) = rule.reachability

abbrev pub both {ℓ} : {A : Type ℓ} → Option (List A) → Option (List A) → Option (List A)
both none o = none
both (some xs) none = none
both (some xs) (some ys) = some (xs ++ ys)

unfoldable pub reachability_of :
    OntologyGraph → Rules → List OntologyObject → Option (List GraphFinding)
unfolding reachability_check lookup
reachability_of g rules [] = some []
reachability_of g rules (o ∷ os) =
    both (reachability_check g o (rule_of (lookup o.object_type rules)))
      (reachability_of g rules os)

unfoldable pub check_reachability : OntologyGraph → Rules → Option (List GraphFinding)
unfolding reachability_of
check_reachability g rules = reachability_of g rules g.objects
