-- ===== src/Ontology/Graph/Checks.antt =====
-- The validators of graph-integrity.ts that look at one object, or at one edge, at a time.
pub mod Edges
pub mod Meets
pub mod Ruled
use mathlib.Core.List.{foldl}
use adam_os.Base.{
  ℕ, suc, ◌+◌, Bool, true, false, not, ◌&&◌, ◌||◌, Option, none, some, List, [], ◌∷◌, ◌++◌, map,
  Str, str, str_eq, contains, or_else, truthy, lookup, insert, filter, any, flatten, length, ltb,
  ◌==◌, if◌then◌else◌,
}
use adam_os.Ontology.Graph.{
  GraphCode, orphan, duplicate_edge, invalid_path, required_relationship, cardinality, policy,
  GraphSeverity, error, GraphFinding, OntologyObject, OntologyLink, OntologyGraph, EdgeDirection,
  outward, inward, RequiredRelationshipRule, CardinalityRule, PolicyRule, GraphRule, Rules,
  GraphIndex, index_graph, edges_for, far_type, far_id,
}

-- An edge as it is first seen, with how often it was seen.
pub record SeenEdge : Type 0 where
  pub link_type : Str
  pub from_id : Str
  pub to_id : Str
  pub count : ℕ

-- The type and the ends, with the code unit 0 between them
abbrev pub edge_key : OntologyLink → Str
edge_key l = l.link_type ++ 0 ∷ (l.from_id ++ 0 ∷ l.to_id)

abbrev pub Seen : Type 0
Seen = List (Str × SeenEdge)

unfoldable pub see_again : Option SeenEdge → OntologyLink → Seen → Seen
unfolding insert
see_again none l seen =
    insert (edge_key l)
      (record { link_type = l.link_type; from_id = l.from_id; to_id = l.to_id; count = 1 }) seen
see_again (some prior) l seen = insert (edge_key l) (record prior { count = suc prior.count }) seen

unfoldable pub see_edge : Seen → OntologyLink → Seen
unfolding see_again lookup
see_edge seen l = see_again (lookup (edge_key l) seen) l seen

abbrev pub duplicate_finding : SeenEdge → GraphFinding
duplicate_finding e = record {
  code = duplicate_edge;
  severity = error;
  object_id = none;
  object_type = none;
  link_type = some e.link_type;
  path = some (e.from_id ∷ e.to_id ∷ []);
}

unfoldable pub detect_duplicate_edges : OntologyGraph → List GraphFinding
unfolding see_edge
detect_duplicate_edges g =
    map duplicate_finding (filter (λ e. ltb 1 e.count) (map (λ e. e.1) (foldl see_edge [] g.links)))

-- A finding of an object, with the link type that it is about.
abbrev pub object_finding : GraphCode → GraphSeverity → OntologyObject → Option Str → GraphFinding
object_finding code severity o link_type = record {
  code = code;
  severity = severity;
  object_id = some o.id;
  object_type = some o.object_type;
  link_type = link_type;
  path = none;
}

-- The loop over the objects that have a rule.
unfoldable pub for_ruled :
    (OntologyObject → GraphRule → List GraphFinding)
    → Rules
    → List OntologyObject
    → List GraphFinding
unfolding lookup
for_ruled check rules objects =
    flatten (
      map (λ o. elim (lookup o.object_type rules) [ none ↦ [] | some rule ↦ check o rule ]) objects)

unfoldable pub orphan_check : GraphIndex → OntologyObject → GraphRule → List GraphFinding
unfolding edges_for
orphan_check idx o rule =
    let degree = length (edges_for idx o.id outward) + length (edges_for idx o.id inward) in
    if truthy rule.must_connect && degree == 0 then object_finding orphan error o none ∷ [] else []

unfoldable pub detect_orphans : OntologyGraph → Rules → List GraphFinding
unfolding for_ruled orphan_check index_graph
detect_orphans g rules = for_ruled (orphan_check (index_graph g)) rules g.objects

-- `!t || x === t`: an empty text is no constraint.
abbrev pub unless_given : Option Str → Str → Bool
unless_given none x = true
unless_given (some []) x = true
unless_given (some (c ∷ t)) x = str_eq x (c ∷ t)

-- The edges of an object that a rule counts
unfoldable pub matching : GraphIndex → Str → EdgeDirection → Str → Option Str → List OntologyLink
unfolding edges_for
matching idx id d link_type other_type =
    filter (λ l. str_eq l.link_type link_type && unless_given other_type (far_type l d))
      (edges_for idx id d)

unfoldable pub required_check :
    GraphIndex → OntologyObject → RequiredRelationshipRule → List GraphFinding
unfolding matching
required_check idx o req =
    let count = length (matching idx o.id req.direction req.link_type req.other_type) in
    if ltb count (or_else req.min 1)
    then object_finding required_relationship (or_else req.severity error) o (some req.link_type)
      ∷ []
    else []

unfoldable pub check_required_relationships : OntologyGraph → Rules → List GraphFinding
unfolding for_ruled required_check index_graph
check_required_relationships g rules =
    for_ruled
      (λ o rule.
        flatten (map (required_check (index_graph g) o) (or_else rule.required_relationships [])))
      rules g.objects

abbrev pub under : Option ℕ → ℕ → Bool
under none n = false
under (some m) n = ltb n m

abbrev pub over : Option ℕ → ℕ → Bool
over none n = false
over (some m) n = ltb m n

unfoldable pub cardinality_check : GraphIndex → OntologyObject → CardinalityRule → List GraphFinding
unfolding matching
cardinality_check idx o c =
    let count = length (matching idx o.id c.direction c.link_type c.other_type) in
    let finding = object_finding cardinality (or_else c.severity error) o (some c.link_type) ∷ [] in
    (if under c.min count then finding else []) ++ (if over c.max count then finding else [])

unfoldable pub check_cardinality : OntologyGraph → Rules → List GraphFinding
unfolding for_ruled cardinality_check index_graph
check_cardinality g rules =
    for_ruled
      (λ o rule. flatten (map (cardinality_check (index_graph g) o) (or_else rule.cardinality [])))
      rules g.objects

-- `xs?.includes(t)`
abbrev pub forbids : Option (List Str) → Str → Bool
forbids none t = false
forbids (some ts) t = contains t ts

abbrev pub path_finding : OntologyObject → OntologyLink → List Str → GraphFinding
path_finding o l path = record {
  code = invalid_path;
  severity = error;
  object_id = some o.id;
  object_type = some o.object_type;
  link_type = some l.link_type;
  path = some path;
}

unfoldable pub forbidden_check : GraphIndex → OntologyObject → GraphRule → List GraphFinding
unfolding edges_for
forbidden_check idx o rule =
    map (λ l. path_finding o l (l.from_id ∷ o.id ∷ []))
      (filter (λ l. forbids rule.forbidden_parent_types l.from_type) (edges_for idx o.id inward))
    ++ map (λ l. path_finding o l (o.id ∷ l.to_id ∷ []))
        (filter (λ l. forbids rule.forbidden_target_types l.to_type) (edges_for idx o.id outward))

unfoldable pub check_forbidden_paths : OntologyGraph → Rules → List GraphFinding
unfolding for_ruled forbidden_check index_graph
check_forbidden_paths g rules = for_ruled (forbidden_check (index_graph g)) rules g.objects

-- `statusById.get(id) === wanted`, where an absent status is no text
abbrev pub has_status : Option (Option Str) → Str → Bool
has_status none wanted = false
has_status (some none) wanted = false
has_status (some (some s)) wanted = str_eq s wanted

unfoldable pub status_meets : GraphIndex → Option Str → Str → Bool
unfolding lookup
status_meets idx none id = true
status_meets idx (some []) id = true
status_meets idx (some (c ∷ wanted)) id = has_status (lookup id idx.status_by_id) (c ∷ wanted)

unfoldable pub policy_check : GraphIndex → OntologyObject → PolicyRule → List GraphFinding
unfolding matching status_meets
policy_check idx o p =
    let candidates = matching idx o.id p.direction p.link_type p.other_type in
    if any (λ l. status_meets idx p.with_status (far_id l p.direction)) candidates
    then []
    else object_finding policy (or_else p.severity error) o (some p.link_type) ∷ []

unfoldable pub check_policies : OntologyGraph → Rules → List GraphFinding
unfolding for_ruled policy_check index_graph
check_policies g rules =
    for_ruled (λ o rule. flatten (map (policy_check (index_graph g) o) (or_else rule.policies [])))
      rules g.objects
