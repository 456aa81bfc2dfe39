-- ===== src/Ontology/Graph/Cycles.antt =====
-- `detectCycles` of graph-integrity.ts: for each link type, a depth first search with three colors.
-- The stack is what the open calls of `dfs` have pushed, so it is an argument here.
pub mod Ends
pub mod Ranked
pub mod Acyclic
pub mod Outer
pub mod Adjacent
pub mod Complete
pub mod Sound
pub mod Walks
use mathlib.Core.List.{foldl}
use adam_os.Base.{
  ℕ, zero, suc, ◌+◌, Bool, true, false, not, Option, none, some, List, [], ◌∷◌, ◌++◌, map, Str, str,
  str_eq, contains, dedup_from, or_else, lookup, insert, filter, sort, length, if◌then◌else◌,
}
use adam_os.Ontology.Graph.{OntologyLink, OntologyGraph, GraphFinding, cycle, error, push_to}

pub data Color : Type 0 where
  white gray black : Color

abbrev pub Colors : Type 0
Colors = List (Str × Color)

unfoldable pub color_of : Str → Colors → Color
unfolding lookup
color_of u colors = or_else (lookup u colors) white

abbrev pub Adjacency : Type 0
Adjacency = List (Str × List Str)

-- The links of a type, as targets by their source.
unfoldable pub adjacency : Str → List OntologyLink → Adjacency
unfolding push_to
adjacency link_type links =
    foldl (λ m l. push_to l.from_id l.to_id m) [] (filter (λ l. str_eq l.link_type link_type) links)

abbrev pub targets : Adjacency → Str → List Str
targets adj u = or_else (lookup u adj) []

pub record Search : Type 0 where
  pub colors : Colors
  pub seen_cycles : List Str
  pub findings : List GraphFinding

-- `stack.slice(stack.indexOf(v))` for a `v` on the stack
unfoldable pub from_node : Str → List Str → List Str
from_node v [] = []
from_node v (x ∷ xs) = let rest = from_node v xs in if str_eq x v then x ∷ xs else rest

-- `join("|")`
unfoldable pub join : List Str → Str
join [] = []
join (x ∷ []) = x
join (x ∷ y ∷ xs) = x ++ (str "|" ++ join (y ∷ xs))

unfoldable pub canonical : Str → List Str → Str
unfolding join
canonical link_type path = join (sort path) ++ (str "#" ++ link_type)

abbrev pub cycle_finding : Str → List Str → GraphFinding
cycle_finding link_type path = record {
  code = cycle;
  severity = error;
  object_id = none;
  object_type = none;
  link_type = some link_type;
  path = some path;
}

-- A back edge to `v`
unfoldable pub report_cycle : Str → List Str → Str → Search → Search
unfolding from_node canonical
report_cycle link_type stack v s =
    let path = from_node v stack ++ v ∷ [] in
    let canon = canonical link_type path in
    if contains canon s.seen_cycles then s else record s {
      seen_cycles = canon ∷ s.seen_cycles;
      findings = s.findings ++ cycle_finding link_type path ∷ [];
    }

abbrev pub paint : Str → Color → Search → Search
paint u c s = record s { colors = insert u c s.colors }

unfoldable pub then_meet : Option Search → (Search → Option Search) → Option Search
then_meet none k = none
then_meet (some s) k = k s

abbrev pub finish : Str → Option Search → Option Search
finish u none = none
finish u (some s) = some (paint u black s)

module _ (adj : Adjacency) (link_type : Str) where
  -- A node that the loop over the neighbours meets, by its color; `go` is `dfs`.
  unfoldable pub meet :
      (Str → Search → Option Search) → List Str → Str → Color → Search → Option Search
  unfolding report_cycle
  meet go stack v gray s = some (report_cycle link_type stack v s)
  meet go stack v white s = go v s
  meet go stack v black s = some s

  unfoldable pub meet_all :
      (Str → Search → Option Search) → List Str → List Str → Search → Option Search
  unfolding meet then_meet color_of
  meet_all go stack [] s = some s
  meet_all go stack (v ∷ vs) s =
      then_meet (meet go stack v (color_of v s.colors) s) (meet_all go stack vs)

  -- `none` is out of fuel.
  unfoldable pub dfs : ℕ → List Str → Str → Search → Option Search
  unfolding meet_all
  dfs zero stack u s = none
  dfs (suc fuel) stack u s =
      let inside = stack ++ u ∷ [] in
      finish u (meet_all (dfs fuel inside) inside (sort (targets adj u)) (paint u gray s))

  -- The loop over the nodes: the white ones are searched, each on an empty stack.
  unfoldable pub search_from : ℕ → Str → Color → Search → Option Search
  unfolding dfs
  search_from fuel n white s = dfs fuel [] n s
  search_from fuel n gray s = some s
  search_from fuel n black s = some s

  unfoldable pub search_all : ℕ → List Str → Search → Option Search
  unfolding search_from then_meet color_of
  search_all fuel [] s = some s
  search_all fuel (n ∷ ns) s =
      then_meet (search_from fuel n (color_of n s.colors) s) (search_all fuel ns)

abbrev pub keys {ℓ} : {A : Type ℓ} → List (Str × A) → List Str
keys = map (λ e. e.0)

-- One round for each link type, with its own colors. A call of `dfs` is at a node that was white, so
-- one round more than there are ends of links suffices.
unfoldable pub search_type : List OntologyLink → Str → Search → Option Search
unfolding search_all adjacency
search_type links link_type s =
    let adj = adjacency link_type links in
    search_all adj link_type (suc (length links + length links)) (sort (keys adj))
      (record s { colors = [] })

unfoldable pub search_types : List OntologyLink → List Str → Search → Option Search
unfolding search_type then_meet
search_types links [] s = some s
search_types links (t ∷ ts) s = then_meet (search_type links t s) (search_types links ts)

unfoldable pub cyclic_types : List Str → OntologyGraph → List Str
unfolding dedup_from
cyclic_types allowed g =
    sort (filter (λ t. not (contains t allowed)) (dedup_from [] (map (λ l. l.link_type) g.links)))

abbrev pub findings_of : Option Search → Option (List GraphFinding)
findings_of none = none
findings_of (some s) = some s.findings

-- `detectCycles`, with `config.cycleAllowedLinkTypes`
unfoldable pub detect_cycles : OntologyGraph → List Str → Option (List GraphFinding)
unfolding search_types cyclic_types
detect_cycles g allowed = findings_of (
    search_types g.links (cyclic_types allowed g)
      (record { colors = []; seen_cycles = []; findings = [] }))
