-- ===== src/Ontology/Graph/Components.antt =====
-- `countDisconnectedSubgraphs` of graph-report.ts: union and find with path compression.
pub mod Forest
pub mod Compress
pub mod Unite
pub mod Join
pub mod Links
pub mod Count
use adam_os.Base.{
  ℕ, zero, suc, Bool, true, false, Option, none, some, ◌>>=◌, List, [], ◌∷◌, ◌++◌, map, Str, str_eq,
  contains, lookup, insert, length, is_some, if◌then◌else◌,
}
use adam_os.Ontology.Graph.{OntologyObject, OntologyLink, OntologyGraph}
use adam_os.Ontology.Graph.Cycles.{keys}

abbrev pub Parents : Type 0
Parents = List (Str × Str)

-- The first loop of `find`, which climbs to the root. A node without an entry has no parent; every
-- node that is searched has one.
unfoldable pub climb : ℕ → Parents → Str → Option Str
unfolding lookup
climb zero parent root = none
climb (suc fuel) parent root = do
  up ← lookup root parent
  let further = climb fuel parent up
  if str_eq up root then some root else further

-- The second loop of `find`, which points the nodes on the way at the root
unfoldable pub compress : ℕ → Str → Parents → Str → Option Parents
unfolding lookup insert
compress zero root parent cur = none
compress (suc fuel) root parent cur = do
  next ← lookup cur parent
  let further = compress fuel root (insert cur root parent) next
  if str_eq next root then some parent else further

unfoldable pub find_root : ℕ → Str → Parents → Option (Str × Parents)
unfolding climb compress
find_root fuel x parent = do
  root ← climb fuel parent x
  compressed ← compress fuel root parent x
  some (root, compressed)

unfoldable pub add_node : Str → Parents → Parents
unfolding lookup insert
add_node x parent = if is_some (lookup x parent) then parent else insert x x parent

unfoldable pub unite : Str → Str → Parents → Parents
unfolding insert
unite a b parent = if str_eq a b then parent else insert a b parent

-- The body of the loop over the links
unfoldable pub join_ends : ℕ → OntologyLink → Parents → Option Parents
unfolding find_root add_node unite
join_ends fuel l parent = do
  (a, found_a) ← find_root fuel l.from_id (add_node l.to_id (add_node l.from_id parent))
  (b, found_b) ← find_root fuel l.to_id found_a
  some (unite a b found_b)

unfoldable pub join_links : ℕ → List OntologyLink → Parents → Option Parents
unfolding join_ends
join_links fuel [] parent = some parent
join_links fuel (l ∷ ls) parent = do joined ← join_ends fuel l parent; join_links fuel ls joined

unfoldable pub add_objects : List OntologyObject → Parents → Parents
unfolding add_node
add_objects [] parent = parent
add_objects (o ∷ os) parent = add_objects os (add_node o.id parent)

abbrev pub add_root : Str → List Str → List Str
add_root r roots = if contains r roots then roots else roots ++ r ∷ []

-- The last loop, over the keys
unfoldable pub collect_roots : ℕ → List Str → List Str → Parents → Option (List Str)
unfolding find_root contains
collect_roots fuel [] roots parent = some roots
collect_roots fuel (k ∷ ks) roots parent = do
  (r, found) ← find_root fuel k parent
  collect_roots fuel ks (add_root r roots) found

-- A link makes a path to a root longer by one at most, so two more than the links suffice.
unfoldable pub component_roots : OntologyGraph → Option (List Str)
unfolding join_links add_objects collect_roots
component_roots g = do
  let fuel = suc (suc (length g.links))
  parent ← join_links fuel g.links (add_objects g.objects [])
  collect_roots fuel (keys parent) [] parent

unfoldable pub count_disconnected_subgraphs : OntologyGraph → Option ℕ
unfolding component_roots
count_disconnected_subgraphs g = do roots ← component_roots g; some (length roots)
