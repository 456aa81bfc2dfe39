-- ===== src/Ontology/Graph/Index.antt =====
-- The index of a graph against the list of its links.
use mathlib.Core.List.{foldl}
use adam_os.Base.{
  ◌≡◌, refl, sym, ◌∙◌, ap, List, [], ◌∷◌, ◌++◌, arith, Str, str_eq, str_eq_iff, or_else, lookup,
  lookup-insert, filter, if◌then◌else◌, map, Bool-cases, inl, inr,
}
use mathlib.Core.List.{append_assoc, append-nil}
use adam_os.Ontology.Graph.{
  OntologyLink, OntologyGraph, EdgeDirection, outward, inward, push_to, index_links, index_graph,
  edges_for, near_id,
}

pub lookup-push_to {ℓ} :
    {A : Type ℓ} (k j : Str) (a : A) (m : List (Str × List A))
    → or_else (lookup j (push_to k a m)) []
      ≡ (if str_eq k j then or_else (lookup j m) [] ++ a ∷ [] else or_else (lookup j m) [])
unfolding push_to
lookup-push_to k j a m =
    ground (arith, str_eq_iff k j, lookup-insert k j (or_else (lookup k m) [] ++ a ∷ []) m)

-- What a Map of lists, filled from a list, has under a key.
pub lookup-foldl-push_to {ℓ κ} :
    {A : Type ℓ} {B : Type κ} (key : A → Str) (f : A → B) (j : Str) (xs : List A)
    (m : List (Str × List B))
    → or_else (lookup j (foldl (λ acc x. push_to (key x) (f x) acc) m xs)) []
      ≡ or_else (lookup j m) [] ++ map f (filter (λ x. str_eq (key x) j) xs)
lookup-foldl-push_to key f j [] m = sym (append-nil (or_else (lookup j m) []))
lookup-foldl-push_to key f j (x ∷ xs) m =
    let ih = lookup-foldl-push_to key f j xs (push_to (key x) (f x) m) in
    elim (Bool-cases (str_eq (key x) j)) [
      | inl here ↦
          ih
          ∙ rw (lookup-push_to (key x) j (f x) m) (
              rw here (
                append_assoc (or_else (lookup j m) []) (f x ∷ [])
                  (map f (filter (λ y. str_eq (key y) j) xs))))
      | inr other ↦ ih ∙ rw (lookup-push_to (key x) j (f x) m) (rw other refl)
    ]

map_same {ℓ} : {A : Type ℓ} (xs : List A) → map (λ x. x) xs ≡ xs
map_same [] = refl
map_same (x ∷ xs) = ap (λ r. x ∷ r) (map_same xs)

lookup-index_links :
    (end_of : OntologyLink → Str) (id : Str) (links : List OntologyLink)
    → or_else (lookup id (index_links end_of links)) [] ≡ filter (λ l. str_eq (end_of l) id) links
unfolding index_links lookup
lookup-index_links end_of id links = lookup-foldl-push_to end_of (λ l. l) id links [] ∙ map_same _

-- The edges that the index has of an object are the links that stand at it, in their order.
pub edges_for-index_graph :
    (g : OntologyGraph) (id : Str) (d : EdgeDirection)
    → edges_for (index_graph g) id d ≡ filter (λ l. str_eq (near_id l d) id) g.links
unfolding edges_for index_graph
edges_for-index_graph g id outward = lookup-index_links (λ l. l.from_id) id g.links
edges_for-index_graph g id inward = lookup-index_links (λ l. l.to_id) id g.links
