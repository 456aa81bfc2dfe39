-- ===== src/Ontology/Graph/Reachability/Paths.antt =====
-- `checkReachability` against the links of the graph.
use adam_os.Base.{
  length-map, ap, ℕ, suc, ◌+◌, ◌≡◌, true, false, inl, inr, ◌↔◌, Option, some, List, [], ◌∷◌, map,
  arith, Str, str_eq, str_eq_iff, contains, contains-append, filter, length, Any, length-append,
  Bool-cases,
}
use adam_os.Ontology.Graph.{OntologyLink, OntologyGraph, outward, index_graph, edges_for}
use adam_os.Ontology.Graph.Index.{edges_for-index_graph}
use adam_os.Ontology.Graph.Cycles.Adjacent.{ends}
use adam_os.Ontology.Graph.Reachability.{
  Bfs, type_by_id, follows, bfs, started, reached_types, reached_of,
}
use adam_os.Ontology.Graph.Reachability.Loop.{Reaches, here, beyond, Leads, HasType}
use adam_os.Ontology.Graph.Reachability.Correct.{bfs-started}

-- A link of the graph that a search may take from one object to another
abbrev pub Step : OntologyGraph → Option (List Str) → Str → Str → Type 0
Step g via u v =
    Any (λ l. (follows via l.link_type ≡ true) × (l.from_id ≡ u) × (l.to_id ≡ v)) g.links

-- An object other than the start, of the type, that links lead to
abbrev pub ReachesType : OntologyGraph → Option (List Str) → Str → Str → Type 0
ReachesType g via id t =
    (x : Str) × Reaches (Step g via) id x
    × (str_eq x id ≡ false)
    × HasType (type_by_id g.objects) x t

Leads-Step :
    (via : Option (List Str)) (u v : Str) (links : List OntologyLink)
    → Leads via (filter (λ l. str_eq l.from_id u) links) v
    → Any (λ l. (follows via l.link_type ≡ true) × (l.from_id ≡ u) × (l.to_id ≡ v)) links
Leads-Step via u v [] a = a
Leads-Step via u v (l ∷ links) a = elim (Bool-cases (str_eq l.from_id u)) [
  | inr other ↦ inr (Leads-Step via u v links (rw other at a))
  | inl from ↦ split from (rw from at a) (λ k. Leads-Step via u v links k)
]
  where
    split :
        str_eq l.from_id u ≡ true
        → Leads via (l ∷ filter (λ k. str_eq k.from_id u) links) v
        → (Leads via (filter (λ k. str_eq k.from_id u) links) v
            → Any (λ k. (follows via k.link_type ≡ true) × (k.from_id ≡ u) × (k.to_id ≡ v)) links)
        → Any (λ k. (follows via k.link_type ≡ true) × (k.from_id ≡ u) × (k.to_id ≡ v)) (l ∷ links)
    split from (inl (f, e)) ih = inl (f, (str_eq_iff l.from_id u).0 from, e)
    split from (inr b) ih = inr (ih b)

Step-Leads :
    (via : Option (List Str)) (u v : Str) (links : List OntologyLink)
    → Any (λ l. (follows via l.link_type ≡ true) × (l.from_id ≡ u) × (l.to_id ≡ v)) links
    → Leads via (filter (λ l. str_eq l.from_id u) links) v
Step-Leads via u v [] a = a
Step-Leads via u v (l ∷ links) (inl (f, from, e)) =
    rw ((str_eq_iff l.from_id u).1 from) (inl (f, e))
Step-Leads via u v (l ∷ links) (inr a) = elim (Bool-cases (str_eq l.from_id u)) [
  | inr other ↦ rw other (Step-Leads via u v links a)
  | inl from ↦ rw from (inr (Step-Leads via u v links a))
]

pub Reaches-map :
    (E F : Str → Str → Type 0) (a x : Str)
    → ((u v : Str) → E u v → F u v)
    → Reaches E a x
    → Reaches F a x
Reaches-map E F a x f here = here
Reaches-map E F a x f (beyond {u = u} r e) = beyond (Reaches-map E F a u f r) (f u x e)

Step-ends :
    (via : Option (List Str)) (u v : Str) (links : List OntologyLink)
    → Any (λ l. (follows via l.link_type ≡ true) × (l.from_id ≡ u) × (l.to_id ≡ v)) links
    → contains v (map (λ l. l.to_id) links) ≡ true
unfolding contains
Step-ends via u v [] a = elim a [ ]
Step-ends via u v (l ∷ links) (inl (f, from, e)) = ground (arith, e, str_eq_iff v l.to_id)
Step-ends via u v (l ∷ links) (inr a) = ground (arith, Step-ends via u v links a)

module _ (g : OntologyGraph) (via : Option (List Str)) where
  followed_link : (u v : Str) → Leads via (edges_for (index_graph g) u outward) v → Step g via u v
  followed_link u v a = Leads-Step via u v g.links (rw (edges_for-index_graph g u outward) at a)

  link_followed : (u v : Str) → Step g via u v → Leads via (edges_for (index_graph g) u outward) v
  link_followed u v a = rw (edges_for-index_graph g u outward) (Step-Leads via u v g.links a)

  inside :
      (u v : Str)
      → Leads via (edges_for (index_graph g) u outward) v
      → contains v (ends g.links) ≡ true
  inside u v a = ground (
    arith,
    Step-ends via u v g.links (followed_link u v a),
    contains-append v (map (λ l. l.from_id) g.links) (map (λ l. l.to_id) g.links),
  )

  searched : Str → ℕ → Option Bfs
  searched id fuel =
      bfs (λ u. edges_for (index_graph g) u outward) (type_by_id g.objects) via fuel (started id)

  reached_types-bfs :
      (id : Str) (s1 : Bfs)
      → searched id (suc (length g.links + length g.links)) ≡ some s1
      → reached_types g via id ≡ some s1.reached
  unfolding reached_types searched
  reached_types-bfs id s1 found = ap reached_of found

  -- The search from an object ends, and reaches a type exactly when links that it may take lead to
  -- another object of that type.
  pub reached_types_iff :
      (id : Str)
      → (ts : List Str) × (reached_types g via id ≡ some ts)
        × ((t : Str) → (contains t ts ≡ true) ↔ ReachesType g via id t)
  unfolding searched
  reached_types_iff id =
      let (s1, found, iff) =
        bfs-started (λ u. edges_for (index_graph g) u outward) (type_by_id g.objects) via id
          (ends g.links) inside (suc (length g.links + length g.links))
          (omega (
            arith,
            length-append (map (λ l. l.from_id) g.links) (map (λ l. l.to_id) g.links),
            length-map (λ l. l.from_id) g.links,
            length-map (λ l. l.to_id) g.links,
          )) in
      (
        s1.reached,
        reached_types-bfs id s1 found,
        λ t. (
          λ m.
              let (x, r, far, typed) = (iff t).0 m in
              (x, Reaches-map _ _ id x followed_link r, far, typed),
          λ (x, r, far, typed). (iff t).1 (x, Reaches-map _ _ id x link_followed r, far, typed),
        ),
      )
