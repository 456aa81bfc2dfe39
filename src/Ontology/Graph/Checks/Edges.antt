-- ===== src/Ontology/Graph/Checks/Edges.antt =====
-- `detectDuplicateEdges` against the number of links with the same key.
use mathlib.Core.List.{foldl}
use adam_os.Base.{
  ℕ, suc, ◌+◌, ◌≤◌, ◌≡◌, refl, ◌∙◌, Bool, true, false, Option, none, some, List, [], ◌∷◌, map,
  arith, Str, str_eq, str_eq_iff, count, lookup, lookup-insert, KeysOnce, insert-KeysOnce, filter,
  is_empty, ltb, if◌then◌else◌, str_eq-sym, str_eq_refl, ◌↔◌, sym,
}
use adam_os.Ontology.Graph.{OntologyLink, OntologyGraph}
use adam_os.Ontology.Graph.Checks.{
  SeenEdge, Seen, edge_key, see_again, see_edge, duplicate_finding, detect_duplicate_edges,
}

abbrev seen_count : Option SeenEdge → ℕ
seen_count none = 0
seen_count (some e) = e.count

see_again-count :
    (k : Str) (seen : Seen) (l : OntologyLink) (o : Option SeenEdge)
    → lookup (edge_key l) seen ≡ o
    → seen_count (lookup k (see_again o l seen))
      ≡ (if str_eq (edge_key l) k then suc (seen_count o) else seen_count (lookup k seen))
unfolding see_again
see_again-count k seen l none e =
    rw
      (lookup-insert (edge_key l) k
        (record { link_type = l.link_type; from_id = l.from_id; to_id = l.to_id; count = 1 }) seen)
      (split (str_eq (edge_key l) k))
  where
    split :
        (b : Bool)
        → seen_count (
            if b
            then some (record {
              link_type = l.link_type;
              from_id = l.from_id;
              to_id = l.to_id;
              count = 1;
            })
            else lookup k seen)
          ≡ (if b then 1 else seen_count (lookup k seen))
    split true = refl
    split false = refl
see_again-count k seen l (some prior) e =
    rw (lookup-insert (edge_key l) k (record prior { count = suc prior.count }) seen)
      (split (str_eq (edge_key l) k))
  where
    split :
        (b : Bool)
        → seen_count (if b then some (record prior { count = suc prior.count }) else lookup k seen)
          ≡ (if b then suc prior.count else seen_count (lookup k seen))
    split true = refl
    split false = refl

see_edge-count :
    (k : Str) (seen : Seen) (l : OntologyLink)
    → seen_count (lookup k (see_edge seen l)) ≡ (
        if str_eq (edge_key l) k
        then suc (seen_count (lookup k seen))
        else seen_count (lookup k seen))
unfolding see_edge
see_edge-count k seen l =
    ground
      (arith, str_eq_iff (edge_key l) k, see_again-count k seen l (lookup (edge_key l) seen) refl)

-- The edges seen are counted by their key.
seen_count-foldl :
    (k : Str) (links : List OntologyLink) (seen : Seen)
    → seen_count (lookup k (foldl see_edge seen links))
      ≡ seen_count (lookup k seen) + count k (map edge_key links)
unfolding count
seen_count-foldl k [] seen = omega arith
seen_count-foldl k (l ∷ links) seen = ground (
  arith,
  seen_count-foldl k links (see_edge seen l),
  see_edge-count k seen l,
  str_eq-sym k (edge_key l),
)

see_edge-KeysOnce : (seen : Seen) (l : OntologyLink) → KeysOnce seen → KeysOnce (see_edge seen l)
unfolding see_edge see_again
see_edge-KeysOnce seen l h = split (lookup (edge_key l) seen)
  where
    split : (o : Option SeenEdge) → KeysOnce (see_again o l seen)
    split none = insert-KeysOnce (edge_key l) _ seen h
    split (some prior) = insert-KeysOnce (edge_key l) _ seen h

foldl-KeysOnce :
    (links : List OntologyLink) (seen : Seen) → KeysOnce seen → KeysOnce (foldl see_edge seen links)
foldl-KeysOnce [] seen h = h
foldl-KeysOnce (l ∷ links) seen h =
    foldl-KeysOnce links (see_edge seen l) (see_edge-KeysOnce seen l h)

abbrev repeated : Seen → List SeenEdge
repeated seen = filter (λ e. ltb 1 e.count) (map (λ e. e.1) seen)

-- No entry is counted twice exactly when no key looks up such an entry.
repeated-none :
    (seen : Seen) → is_empty (repeated seen) ≡ true → (k : Str) → seen_count (lookup k seen) ≤ 1
unfolding lookup
repeated-none [] h k = omega arith
repeated-none ((j, e) ∷ seen) h k = ground (arith, repeated-none seen (ground (arith, h)) k)

repeated-some :
    (seen : Seen)
    → KeysOnce seen
    → ((k : Str) → seen_count (lookup k seen) ≤ 1)
    → is_empty (repeated seen) ≡ true
unfolding lookup
repeated-some [] once h = refl
repeated-some ((j, e) ∷ seen) once h =
    let rest = repeated-some seen once.1 (λ k. tail_of k) in
    ground (arith, rest, h j, str_eq_refl j)
  where
    tail_of : (k : Str) → seen_count (lookup k seen) ≤ 1
    tail_of k = ground (arith, h k, str_eq_iff j k, once.0)

is_empty-map {ℓ κ} :
    {A : Type ℓ} {B : Type κ} (f : A → B) (xs : List A) → is_empty (map f xs) ≡ is_empty xs
is_empty-map f [] = refl
is_empty-map f (x ∷ xs) = refl

-- There is no finding exactly when no two links have the same key.
pub detect_duplicate_edges-none :
    (g : OntologyGraph)
    → (is_empty (detect_duplicate_edges g) ≡ true)
      ↔ ((k : Str) → count k (map edge_key g.links) ≤ 1)
unfolding detect_duplicate_edges lookup
detect_duplicate_edges-none g = (
  λ h k.
      let once =
        repeated-none (foldl see_edge [] g.links)
          (sym (is_empty-map duplicate_finding (repeated (foldl see_edge [] g.links))) ∙ h) k in
      ground (arith, once, seen_count-foldl k g.links []),
  λ h.
      is_empty-map duplicate_finding (repeated (foldl see_edge [] g.links))
      ∙ repeated-some (foldl see_edge [] g.links) (foldl-KeysOnce g.links [] tt)
          (λ k. ground (arith, h k, seen_count-foldl k g.links [])),
)
