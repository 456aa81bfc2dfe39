-- ===== src/Ontology/Graph/Components/Count.antt =====
-- `countDisconnectedSubgraphs` against the connected parts of the graph.
use adam_os.Base.{
  ℕ, suc, ◌+◌, ◌≤◌, ◌<◌, ◌≡◌, refl, sym, ◌∙◌, ap, Bool, true, ◌||◌, inl, inr, some, List, [], ◌∷◌,
  map, arith, Str, str_eq, str_eq_iff, contains, contains-append, contains-count, count,
  count-append, lookup, all, all_mono, all-contains_intro, Any, length, Bool-cases,
}
use adam_os.Ontology.Graph.{OntologyGraph}
use adam_os.Ontology.Graph.Cycles.{keys}
use adam_os.Ontology.Graph.Cycles.Adjacent.{keys-lookup}
use adam_os.Ontology.Graph.Components.{
  Parents, add_objects, add_root, collect_roots, component_roots, count_disconnected_subgraphs,
}
use adam_os.Ontology.Graph.Components.Compress.{find_root-Compressed}
use adam_os.Ontology.Graph.Components.Forest.{IsForest}
use adam_os.Ontology.Graph.Components.Unite.{Connected, Connected-rep, Pair}
use adam_os.Ontology.Graph.Components.Join.{Progress, present, present-keys}
use adam_os.Ontology.Graph.Components.Links.{
  Progress-same, Also, Nothing, ends_of, empty-Progress, add_objects-Progress, join_links-Progress,
}

-- A link between two objects, in one of the directions
abbrev pub Joined : OntologyGraph → Str → Str → Type 0
Joined g x y = Any (λ l. Pair l.from_id l.to_id x y) g.links

-- The objects, and what links join
abbrev pub is_node : OntologyGraph → Str → Bool
is_node g x = ends_of x g.links || contains x (map (λ o. o.id) g.objects)

-- Each connected part of the graph has exactly one member in the list.
pub record IsTransversal (g : OntologyGraph) (roots : List Str) : Type 0 where
  pub once : (r : Str) → count r roots ≤ 1
  pub nodes : (r : Str) → contains r roots ≡ true → is_node g r ≡ true
  pub covers :
      (x : Str)
      → is_node g x ≡ true
      → (r : Str) × (contains r roots ≡ true) × Connected (Joined g) x r
  pub apart :
      (r s : Str)
      → contains r roots ≡ true
      → contains s roots ≡ true
      → Connected (Joined g) r s
      → r ≡ s

contains-add_root :
    (r : Str) (roots : List Str) (x : Str)
    → contains x (add_root r roots) ≡ (str_eq x r || contains x roots)
unfolding contains
contains-add_root r roots x = ground (arith, contains-append x roots (r ∷ []), str_eq_iff x r)

count-add_root :
    (r : Str) (roots : List Str)
    → ((x : Str) → count x roots ≤ 1)
    → (x : Str) → count x (add_root r roots) ≤ 1
unfolding count
count-add_root r roots h x =
    ground (arith, h x, count-append x roots (r ∷ []), contains-count r roots, str_eq_iff x r)

collect_roots-keys :
    (fuel n : ℕ) (rep : Str → Str) (depth : Str → ℕ) (ks roots : List Str) (ps : Parents)
    → IsForest n rep depth ps
    → n < fuel
    → all (present ps) ks ≡ true
    → ((x : Str) → count x roots ≤ 1)
    → (out : List Str) × (collect_roots fuel ks roots ps ≡ some out)
      × ((x : Str) → count x out ≤ 1)
      × ((x : Str) → contains x out ≡ (contains x (map rep ks) || contains x roots))
unfolding collect_roots contains
collect_roots-keys fuel n rep depth [] roots ps i h there once = (roots, refl, once, λ x. refl)
collect_roots-keys fuel n rep depth (k ∷ ks) roots ps i h there once =
    let (ps1, found, i1, same, at) =
      find_root-Compressed n rep depth fuel ps k i (ground (arith, there)) h in
    let (out, rest, once1, out_iff) =
      collect_roots-keys fuel n rep depth ks (add_root (rep k) roots) ps1 i1 h
        (all_mono (present ps) (present ps1) ks (λ a e. present-keys ps ps1 a same ∙ e)
          (ground (arith, there)))
        (count-add_root (rep k) roots once) in
    (out, rw found rest, once1, λ x. ground (arith, out_iff x, contains-add_root (rep k) roots x))

image_of :
    (rep : Str → Str) (r : Str) (ks : List Str)
    → contains r (map rep ks) ≡ true
    → (k : Str) × (contains k ks ≡ true) × (r ≡ rep k)
unfolding contains
image_of rep r [] h = absurd (ground (arith, h))
image_of rep r (k ∷ ks) h = elim (Bool-cases (str_eq r (rep k))) [
  | inl here ↦ (k, ground (arith, str_eq_iff k k), (str_eq_iff r (rep k)).0 here)
  | inr other ↦
      let (j, m, e) = image_of rep r ks (ground (arith, h, other)) in (j, ground (arith, m), e)
]

contains-image :
    (rep : Str → Str) (k : Str) (ks : List Str)
    → contains k ks ≡ true
    → contains (rep k) (map rep ks) ≡ true
unfolding contains
contains-image rep k [] h = absurd (ground (arith, h))
contains-image rep k (j ∷ ks) h = elim (Bool-cases (str_eq k j)) [
  | inl here ↦ ground (arith, ap rep ((str_eq_iff k j).0 here), str_eq_iff (rep k) (rep j))
  | inr other ↦ ground (arith, contains-image rep k ks (ground (arith, h, other)))
]

module _ (g : OntologyGraph) (n : ℕ) (ps : Parents) (p : Progress n (Joined g) ps)
    (there : (x : Str) → present ps x ≡ is_node g x) (roots : List Str)
    (once : (x : Str) → count x roots ≤ 1)
    (iff : (x : Str) → contains x roots ≡ contains x (map p.rep (keys ps))) where
  roots-IsTransversal : IsTransversal g roots
  roots-IsTransversal = record {
    once = once;
    nodes = λ r m.
        let (k, m1, e) = image_of p.rep r (keys ps) (sym (iff r) ∙ m) in
        let (_, _, _, _, at) =
          find_root-Compressed n p.rep p.depth (suc n) ps k p.forest (keys-lookup k ps ∙ m1)
            (omega arith) in
        sym (there r) ∙ ap (present ps) e ∙ at;
    covers = λ x m. (
      p.rep x,
      iff (p.rep x) ∙ contains-image p.rep x (keys ps) (sym (keys-lookup x ps) ∙ there x ∙ m),
      p.spans.sound x,
    );
    apart = λ r s hr hs c.
        let (k, _, er) = image_of p.rep r (keys ps) (sym (iff r) ∙ hr) in
        let (j, _, es) = image_of p.rep s (keys ps) (sym (iff s) ∙ hs) in
        rep_own r k er ∙ Connected-rep (Joined g) p.rep r s p.spans c ∙ sym (rep_own s j es);
  }
    where
      rep_own : (r k : Str) → r ≡ p.rep k → r ≡ p.rep r
      rep_own r k e = e ∙ sym (p.forest.top (p.rep k) (p.forest.rep_top k)).0 ∙ ap p.rep (sym e)

-- The count is the length of a list with exactly one member of each connected part.
pub count_disconnected_subgraphs-IsTransversal :
    (g : OntologyGraph)
    → (roots : List Str) × (count_disconnected_subgraphs g ≡ some (length roots))
      × IsTransversal g roots
unfolding count_disconnected_subgraphs component_roots contains count lookup
count_disconnected_subgraphs-IsTransversal g =
    let fuel : ℕ = suc (suc (length g.links)) in
    let (p0, there0) = add_objects-Progress Nothing g.objects [] empty-Progress in
    let (ps, joined, p1, there1) =
      join_links-Progress fuel 0 Nothing g.links (add_objects g.objects []) p0 (omega arith) in
    let p : Progress (length g.links) (Joined g) ps =
      Progress-same (0 + length g.links) (length g.links) (Also Nothing g.links) (Joined g) ps
        (omega arith) (λ x y e. elim e [ inl none_left ↦ absurd none_left | inr linked ↦ linked ])
        (λ x y e. inr e) p1 in
    let (roots, found, once, iff) =
      collect_roots-keys fuel (length g.links) p.rep p.depth (keys ps) [] ps p.forest (omega arith)
        (all-contains_intro (present ps) (keys ps) (λ a m. keys-lookup a ps ∙ m))
        (λ x. omega arith) in
    (
      roots,
      rw joined (rw found refl),
      roots-IsTransversal g (length g.links) ps p (λ x. ground (arith, there1 x, there0 x)) roots
          once (λ x. ground (arith, iff x)),
    )
