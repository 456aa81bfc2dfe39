-- ===== src/Ontology/Graph/Components/Links.antt =====
-- All links and objects in `countDisconnectedSubgraphs`.
use adam_os.Base.{
  ℕ, suc, ◌+◌, ◌≤◌, ◌<◌, ◌≡◌, refl, Bool, false, ◌||◌, ◌⊎◌, inl, inr, some, List, [], ◌∷◌, map,
  arith, Str, str_eq, str_eq_refl, str_eq-sym, contains, lookup, Any, length,
}
use adam_os.Ontology.Graph.{OntologyObject, OntologyLink}
use adam_os.Ontology.Graph.Components.{Parents, add_node, add_objects, join_links}
use adam_os.Ontology.Graph.Components.Forest.{parent_of}
use adam_os.Ontology.Graph.Components.Unite.{Spans, alone, Connected-map, Pair, Extended}
use adam_os.Ontology.Graph.Components.Join.{
  Progress, present, present-add_node, add_node-Progress, join_ends-Progress,
}

-- The nodes, and no relation yet
abbrev pub Nothing : Str → Str → Type 0
Nothing x y = ⊥

pub empty-Progress : Progress 0 Nothing []
unfolding parent_of lookup
empty-Progress = record {
  rep = λ x. x;
  depth = λ x. 0;
  forest = record {
    top = λ x e. (refl, refl);
    up = λ x e. absurd (ground (arith, e, str_eq_refl x));
    rep_top = λ x. refl;
    bounded = λ x. omega arith;
    within = λ x m. m;
  };
  spans = record { both_ways = λ x y e. e; sound = λ x. alone; complete = λ x y e. absurd e };
}

pub add_objects-Progress :
    (J : Str → Str → Type 0) (os : List OntologyObject) (ps : Parents)
    → Progress 0 J ps
    → Progress 0 J (add_objects os ps)
      × ((x : Str)
          → present (add_objects os ps) x ≡ (contains x (map (λ o. o.id) os) || present ps x))
unfolding add_objects contains
add_objects-Progress J [] ps p = (p, λ x. refl)
add_objects-Progress J (o ∷ os) ps p =
    let (p1, there) =
      add_objects-Progress J os (add_node o.id ps) (add_node-Progress 0 J o.id ps p) in
    (p1, λ x. ground (arith, there x, present-add_node o.id ps x, str_eq-sym x o.id))

-- A relation and the pairs of the links
abbrev pub Also : (Str → Str → Type 0) → List OntologyLink → Str → Str → Type 0
Also J ls x y = J x y ⊎ Any (λ l. Pair l.from_id l.to_id x y) ls

Spans-same :
    (J K : Str → Str → Type 0) (rep : Str → Str)
    → ((x y : Str) → J x y → K x y)
    → ((x y : Str) → K x y → J x y)
    → Spans J rep
    → Spans K rep
Spans-same J K rep f g s = record {
  both_ways = λ x y k. f y x (s.both_ways x y (g x y k));
  sound = λ x. Connected-map J K x (rep x) f (s.sound x);
  complete = λ x y k. s.complete x y (g x y k);
}

pub Progress-same :
    (n m : ℕ) (J K : Str → Str → Type 0) (ps : Parents)
    → n ≤ m
    → ((x y : Str) → J x y → K x y)
    → ((x y : Str) → K x y → J x y)
    → Progress n J ps
    → Progress m K ps
Progress-same n m J K ps le f g p = record {
  rep = p.rep;
  depth = p.depth;
  forest = record {
    top = p.forest.top;
    up = p.forest.up;
    rep_top = p.forest.rep_top;
    bounded = λ x. omega (arith, le, p.forest.bounded x);
    within = p.forest.within;
  };
  spans = Spans-same J K p.rep f g p.spans;
}

abbrev pub ends_of : Str → List OntologyLink → Bool
ends_of x [] = false
ends_of x (l ∷ ls) = (str_eq l.to_id x || str_eq l.from_id x) || ends_of x ls

pub join_links-Progress :
    (fuel n : ℕ) (J : Str → Str → Type 0) (ls : List OntologyLink) (ps : Parents)
    → Progress n J ps
    → n + length ls < fuel
    → (ps1 : Parents) × (join_links fuel ls ps ≡ some ps1)
      × Progress (n + length ls) (Also J ls) ps1
      × ((x : Str) → present ps1 x ≡ (ends_of x ls || present ps x))
unfolding join_links
join_links-Progress fuel n J [] ps p h = (
  ps,
  refl,
  Progress-same n (n + 0) J (Also J []) ps (omega arith) (λ x y e. inl e)
      (λ x y e. elim e [ inl old ↦ old | inr none_left ↦ absurd none_left ]) p,
  λ x. refl,
)
join_links-Progress fuel n J (l ∷ ls) ps p h =
    let (ps1, joined, p1, there1) = join_ends-Progress fuel n J l ps p (omega (arith, h)) in
    let (ps2, rest, p2, there2) =
      join_links-Progress fuel (suc n) (Extended J l.from_id l.to_id) ls ps1 p1
        (omega (arith, h)) in
    (
      ps2,
      rw joined rest,
      Progress-same (suc n + length ls) (n + suc (length ls))
          (Also (Extended J l.from_id l.to_id) ls) (Also J (l ∷ ls)) ps2 (omega arith)
          (λ x y e. elim e [
            | inl (inl old) ↦ inl old
            | inl (inr now) ↦ inr (inl now)
            | inr later ↦ inr (inr later)
          ])
          (λ x y e. elim e [
            | inl old ↦ inl (inl old)
            | inr (inl now) ↦ inl (inr now)
            | inr (inr later) ↦ inr later
          ])
          p2,
      λ x. ground (arith, there2 x, there1 x),
    )
