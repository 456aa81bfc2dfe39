-- ===== src/Ontology/Graph/Cycles/Sound.antt =====
-- The findings of `detectCycles` are cycles, and a graph with a rank has none.
use adam_os.Base.{
  ℕ, suc, ◌+◌, ◌<◌, ◌≡◌, refl, true, false, not, Option, none, some, List, [], ◌∷◌, ◌++◌, arith,
  Str, contains, lookup, length, sort, All, all, all-contains_intro, subst,
}
use adam_os.Ontology.Graph.{OntologyLink, OntologyGraph, GraphFinding}
use adam_os.Ontology.Graph.Cycles.{
  color_of, Adjacency, adjacency, keys, Search, cycle_finding, then_meet, search_type, search_types,
  cyclic_types, findings_of, detect_cycles,
}
use adam_os.Ontology.Graph.Cycles.Acyclic.{OnSome}
use adam_os.Ontology.Graph.Cycles.Walks.{IsWalk, IsCircuit, Edge, Trail, search_all-Trail}
use adam_os.Ontology.Graph.Cycles.Adjacent.{IsLink, IsLink-of_target}
use adam_os.Ontology.Graph.Cycles.Complete.{
  IsAcyclicType, contains-cyclic_types, detect_cycles_total,
}

-- A finding that names a circuit along links of a type outside `allowed`
abbrev pub IsCycleFinding : List OntologyLink → List Str → GraphFinding → Type 0
IsCycleFinding links allowed f =
    (t : Str) × (path : List Str) × (f ≡ cycle_finding t path)
    × (contains t allowed ≡ false)
    × IsCircuit (IsLink links t) path

IsWalk-map :
    (E F : Str → Str → Type 0) (path : List Str)
    → ((u v : Str) → E u v → F u v)
    → IsWalk E path
    → IsWalk F path
IsWalk-map E F [] f w = tt
IsWalk-map E F (x ∷ []) f w = tt
IsWalk-map E F (x ∷ y ∷ path) f w = (f x y w.0, IsWalk-map E F (y ∷ path) f w.1)

module _ (links : List OntologyLink) (allowed : List Str) where
  abbrev Keeps : Search → Search → Type 0
  Keeps s s1 =
      All (IsCycleFinding links allowed) s.findings → All (IsCycleFinding links allowed) s1.findings

  search_type-Keeps :
      (t : Str) (s : Search) → contains t allowed ≡ false → OnSome (Keeps s) (search_type links t s)
  unfolding search_type color_of lookup
  search_type-Keeps t s free = turn _ (
      search_all-Trail adj t (IsCycleFinding links allowed) named
        (suc (length links + length links)) (sort (keys adj)) (record s { colors = [] })
        (λ x. refl))
    where
      adj : Adjacency
      adj = adjacency t links

      named :
          (path : List Str)
          → IsCircuit (Edge adj t) path
          → IsCycleFinding links allowed (cycle_finding t path)
      named path c = (
        t,
        path,
        refl,
        free,
        record {
          start = c.start;
          inner = c.inner;
          closed = c.closed;
          walk =
              IsWalk-map (Edge adj t) (IsLink links t) path
                (λ u v h. IsLink-of_target t u v links h) c.walk;
        },
      )

      turn :
          (o : Option Search)
          → OnSome (Trail adj t (IsCycleFinding links allowed) named (record s { colors = [] })) o
          → OnSome (Keeps s) o
      turn none h = tt
      turn (some s1) h = h.sound

  search_types-Keeps :
      (ts : List Str) (s : Search)
      → all (λ t. not (contains t allowed)) ts ≡ true
      → OnSome (Keeps s) (search_types links ts s)
  unfolding search_types then_meet
  search_types-Keeps [] s free = λ h. h
  search_types-Keeps (t ∷ ts) s free =
      onward (search_type links t s) (search_type-Keeps t s (ground (arith, free)))
        (λ s1. search_types-Keeps ts s1 (ground (arith, free)))
    where
      both :
          (s1 : Search) (p : Option Search) → Keeps s s1 → OnSome (Keeps s1) p → OnSome (Keeps s) p
      both s1 none a b = tt
      both s1 (some s2) a b = λ h. b (a h)

      onward :
          (o : Option Search)
          → OnSome (Keeps s) o
          → ((s1 : Search) → OnSome (Keeps s1) (search_types links ts s1))
          → OnSome (Keeps s) (then_meet o (search_types links ts))
      onward none a b = tt
      onward (some s1) a b = both s1 (search_types links ts s1) a (b s1)

-- Every finding of the search names a circuit: a walk along links of one type, that may not have
-- cycles, which ends where it starts.
pub detect_cycles_sound :
    (g : OntologyGraph) (allowed : List Str) {fs : List GraphFinding}
    → detect_cycles g allowed ≡ some fs
    → All (IsCycleFinding g.links allowed) fs
unfolding detect_cycles
detect_cycles_sound g allowed {fs} h =
    sound _ h (search_types-Keeps g.links allowed (cyclic_types allowed g) _ free)
  where
    free : all (λ t. not (contains t allowed)) (cyclic_types allowed g) ≡ true
    free =
        all-contains_intro (λ t. not (contains t allowed)) (cyclic_types allowed g)
          (λ t m. ground (arith, m, contains-cyclic_types allowed g t))

    sound :
        (o : Option Search)
        → findings_of o ≡ some fs
        → OnSome (Keeps g.links allowed (record { colors = []; seen_cycles = []; findings = [] })) o
        → All (IsCycleFinding g.links allowed) fs
    sound none e k = absurd (ground arith)
    sound (some s) e k = subst (All (IsCycleFinding g.links allowed)) (ground arith) (k tt)

walk_falls :
    (E : Str → Str → Type 0) (rank : Str → ℕ) (x : Str) (xs : List Str) (y : Str)
    → ((u v : Str) → E u v → rank v < rank u)
    → IsWalk E ((x ∷ xs) ++ y ∷ [])
    → rank y < rank x
walk_falls E rank x [] y falls w = falls x y w.0
walk_falls E rank x (z ∷ xs) y falls w =
    omega (arith, falls x z w.0, walk_falls E rank z xs y falls w.1)

-- Where every type that may not have cycles has a rank that falls along its links, the search
-- reports nothing.
pub detect_cycles-acyclic :
    (g : OntologyGraph) (allowed : List Str)
    → ((t : Str) → contains t allowed ≡ false → IsAcyclicType g.links t)
    → detect_cycles g allowed ≡ some []
detect_cycles-acyclic g allowed ranked =
    let (fs, found) = detect_cycles_total g allowed in
    rw found (no_findings fs (detect_cycles_sound g allowed found))
  where
    no_findings :
        (fs : List GraphFinding)
        → All (IsCycleFinding g.links allowed) fs
        → ◌≡◌ {A = Option (List GraphFinding)} (some fs) (some [])
    no_findings [] a = refl
    no_findings (f ∷ fs) a =
        let (t, path, _, free, c) = a.0 in
        let (rank, falls) = ranked t free in
        absurd (
          omega (
            arith,
            walk_falls (IsLink g.links t) rank c.start c.inner c.start falls
                (subst (IsWalk (IsLink g.links t)) c.closed c.walk),
          ))
