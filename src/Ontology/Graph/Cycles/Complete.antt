-- ===== src/Ontology/Graph/Cycles/Complete.antt =====
-- `detectCycles` answers, and without a finding no link type has a cycle but those that may.
use adam_os.Base.{
  length-map, ℕ, suc, ◌+◌, ◌<◌, ◌≡◌, refl, ◌∙◌, true, false, not, ◌&&◌, Option, none, some, List,
  [], ◌∷◌, map, arith, Str, str_eq, str_eq_iff, contains, contains-sort, contains-dedup,
  count-filter, contains-count, lookup, filter, length, length-append, length-filter-le, sort, all,
  all-sort, all-contains, all-contains_intro, is_empty, All, Bool-cases, inl, inr, dedup_from,
}
use adam_os.Ontology.Graph.{OntologyLink, OntologyGraph, GraphFinding}
use adam_os.Ontology.Graph.Cycles.{
  color_of, Adjacency, adjacency, keys, Search, then_meet, search_type, search_types, cyclic_types,
  findings_of, detect_cycles,
}
use adam_os.Ontology.Graph.Cycles.Ends.{is_white, search_all-Ends}
use adam_os.Ontology.Graph.Cycles.Ranked.{is_black, Finished}
use adam_os.Ontology.Graph.Cycles.Acyclic.{Sync, OnSome}
use adam_os.Ontology.Graph.Cycles.Outer.{TopOutcome, search_all-Outcome}
use adam_os.Ontology.Graph.Cycles.Adjacent.{
  ends, IsLink, IsLink-of_target, target_of_link, ends-IsLink, link_type-IsLink, keys-targets,
  keys-adjacency,
}

-- A rank that falls along every link of a type
abbrev pub IsAcyclicType : List OntologyLink → Str → Type 0
IsAcyclicType links t = (rank : Str → ℕ) × ((u v : Str) → IsLink links t u v → rank v < rank u)

nothing-Finished : (adj : Adjacency) → Finished adj []
unfolding color_of lookup
nothing-Finished adj = record {
  rank = λ x. 0;
  bound = 0;
  below = λ u h. absurd (ground arith);
  falls = λ u v h edge. absurd (ground arith);
}

module _ (links : List OntologyLink) where
  search_type-ends : (t : Str) (s : Search) → (s1 : Search) × (search_type links t s ≡ some s1)
  unfolding search_type
  search_type-ends t s =
      search_all-Ends (adjacency t links) t (ends links)
        (λ u v h. (ends-IsLink t u v links (IsLink-of_target t u v links h)).1)
        (suc (length links + length links)) (sort (keys (adjacency t links)))
        (record s { colors = [] })
        (all-sort (λ v. contains v (ends links)) (keys (adjacency t links))
          ∙ all-contains_intro (λ v. contains v (ends links)) (keys (adjacency t links))
              (λ u h. keys-adjacency t u links h))
        (omega (
          arith,
          length-filter-le (λ n. is_white (color_of n [])) (ends links),
          length-append (map (λ l. l.from_id) links) (map (λ l. l.to_id) links),
          length-map (λ l. l.from_id) links,
          length-map (λ l. l.to_id) links,
        ))

  search_types-ends :
      (ts : List Str) (s : Search) → (s1 : Search) × (search_types links ts s ≡ some s1)
  unfolding search_types then_meet
  search_types-ends [] s = (s, refl)
  search_types-ends (t ∷ ts) s =
      let (s1, first) = search_type-ends t s in
      let (s2, rest) = search_types-ends ts s1 in (s2, rw first rest)

  record Clear (ts : List Str) (s s1 : Search) : Type 0 where
    sync : Sync s → Sync s1
    before : Sync s → is_empty s1.findings ≡ true → is_empty s.findings ≡ true
    acyclic : Sync s → is_empty s1.findings ≡ true → All (IsAcyclicType links) ts

  search_type-Clear : (t : Str) (s : Search) → OnSome (Clear (t ∷ []) s) (search_type links t s)
  unfolding search_type color_of lookup
  search_type-Clear t s = turn _ (
      search_all-Outcome (adjacency t links) t (suc (length links + length links))
        (sort (keys (adjacency t links))) (record s { colors = [] }))
    where
      adj : Adjacency
      adj = adjacency t links

      ranked :
          (s1 : Search)
          → Finished adj s1.colors
          → all (λ v. is_black (color_of v s1.colors)) (sort (keys adj)) ≡ true
          → IsAcyclicType links t
      ranked s1 f done = (
        f.rank,
        λ u v link.
            let edge = target_of_link t u v links link in
            let key = keys-targets adj u v edge in
            let dark =
              all-contains (λ w. is_black (color_of w s1.colors)) u (sort (keys adj)) done
                (contains-sort u (keys adj) ∙ key) in
            (f.falls u v dark edge).1,
      )

      turn :
          (o : Option Search)
          → OnSome (TopOutcome adj t (sort (keys adj)) (record s { colors = [] })) o
          → OnSome (Clear (t ∷ []) s) o
      turn none h = tt
      turn (some s1) h = record {
        sync = h.sync;
        before = h.before;
        acyclic = λ y q.
            let (calm, done) = h.quiet y (λ x. refl) q in
            (ranked s1 (calm.finished (nothing-Finished adj)) done, tt);
      }

  search_types-Clear : (ts : List Str) (s : Search) → OnSome (Clear ts s) (search_types links ts s)
  unfolding search_types then_meet
  search_types-Clear [] s = record { sync = λ y. y; before = λ y q. q; acyclic = λ y q. tt }
  search_types-Clear (t ∷ ts) s =
      onward (search_type links t s) (search_type-Clear t s) (search_types-Clear ts)
    where
      both :
          (s1 : Search) (p : Option Search)
          → Clear (t ∷ []) s s1
          → OnSome (Clear ts s1) p
          → OnSome (Clear (t ∷ ts) s) p
      both s1 none a b = tt
      both s1 (some s2) a b = record {
        sync = λ y. b.sync (a.sync y);
        before = λ y q. a.before y (b.before (a.sync y) q);
        acyclic = λ y q. ((a.acyclic y (b.before (a.sync y) q)).0, b.acyclic (a.sync y) q);
      }

      onward :
          (o : Option Search)
          → OnSome (Clear (t ∷ []) s) o
          → ((s1 : Search) → OnSome (Clear ts s1) (search_types links ts s1))
          → OnSome (Clear (t ∷ ts) s) (then_meet o (search_types links ts))
      onward none a b = tt
      onward (some s1) a b = both s1 (search_types links ts s1) a (b s1)

All-contains : (P : Str → Type 0) (t : Str) (ts : List Str) → All P ts → contains t ts ≡ true → P t
unfolding contains
All-contains P t [] h m = absurd (ground arith)
All-contains P t (x ∷ ts) h m = elim (Bool-cases (str_eq t x)) [
  | inl here ↦ rw ((str_eq_iff t x).0 here) h.0
  | inr other ↦ All-contains P t ts h.1 (ground (arith, m, other))
]

pub contains-cyclic_types :
    (allowed : List Str) (g : OntologyGraph) (t : Str)
    → contains t (cyclic_types allowed g)
      ≡ (contains t (map (λ l. l.link_type) g.links) && not (contains t allowed))
unfolding cyclic_types
contains-cyclic_types allowed g t =
    let types = map (λ l. l.link_type) g.links in
    ground (
      arith,
      contains-sort t (filter (λ u. not (contains u allowed)) (dedup_from [] types)),
      contains-count t (filter (λ u. not (contains u allowed)) (dedup_from [] types)),
      count-filter t (λ u. not (contains u allowed)) (dedup_from [] types),
      contains-count t (dedup_from [] types),
      contains-dedup types t,
    )

-- The search for cycles answers: the depth that it is given is enough for every graph.
pub detect_cycles_total :
    (g : OntologyGraph) (allowed : List Str)
    → (fs : List GraphFinding) × (detect_cycles g allowed ≡ some fs)
unfolding detect_cycles
detect_cycles_total g allowed =
    let (s, found) =
      search_types-ends g.links (cyclic_types allowed g)
        (record { colors = []; seen_cycles = []; findings = [] }) in
    (s.findings, rw found refl)

-- Where the search reports no cycle, the links of every type that is not allowed to have cycles have
-- a rank that falls along them, so there is none.
pub detect_cycles_complete :
    (g : OntologyGraph) (allowed : List Str) (t : Str)
    → detect_cycles g allowed ≡ some []
    → contains t allowed ≡ false
    → IsAcyclicType g.links t
unfolding detect_cycles
detect_cycles_complete g allowed t h free =
    elim (Bool-cases (contains t (map (λ l. l.link_type) g.links))) [
      | inr absent ↦
          (λ x. 0, λ u v link. absurd (ground (arith, absent, link_type-IsLink t u v g.links link)))
      | inl present ↦
          All-contains (IsAcyclicType g.links) t (cyclic_types allowed g)
            (clear _ h (search_types-Clear g.links (cyclic_types allowed g) _))
            (ground (arith, present, free, contains-cyclic_types allowed g t))
    ]
  where
    clear :
        (o : Option Search)
        → findings_of o ≡ some []
        → OnSome
            (Clear g.links
              (cyclic_types allowed g)
              (record { colors = []; seen_cycles = []; findings = [] }))
            o
        → All (IsAcyclicType g.links) (cyclic_types allowed g)
    clear none e c = absurd (ground arith)
    clear (some s) e c = c.acyclic refl (ground arith)
