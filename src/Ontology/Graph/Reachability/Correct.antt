-- ===== src/Ontology/Graph/Reachability/Correct.antt =====
-- `checkReachability` against the paths of the graph.
use adam_os.Base.{
  ℕ, zero, suc, ◌+◌, ◌≤◌, ◌≡◌, refl, ◌∙◌, true, false, not, ◌⊎◌, inl, inr, ◌↔◌, Option, some, List,
  [], ◌∷◌, arith, Str, str_eq, str_eq_iff, contains, length, length-filter-le, Bool-cases,
}
use adam_os.Ontology.Graph.{OntologyLink}
use adam_os.Ontology.Graph.Reachability.{Bfs, Types, pulled, bfs, started}
use adam_os.Ontology.Graph.Reachability.Loop.{
  Reaches, here, beyond, Leads, HasType, unvisited, IsSearch, scan-Extends,
}

queue-cases : (q : List Str) → (q ≡ []) ⊎ ((cur : Str) × (rest : List Str) × (q ≡ cur ∷ rest))
queue-cases [] = inl refl
queue-cases (cur ∷ rest) = inr (cur, rest, refl)

module _ (edges : Str → List OntologyLink) (types : Types) (via : Option (List Str)) (start : Str)
    (nodes : List Str)
    (inside : (u v : Str) → Leads via (edges u) v → contains v nodes ≡ true) where
  abbrev E : Str → Str → Type 0
  E u v = Leads via (edges u) v

  -- What is visited is queued or has its successors visited.
  record IsFrontier (s : Bfs) : Type 0 where
    search : IsSearch types E start s
    queued : (x : Str) → contains x s.queue ≡ true → contains x s.visited ≡ true
    open_or_done :
        (u : Str)
        → contains u s.visited ≡ true
        → (contains u s.queue ≡ true) ⊎ ((v : Str) → E u v → contains v s.visited ≡ true)

  pulled-IsFrontier :
      (s : Bfs) (cur : Str) (rest : List Str)
      → s.queue ≡ cur ∷ rest
      → IsFrontier s
      → IsFrontier (pulled edges types via s cur rest)
        × (length (pulled edges types via s cur rest).queue
              + unvisited nodes (pulled edges types via s cur rest).visited
            ≤ length rest + unvisited nodes s.visited)
  unfolding contains
  pulled-IsFrontier s cur rest e i =
      let s0 : Bfs = record s { queue = rest } in
      let seen : contains cur s.visited ≡ true =
        i.queued cur (rw e (ground (arith, str_eq_iff cur cur))) in
      let i0 : IsSearch types E start s0 = record {
        begun = i.search.begun;
        reached_only = i.search.reached_only;
        sound = i.search.sound;
        complete = i.search.complete;
      } in
      let (i1, grown, covers) =
        scan-Extends nodes types E start via (edges cur) s0 i0
          (λ v a. (beyond (i.search.reached_only cur seen) a, inside cur v a)) in
      (
        record {
          search = i1;
          queued = λ x m. elim (grown.visits x m) [
            | inl old ↦ grown.grows x (i.queued x (rw e (ground (arith, old))))
            | inr now ↦ now
          ];
          open_or_done = λ u m. elim (grown.queues u m) [
            | inr q ↦ inl q
            | inl old ↦ elim (i.open_or_done u old) [
              | inr done ↦ inr (λ v a. grown.grows v (done v a))
              | inl q ↦ elim (Bool-cases (str_eq u cur)) [
                | inl same ↦ inr (λ v a. covers v (rw ((str_eq_iff u cur).0 same) at a))
                | inr other ↦ inl (grown.keeps u (ground (arith, q, e, other)))
              ]
            ]
          ];
        },
        grown.falls,
      )

  bfs-pull :
      (fuel : ℕ) (s : Bfs) (cur : Str) (rest : List Str)
      → s.queue ≡ cur ∷ rest
      → bfs edges types via (suc fuel) s
        ≡ bfs edges types via fuel (pulled edges types via s cur rest)
  unfolding bfs
  bfs-pull fuel s cur rest e = rw e refl

  abbrev Ends : Option Bfs → Type 0
  Ends o =
      (s1 : Bfs) × (o ≡ some s1)
      × IsSearch types E start s1
      × ((u v : Str) → contains u s1.visited ≡ true → E u v → contains v s1.visited ≡ true)

  empty-Ends :
      (fuel : ℕ) (s : Bfs) → s.queue ≡ [] → IsFrontier s → Ends (bfs edges types via fuel s)
  unfolding bfs contains
  empty-Ends zero s e i = (
    s,
    rw e refl,
    i.search,
    λ u v m a. elim (i.open_or_done u m) [
      | inl q ↦ absurd (ground (arith, q, e))
      | inr done ↦ done v a
    ],
  )
  empty-Ends (suc fuel) s e i = (
    s,
    rw e refl,
    i.search,
    λ u v m a. elim (i.open_or_done u m) [
      | inl q ↦ absurd (ground (arith, q, e))
      | inr done ↦ done v a
    ],
  )

  -- The loop ends, and then everything that is visited has its successors visited.
  bfs-Ends :
      (fuel : ℕ) (s : Bfs)
      → length s.queue + unvisited nodes s.visited ≤ fuel
      → IsFrontier s
      → Ends (bfs edges types via fuel s)
  bfs-Ends zero s h i = elim (queue-cases s.queue) [
    | inl e ↦ empty-Ends zero s e i
    | inr (cur, rest, e) ↦ absurd (ground (arith, h, e))
  ]
  bfs-Ends (suc fuel) s h i = elim (queue-cases s.queue) [
    | inl e ↦ empty-Ends (suc fuel) s e i
    | inr (cur, rest, e) ↦
        let (i1, falls) = pulled-IsFrontier s cur rest e i in
        let (s1, found, good, closed) =
          bfs-Ends fuel (pulled edges types via s cur rest) (ground (arith, h, e, falls)) i1 in
        (s1, bfs-pull fuel s cur rest e ∙ found, good, closed)
  ]

  started-IsFrontier : IsFrontier (started start)
  unfolding contains
  started-IsFrontier = record {
    search = record {
      begun = ground (arith, str_eq_iff start start);
      reached_only = λ x m. rw ((str_eq_iff x start).0 (ground (arith, m))) here;
      sound = λ t m. absurd (ground (arith, m));
      complete = λ x t m far typed. absurd (ground (arith, m, far));
    };
    queued = λ x m. m;
    open_or_done = λ u m. inl m;
  }

  closed-Reaches :
      (s : Bfs)
      → contains start s.visited ≡ true
      → ((u v : Str) → contains u s.visited ≡ true → E u v → contains v s.visited ≡ true)
      → (x : Str) → Reaches E start x
      → contains x s.visited ≡ true
  closed-Reaches s m closed x here = m
  closed-Reaches s m closed x (beyond {u = u} r e) = closed u x (closed-Reaches s m closed u r) e

  -- What the loop reaches from the start are the types of the objects that steps lead to.
  pub bfs-started :
      (fuel : ℕ)
      → suc (length nodes) ≤ fuel
      → (s1 : Bfs) × (bfs edges types via fuel (started start) ≡ some s1)
        × ((t : Str)
            → (contains t s1.reached ≡ true)
              ↔ ((x : Str) × Reaches E start x × (str_eq x start ≡ false) × HasType types x t))
  bfs-started fuel h =
      let (s1, found, good, closed) =
        bfs-Ends fuel (started start)
          (omega (arith, h, length-filter-le (λ n. not (contains n (start ∷ []))) nodes))
          started-IsFrontier in
      (
        s1,
        found,
        λ t. (
          λ m.
              let (x, seen, far, typed) = good.sound t m in
              (x, good.reached_only x seen, far, typed),
          λ (x, r, far, typed).
              good.complete x t (closed-Reaches s1 good.begun closed x r) far typed,
        ),
      )
