-- ===== src/Ontology/Graph/Reachability/Loop.antt =====
-- The inner loop of the search of `checkReachability`.
use adam_os.Base.{
  ℕ, ◌+◌, ◌≤◌, ◌<◌, ◌≡◌, refl, true, false, not, ◌⊎◌, inl, inr, Option, none, some, List, [], ◌∷◌,
  arith, Str, str_eq, str_eq_iff, contains, contains-append, lookup, filter, length, is_empty, Any,
  length-append, Bool-cases,
}
use adam_os.Ontology.Graph.{OntologyLink}
use adam_os.Ontology.Graph.Reachability.{Bfs, Types, add_type, follows, visit, offer, scan}

-- What steps of a relation lead to
pub data Reaches (E : Str → Str → Type 0) (a : Str) : Str → Type 0 where
  here : Reaches E a a
  beyond : {u v : Str} → Reaches E a u → E u v → Reaches E a v

-- A link that the search may take leads to the object.
abbrev pub Leads : Option (List Str) → List OntologyLink → Str → Type 0
Leads via ls v = Any (λ l. (follows via l.link_type ≡ true) × (l.to_id ≡ v)) ls

-- An object that the graph has, with a type that is a nonempty text
abbrev pub HasType : Types → Str → Str → Type 0
HasType types x t = (lookup x types ≡ some t) × (is_empty t ≡ false)

-- How many of the nodes are not visited
abbrev pub unvisited : List Str → List Str → ℕ
unvisited nodes visited = length (filter (λ n. not (contains n visited)) nodes)

unvisited-le :
    (nodes visited : List Str) (v : Str) → unvisited nodes (v ∷ visited) ≤ unvisited nodes visited
unfolding contains
unvisited-le [] visited v = omega arith
unvisited-le (n ∷ nodes) visited v = ground (arith, unvisited-le nodes visited v)

unvisited-lt :
    (nodes visited : List Str) (v : Str)
    → contains v nodes ≡ true
    → contains v visited ≡ false
    → unvisited nodes (v ∷ visited) < unvisited nodes visited
unfolding contains
unvisited-lt [] visited v m new = absurd (ground arith)
unvisited-lt (n ∷ nodes) visited v m new = ground (
  arith,
  str_eq_iff v n,
  str_eq_iff n v,
  unvisited-le nodes visited v,
  unvisited-lt nodes visited v,
)

add_type-only :
    (o : Option Str) (ts : List Str) (t : Str)
    → contains t (add_type o ts) ≡ true
    → (contains t ts ≡ true) ⊎ ((o ≡ some t) × (is_empty t ≡ false))
unfolding contains
add_type-only none ts t h = inl h
add_type-only (some []) ts t h = inl h
add_type-only (some (c ∷ x)) ts t h = elim (Bool-cases (str_eq t (c ∷ x))) [
  | inl same ↦ let e = (str_eq_iff t (c ∷ x)).0 same in inr (rw e refl, rw e refl)
  | inr other ↦ inl (rw other at h)
]

add_type-keeps :
    (o : Option Str) (ts : List Str) (t : Str)
    → contains t ts ≡ true
    → contains t (add_type o ts) ≡ true
unfolding contains
add_type-keeps none ts t h = h
add_type-keeps (some []) ts t h = h
add_type-keeps (some (c ∷ x)) ts t h = ground (arith, h)

add_type-has :
    (o : Option Str) (ts : List Str) (t : Str)
    → o ≡ some t
    → is_empty t ≡ false
    → contains t (add_type o ts) ≡ true
unfolding contains
add_type-has none ts t e h = absurd (ground arith)
add_type-has (some []) ts t e h = absurd (ground arith)
add_type-has (some (c ∷ x)) ts t e h = ground (arith, e, str_eq_iff t (c ∷ x))

module _ (types : Types) (E : Str → Str → Type 0) (start : Str) where
  -- The types that are reached are the types of the visited objects other than the start.
  pub record IsSearch (s : Bfs) : Type 0 where
    pub begun : contains start s.visited ≡ true
    pub reached_only : (x : Str) → contains x s.visited ≡ true → Reaches E start x
    pub sound :
        (t : Str)
        → contains t s.reached ≡ true
        → (x : Str) × (contains x s.visited ≡ true) × (str_eq x start ≡ false) × HasType types x t
    pub complete :
        (x t : Str)
        → contains x s.visited ≡ true
        → str_eq x start ≡ false
        → HasType types x t
        → contains t s.reached ≡ true

  visit-IsSearch :
      (v : Str) (s : Bfs)
      → IsSearch s
      → contains v s.visited ≡ false
      → Reaches E start v
      → IsSearch (visit types v s)
  unfolding contains
  visit-IsSearch v s i new r = record {
    begun = ground (arith, i.begun);
    reached_only = λ x m. elim (Bool-cases (str_eq x v)) [
      | inl same ↦ rw ((str_eq_iff x v).0 same) r
      | inr other ↦ i.reached_only x (rw other at m)
    ];
    sound = λ t m. elim (add_type-only (lookup v types) s.reached t m) [
      | inl old ↦ let (x, seen, far, typed) = i.sound t old in (x, ground (arith, seen), far, typed)
      | inr typed ↦ (
        v,
        ground (arith, str_eq_iff v v),
        ground (arith, i.begun, new, str_eq_iff v start),
        typed,
      )
    ];
    complete = λ x t m far typed. elim (Bool-cases (str_eq x v)) [
      | inl same ↦
          add_type-has (lookup v types) s.reached t (rw (← (str_eq_iff x v).0 same) typed.0) typed.1
      | inr other ↦
          add_type-keeps (lookup v types) s.reached t (i.complete x t (rw other at m) far typed)
    ];
  }

module _ (nodes : List Str) where
  -- What a scan does to the nodes that are visited and to the queue
  pub record Extends (s s1 : Bfs) : Type 0 where
    pub grows : (x : Str) → contains x s.visited ≡ true → contains x s1.visited ≡ true
    pub keeps : (x : Str) → contains x s.queue ≡ true → contains x s1.queue ≡ true
    pub queues :
        (x : Str)
        → contains x s1.visited ≡ true
        → (contains x s.visited ≡ true) ⊎ (contains x s1.queue ≡ true)
    pub visits :
        (x : Str)
        → contains x s1.queue ≡ true
        → (contains x s.queue ≡ true) ⊎ (contains x s1.visited ≡ true)
    pub falls :
        length s1.queue + unvisited nodes s1.visited ≤ length s.queue + unvisited nodes s.visited

  Extends-refl : (s : Bfs) → Extends s s
  Extends-refl s = record {
    grows = λ x m. m;
    keeps = λ x m. m;
    queues = λ x m. inl m;
    visits = λ x m. inl m;
    falls = omega arith;
  }

  Extends-trans : (s s1 s2 : Bfs) → Extends s s1 → Extends s1 s2 → Extends s s2
  Extends-trans s s1 s2 a b = record {
    grows = λ x m. b.grows x (a.grows x m);
    keeps = λ x m. b.keeps x (a.keeps x m);
    queues = λ x m. elim (b.queues x m) [
      | inr q ↦ inr q
      | inl seen ↦ elim (a.queues x seen) [ inl old ↦ inl old | inr q ↦ inr (b.keeps x q) ]
    ];
    visits = λ x m. elim (b.visits x m) [
      | inr seen ↦ inr seen
      | inl q ↦ elim (a.visits x q) [ inl old ↦ inl old | inr seen ↦ inr (b.grows x seen) ]
    ];
    falls = omega (arith, a.falls, b.falls);
  }

  visit-Extends :
      (types : Types) (v : Str) (s : Bfs)
      → contains v nodes ≡ true
      → contains v s.visited ≡ false
      → Extends s (visit types v s)
  unfolding contains
  visit-Extends types v s m new = record {
    grows = λ x seen. ground (arith, seen);
    keeps = λ x q. ground (arith, q, contains-append x s.queue (v ∷ []));
    queues = λ x seen. elim (Bool-cases (str_eq x v)) [
      | inl same ↦ inr (ground (arith, same, contains-append x s.queue (v ∷ [])))
      | inr other ↦ inl (rw other at seen)
    ];
    visits = λ x q. elim (Bool-cases (str_eq x v)) [
      | inl same ↦ inr (ground (arith, same))
      | inr other ↦ inl (ground (arith, other, q, contains-append x s.queue (v ∷ [])))
    ];
    falls = omega (arith, unvisited-lt nodes s.visited v m new, length-append s.queue (v ∷ []));
  }

  module _ (types : Types) (E : Str → Str → Type 0) (start : Str) (via : Option (List Str)) where
    offer-Extends :
        (l : OntologyLink) (s : Bfs)
        → IsSearch types E start s
        → (follows via l.link_type ≡ true
            → Reaches E start l.to_id × (contains l.to_id nodes ≡ true))
        → IsSearch types E start (offer types via s l)
          × Extends s (offer types via s l)
          × (follows via l.link_type ≡ true → contains l.to_id (offer types via s l).visited ≡ true)
    unfolding offer contains
    offer-Extends l s i h = elim (Bool-cases (follows via l.link_type)) [
      | inr skipped ↦ rw skipped (i, Extends-refl s, λ f. absurd (ground (arith, f)))
      | inl followed ↦ elim (Bool-cases (contains l.to_id s.visited)) [
        | inl old ↦ rw followed (rw old (i, Extends-refl s, λ f. old))
        | inr new ↦ rw followed (
            rw new (
              visit-IsSearch types E start l.to_id s i new (h followed).0,
              visit-Extends types l.to_id s (h followed).1 new,
              λ f. ground (arith, str_eq_iff l.to_id l.to_id),
            ))
      ]
    ]

    -- A scan of links that lead on from the start visits their ends.
    pub scan-Extends :
        (ls : List OntologyLink) (s : Bfs)
        → IsSearch types E start s
        → ((v : Str) → Leads via ls v → Reaches E start v × (contains v nodes ≡ true))
        → IsSearch types E start (scan types via s ls)
          × Extends s (scan types via s ls)
          × ((v : Str) → Leads via ls v → contains v (scan types via s ls).visited ≡ true)
    unfolding scan
    scan-Extends [] s i h = (i, Extends-refl s, λ v leads. elim leads [ ])
    scan-Extends (l ∷ ls) s i h =
        let s1 : Bfs = offer types via s l in
        let (i1, step, seen) = offer-Extends l s i (λ f. h l.to_id (inl (f, refl))) in
        let (i2, more, covers) = scan-Extends ls s1 i1 (λ v a. h v (inr a)) in
        (
          i2,
          Extends-trans s s1 _ step more,
          λ v leads. elim leads [
            | inl (f, e) ↦ more.grows v (rw (← e) (seen f))
            | inr rest ↦ covers v rest
          ],
        )
