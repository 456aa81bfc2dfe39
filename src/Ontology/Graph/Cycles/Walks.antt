-- ===== src/Ontology/Graph/Cycles/Walks.antt =====
-- Every cycle that is reported is a closed walk along links of one type.
use adam_os.Base.{
  ℕ, zero, suc, ◌≡◌, refl, sym, ◌∙◌, true, false, inl, inr, Option, none, some, List, [], ◌∷◌, ◌++◌,
  arith, Str, str_eq, str_eq_iff, contains, contains-append, contains-sort, sort, All, All-append,
  Bool-cases,
}
use adam_os.Ontology.Graph.{GraphFinding}
use adam_os.Ontology.Graph.Cycles.{
  Color, white, gray, black, color_of, Adjacency, targets, Search, report_cycle, canonical,
  from_node, cycle_finding, paint, meet, then_meet, meet_all, finish, dfs, search_from, search_all,
}
use adam_os.Ontology.Graph.Cycles.Ends.{is_white, color_of-insert, report_cycle-colors}
use adam_os.Ontology.Graph.Cycles.Ranked.{is_gray}
use adam_os.Ontology.Graph.Cycles.Acyclic.{OnSome}

-- Each node is followed by one of its successors.
abbrev pub IsWalk : (Str → Str → Type 0) → List Str → Type 0
IsWalk E [] = Unit
IsWalk E (x ∷ []) = Unit
IsWalk E (x ∷ y ∷ xs) = E x y × IsWalk E (y ∷ xs)

-- A walk of at least one edge that ends where it starts
pub record IsCircuit (E : Str → Str → Type 0) (path : List Str) : Type 0 where
  pub start : Str
  pub inner : List Str
  pub closed : path ≡ (start ∷ inner) ++ start ∷ []
  pub walk : IsWalk E path

IsWalk-extend :
    (E : Str → Str → Type 0) (xs : List Str) (u v : Str)
    → IsWalk E (xs ++ u ∷ [])
    → E u v
    → IsWalk E ((xs ++ u ∷ []) ++ v ∷ [])
IsWalk-extend E [] u v w e = (e, tt)
IsWalk-extend E (x ∷ []) u v w e = (w.0, (e, tt))
IsWalk-extend E (x ∷ y ∷ xs) u v w e = (w.0, IsWalk-extend E (y ∷ xs) u v w.1 e)

IsWalk-tail : (E : Str → Str → Type 0) (x : Str) (xs : List Str) → IsWalk E (x ∷ xs) → IsWalk E xs
IsWalk-tail E x [] w = tt
IsWalk-tail E x (y ∷ xs) w = w.1

IsWalk-from_node :
    (E : Str → Str → Type 0) (v : Str) (xs : List Str)
    → IsWalk E (xs ++ v ∷ [])
    → IsWalk E (from_node v xs ++ v ∷ [])
unfolding from_node
IsWalk-from_node E v [] w = w
IsWalk-from_node E v (x ∷ xs) w = elim (Bool-cases (str_eq x v)) [
  | inl here ↦ rw here w
  | inr other ↦ rw other (IsWalk-from_node E v xs (IsWalk-tail E x (xs ++ v ∷ []) w))
]

from_node-start :
    (v : Str) (xs : List Str)
    → contains v xs ≡ true
    → (inner : List Str) × (from_node v xs ≡ v ∷ inner)
unfolding from_node contains
from_node-start v [] h = absurd (ground arith)
from_node-start v (x ∷ xs) h = elim (Bool-cases (str_eq x v)) [
  | inl here ↦ (xs, ground (arith, here, str_eq_iff x v))
  | inr other ↦
      let (inner, e) =
        from_node-start v xs (ground (arith, h, other, str_eq_iff x v, str_eq_iff v x)) in
      (inner, ground (arith, other, e))
]

contains_only : (x u : Str) → contains x (u ∷ []) ≡ str_eq u x
unfolding contains
contains_only x u = ground (arith, str_eq_iff x u, str_eq_iff u x)

module _ (adj : Adjacency) (t : Str) where
  abbrev pub Edge : Str → Str → Type 0
  Edge u v = contains v (targets adj u) ≡ true

  -- The path that a back edge to a node of the stack closes.
  closing-IsCircuit :
      (stack : List Str) (v : Str)
      → contains v stack ≡ true
      → IsWalk Edge (stack ++ v ∷ [])
      → IsCircuit Edge (from_node v stack ++ v ∷ [])
  closing-IsCircuit stack v on w =
      let (inner, e) = from_node-start v stack on in
      record {
        start = v;
        inner = inner;
        closed = rw e refl;
        walk = IsWalk-from_node Edge v stack w;
      }

  module _ (Good : GraphFinding → Type 0)
      (good : (path : List Str) → IsCircuit Edge path → Good (cycle_finding t path)) where
    pub record Trail (s s1 : Search) : Type 0 where
      pub shrinks :
          (x : Str) → is_gray (color_of x s1.colors) ≡ true → is_gray (color_of x s.colors) ≡ true
      pub sound : All Good s.findings → All Good s1.findings

    -- The gray nodes are on the stack.
    abbrev GrayOn : List Str → Search → Type 0
    GrayOn stack s = (x : Str) → is_gray (color_of x s.colors) ≡ true → contains x stack ≡ true

    Trail-here : (s : Search) → Trail s s
    Trail-here s = record { shrinks = λ x g. g; sound = λ a. a }

    Trail-trans : {s s1 s2 : Search} → Trail s s1 → Trail s1 s2 → Trail s s2
    Trail-trans a b = record {
      shrinks = λ x g. a.shrinks x (b.shrinks x g);
      sound = λ h. b.sound (a.sound h);
    }

    abbrev Walks : List Str → (Str → Search → Option Search) → Type 0
    Walks stack go =
        (v : Str) (s : Search)
        → GrayOn stack s
        → IsWalk Edge (stack ++ v ∷ [])
        → is_white (color_of v s.colors) ≡ true
        → OnSome (Trail s) (go v s)

    report_cycle-sound :
        (stack : List Str) (v : Str) (s : Search)
        → contains v stack ≡ true
        → IsWalk Edge (stack ++ v ∷ [])
        → All Good s.findings
        → All Good (report_cycle t stack v s).findings
    unfolding report_cycle
    report_cycle-sound stack v s on w h =
        let path = from_node v stack ++ v ∷ [] in
        elim (Bool-cases (contains (canonical t path) s.seen_cycles)) [
          | inl old ↦ rw old h
          | inr new ↦ rw new (
              All-append Good s.findings (cycle_finding t path ∷ []) h
                (good path (closing-IsCircuit stack v on w), tt))
        ]

    report_cycle-Trail :
        (stack : List Str) (v : Str) (s : Search)
        → contains v stack ≡ true
        → IsWalk Edge (stack ++ v ∷ [])
        → Trail s (report_cycle t stack v s)
    report_cycle-Trail stack v s on w = record {
      shrinks = λ x g. rw (report_cycle-colors t stack v s) at g;
      sound = report_cycle-sound stack v s on w;
    }

    meet-Trail :
        (go : Str → Search → Option Search) (stack : List Str)
        → Walks stack go
        → (v : Str) (c : Color) (s : Search) → color_of v s.colors ≡ c
        → GrayOn stack s
        → IsWalk Edge (stack ++ v ∷ [])
        → OnSome (Trail s) (meet adj t go stack v c s)
    unfolding meet
    meet-Trail go stack spec v white s e on w = spec v s on w (rw e refl)
    meet-Trail go stack spec v gray s e on w = report_cycle-Trail stack v s (on v (rw e refl)) w
    meet-Trail go stack spec v black s e on w = Trail-here s

    then_meet-Trail :
        (s : Search) (o : Option Search) (k : Search → Option Search)
        → OnSome (Trail s) o
        → ((s1 : Search) → Trail s s1 → OnSome (Trail s1) (k s1))
        → OnSome (Trail s) (then_meet o k)
    unfolding then_meet
    then_meet-Trail s none k a b = tt
    then_meet-Trail s (some s1) k a b = onward (k s1) (b s1 a)
      where
        onward : (p : Option Search) → OnSome (Trail s1) p → OnSome (Trail s) p
        onward none c = tt
        onward (some s2) c = Trail-trans a c

    meet_all-Trail :
        (go : Str → Search → Option Search) (stack : List Str)
        → Walks stack go
        → (vs : List Str) (s : Search) → GrayOn stack s
        → ((v : Str) → contains v vs ≡ true → IsWalk Edge (stack ++ v ∷ []))
        → OnSome (Trail s) (meet_all adj t go stack vs s)
    unfolding meet_all
    meet_all-Trail go stack spec [] s on w = Trail-here s
    meet_all-Trail go stack spec (v ∷ vs) s on w =
        then_meet-Trail s (meet adj t go stack v (color_of v s.colors) s)
          (meet_all adj t go stack vs)
          (meet-Trail go stack spec v (color_of v s.colors) s refl on
            (w v (unfold contains in ground (arith, str_eq_iff v v))))
          (λ s1 a.
            meet_all-Trail go stack spec vs s1 (λ x g. on x (a.shrinks x g))
              (λ x m. w x (unfold contains in ground (arith, m))))

    -- A call at `u` turns the walk to `u` into walks to its targets.
    finish-Trail :
        (u : Str) (s : Search) (o : Option Search)
        → is_white (color_of u s.colors) ≡ true
        → OnSome (Trail (paint u gray s)) o
        → OnSome (Trail s) (finish u o)
    finish-Trail u s none w a = tt
    finish-Trail u s (some s1) w a = record {
      shrinks = λ x g. elim (Bool-cases (str_eq u x)) [
        | inl same ↦ absurd (ground (arith, g, same, color_of-insert u x black s1.colors))
        | inr other ↦
            let inside =
              a.shrinks x (ground (arith, g, other, color_of-insert u x black s1.colors)) in
            ground (arith, inside, other, color_of-insert u x gray s.colors)
      ];
      sound = a.sound;
    }

    dfs-Trail : (fuel : ℕ) (stack : List Str) → Walks stack (dfs adj t fuel stack)
    unfolding dfs
    dfs-Trail zero stack u s on w white_u = tt
    dfs-Trail (suc fuel) stack u s on w white_u =
        let inside = stack ++ u ∷ [] in
        finish-Trail u s _ white_u (
          meet_all-Trail (dfs adj t fuel inside) inside (dfs-Trail fuel inside)
            (sort (targets adj u)) (paint u gray s)
            (λ x g. ground (
              arith,
              g,
              on x,
              contains-append x stack (u ∷ []),
              contains_only x u,
              color_of-insert u x gray s.colors,
            ))
            (λ v m. IsWalk-extend Edge stack u v w (sym (contains-sort v (targets adj u)) ∙ m)))

    search_from-Trail :
        (fuel : ℕ) (n : Str) (c : Color) (s : Search)
        → color_of n s.colors ≡ c
        → ((x : Str) → is_gray (color_of x s.colors) ≡ false)
        → OnSome (Trail s) (search_from adj t fuel n c s)
    unfolding search_from
    search_from-Trail fuel n white s e none_gray =
        dfs-Trail fuel [] n s (λ x g. absurd (ground (arith, g, none_gray x))) tt (rw e refl)
    search_from-Trail fuel n gray s e none_gray = Trail-here s
    search_from-Trail fuel n black s e none_gray = Trail-here s

    pub search_all-Trail :
        (fuel : ℕ) (ns : List Str) (s : Search)
        → ((x : Str) → is_gray (color_of x s.colors) ≡ false)
        → OnSome (Trail s) (search_all adj t fuel ns s)
    unfolding search_all
    search_all-Trail fuel [] s none_gray = Trail-here s
    search_all-Trail fuel (n ∷ ns) s none_gray =
        then_meet-Trail s (search_from adj t fuel n (color_of n s.colors) s)
          (search_all adj t fuel ns)
          (search_from-Trail fuel n (color_of n s.colors) s refl none_gray)
          (λ s1 a. search_all-Trail fuel ns s1 (λ x. ground (arith, a.shrinks x, none_gray x)))
