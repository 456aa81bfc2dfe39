-- ===== src/Ontology/Graph/Cycles/Acyclic.antt =====
-- A search without a finding leaves a rank that falls along every edge.
use adam_os.Base.{
  ℕ, zero, suc, ◌≡◌, refl, sym, ◌∙◌, true, false, Option, none, some, List, [], ◌∷◌, ◌++◌, arith,
  Str, str_eq_iff, sort, all-sort, all, all_mono, all-append, is_empty, is_empty-append,
  contains-is_empty,
}
use adam_os.Ontology.Graph.Cycles.{
  Color, white, gray, black, color_of, Adjacency, targets, Search, report_cycle, canonical,
  cycle_finding, from_node, paint, meet, then_meet, meet_all, finish, dfs,
}
use adam_os.Ontology.Graph.Cycles.Ends.{is_white, color_of-insert}
use adam_os.Ontology.Graph.Cycles.Ranked.{
  is_gray, is_black, Finished, white_black, white_apart, Finished-black, Finished-gray,
}

-- There is a finding when there is a cycle that was seen.
abbrev pub Sync : Search → Type 0
Sync s = is_empty s.findings ≡ is_empty s.seen_cycles

-- What a search without a finding has done.
pub record Calm (adj : Adjacency) (s s1 : Search) : Type 0 where
  pub before : is_empty s.findings ≡ true
  pub blacks :
      (x : Str) → is_black (color_of x s.colors) ≡ true → is_black (color_of x s1.colors) ≡ true
  pub grays : (x : Str) → is_gray (color_of x s1.colors) ≡ is_gray (color_of x s.colors)
  pub finished : Finished adj s.colors → Finished adj s1.colors

pub record Outcome (adj : Adjacency) (reached : List Str) (s s1 : Search) : Type 0 where
  pub sync : Sync s → Sync s1
  pub quiet :
      Sync s
      → is_empty s1.findings ≡ true
      → Calm adj s s1 × (all (λ v. is_black (color_of v s1.colors)) reached ≡ true)

abbrev pub OnSome : (Search → Type 0) → Option Search → Type 0
OnSome P none = Unit
OnSome P (some s) = P s

report_cycle-Sync :
    (t : Str) (stack : List Str) (v : Str) (s : Search) → Sync s → Sync (report_cycle t stack v s)
unfolding report_cycle
report_cycle-Sync t stack v s h =
    ground (arith, h, is_empty-append s.findings (cycle_finding t (from_node v stack ++ v ∷ [])))

report_cycle-loud :
    (t : Str) (stack : List Str) (v : Str) (s : Search)
    → Sync s
    → is_empty (report_cycle t stack v s).findings ≡ false
unfolding report_cycle
report_cycle-loud t stack v s h =
    let path = from_node v stack ++ v ∷ [] in
    ground (
      arith,
      h,
      is_empty-append s.findings (cycle_finding t path),
      contains-is_empty (canonical t path) s.seen_cycles,
    )

module _ (adj : Adjacency) (t : Str) where
  pub Calm-here : (s : Search) → is_empty s.findings ≡ true → Calm adj s s
  Calm-here s h = record { before = h; blacks = λ x b. b; grays = λ x. refl; finished = λ f. f }

  pub Calm-trans : {s s1 s2 : Search} → Calm adj s s1 → Calm adj s1 s2 → Calm adj s s2
  Calm-trans a b = record {
    before = a.before;
    blacks = λ x h. b.blacks x (a.blacks x h);
    grays = λ x. b.grays x ∙ a.grays x;
    finished = λ f. b.finished (a.finished f);
  }

  Outcome-then :
      (xs ys : List Str) (s s1 s2 : Search)
      → Outcome adj xs s s1
      → Outcome adj ys s1 s2
      → Outcome adj (xs ++ ys) s s2
  Outcome-then xs ys s s1 s2 a b = record {
    sync = λ h. b.sync (a.sync h);
    quiet = λ h e.
        let (later, ends) = b.quiet (a.sync h) e in
        let (first, starts) = a.quiet h later.before in
        (
          Calm-trans first later,
          all-append _ xs ys
              (all_mono (λ v. is_black (color_of v s1.colors))
                (λ v. is_black (color_of v s2.colors)) xs later.blacks starts)
              ends,
        );
  }

  then_meet-Outcome :
      (xs ys : List Str) (s : Search) (o : Option Search) (k : Search → Option Search)
      → OnSome (Outcome adj xs s) o
      → ((s1 : Search) → OnSome (Outcome adj ys s1) (k s1))
      → OnSome (Outcome adj (xs ++ ys) s) (then_meet o k)
  unfolding then_meet
  then_meet-Outcome xs ys s none k a b = tt
  then_meet-Outcome xs ys s (some s1) k a b = onward (k s1) (b s1)
    where
      onward :
          (p : Option Search) → OnSome (Outcome adj ys s1) p → OnSome (Outcome adj (xs ++ ys) s) p
      onward none c = tt
      onward (some s2) c = Outcome-then xs ys s s1 s2 a c

  abbrev pub Explores : (Str → Search → Option Search) → Type 0
  Explores go =
      (v : Str) (s : Search)
      → is_white (color_of v s.colors) ≡ true
      → OnSome (Outcome adj (v ∷ []) s) (go v s)

  meet-Outcome :
      (go : Str → Search → Option Search)
      → Explores go
      → (stack : List Str) (v : Str) (c : Color) (s : Search) → color_of v s.colors ≡ c
      → OnSome (Outcome adj (v ∷ []) s) (meet adj t go stack v c s)
  unfolding meet
  meet-Outcome go spec stack v white s e = spec v s (rw e refl)
  meet-Outcome go spec stack v gray s e = record {
    sync = report_cycle-Sync t stack v s;
    quiet = λ h q. absurd (ground (arith, q, report_cycle-loud t stack v s h));
  }
  meet-Outcome go spec stack v black s e = record {
    sync = λ h. h;
    quiet = λ h q. (Calm-here s q, rw e refl);
  }

  meet_all-Outcome :
      (go : Str → Search → Option Search)
      → Explores go
      → (stack vs : List Str) (s : Search)
      → OnSome (Outcome adj vs s) (meet_all adj t go stack vs s)
  unfolding meet_all
  meet_all-Outcome go spec stack [] s = record {
    sync = λ h. h;
    quiet = λ h q. (Calm-here s q, refl);
  }
  meet_all-Outcome go spec stack (v ∷ vs) s =
      then_meet-Outcome (v ∷ []) vs s (meet adj t go stack v (color_of v s.colors) s)
        (meet_all adj t go stack vs) (meet-Outcome go spec stack v (color_of v s.colors) s refl)
        (meet_all-Outcome go spec stack vs)

  -- From the loop over the neighbours of a node to the call at it.
  finish-Outcome :
      (u : Str) (s : Search) (o : Option Search)
      → is_white (color_of u s.colors) ≡ true
      → OnSome (Outcome adj (sort (targets adj u)) (paint u gray s)) o
      → OnSome (Outcome adj (u ∷ []) s) (finish u o)
  finish-Outcome u s none w out = tt
  finish-Outcome u s (some s1) w out = record {
    sync = out.sync;
    quiet = λ h q. closing h (out.quiet h q);
  }
    where
      closing :
          Sync s
          → Calm adj (paint u gray s) s1
            × (all (λ v. is_black (color_of v s1.colors)) (sort (targets adj u)) ≡ true)
          → Calm adj s (paint u black s1)
            × (all (λ v. is_black (color_of v (paint u black s1).colors)) (u ∷ []) ≡ true)
      closing h (calm, done) =
          let still : is_gray (color_of u s1.colors) ≡ true =
            ground (arith, calm.grays u, color_of-insert u u gray s.colors, str_eq_iff u u) in
          let all_done : all (λ v. is_black (color_of v s1.colors)) (targets adj u) ≡ true =
            sym (all-sort (λ v. is_black (color_of v s1.colors)) (targets adj u)) ∙ done in
          (
            record {
              before = calm.before;
              blacks = λ x b.
                  let kept = calm.blacks x (
                    ground
                      (arith, b, white_apart adj u x s w b, color_of-insert u x gray s.colors)) in
                  ground (arith, kept, color_of-insert u x black s1.colors);
              grays = gray_kept;
              finished = λ f.
                  Finished-black adj u s1 still all_done
                    (calm.finished (Finished-gray adj u s w f));
            },
            ground (arith, color_of-insert u u black s1.colors, str_eq_iff u u),
          )
        where
          gray_kept :
              (x : Str)
              → is_gray (color_of x (paint u black s1).colors) ≡ is_gray (color_of x s.colors)
          gray_kept x = ground (
            arith,
            w,
            calm.grays x,
            str_eq_iff u x,
            white_black (color_of u s.colors),
            color_of-insert u x gray s.colors,
            color_of-insert u x black s1.colors,
          )

  pub dfs-Outcome : (fuel : ℕ) (stack : List Str) → Explores (dfs adj t fuel stack)
  unfolding dfs
  dfs-Outcome zero stack u s w = tt
  dfs-Outcome (suc fuel) stack u s w = finish-Outcome u s _ w (
      meet_all-Outcome (dfs adj t fuel (stack ++ u ∷ [])) (dfs-Outcome fuel (stack ++ u ∷ []))
        (stack ++ u ∷ []) (sort (targets adj u)) (paint u gray s))
