-- ===== src/Ontology/Graph/Cycles/Outer.antt =====
-- The outer loop of the search: without a finding every node ends black.
use adam_os.Base.{
  ℕ, ◌≡◌, refl, ◌∙◌, true, false, Option, none, some, List, [], ◌∷◌, arith, Str, all, is_empty,
}
use adam_os.Ontology.Graph.Cycles.{
  Color, white, gray, black, color_of, Adjacency, Search, then_meet, dfs, search_from, search_all,
}
use adam_os.Ontology.Graph.Cycles.Ranked.{is_gray, is_black}
use adam_os.Ontology.Graph.Cycles.Acyclic.{
  Sync, Calm, Outcome, OnSome, Calm-here, Calm-trans, dfs-Outcome,
}

module _ (adj : Adjacency) (t : Str) where
  -- Between the calls of the outer loop no node is gray.
  abbrev pub NoGray : Search → Type 0
  NoGray s = (x : Str) → is_gray (color_of x s.colors) ≡ false

  pub record TopOutcome (reached : List Str) (s s1 : Search) : Type 0 where
    pub sync : Sync s → Sync s1
    pub before : Sync s → is_empty s1.findings ≡ true → is_empty s.findings ≡ true
    pub quiet :
        Sync s
        → NoGray s
        → is_empty s1.findings ≡ true
        → Calm adj s s1 × (all (λ v. is_black (color_of v s1.colors)) reached ≡ true)

  search_from-Outcome :
      (fuel : ℕ) (n : Str) (c : Color) (s : Search)
      → color_of n s.colors ≡ c
      → OnSome (TopOutcome (n ∷ []) s) (search_from adj t fuel n c s)
  unfolding search_from
  search_from-Outcome fuel n white s e =
      weaken (dfs adj t fuel [] n s) (dfs-Outcome adj t fuel [] n s (rw e refl))
    where
      weaken :
          (o : Option Search) → OnSome (Outcome adj (n ∷ []) s) o → OnSome (TopOutcome (n ∷ []) s) o
      weaken none h = tt
      weaken (some s1) h = record {
        sync = h.sync;
        before = λ y q. (h.quiet y q).0.before;
        quiet = λ y g q. h.quiet y q;
      }
  search_from-Outcome fuel n gray s e = record {
    sync = λ h. h;
    before = λ h q. q;
    quiet = λ h g q. absurd (ground (arith, g n, e));
  }
  search_from-Outcome fuel n black s e = record {
    sync = λ h. h;
    before = λ h q. q;
    quiet = λ h g q. (Calm-here adj t s q, rw e refl);
  }

  pub search_all-Outcome :
      (fuel : ℕ) (ns : List Str) (s : Search)
      → OnSome (TopOutcome ns s) (search_all adj t fuel ns s)
  unfolding search_all then_meet
  search_all-Outcome fuel [] s = record {
    sync = λ h. h;
    before = λ h q. q;
    quiet = λ h g q. (Calm-here adj t s q, refl);
  }
  search_all-Outcome fuel (n ∷ ns) s =
      onward (search_from adj t fuel n (color_of n s.colors) s)
        (search_from-Outcome fuel n (color_of n s.colors) s refl) (search_all-Outcome fuel ns)
    where
      both :
          (s1 : Search) (p : Option Search)
          → TopOutcome (n ∷ []) s s1
          → OnSome (TopOutcome ns s1) p
          → OnSome (TopOutcome (n ∷ ns) s) p
      both s1 none a b = tt
      both s1 (some s2) a b = record {
        sync = λ h. b.sync (a.sync h);
        before = λ h q. a.before h (b.before (a.sync h) q);
        quiet = λ h g q.
            let (first, starts) = a.quiet h g (b.before (a.sync h) q) in
            let (later, ends) = b.quiet (a.sync h) (λ x. first.grays x ∙ g x) q in
            (Calm-trans adj t first later, ground (arith, ends, starts, later.blacks n));
      }

      onward :
          (o : Option Search)
          → OnSome (TopOutcome (n ∷ []) s) o
          → ((s1 : Search) → OnSome (TopOutcome ns s1) (search_all adj t fuel ns s1))
          → OnSome (TopOutcome (n ∷ ns) s) (then_meet o (search_all adj t fuel ns))
      onward none a b = tt
      onward (some s1) a b = both s1 (search_all adj t fuel ns s1) a (b s1)
