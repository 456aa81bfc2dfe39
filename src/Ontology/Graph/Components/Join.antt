-- ===== src/Ontology/Graph/Components/Join.antt =====
-- The loop over the links in `countDisconnectedSubgraphs`.
use adam_os.Base.{
  ℕ, suc, ◌<◌, ◌≡◌, refl, sym, ◌∙◌, ap, Bool, true, false, ◌||◌, inl, inr, some, arith, Str, str_eq,
  str_eq_iff, str_eq_refl, contains, lookup, is_some, if◌then◌else◌, Bool-cases, subst,
}
use adam_os.Ontology.Graph.{OntologyLink}
use adam_os.Ontology.Graph.Cycles.{keys}
use adam_os.Ontology.Graph.Cycles.Adjacent.{keys-lookup}
use adam_os.Ontology.Graph.Components.{Parents, add_node, unite, join_ends}
use adam_os.Ontology.Graph.Components.Compress.{find_root-Compressed}
use adam_os.Ontology.Graph.Components.Forest.{parent_of, parent_of-insert, present-insert, IsForest}
use adam_os.Ontology.Graph.Components.Unite.{
  Spans, Extended, rep_over, depth_over, known-Spans, united-Spans, higher-IsForest,
  united-IsForest,
}

-- The parents are a forest whose trees are the classes of the relation.
pub record Progress (n : ℕ) (J : Str → Str → Type 0) (ps : Parents) : Type 0 where
  pub rep : Str → Str
  pub depth : Str → ℕ
  pub forest : IsForest n rep depth ps
  pub spans : Spans J rep

abbrev pub present : Parents → Str → Bool
present ps x = is_some (lookup x ps)

pub present-keys : (ps ps1 : Parents) (x : Str) → keys ps1 ≡ keys ps → present ps1 x ≡ present ps x
present-keys ps ps1 x e = keys-lookup x ps1 ∙ ap (contains x) e ∙ sym (keys-lookup x ps)

pub present-add_node :
    (x : Str) (ps : Parents) (y : Str) → present (add_node x ps) y ≡ (str_eq x y || present ps y)
unfolding add_node
present-add_node x ps y = ground (arith, present-insert x x ps y, str_eq_iff x y)

pub parent_of-absent : (ps : Parents) (y : Str) → present ps y ≡ false → parent_of ps y ≡ y
unfolding parent_of
parent_of-absent ps y absent = ground (arith, absent)

pub parent_of-add_node :
    (x : Str) (ps : Parents) (y : Str) → parent_of (add_node x ps) y ≡ parent_of ps y
unfolding add_node parent_of
parent_of-add_node x ps y = elim (Bool-cases (is_some (lookup x ps))) [
  | inl there ↦ rw there refl
  | inr absent ↦ rw absent (parent_of-insert x x ps y ∙ own absent)
]
  where
    own :
        is_some (lookup x ps) ≡ false → (if str_eq x y then x else parent_of ps y) ≡ parent_of ps y
    own absent = ground (arith, absent, str_eq_iff x y)

-- A node that is added is its own root.
pub add_node-Progress :
    (n : ℕ) (J : Str → Str → Type 0) (x : Str) (ps : Parents)
    → Progress n J ps
    → Progress n J (add_node x ps)
add_node-Progress n J x ps p = record {
  rep = p.rep;
  depth = p.depth;
  forest = record {
    top = λ y e. p.forest.top y (sym (parent_of-add_node x ps y) ∙ e);
    up = λ y e.
        rw (parent_of-add_node x ps y)
          (p.forest.up y (subst (λ q. str_eq q y ≡ false) (parent_of-add_node x ps y) e));
    rep_top = λ y. parent_of-add_node x ps (p.rep y) ∙ p.forest.rep_top y;
    bounded = p.forest.bounded;
    within = λ y m.
        rw (parent_of-add_node x ps y) (rw (present-add_node x ps (parent_of ps y)) (inside y m));
  };
  spans = p.spans;
}
  where
    inside :
        (y : Str)
        → present (add_node x ps) y ≡ true
        → (str_eq x (parent_of ps y) || present ps (parent_of ps y)) ≡ true
    inside y m = elim (Bool-cases (present ps y)) [
      | inl there ↦ ground (arith, p.forest.within y there)
      | inr absent ↦
          ground (arith, m, absent, parent_of-absent ps y absent, present-add_node x ps y)
    ]

pub unite-Progress :
    (n : ℕ) (J : Str → Str → Type 0) (from to : Str) (ps : Parents) (p : Progress n J ps)
    → present ps (p.rep from) ≡ true
    → present ps (p.rep to) ≡ true
    → Progress (suc n) (Extended J from to) (unite (p.rep from) (p.rep to) ps)
      × ((x : Str) → present (unite (p.rep from) (p.rep to) ps) x ≡ present ps x)
unfolding unite
unite-Progress n J from to ps p hf ht = elim (Bool-cases (str_eq (p.rep from) (p.rep to))) [
  | inl known ↦ rw known (
    record {
      rep = p.rep;
      depth = p.depth;
      forest = higher-IsForest n p.rep p.depth ps p.forest;
      spans = known-Spans J p.rep from to p.spans ((str_eq_iff (p.rep from) (p.rep to)).0 known);
    },
    λ x. refl,
  )
  | inr apart ↦ rw apart (
    record {
      rep = rep_over (p.rep from) (p.rep to) p.rep;
      depth = depth_over (p.rep from) p.rep p.depth;
      forest =
          united-IsForest n p.rep p.depth ps p.forest (p.rep from) (p.rep to) (root_of_root from)
            (root_of_root to) apart ht;
      spans = united-Spans J p.rep from to p.spans apart;
    },
    λ x. ground (arith, hf, present-insert (p.rep from) (p.rep to) ps x, str_eq_iff (p.rep from) x),
  )
]
  where
    root_of_root : (x : Str) → p.rep (p.rep x) ≡ p.rep x
    root_of_root x = (p.forest.top (p.rep x) (p.forest.rep_top x)).0

-- A link that is joined adds its ends to the nodes and itself to the relation.
pub join_ends-Progress :
    (fuel n : ℕ) (J : Str → Str → Type 0) (l : OntologyLink) (ps : Parents)
    → Progress n J ps
    → n < fuel
    → (ps1 : Parents) × (join_ends fuel l ps ≡ some ps1)
      × Progress (suc n) (Extended J l.from_id l.to_id) ps1
      × ((x : Str) → present ps1 x ≡ (str_eq l.to_id x || (str_eq l.from_id x || present ps x)))
unfolding join_ends
join_ends-Progress fuel n J l ps p h =
    let ps0 : Parents = add_node l.to_id (add_node l.from_id ps) in
    let p0 : Progress n J ps0 =
      add_node-Progress n J l.to_id _ (add_node-Progress n J l.from_id ps p) in
    let there : (x : Str)
        → present ps0 x ≡ (str_eq l.to_id x || (str_eq l.from_id x || present ps x)) =
      λ x. ground (
        arith,
        present-add_node l.to_id (add_node l.from_id ps) x,
        present-add_node l.from_id ps x,
      ) in
    let (ps1, found1, i1, k1, at1) =
      find_root-Compressed n p0.rep p0.depth fuel ps0 l.from_id p0.forest
        (ground (arith, there l.from_id, str_eq_refl l.from_id)) h in
    let same1 : (x : Str) → present ps1 x ≡ present ps0 x = λ x. present-keys ps0 ps1 x k1 in
    let (ps2, found2, i2, k2, at2) =
      find_root-Compressed n p0.rep p0.depth fuel ps1 l.to_id i1
        (ground (arith, same1 l.to_id, there l.to_id, str_eq_refl l.to_id)) h in
    let same2 : (x : Str) → present ps2 x ≡ present ps1 x = λ x. present-keys ps1 ps2 x k2 in
    let p2 : Progress n J ps2 = record {
      rep = p0.rep;
      depth = p0.depth;
      forest = i2;
      spans = p0.spans;
    } in
    let (p3, same3) =
      unite-Progress n J l.from_id l.to_id ps2 p2 (same2 _ ∙ same1 _ ∙ at1) (same2 _ ∙ at2) in
    (
      unite (p0.rep l.from_id) (p0.rep l.to_id) ps2,
      rw found1 (rw found2 refl),
      p3,
      λ x. same3 x ∙ same2 x ∙ same1 x ∙ there x,
    )
