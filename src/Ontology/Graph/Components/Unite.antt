-- ===== src/Ontology/Graph/Components/Unite.antt =====
-- The union of two trees in `countDisconnectedSubgraphs`.
use adam_os.Base.{
  ℕ, suc, ◌<◌, ◌≡◌, refl, sym, ◌∙◌, ap, true, false, ◌⊎◌, inl, inr, arith, Str, str_eq, str_eq_iff,
  str_eq_refl, lookup, insert, is_some, if◌then◌else◌, Bool-cases, subst,
}
use adam_os.Ontology.Graph.Components.{Parents}
use adam_os.Ontology.Graph.Components.Forest.{parent_of, parent_of-insert, present-insert, IsForest}

-- What steps of a relation connect
pub data Connected (J : Str → Str → Type 0) (x : Str) : Str → Type 0 where
  alone : Connected J x x
  over : {y z : Str} → Connected J x y → J y z → Connected J x z

pub Connected-trans :
    (J : Str → Str → Type 0) (x y z : Str) → Connected J x y → Connected J y z → Connected J x z
Connected-trans J x y z c alone = c
Connected-trans J x y z c (over {y = w} d e) = over (Connected-trans J x y w c d) e

pub Connected-sym :
    (J : Str → Str → Type 0)
    → ((x y : Str) → J x y → J y x)
    → (x y : Str) → Connected J x y
    → Connected J y x
Connected-sym J back x y alone = alone
Connected-sym J back x y (over {y = w} c e) =
    Connected-trans J y w x (over alone (back w y e)) (Connected-sym J back x w c)

pub Connected-map :
    (J K : Str → Str → Type 0) (x y : Str)
    → ((a b : Str) → J a b → K a b)
    → Connected J x y
    → Connected K x y
Connected-map J K x y f alone = alone
Connected-map J K x y f (over {y = w} c e) = over (Connected-map J K x w f c) (f w y e)

-- The roots are those of the classes of a relation.
pub record Spans (J : Str → Str → Type 0) (rep : Str → Str) : Type 0 where
  pub both_ways : (x y : Str) → J x y → J y x
  pub sound : (x : Str) → Connected J x (rep x)
  pub complete : (x y : Str) → J x y → rep x ≡ rep y

pub Connected-rep :
    (J : Str → Str → Type 0) (rep : Str → Str) (x y : Str)
    → Spans J rep
    → Connected J x y
    → rep x ≡ rep y
Connected-rep J rep x y s alone = refl
Connected-rep J rep x y s (over {y = w} c e) = Connected-rep J rep x w s c ∙ s.complete w y e

-- The relation with one more pair
abbrev pub Pair : Str → Str → Str → Str → Type 0
Pair from to x y = ((from ≡ x) × (to ≡ y)) ⊎ ((from ≡ y) × (to ≡ x))

abbrev pub Extended : (Str → Str → Type 0) → Str → Str → Str → Str → Type 0
Extended J from to x y = J x y ⊎ Pair from to x y

-- Where the root of one tree gets the other root as its parent
abbrev pub rep_over : Str → Str → (Str → Str) → Str → Str
rep_over a b rep x = if str_eq (rep x) a then b else rep x

abbrev pub depth_over : Str → (Str → Str) → (Str → ℕ) → Str → ℕ
depth_over a rep depth x = if str_eq (rep x) a then suc (depth x) else depth x

Extended-back :
    (J : Str → Str → Type 0) (from to : Str)
    → ((x y : Str) → J x y → J y x)
    → (x y : Str) → Extended J from to x y
    → Extended J from to y x
Extended-back J from to back x y (inl e) = inl (back x y e)
Extended-back J from to back x y (inr (inl e)) = inr (inr e)
Extended-back J from to back x y (inr (inr e)) = inr (inl e)

module _ (J : Str → Str → Type 0) (rep : Str → Str) (from to : Str) (s : Spans J rep) where
  lifted : (x : Str) → Connected (Extended J from to) x (rep x)
  lifted x = Connected-map J (Extended J from to) x (rep x) (λ a b e. inl e) (s.sound x)

  -- The ends had one root before.
  pub known-Spans : rep from ≡ rep to → Spans (Extended J from to) rep
  known-Spans e = record {
    both_ways = Extended-back J from to s.both_ways;
    sound = lifted;
    complete = λ x y h. elim h [
      | inl old ↦ s.complete x y old
      | inr pair ↦ elim pair [
        | inl (p, q) ↦ ap rep (sym p) ∙ e ∙ ap rep q
        | inr (p, q) ↦ ap rep (sym q) ∙ sym e ∙ ap rep p
      ]
    ];
  }

  crossed : Connected (Extended J from to) (rep from) (rep to)
  crossed =
      Connected-trans _ (rep from) from (rep to)
        (Connected-sym _ (Extended-back J from to s.both_ways) from (rep from) (lifted from))
        (Connected-trans _ from to (rep to) (over alone (inr (inl (refl, refl)))) (lifted to))

  pub united-Spans :
      str_eq (rep from) (rep to) ≡ false
      → Spans (Extended J from to) (rep_over (rep from) (rep to) rep)
  united-Spans apart = record {
    both_ways = Extended-back J from to s.both_ways;
    sound = λ x. elim (Bool-cases (str_eq (rep x) (rep from))) [
      | inr other ↦ rw other (lifted x)
      | inl at_a ↦ rw at_a (
          Connected-trans _ x (rep x) (rep to) (lifted x) (
            subst (λ r. Connected (Extended J from to) r (rep to))
              (sym ((str_eq_iff (rep x) (rep from)).0 at_a)) crossed))
    ];
    complete = λ x y h. elim h [
      | inl old ↦ ap (λ r. if str_eq r (rep from) then rep to else r) (s.complete x y old)
      | inr pair ↦ elim pair [
        | inl (p, q) ↦ ground (
          arith,
          ap rep p,
          ap rep q,
          str_eq_iff (rep x) (rep from),
          str_eq_iff (rep y) (rep from),
          apart,
          str_eq_iff (rep from) (rep to),
        )
        | inr (p, q) ↦ ground (
          arith,
          ap rep p,
          ap rep q,
          str_eq_iff (rep x) (rep from),
          str_eq_iff (rep y) (rep from),
          apart,
          str_eq_iff (rep from) (rep to),
        )
      ]
    ];
  }

module _ (n : ℕ) (rep : Str → Str) (depth : Str → ℕ) (ps : Parents)
    (i : IsForest n rep depth ps) where
  pub higher-IsForest : IsForest (suc n) rep depth ps
  higher-IsForest = record {
    top = i.top;
    up = i.up;
    rep_top = i.rep_top;
    bounded = λ x. omega (arith, i.bounded x);
    within = i.within;
  }

  -- A root gets another root as its parent.
  pub united-IsForest :
      (a b : Str)
      → rep a ≡ a
      → rep b ≡ b
      → str_eq a b ≡ false
      → is_some (lookup b ps) ≡ true
      → IsForest (suc n) (rep_over a b rep) (depth_over a rep depth) (insert a b ps)
  united-IsForest a b ra rb apart there =
      let top_b : parent_of ps b ≡ b = subst (λ z. parent_of ps z ≡ z) rb (i.rep_top b) in
      let (_, flat) = i.top b top_b in
      record {
        top = λ x e. elim (Bool-cases (str_eq a x)) [
          | inl at_a ↦ absurd (
              ground
                (arith, at_a, e, apart, parent_of-insert a b ps x, str_eq_iff a x, str_eq_iff a b))
          | inr other ↦
              let (r, d) = i.top x (ground (arith, e, other, parent_of-insert a b ps x)) in
              let off : str_eq (rep x) a ≡ false =
                ground (arith, r, other, str_eq_iff a x, str_eq_iff (rep x) a) in
              (rw off r, rw off d)
        ];
        up = λ x e. elim (Bool-cases (str_eq a x)) [
          | inl at_a ↦
              let p : parent_of (insert a b ps) x ≡ b =
                rw (parent_of-insert a b ps x) (rw at_a refl) in
              let r : rep x ≡ a = ap rep (sym ((str_eq_iff a x).0 at_a)) ∙ ra in
              let on : str_eq (rep x) a ≡ true = rw r (str_eq_refl a) in
              let off : str_eq (rep b) a ≡ false =
                ground (arith, rb, apart, str_eq_iff a b, str_eq_iff (rep b) a) in
              subst
                (λ z.
                  (rep_over a b rep z ≡ rep_over a b rep x)
                  × (depth_over a rep depth z < depth_over a rep depth x))
                (sym p) (rw (on, off) rb, rw (on, off) (omega (arith, flat)))
          | inr other ↦
              let p : parent_of (insert a b ps) x ≡ parent_of ps x =
                rw (parent_of-insert a b ps x) (rw other refl) in
              let (r, d) = i.up x (subst (λ z. str_eq z x ≡ false) p e) in
              subst
                (λ z.
                  (rep_over a b rep z ≡ rep_over a b rep x)
                  × (depth_over a rep depth z < depth_over a rep depth x))
                (sym p) (ap (λ z. if str_eq z a then b else z) r, ground (arith, r, d))
        ];
        rep_top = λ x. elim (Bool-cases (str_eq (rep x) a)) [
          | inl on ↦ rw on (rw (parent_of-insert a b ps b) (rw apart top_b))
          | inr off ↦ rw off (
              ground (
                arith,
                off,
                i.rep_top x,
                parent_of-insert a b ps (rep x),
                str_eq_iff a (rep x),
                str_eq_iff (rep x) a,
              ))
        ];
        bounded = λ x. ground (arith, i.bounded x);
        within = λ x m. elim (Bool-cases (str_eq a x)) [
          | inl at_a ↦
              rw (parent_of-insert a b ps x)
                (rw at_a (rw (present-insert a b ps b) (ground (arith, there))))
          | inr other ↦ rw (parent_of-insert a b ps x) (
              rw other (
                rw (present-insert a b ps (parent_of ps x))
                  (ground (arith, i.within x (ground (arith, m, other, present-insert a b ps x))))))
        ];
      }
