-- ===== src/Ontology/Graph/Components/Forest.antt =====
-- `find` of graph-report.ts: the parents make up a forest, and compression keeps its roots.
use adam_os.Base.{
  ℕ, zero, suc, ◌≤◌, ◌<◌, ◌≡◌, refl, sym, ◌∙◌, true, false, inl, inr, some, List, [], ◌∷◌, arith,
  Str, str_eq, str_eq_iff, str_eq_refl, lookup, insert, lookup-insert, is_some, or_else,
  if◌then◌else◌, Bool-cases, Option-cases, subst, ap, ◌||◌,
}
use adam_os.Ontology.Graph.Cycles.{keys}
use adam_os.Ontology.Graph.Components.{Parents, climb, compress}

-- The parent of a node; one that is not there is its own.
unfoldable pub parent_of : Parents → Str → Str
unfolding lookup
parent_of ps x = or_else (lookup x ps) x

pub parent_of-insert :
    (a b : Str) (ps : Parents) (x : Str)
    → parent_of (insert a b ps) x ≡ (if str_eq a x then b else parent_of ps x)
unfolding parent_of
parent_of-insert a b ps x = ground (arith, lookup-insert a x b ps)

pub present-insert :
    (a b : Str) (ps : Parents) (x : Str)
    → is_some (lookup x (insert a b ps)) ≡ (str_eq a x || is_some (lookup x ps))
present-insert a b ps x = ground (arith, lookup-insert a x b ps)

-- Each node has a root and a depth, at most `n`, that falls towards the root.
pub record IsForest (n : ℕ) (rep : Str → Str) (depth : Str → ℕ) (ps : Parents) : Type 0 where
  pub top : (x : Str) → parent_of ps x ≡ x → (rep x ≡ x) × (depth x ≡ 0)
  pub up :
      (x : Str)
      → str_eq (parent_of ps x) x ≡ false
      → (rep (parent_of ps x) ≡ rep x) × (depth (parent_of ps x) < depth x)
  pub rep_top : (x : Str) → parent_of ps (rep x) ≡ rep x
  pub bounded : (x : Str) → depth x ≤ n
  pub within :
      (x : Str) → is_some (lookup x ps) ≡ true → is_some (lookup (parent_of ps x) ps) ≡ true

pub keys-insert {ℓ} :
    {A : Type ℓ} (k : Str) (v : A) (m : List (Str × A))
    → is_some (lookup k m) ≡ true
    → keys (insert k v m) ≡ keys m
unfolding insert lookup
keys-insert k v [] h = absurd (ground arith)
keys-insert k v ((j, w) ∷ m) h = elim (Bool-cases (str_eq j k)) [
  | inl here ↦ rw here refl
  | inr other ↦ rw other (ap (λ ks. j ∷ ks) (keys-insert k v m (rw other at h)))
]

pub compress-step :
    (fuel : ℕ) (ps : Parents) (x root p : Str)
    → lookup x ps ≡ some p
    → str_eq p root ≡ false
    → compress (suc fuel) root ps x ≡ compress fuel root (insert x root ps) p
unfolding compress
compress-step fuel ps x root p found other = rw found (rw other refl)

pub compress-done :
    (fuel : ℕ) (ps : Parents) (x root p : Str)
    → lookup x ps ≡ some p
    → str_eq p root ≡ true
    → compress (suc fuel) root ps x ≡ some ps
unfolding compress
compress-done fuel ps x root p found done = rw found (rw done refl)

pub lookup-parent_of : (ps : Parents) (x p : Str) → lookup x ps ≡ some p → parent_of ps x ≡ p
unfolding parent_of
lookup-parent_of ps x p found = rw found refl

module _ (n : ℕ) (rep : Str → Str) (depth : Str → ℕ) where
  pub climb-rep :
      (fuel : ℕ) (ps : Parents) (x : Str)
      → IsForest n rep depth ps
      → is_some (lookup x ps) ≡ true
      → depth x < fuel
      → (climb fuel ps x ≡ some (rep x)) × (is_some (lookup (rep x) ps) ≡ true)
  unfolding climb parent_of
  climb-rep zero ps x i m h = absurd (omega (arith, h))
  climb-rep (suc fuel) ps x i m h = elim (Option-cases (lookup x ps)) [
    | inl absent ↦ absurd (ground (arith, absent, m))
    | inr (p, found) ↦
        let at_p : parent_of ps x ≡ p = rw found refl in
        elim (Bool-cases (str_eq p x)) [
          | inl root ↦
              let (r, d) = i.top x (at_p ∙ (str_eq_iff p x).0 root) in
              (rw found (rw root (rw r refl)), rw r m)
          | inr other ↦
              let (r, d) = i.up x (rw at_p other) in
              let (climbed, there) =
                climb-rep fuel ps p i
                  (subst (λ q. is_some (lookup q ps) ≡ true) at_p (i.within x m))
                  (omega (arith, subst (λ q. depth q < depth x) at_p d, h)) in
              let same_rep : rep p ≡ rep x = ap rep (sym at_p) ∙ r in
              (rw found (rw other (rw (← same_rep) climbed)), rw (← same_rep) there)
        ]
  ]

  pub parent-apart :
      (ps : Parents) (x : Str)
      → IsForest n rep depth ps
      → str_eq (parent_of ps x) (rep x) ≡ false
      → str_eq (parent_of ps x) x ≡ false
  parent-apart ps x i far = elim (Bool-cases (str_eq (parent_of ps x) x)) [
    | inr other ↦ other
    | inl root ↦
        let e = (str_eq_iff (parent_of ps x) x).0 root in
        absurd (ground (arith, far, str_eq_iff (parent_of ps x) (rep x), e, (i.top x e).0))
  ]

  -- A node that is not yet at its root is another one, and deeper.
  pub rep-below :
      (ps : Parents) (x : Str)
      → IsForest n rep depth ps
      → str_eq (parent_of ps x) (rep x) ≡ false
      → (str_eq x (rep x) ≡ false) × (rep (rep x) ≡ rep x) × (depth (rep x) < depth x)
  rep-below ps x i far =
      let (r, d) = i.top (rep x) (i.rep_top x) in
      (
        ground (
          arith,
          i.rep_top x,
          far,
          str_eq_iff x (rep x),
          ap (parent_of ps),
          str_eq_iff (parent_of ps x) (rep x),
        ),
        r,
        omega (arith, d, (i.up x (parent-apart ps x i far)).1),
      )

  -- Pointing a node at its root keeps the forest.
  pub shortcut-IsForest :
      (ps : Parents) (x : Str)
      → IsForest n rep depth ps
      → is_some (lookup (rep x) ps) ≡ true
      → str_eq (parent_of ps x) (rep x) ≡ false
      → IsForest n rep depth (insert x (rep x) ps)
  shortcut-IsForest ps x i there far =
      let (apart, r, d) = rep-below ps x i far in
      record {
        top = λ y e. elim (Bool-cases (str_eq x y)) [
          | inl at_x ↦ absurd (
              ground (
                arith,
                e,
                parent_of-insert x (rep x) ps y,
                at_x,
                apart,
                str_eq_iff x y,
                str_eq_iff x (rep x),
              ))
          | inr other ↦ i.top y (ground (arith, e, parent_of-insert x (rep x) ps y, other))
        ];
        up = λ y e. elim (Bool-cases (str_eq x y)) [
          | inl at_x ↦
              subst
                (λ z.
                  (rep (parent_of (insert x (rep x) ps) z) ≡ rep z)
                  × (depth (parent_of (insert x (rep x) ps) z) < depth z))
                ((str_eq_iff x y).0 at_x)
                (rw (parent_of-insert x (rep x) ps x) (rw (str_eq_refl x) (r, d)))
          | inr other ↦
              rw (parent_of-insert x (rep x) ps y)
                (rw other (i.up y (ground (arith, e, parent_of-insert x (rep x) ps y, other))))
        ];
        rep_top = λ y. elim (Bool-cases (str_eq x (rep y))) [
          | inl at_x ↦
              let e = (str_eq_iff x (rep y)).0 at_x in
              absurd (
                ground (
                  arith,
                  apart,
                  str_eq_iff x (rep x),
                  (i.top x (ap (parent_of ps) e ∙ i.rep_top y ∙ sym e)).0,
                ))
          | inr other ↦ rw (parent_of-insert x (rep x) ps (rep y)) (rw other (i.rep_top y))
        ];
        bounded = i.bounded;
        within = λ y m. elim (Bool-cases (str_eq x y)) [
          | inl at_x ↦
              rw (parent_of-insert x (rep x) ps y)
                (rw at_x (rw (present-insert x (rep x) ps (rep x)) (ground (arith, there))))
          | inr other ↦ rw (parent_of-insert x (rep x) ps y) (
              rw other (
                rw (present-insert x (rep x) ps (parent_of ps y)) (
                  ground
                    (arith, i.within y (ground (arith, m, other, present-insert x (rep x) ps y))))))
        ];
      }
