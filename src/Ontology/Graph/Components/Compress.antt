-- ===== src/Ontology/Graph/Components/Compress.antt =====
-- `find` of graph-report.ts answers with the root, and compression keeps the forest.
use adam_os.Base.{
  ℕ, zero, suc, ◌<◌, ◌≡◌, refl, sym, ◌∙◌, true, false, inl, inr, Option, some, arith, Str, str_eq,
  lookup, insert, is_some, Bool-cases, Option-cases, subst, ap,
}
use adam_os.Ontology.Graph.Cycles.{keys}
use adam_os.Ontology.Graph.Components.{Parents, compress, find_root}
use adam_os.Ontology.Graph.Components.Forest.{
  parent_of, present-insert, IsForest, keys-insert, compress-step, compress-done, lookup-parent_of,
  climb-rep, parent-apart, shortcut-IsForest,
}

module _ (n : ℕ) (rep : Str → Str) (depth : Str → ℕ) where
  -- The root, and what compression leaves: a forest of the same roots over the same nodes
  abbrev pub Compressed : Parents → Option Parents → Type 0
  Compressed ps o =
      (ps1 : Parents) × (o ≡ some ps1) × IsForest n rep depth ps1 × (keys ps1 ≡ keys ps)

  compress-Compressed :
      (fuel : ℕ) (ps : Parents) (x root : Str)
      → root ≡ rep x
      → IsForest n rep depth ps
      → is_some (lookup x ps) ≡ true
      → is_some (lookup root ps) ≡ true
      → depth x < fuel
      → Compressed ps (compress fuel root ps x)
  compress-Compressed zero ps x root e i m there h = absurd (omega (arith, h))
  compress-Compressed (suc fuel) ps x root e i m there h = elim (Option-cases (lookup x ps)) [
    | inl absent ↦ absurd (ground (arith, absent, m))
    | inr (p, found) ↦
        let at_p : parent_of ps x ≡ p = lookup-parent_of ps x p found in
        elim (Bool-cases (str_eq p root)) [
          | inl done ↦ (ps, compress-done fuel ps x root p found done, i, refl)
          | inr other ↦
              let far : str_eq (parent_of ps x) (rep x) ≡ false =
                subst (λ q. str_eq q (rep x) ≡ false) (sym at_p)
                  (subst (λ q. str_eq p q ≡ false) e other) in
              let (r, d) = i.up x (parent-apart n rep depth ps x i far) in
              let same_rep : rep p ≡ rep x = ap rep (sym at_p) ∙ r in
              let short : IsForest n rep depth (insert x root ps) =
                subst (λ q. IsForest n rep depth (insert x q ps)) (sym e)
                  (shortcut-IsForest n rep depth ps x i
                    (subst (λ q. is_some (lookup q ps) ≡ true) e there) far) in
              let (ps1, ended, i1, ks) =
                compress-Compressed fuel (insert x root ps) p root (e ∙ sym same_rep) short
                  (rw (present-insert x root ps p)
                    (ground (arith, subst (λ q. is_some (lookup q ps) ≡ true) at_p (i.within x m))))
                  (ground (arith, there, present-insert x root ps root))
                  (omega (arith, subst (λ q. depth q < depth x) at_p d, h)) in
              (
                ps1,
                compress-step fuel ps x root p found other ∙ ended,
                i1,
                ks ∙ keys-insert x root ps m,
              )
        ]
  ]

  pub find_root-Compressed :
      (fuel : ℕ) (ps : Parents) (x : Str)
      → IsForest n rep depth ps
      → is_some (lookup x ps) ≡ true
      → n < fuel
      → (ps1 : Parents) × (find_root fuel x ps ≡ some (rep x, ps1))
        × IsForest n rep depth ps1
        × (keys ps1 ≡ keys ps)
        × (is_some (lookup (rep x) ps) ≡ true)
  unfolding find_root
  find_root-Compressed fuel ps x i m h =
      let deep : depth x < fuel = omega (arith, i.bounded x, h) in
      let (climbed, there) = climb-rep n rep depth fuel ps x i m deep in
      let (ps1, compressed, i1, ks) = compress-Compressed fuel ps x (rep x) refl i m there deep in
      (ps1, rw climbed (rw compressed refl), i1, ks, there)
