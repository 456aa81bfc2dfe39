-- ===== src/Ontology/Graph/Asked/Plain.antt =====
-- The keys of `detectDuplicateEdges` tell plain links apart.
use adam_os.Base.{
  ℕ, suc, ◌≤◌, ◌≡◌, refl, sym, ◌∙◌, ◌↔◌, inl, inr, Bool, true, false, ◌&&◌, List, [], ◌∷◌, ◌++◌,
  map, arith, Str, str_eq, str_eq_iff, str_eq-sym, ◌⊎◌, count, filter, length, if◌then◌else◌,
  Bool-cases, subst,
}
use adam_os.Ontology.Graph.{OntologyLink, OntologyGraph}
use adam_os.Ontology.Graph.Checks.{edge_key}
use adam_os.Ontology.Graph.Asked.{is_plain, IsPlain, LinksOnce}

str_eq-plain :
    (a b x y : Str)
    → is_plain a ≡ true
    → is_plain b ≡ true
    → str_eq (a ++ 0 ∷ x) (b ++ 0 ∷ y) ≡ (str_eq a b && str_eq x y)
unfolding str_eq
str_eq-plain [] [] x y p q = refl
str_eq-plain [] (c ∷ b) x y p q = ground (arith, q)
str_eq-plain (c ∷ a) [] x y p q = ground (arith, p)
str_eq-plain (c ∷ a) (d ∷ b) x y p q = ground (arith, p, q, str_eq-plain a b x y)

abbrev key_of : Str → Str → Str → Str
key_of t u v = t ++ 0 ∷ (u ++ 0 ∷ v)

abbrev is_copy : Str → Str → Str → OntologyLink → Bool
is_copy t u v l = str_eq l.link_type t && (str_eq l.from_id u && str_eq l.to_id v)

copy_has_key :
    (t u v : Str) (l : OntologyLink)
    → is_copy t u v l ≡ true
    → str_eq (key_of t u v) (edge_key l) ≡ true
copy_has_key t u v l h = (str_eq_iff (key_of t u v) (edge_key l)).1 (
    rw ((str_eq_iff l.link_type t).0 (ground (arith, h))) (
      rw ((str_eq_iff l.from_id u).0 (ground (arith, h)))
        (rw ((str_eq_iff l.to_id v).0 (ground (arith, h))) refl)))

copies-le :
    (t u v : Str) (links : List OntologyLink)
    → length (filter (is_copy t u v) links) ≤ count (key_of t u v) (map edge_key links)
unfolding count
copies-le t u v [] = omega arith
copies-le t u v (l ∷ links) = elim (Bool-cases (is_copy t u v l)) [
  | inl copy ↦ rw copy (rw (copy_has_key t u v l copy) (omega (arith, copies-le t u v links)))
  | inr other ↦ rw other (split (str_eq (key_of t u v) (edge_key l)) (copies-le t u v links))
]
  where
    split : (b : Bool) {m n : ℕ} → m ≤ n → m ≤ (if b then suc n else n)
    split true h = omega (arith, h)
    split false h = h

key_is_copy :
    (t u v : Str) (l : OntologyLink)
    → is_plain t ≡ true
    → is_plain u ≡ true
    → (is_plain l.link_type ≡ true) × (is_plain l.from_id ≡ true)
    → str_eq (key_of t u v) (edge_key l) ≡ is_copy t u v l
key_is_copy t u v l p q (pl, ql) =
    str_eq-plain t l.link_type (u ++ 0 ∷ v) (l.from_id ++ 0 ∷ l.to_id) p pl
    ∙ ground (
      arith,
      str_eq-plain u l.from_id v l.to_id q ql,
      str_eq-sym t l.link_type,
      str_eq-sym u l.from_id,
      str_eq-sym v l.to_id,
    )

count-copies :
    (t u v : Str) (links : List OntologyLink)
    → is_plain t ≡ true
    → is_plain u ≡ true
    → IsPlain links
    → count (key_of t u v) (map edge_key links) ≡ length (filter (is_copy t u v) links)
unfolding count
count-copies t u v [] p q plain = refl
count-copies t u v (l ∷ links) p q (here, plain) =
    rw (key_is_copy t u v l p q here)
      (split (is_copy t u v l) (filter (is_copy t u v) links) (count-copies t u v links p q plain))
  where
    split :
        (b : Bool) {m : ℕ} (ls : List OntologyLink)
        → m ≡ length ls
        → (if b then suc m else m) ≡ length (if b then l ∷ ls else ls)
    split true ls h = omega (arith, h)
    split false ls h = h

-- A text is the key of no link, or of one.
key_found :
    (k : Str) (links : List OntologyLink)
    → IsPlain links
    → (count k (map edge_key links) ≡ 0)
      ⊎ ((l : OntologyLink) × (k ≡ edge_key l)
          × (is_plain l.link_type ≡ true)
          × (is_plain l.from_id ≡ true))
unfolding count
key_found k [] plain = inl refl
key_found k (l ∷ links) ((p, q), plain) = elim (Bool-cases (str_eq k (edge_key l))) [
  | inl same ↦ inr (l, (str_eq_iff k (edge_key l)).0 same, p, q)
  | inr other ↦ elim (key_found k links plain) [
    | inl none_there ↦ inl (rw other none_there)
    | inr found ↦ inr found
  ]
]

-- With plain links, no key occurs twice exactly when no link does.
pub keys_once_iff :
    (g : OntologyGraph)
    → IsPlain g.links
    → ((k : Str) → count k (map edge_key g.links) ≤ 1) ↔ LinksOnce g
keys_once_iff g plain = (
  λ h t u v. omega (arith, copies-le t u v g.links, h (key_of t u v)),
  λ h k. elim (key_found k g.links plain) [
    | inl none_there ↦ omega (arith, none_there)
    | inr (l, e, p, q) ↦
        subst (λ x. count x (map edge_key g.links) ≤ 1) (sym e)
          (omega (
            arith,
            h l.link_type l.from_id l.to_id,
            count-copies l.link_type l.from_id l.to_id g.links p q plain,
          ))
  ],
)
