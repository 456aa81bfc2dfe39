-- ===== src/Ontology/Graph/Asked/Last.antt =====
-- A map that is filled from a list has the last value under each key.
use mathlib.Core.List.{foldl}
use adam_os.Base.{
  ◌≡◌, refl, ◌∙◌, ap, Bool, true, false, Option, none, some, List, [], ◌∷◌, Str, str_eq, lookup,
  insert, lookup-insert, if◌then◌else◌,
}
use adam_os.Ontology.Graph.Asked.{or_first, last_of}

or_first-if {ℓ} :
    {A : Type ℓ} (o : Option A) (b : Bool) (a : A) (r : Option A)
    → or_first o (if b then some a else r) ≡ or_first (or_first o (if b then some a else none)) r
or_first-if none true a r = refl
or_first-if none false a r = refl
or_first-if (some x) b a r = refl

pub lookup-foldl-insert {ℓ κ} :
    {A : Type ℓ} {V : Type κ} (key : A → Str) (val : A → V) (k : Str) (xs : List A)
    (m : List (Str × V))
    → lookup k (foldl (λ acc x. insert (key x) (val x) acc) m xs)
      ≡ or_first (last_of key val k xs) (lookup k m)
unfolding last_of
lookup-foldl-insert key val k [] m = refl
lookup-foldl-insert key val k (x ∷ xs) m =
    lookup-foldl-insert key val k xs (insert (key x) (val x) m)
    ∙ ap (or_first (last_of key val k xs)) (lookup-insert (key x) k (val x) m)
    ∙ or_first-if (last_of key val k xs) (str_eq (key x) k) (val x) (lookup k m)

pub or_first-none {ℓ} : {A : Type ℓ} (o : Option A) → or_first o none ≡ o
or_first-none none = refl
or_first-none (some a) = refl
