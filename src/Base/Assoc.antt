-- ===== src/Base/Assoc.antt =====
-- Maps with string keys: association lists in insertion order, as a `Map` keeps its entries.
use mathlib.Core.Path.{◌≡◌, refl}
use mathlib.Core.Option.{Option, none, some}
use mathlib.Core.List.{List, [], ◌∷◌, ◌++◌}
use mathlib.Core.Logic.{inl, inr}
use mathlib.Core.Bool.{false}
use native.Mathlib.Omega.{arith}
use adam_os.Base.Tests.{if◌then◌else◌, is_some, Bool-cases}
use adam_os.Base.Text.{Str, str_eq, str_eq_iff}

module _ {ℓ} {V : Type ℓ} where
  -- `map.get(k)`
  unfoldable pub lookup : Str → List (Str × V) → Option V
  lookup k [] = none
  lookup k ((j, v) ∷ m) = let rest = lookup k m in if str_eq j k then some v else rest

  -- `map.set(k, v)`: a key that is there keeps its place
  unfoldable pub insert : Str → V → List (Str × V) → List (Str × V)
  insert k v [] = (k, v) ∷ []
  insert k v ((j, w) ∷ m) =
      let rest = insert k v m in if str_eq j k then (j, v) ∷ m else (j, w) ∷ rest

  -- `map.delete(k)`
  unfoldable pub remove : Str → List (Str × V) → List (Str × V)
  remove k [] = []
  remove k ((j, w) ∷ m) = let rest = remove k m in if str_eq j k then rest else (j, w) ∷ rest

  pub lookup-insert :
      (k j : Str) (v : V) (m : List (Str × V))
      → lookup j (insert k v m) ≡ (if str_eq k j then some v else lookup j m)
  unfolding lookup insert
  lookup-insert k j v [] = refl
  lookup-insert k j v ((i, w) ∷ m) =
      ground (arith, str_eq_iff k j, str_eq_iff i k, str_eq_iff i j, lookup-insert k j v m)

  pub lookup-remove :
      (k j : Str) (m : List (Str × V))
      → lookup j (remove k m) ≡ (if str_eq k j then none else lookup j m)
  unfolding lookup remove
  lookup-remove k j [] = ground arith
  lookup-remove k j ((i, w) ∷ m) =
      ground (arith, str_eq_iff k j, str_eq_iff i k, str_eq_iff i j, lookup-remove k j m)

  -- Each key has one value.
  abbrev pub KeysOnce : List (Str × V) → Type 0
  KeysOnce [] = Unit
  KeysOnce ((k, v) ∷ m) = (is_some (lookup k m) ≡ false) × KeysOnce m

  pub insert-KeysOnce :
      (k : Str) (v : V) (m : List (Str × V)) → KeysOnce m → KeysOnce (insert k v m)
  unfolding insert lookup
  insert-KeysOnce k v [] h = (refl, tt)
  insert-KeysOnce k v ((j, w) ∷ m) h = elim (Bool-cases (str_eq j k)) [
    | inl same ↦ rw same h
    | inr other ↦ rw other (
      ground (arith, h.0, lookup-insert k j v m, str_eq_iff k j, str_eq_iff j k),
      insert-KeysOnce k v m h.1,
    )
  ]

  pub remove-KeysOnce : (k : Str) (m : List (Str × V)) → KeysOnce m → KeysOnce (remove k m)
  unfolding remove
  remove-KeysOnce k [] h = tt
  remove-KeysOnce k ((j, w) ∷ m) h = elim (Bool-cases (str_eq j k)) [
    | inl same ↦ rw same (remove-KeysOnce k m h.1)
    | inr other ↦ rw other (ground (arith, h.0, lookup-remove k j m), remove-KeysOnce k m h.1)
  ]

  pub lookup-append :
      (j : Str) (m n : List (Str × V))
      → lookup j (m ++ n) ≡ (if is_some (lookup j m) then lookup j m else lookup j n)
  unfolding lookup
  lookup-append j [] n = refl
  lookup-append j ((i, w) ∷ m) n = ground (arith, lookup-append j m n)
