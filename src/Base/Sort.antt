-- ===== src/Base/Sort.antt =====
-- `Array.prototype.sort` on strings: the order of their code units.
use mathlib.Core.Path.{◌≡◌, refl}
use mathlib.Core.Bool.{Bool, true, ◌&&◌}
use mathlib.Core.List.{List, [], ◌∷◌}
use Prim.Native.Nat.{suc}
use native.Mathlib.Omega.{arith}
use adam_os.Base.Tests.{if◌then◌else◌}
use adam_os.Base.Lists.{length, all}
use adam_os.Base.Text.{Str, str_eq, str_leb, str_leb-total, contains, count, contains-count}

unfoldable pub insert_sorted : Str → List Str → List Str
insert_sorted a [] = a ∷ []
insert_sorted a (x ∷ xs) =
    let rest = insert_sorted a xs in if str_leb a x then a ∷ x ∷ xs else x ∷ rest

unfoldable pub sort : List Str → List Str
unfolding insert_sorted
sort [] = []
sort (x ∷ xs) = insert_sorted x (sort xs)

-- Each string is at most the one behind it.
abbrev pub below_head : Str → List Str → Bool
below_head a [] = true
below_head a (x ∷ xs) = str_leb a x

abbrev pub IsSorted : List Str → Type 0
IsSorted [] = Unit
IsSorted (x ∷ xs) = (below_head x xs ≡ true) × IsSorted xs

count-insert_sorted :
    (a b : Str) (xs : List Str)
    → count a (insert_sorted b xs) ≡ (if str_eq a b then suc (count a xs) else count a xs)
unfolding insert_sorted count
count-insert_sorted a b [] = refl
count-insert_sorted a b (x ∷ xs) = ground (arith, count-insert_sorted a b xs)

-- Sorting keeps every string, as often as it occurs.
pub count-sort : (a : Str) (xs : List Str) → count a (sort xs) ≡ count a xs
unfolding sort count
count-sort a [] = refl
count-sort a (x ∷ xs) = ground (arith, count-insert_sorted a x (sort xs), count-sort a xs)

pub contains-sort : (a : Str) (xs : List Str) → contains a (sort xs) ≡ contains a xs
contains-sort a xs =
    ground (arith, contains-count a xs, contains-count a (sort xs), count-sort a xs)

length-insert_sorted : (b : Str) (xs : List Str) → length (insert_sorted b xs) ≡ suc (length xs)
unfolding insert_sorted
length-insert_sorted b [] = refl
length-insert_sorted b (x ∷ xs) = ground (arith, length-insert_sorted b xs)

pub length-sort : (xs : List Str) → length (sort xs) ≡ length xs
unfolding sort
length-sort [] = refl
length-sort (x ∷ xs) = ground (arith, length-insert_sorted x (sort xs), length-sort xs)

insert_sorted-below :
    (a b : Str) (xs : List Str)
    → str_leb a b ≡ true
    → below_head a xs ≡ true
    → below_head a (insert_sorted b xs) ≡ true
unfolding insert_sorted
insert_sorted-below a b [] h k = h
insert_sorted-below a b (x ∷ xs) h k = ground arith

insert_sorted-IsSorted : (b : Str) (xs : List Str) → IsSorted xs → IsSorted (insert_sorted b xs)
unfolding insert_sorted
insert_sorted-IsSorted b [] h = (refl, tt)
insert_sorted-IsSorted b (x ∷ xs) h =
    ground (arith, str_leb-total b x, insert_sorted-below x b xs, insert_sorted-IsSorted b xs h.1)

pub sort-IsSorted : (xs : List Str) → IsSorted (sort xs)
unfolding sort
sort-IsSorted [] = tt
sort-IsSorted (x ∷ xs) = insert_sorted-IsSorted x (sort xs) (sort-IsSorted xs)

all-insert_sorted :
    (p : Str → Bool) (a : Str) (xs : List Str) → all p (insert_sorted a xs) ≡ (p a && all p xs)
unfolding insert_sorted
all-insert_sorted p a [] = refl
all-insert_sorted p a (x ∷ xs) = ground (arith, all-insert_sorted p a xs)

pub all-sort : (p : Str → Bool) (xs : List Str) → all p (sort xs) ≡ all p xs
unfolding sort
all-sort p [] = refl
all-sort p (x ∷ xs) = ground (arith, all-insert_sorted p x (sort xs), all-sort p xs)
