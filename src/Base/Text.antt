-- ===== src/Base/Text.antt =====
-- The strings of the program: sequences of UTF-16 code units, compared by `===` and `<`.
use Prim.Native.Nat.{ℕ, suc, ◌+◌, ◌<◌}
use Prim.Native.Char.{code}
use Prim.Native.String.{String}
use mathlib.Core.Path.{◌≡◌, refl}
use mathlib.Core.Logic.{◌↔◌, inl, inr}
use mathlib.Core.Bool.{Bool, true, false, not, ◌&&◌, ◌||◌}
use mathlib.Core.List.{List, [], ◌∷◌, ◌++◌}
use native.Mathlib.Omega.{arith}
use adam_os.Base.Tests.{ltb, ◌==◌, if◌then◌else◌, Bool-cases}
use adam_os.Base.Lists.{filter, all, find, length, length-filter-le}
use mathlib.Core.Option.{none, some}

abbrev pub Str : Type 0
Str = List ℕ

-- The code units of a text within the basic plane.
abbrev pub str : String → Str
str String.[] = []
str (String.◌∷◌ c s) = code c ∷ str s

unfoldable pub str_eq : Str → Str → Bool
str_eq [] [] = true
str_eq [] (b ∷ y) = false
str_eq (a ∷ x) [] = false
str_eq (a ∷ x) (b ∷ y) = a == b && str_eq x y

pub str_eq_sound : (x y : Str) → str_eq x y ≡ true → x ≡ y
unfolding str_eq
str_eq_sound [] [] h = refl
str_eq_sound [] (b ∷ y) h = ground arith
str_eq_sound (a ∷ x) [] h = ground arith
str_eq_sound (a ∷ x) (b ∷ y) h = ground (arith, str_eq_sound x y)

pub str_eq_refl : (x : Str) → str_eq x x ≡ true
unfolding str_eq
str_eq_refl [] = refl
str_eq_refl (a ∷ x) = ground (arith, str_eq_refl x)

pub str_eq_iff : (x y : Str) → (str_eq x y ≡ true) ↔ (x ≡ y)
str_eq_iff x y = (str_eq_sound x y, λ e. subst_eq e)
  where
    subst_eq : x ≡ y → str_eq x y ≡ true
    subst_eq e = rw e (str_eq_refl y)

pub str_eq-sym : (x y : Str) → str_eq x y ≡ str_eq y x
str_eq-sym x y = ground (arith, str_eq_iff x y, str_eq_iff y x)

-- `<=` on strings, by code units
unfoldable pub str_leb : Str → Str → Bool
str_leb [] y = true
str_leb (a ∷ x) [] = false
str_leb (a ∷ x) (b ∷ y) = ltb a b || (a == b && str_leb x y)

pub str_leb-total : (x y : Str) → str_leb x y ≡ false → str_leb y x ≡ true
unfolding str_leb
str_leb-total [] y h = ground arith
str_leb-total (a ∷ x) [] h = refl
str_leb-total (a ∷ x) (b ∷ y) h = ground (arith, str_leb-total x y)

-- `includes` of an array and `has` of a set
unfoldable pub contains : Str → List Str → Bool
contains a [] = false
contains a (x ∷ xs) = str_eq a x || contains a xs

-- How often a string occurs.
unfoldable pub count : Str → List Str → ℕ
count a [] = 0
count a (x ∷ xs) = let rest = count a xs in if str_eq a x then suc rest else rest

pub contains-append :
    (a : Str) (xs ys : List Str) → contains a (xs ++ ys) ≡ (contains a xs || contains a ys)
unfolding contains
contains-append a [] ys = refl
contains-append a (x ∷ xs) ys = ground (arith, contains-append a xs ys)

pub count-append : (a : Str) (xs ys : List Str) → count a (xs ++ ys) ≡ count a xs + count a ys
unfolding count
count-append a [] ys = omega arith
count-append a (x ∷ xs) ys = ground (arith, count-append a xs ys)

pub contains-count : (a : Str) (xs : List Str) → contains a xs ≡ ltb 0 (count a xs)
unfolding contains count
contains-count a [] = refl
contains-count a (x ∷ xs) = ground (arith, contains-count a xs)

pub count-filter :
    (a : Str) (p : Str → Bool) (xs : List Str)
    → count a (filter p xs) ≡ (if p a then count a xs else 0)
unfolding count
count-filter a p [] = ground arith
count-filter a p (x ∷ xs) = ground (arith, count-filter a p xs, str_eq_iff a x)

abbrev pub is_empty {ℓ} : {A : Type ℓ} → List A → Bool
is_empty [] = true
is_empty (x ∷ xs) = false

pub is_empty-append {ℓ} : {A : Type ℓ} (xs : List A) (a : A) → is_empty (xs ++ a ∷ []) ≡ false
is_empty-append [] a = refl
is_empty-append (x ∷ xs) a = refl

pub contains-is_empty : (a : Str) (xs : List Str) → is_empty xs ≡ true → contains a xs ≡ false
unfolding contains
contains-is_empty a [] h = refl
contains-is_empty a (x ∷ xs) h = ground arith

pub all-contains :
    (p : Str → Bool) (a : Str) (xs : List Str) → all p xs ≡ true → contains a xs ≡ true → p a ≡ true
unfolding contains
all-contains p a [] h m = ground arith
all-contains p a (x ∷ xs) h m = ground (arith, all-contains p a xs, str_eq_iff a x)

-- A filter that drops a member makes the list shorter.
pub length-filter-lt :
    (p : Str → Bool) (a : Str) (xs : List Str)
    → p a ≡ false
    → contains a xs ≡ true
    → length (filter p xs) < length xs
unfolding contains
length-filter-lt p a [] h m = ground arith
length-filter-lt p a (x ∷ xs) h m =
    ground (arith, length-filter-lt p a xs, length-filter-le p xs, str_eq_iff a x)

pub all-contains_intro :
    (p : Str → Bool) (xs : List Str)
    → ((a : Str) → contains a xs ≡ true → p a ≡ true)
    → all p xs ≡ true
unfolding contains
all-contains_intro p [] h = refl
all-contains_intro p (x ∷ xs) h =
    ground (arith, h x, str_eq_refl x, all-contains_intro p xs (λ a m. h a (ground (arith, m))))

-- A test that fails for the whole fails for a member.
pub all-contains_counterexample :
    (p : Str → Bool) (xs : List Str)
    → all p xs ≡ false
    → (a : Str) × (contains a xs ≡ true) × (p a ≡ false)
unfolding contains
all-contains_counterexample p [] h = ground arith
all-contains_counterexample p (x ∷ xs) h = elim (Bool-cases (p x)) [
  | inr fails ↦ (x, rw (str_eq_refl x) refl, fails)
  | inl passes ↦
      let (a, m, e) = all-contains_counterexample p xs (ground arith) in (a, ground (arith, m), e)
]

pub all_of_find-eq-none :
    (p : Str → Bool) (xs : List Str) → find p xs ≡ none → all (λ a. not (p a)) xs ≡ true
all_of_find-eq-none p [] h = refl
all_of_find-eq-none p (x ∷ xs) h = ground (arith, all_of_find-eq-none p xs)

pub find-eq-some :
    (p : Str → Bool) (xs : List Str) {a : Str}
    → find p xs ≡ some a
    → (contains a xs ≡ true) × (p a ≡ true)
unfolding contains
find-eq-some p [] h = ground arith
find-eq-some p (x ∷ xs) {a} h = ground (arith, find-eq-some p xs {a = a}, str_eq_iff a x)

-- `[...new Set(xs)]`: each string once, at its first place
unfoldable pub dedup_from : List Str → List Str → List Str
dedup_from seen [] = []
dedup_from seen (x ∷ xs) =
    let rest = dedup_from (x ∷ seen) xs in
    let skip = dedup_from seen xs in if contains x seen then skip else x ∷ rest

pub contains-dedup_from :
    (seen xs : List Str) (x : Str)
    → contains x (dedup_from seen xs) ≡ (contains x xs && not (contains x seen))
unfolding dedup_from contains
contains-dedup_from seen [] x = refl
contains-dedup_from seen (y ∷ ys) x =
    ground
      (arith, contains-dedup_from (y ∷ seen) ys x, contains-dedup_from seen ys x, str_eq_iff x y)

pub contains-dedup : (xs : List Str) (x : Str) → contains x (dedup_from [] xs) ≡ contains x xs
unfolding contains
contains-dedup xs x = ground (arith, contains-dedup_from [] xs x)
