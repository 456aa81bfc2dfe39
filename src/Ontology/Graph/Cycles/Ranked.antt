-- ===== src/Ontology/Graph/Cycles/Ranked.antt =====
-- A rank on the black nodes that falls along every edge.
use adam_os.Base.{
  ℕ, suc, ◌<◌, ◌≡◌, refl, Bool, true, false, inl, inr, arith, Str, str_eq, str_eq_iff, contains,
  all, all-contains, if◌then◌else◌, Bool-cases,
}
use adam_os.Ontology.Graph.Cycles.{
  Color, white, gray, black, Colors, color_of, Adjacency, targets, Search, paint,
}
use adam_os.Ontology.Graph.Cycles.Ends.{is_white, color_of-insert}

abbrev pub is_gray : Color → Bool
is_gray gray = true
is_gray white = false
is_gray black = false

abbrev pub is_black : Color → Bool
is_black black = true
is_black white = false
is_black gray = false

-- The targets of a black node are black, and lower.
pub record Finished (adj : Adjacency) (cs : Colors) : Type 0 where
  pub rank : Str → ℕ
  pub bound : ℕ
  pub below : (u : Str) → is_black (color_of u cs) ≡ true → rank u < bound
  pub falls :
      (u v : Str)
      → is_black (color_of u cs) ≡ true
      → contains v (targets adj u) ≡ true
      → (is_black (color_of v cs) ≡ true) × (rank v < rank u)

pub gray_black : (c : Color) → is_gray c ≡ true → is_black c ≡ false
gray_black white h = absurd (ground arith)
gray_black gray h = refl
gray_black black h = absurd (ground arith)

pub white_black : (c : Color) → is_white c ≡ true → (is_black c ≡ false) × (is_gray c ≡ false)
white_black white h = (refl, refl)
white_black gray h = absurd (ground arith)
white_black black h = absurd (ground arith)

module _ (adj : Adjacency) where
  pub black_apart :
      (u v : Str) (s : Search)
      → is_gray (color_of u s.colors) ≡ true
      → is_black (color_of v s.colors) ≡ true
      → str_eq u v ≡ false
  black_apart u v s g b = ground (arith, g, b, str_eq_iff u v, gray_black (color_of u s.colors))

  pub white_apart :
      (u v : Str) (s : Search)
      → is_white (color_of u s.colors) ≡ true
      → is_black (color_of v s.colors) ≡ true
      → str_eq u v ≡ false
  white_apart u v s g b = ground (arith, g, b, str_eq_iff u v, white_black (color_of u s.colors))

  -- To finish a gray node whose targets are black puts it on top.
  pub Finished-black :
      (u : Str) (s : Search)
      → is_gray (color_of u s.colors) ≡ true
      → all (λ v. is_black (color_of v s.colors)) (targets adj u) ≡ true
      → Finished adj s.colors
      → Finished adj (paint u black s).colors
  Finished-black u s open_ done f = record {
    rank = λ x. if str_eq u x then f.bound else f.rank x;
    bound = suc f.bound;
    below = λ x b. ground (arith, b, f.below x, color_of-insert u x black s.colors);
    falls = λ x v b edge. elim (Bool-cases (str_eq u x)) [
      | inl same ↦
          let inside : contains v (targets adj u) ≡ true = rw ((str_eq_iff u x).0 same) edge in
          let dark =
            all-contains (λ w. is_black (color_of w s.colors)) v (targets adj u) done inside in
          let apart = black_apart u v s open_ dark in
          ground (arith, same, apart, dark, f.below v dark, color_of-insert u v black s.colors)
      | inr other ↦
          let black_x : is_black (color_of x s.colors) ≡ true =
            ground (arith, b, other, color_of-insert u x black s.colors) in
          let (dark, lower) = f.falls x v black_x edge in
          let apart = black_apart u v s open_ dark in
          ground (arith, other, apart, dark, lower, color_of-insert u v black s.colors)
    ];
  }

  pub Finished-gray :
      (u : Str) (s : Search)
      → is_white (color_of u s.colors) ≡ true
      → Finished adj s.colors
      → Finished adj (paint u gray s).colors
  Finished-gray u s w f = record {
    rank = f.rank;
    bound = f.bound;
    below = λ x b. f.below x (ground (arith, b, color_of-insert u x gray s.colors));
    falls = λ x v b edge.
        let (dark, lower) =
          f.falls x v (ground (arith, b, color_of-insert u x gray s.colors)) edge in
        (ground (arith, dark, white_apart u v s w dark, color_of-insert u v gray s.colors), lower);
  }
