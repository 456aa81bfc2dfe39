-- ===== src/Ontology/Graph/Cycles/Ends.antt =====
-- The search ends: each call of `dfs` paints a white node, so the fuel is enough.
use adam_os.Base.{
  ℕ, zero, suc, ◌≤◌, ◌<◌, ◌≡◌, refl, ◌∙◌, Bool, true, false, Option, some, List, [], ◌∷◌, ◌++◌,
  arith, Str, str_eq, str_eq_iff, contains, insert, lookup-insert, all-sort, all-contains_intro,
  filter, length, sort, all, if◌then◌else◌,
}
use adam_os.Ontology.Graph.Cycles.{
  Color, white, gray, black, Colors, color_of, Adjacency, targets, Search, report_cycle, paint,
  meet, meet_all, dfs, search_from, search_all,
}

abbrev pub is_white : Color → Bool
is_white white = true
is_white gray = false
is_white black = false

pub color_of-insert :
    (u v : Str) (c : Color) (cs : Colors)
    → color_of v (insert u c cs) ≡ (if str_eq u v then c else color_of v cs)
unfolding color_of
color_of-insert u v c cs = ground (arith, lookup-insert u v c cs)

-- A node that is white after was white before.
abbrev pub Darker : Search → Search → Type 0
Darker s s1 =
    (x : Str) → is_white (color_of x s1.colors) ≡ true → is_white (color_of x s.colors) ≡ true

-- The white nodes of a list
abbrev pub whites : List Str → Colors → ℕ
whites ns cs = length (filter (λ n. is_white (color_of n cs)) ns)

length-filter_mono :
    (p q : Str → Bool) (xs : List Str)
    → ((x : Str) → p x ≡ true → q x ≡ true)
    → length (filter p xs) ≤ length (filter q xs)
length-filter_mono p q [] h = omega arith
length-filter_mono p q (x ∷ xs) h = ground (arith, h x, length-filter_mono p q xs h)

length-filter_strict :
    (p q : Str → Bool) (u : Str) (xs : List Str)
    → ((x : Str) → p x ≡ true → q x ≡ true)
    → contains u xs ≡ true
    → p u ≡ false
    → q u ≡ true
    → length (filter p xs) < length (filter q xs)
unfolding contains
length-filter_strict p q u [] h m out kept = absurd (ground arith)
length-filter_strict p q u (x ∷ xs) h m out kept =
    ground
      (arith, h x, str_eq_iff u x, length-filter_mono p q xs h, length-filter_strict p q u xs h)

pub report_cycle-colors :
    (link_type : Str) (stack : List Str) (v : Str) (s : Search)
    → (report_cycle link_type stack v s).colors ≡ s.colors
unfolding report_cycle
report_cycle-colors link_type stack v s = ground arith

paint-Darker : (u : Str) (c : Color) (s : Search) → is_white c ≡ false → Darker s (paint u c s)
paint-Darker u c s h x w = ground (arith, w, color_of-insert u x c s.colors)

module _ (adj : Adjacency) (link_type : Str) (nodes : List Str)
    (closed : (u v : Str) → contains v (targets adj u) ≡ true → contains v nodes ≡ true) where
  abbrev Ends : Search → Option Search → Type 0
  Ends s o = (s1 : Search) × (o ≡ some s1) × Darker s s1

  whites-Darker : (s s1 : Search) → Darker s s1 → whites nodes s1.colors ≤ whites nodes s.colors
  whites-Darker s s1 d = length-filter_mono _ _ nodes d

  -- What `meet_all` needs of `dfs`.
  abbrev Searches : ℕ → (Str → Search → Option Search) → Type 0
  Searches fuel go =
      (v : Str) (s : Search)
      → contains v nodes ≡ true
      → is_white (color_of v s.colors) ≡ true
      → whites nodes s.colors ≤ fuel
      → Ends s (go v s)

  meet-Ends :
      (fuel : ℕ) (go : Str → Search → Option Search)
      → Searches fuel go
      → (stack : List Str) (v : Str) (c : Color) (s : Search) → color_of v s.colors ≡ c
      → contains v nodes ≡ true
      → whites nodes s.colors ≤ fuel
      → Ends s (meet adj link_type go stack v c s)
  unfolding meet
  meet-Ends fuel go spec stack v white s e m h = spec v s m (rw e refl) h
  meet-Ends fuel go spec stack v gray s e m h =
      (_, refl, λ x w. rw (report_cycle-colors link_type stack v s) at w)
  meet-Ends fuel go spec stack v black s e m h = (s, refl, λ x w. w)

  meet_all-Ends :
      (fuel : ℕ) (go : Str → Search → Option Search)
      → Searches fuel go
      → (stack vs : List Str) (s : Search) → all (λ v. contains v nodes) vs ≡ true
      → whites nodes s.colors ≤ fuel
      → Ends s (meet_all adj link_type go stack vs s)
  unfolding meet_all
  meet_all-Ends fuel go spec stack [] s m h = (s, refl, λ x w. w)
  meet_all-Ends fuel go spec stack (v ∷ vs) s m h =
      let (s1, met, darker) =
        meet-Ends fuel go spec stack v (color_of v s.colors) s refl (ground (arith, m)) h in
      let (s2, rest, later) =
        meet_all-Ends fuel go spec stack vs s1 (ground (arith, m))
          (omega (arith, h, whites-Darker s s1 darker)) in
      (s2, rw met rest, λ x w. darker x (later x w))

  targets-nodes : (u : Str) → all (λ v. contains v nodes) (sort (targets adj u)) ≡ true
  targets-nodes u =
      all-sort (λ v. contains v nodes) (targets adj u)
      ∙ all-contains_intro (λ v. contains v nodes) (targets adj u) (closed u)

  dfs-Ends : (fuel : ℕ) (stack : List Str) → Searches fuel (dfs adj link_type fuel stack)
  unfolding dfs
  dfs-Ends zero stack u s m w h = absurd (
      omega (
        arith,
        h,
        length-filter_strict (λ x. false) (λ n. is_white (color_of n s.colors)) u nodes
            (λ x f. absurd (ground arith)) m refl w,
      ))
  dfs-Ends (suc fuel) stack u s m w h =
      let inside = stack ++ u ∷ [] in
      let painted = paint u gray s in
      let fewer : whites nodes painted.colors ≤ fuel = omega (
        arith,
        h,
        length-filter_strict (λ n. is_white (color_of n painted.colors))
            (λ n. is_white (color_of n s.colors)) u nodes (paint-Darker u gray s refl) m
            (ground (arith, color_of-insert u u gray s.colors, str_eq_iff u u)) w,
      ) in
      let (s1, met, darker) =
        meet_all-Ends fuel (dfs adj link_type fuel inside) (dfs-Ends fuel inside) inside
          (sort (targets adj u)) painted (targets-nodes u) fewer in
      (
        paint u black s1,
        rw met refl,
        λ x after. paint-Darker u gray s refl x (darker x (paint-Darker u black s1 refl x after)),
      )

  search_from-Ends :
      (fuel : ℕ) (n : Str) (c : Color) (s : Search)
      → color_of n s.colors ≡ c
      → contains n nodes ≡ true
      → whites nodes s.colors ≤ fuel
      → Ends s (search_from adj link_type fuel n c s)
  unfolding search_from
  search_from-Ends fuel n white s e m h = dfs-Ends fuel [] n s m (rw e refl) h
  search_from-Ends fuel n gray s e m h = (s, refl, λ x w. w)
  search_from-Ends fuel n black s e m h = (s, refl, λ x w. w)

  pub search_all-Ends :
      (fuel : ℕ) (ns : List Str) (s : Search)
      → all (λ v. contains v nodes) ns ≡ true
      → whites nodes s.colors ≤ fuel
      → (s1 : Search) × (search_all adj link_type fuel ns s ≡ some s1)
  unfolding search_all
  search_all-Ends fuel [] s m h = (s, refl)
  search_all-Ends fuel (n ∷ ns) s m h =
      let (s1, from, darker) =
        search_from-Ends fuel n (color_of n s.colors) s refl (ground (arith, m)) h in
      let (s2, rest) =
        search_all-Ends fuel ns s1 (ground (arith, m))
          (omega (arith, h, whites-Darker s s1 darker)) in
      (s2, rw from rest)
