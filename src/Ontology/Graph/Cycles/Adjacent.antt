-- ===== src/Ontology/Graph/Cycles/Adjacent.antt =====
-- The adjacency of a link type against the links.
use mathlib.Core.List.{foldl}
use adam_os.Base.{
  ◌≡◌, refl, true, ◌&&◌, ◌||◌, List, [], ◌∷◌, ◌++◌, map, arith, Str, str_eq, str_eq_iff, contains,
  contains-append, lookup, lookup-insert, or_else, filter, is_some, Bool-cases, inl, inr, Any,
  Option-cases,
}
use adam_os.Ontology.Graph.{OntologyLink, push_to}
use adam_os.Ontology.Graph.Index.{lookup-foldl-push_to}
use adam_os.Ontology.Graph.Cycles.{Adjacency, adjacency, targets, keys}

-- The ends of the links
abbrev pub ends : List OntologyLink → List Str
ends links = map (λ l. l.from_id) links ++ map (λ l. l.to_id) links

-- A link of a type from one object to another
abbrev pub IsLink : List OntologyLink → Str → Str → Str → Type 0
IsLink links t u v = Any (λ l. (l.link_type ≡ t) × (l.from_id ≡ u) × (l.to_id ≡ v)) links

abbrev pub of_type : Str → List OntologyLink → List OntologyLink
of_type t links = filter (λ l. str_eq l.link_type t) links

pub targets-adjacency :
    (t u : Str) (links : List OntologyLink)
    → targets (adjacency t links) u
      ≡ map (λ l. l.to_id) (filter (λ l. str_eq l.from_id u) (of_type t links))
unfolding adjacency lookup
targets-adjacency t u links =
    lookup-foldl-push_to (λ l. l.from_id) (λ l. l.to_id) u (of_type t links) []

contains-targets :
    (t u v : Str) (links : List OntologyLink)
    → contains v (map (λ l. l.to_id) (filter (λ l. str_eq l.from_id u) (of_type t links))) ≡ true
    → IsLink links t u v
unfolding contains
contains-targets t u v [] h = absurd (ground arith)
contains-targets t u v (l ∷ links) h =
    elim (Bool-cases (str_eq l.link_type t && str_eq l.from_id u && str_eq v l.to_id)) [
      | inl here ↦ inl (
        ground (arith, here, str_eq_iff l.link_type t),
        ground (arith, here, str_eq_iff l.from_id u),
        ground (arith, here, str_eq_iff v l.to_id),
      )
      | inr other ↦ inr (contains-targets t u v links (ground (arith, h, other)))
    ]

IsLink-targets :
    (t u v : Str) (links : List OntologyLink)
    → IsLink links t u v
    → contains v (map (λ l. l.to_id) (filter (λ l. str_eq l.from_id u) (of_type t links))) ≡ true
unfolding contains
IsLink-targets t u v [] h = elim h [ ]
IsLink-targets t u v (l ∷ links) (inl (a, b, c)) =
    ground (arith, a, b, c, str_eq_iff l.link_type t, str_eq_iff l.from_id u, str_eq_iff v l.to_id)
IsLink-targets t u v (l ∷ links) (inr h) = ground (arith, IsLink-targets t u v links h)

-- The targets of a node are what links of the type lead to.
pub IsLink-of_target :
    (t u v : Str) (links : List OntologyLink)
    → contains v (targets (adjacency t links) u) ≡ true
    → IsLink links t u v
IsLink-of_target t u v links h = contains-targets t u v links (rw (← targets-adjacency t u links) h)

pub target_of_link :
    (t u v : Str) (links : List OntologyLink)
    → IsLink links t u v
    → contains v (targets (adjacency t links) u) ≡ true
target_of_link t u v links h = rw (targets-adjacency t u links) (IsLink-targets t u v links h)

IsLink-contains :
    (t u v : Str) (links : List OntologyLink)
    → IsLink links t u v
    → (contains u (map (λ l. l.from_id) links) ≡ true)
      × (contains v (map (λ l. l.to_id) links) ≡ true)
      × (contains t (map (λ l. l.link_type) links) ≡ true)
unfolding contains
IsLink-contains t u v [] h = elim h [ ]
IsLink-contains t u v (l ∷ links) (inl (a, b, c)) =
    ground (arith, a, b, c, str_eq_iff u l.from_id, str_eq_iff v l.to_id, str_eq_iff t l.link_type)
IsLink-contains t u v (l ∷ links) (inr h) = ground (arith, IsLink-contains t u v links h)

-- A link's ends are ends.
pub ends-IsLink :
    (t u v : Str) (links : List OntologyLink)
    → IsLink links t u v
    → (contains u (ends links) ≡ true) × (contains v (ends links) ≡ true)
ends-IsLink t u v links h = ground (
  arith,
  IsLink-contains t u v links h,
  contains-append u (map (λ l. l.from_id) links) (map (λ l. l.to_id) links),
  contains-append v (map (λ l. l.from_id) links) (map (λ l. l.to_id) links),
)

pub link_type-IsLink :
    (t u v : Str) (links : List OntologyLink)
    → IsLink links t u v
    → contains t (map (λ l. l.link_type) links) ≡ true
link_type-IsLink t u v links h = (IsLink-contains t u v links h).2

pub keys-lookup :
    {A : Type 0} (u : Str) (m : List (Str × A)) → is_some (lookup u m) ≡ contains u (keys m)
unfolding lookup contains
keys-lookup u [] = refl
keys-lookup u ((k, a) ∷ m) = ground (arith, str_eq_iff k u, str_eq_iff u k, keys-lookup u m)

-- A node that has a target is a key.
pub keys-targets :
    (adj : Adjacency) (u v : Str) → contains v (targets adj u) ≡ true → contains u (keys adj) ≡ true
unfolding contains
keys-targets adj u v h = elim (Option-cases (lookup u adj)) [
  | inl absent ↦ absurd (ground arith)
  | inr (xs, found) ↦ ground (arith, found, keys-lookup u adj)
]

lookup-filled :
    (j : Str) (xs : List OntologyLink) (m : Adjacency)
    → is_some (lookup j (foldl (λ acc l. push_to l.from_id l.to_id acc) m xs))
      ≡ (is_some (lookup j m) || contains j (map (λ l. l.from_id) xs))
unfolding contains push_to
lookup-filled j [] m = ground arith
lookup-filled j (l ∷ xs) m = ground (
  arith,
  lookup-filled j xs (push_to l.from_id l.to_id m),
  str_eq_iff j l.from_id,
  str_eq_iff l.from_id j,
  lookup-insert l.from_id j (or_else (lookup l.from_id m) [] ++ l.to_id ∷ []) m,
)

sources-of_type :
    (t u : Str) (links : List OntologyLink)
    → contains u (map (λ l. l.from_id) (of_type t links)) ≡ true
    → contains u (map (λ l. l.from_id) links) ≡ true
unfolding contains
sources-of_type t u [] h = h
sources-of_type t u (l ∷ links) h = ground (arith, h, sources-of_type t u links)

-- The keys are ends of links.
pub keys-adjacency :
    (t u : Str) (links : List OntologyLink)
    → contains u (keys (adjacency t links)) ≡ true
    → contains u (ends links) ≡ true
unfolding adjacency lookup
keys-adjacency t u links h = ground (
  arith,
  h,
  keys-lookup u (adjacency t links),
  lookup-filled u (of_type t links) [],
  sources-of_type t u links,
  contains-append u (map (λ l. l.from_id) links) (map (λ l. l.to_id) links),
)
