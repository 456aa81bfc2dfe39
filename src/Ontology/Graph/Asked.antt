-- ===== src/Ontology/Graph/Asked.antt =====
-- What the rules of graph-types.ts ask of a graph, told over its objects and links: no index, no
-- search, and none of the functions of the validators.
pub mod Last
pub mod Match
pub mod Plain
pub mod Lead
use adam_os.Base.{
  ℕ, ◌+◌, ◌≤◌, ◌≡◌, ◌⊎◌, Bool, true, false, not, ◌&&◌, ◌||◌, Option, none, some, List, [], ◌∷◌, Str,
  str_eq, contains, filter, length, All, all, ◌==◌, Any, or_else, truthy, is_empty, if◌then◌else◌,
  map,
}
use adam_os.Ontology.Graph.{
  GraphSeverity, error, warning, OntologyObject, OntologyLink, OntologyGraph, EdgeDirection,
  outward, inward, RequiredRelationshipRule, CardinalityRule, PolicyRule, ReachabilityRule,
  GraphRule,
}
use adam_os.Ontology.Graph.Reachability.Loop.{Reaches}
use adam_os.Ontology.Graph.Cycles.Complete.{IsAcyclicType}

-- Whether a rule of the severity makes errors, which is what a rule without one does
abbrev pub blocks : Option GraphSeverity → Bool
blocks none = true
blocks (some error) = true
blocks (some warning) = false

abbrev pub own_end : EdgeDirection → OntologyLink → Str
own_end outward l = l.from_id
own_end inward l = l.to_id

abbrev pub other_end : EdgeDirection → OntologyLink → Str
other_end outward l = l.to_id
other_end inward l = l.from_id

abbrev pub type_at_other_end : EdgeDirection → OntologyLink → Str
type_at_other_end outward l = l.to_type
type_at_other_end inward l = l.from_type

-- A type that is asked for; an empty one asks for nothing.
abbrev pub admits : Option Str → Str → Bool
admits none t = true
admits (some asked) t = is_empty asked || str_eq t asked

-- A link of a type in a direction from an object, to an object of a type where one is asked for
abbrev pub is_such : Str → EdgeDirection → Str → Option Str → OntologyLink → Bool
is_such id d link_type asked l =
    str_eq (own_end d l) id
    && (str_eq l.link_type link_type && admits asked (type_at_other_end d l))

abbrev pub count_such : OntologyGraph → Str → EdgeDirection → Str → Option Str → ℕ
count_such g id d link_type asked = length (filter (is_such id d link_type asked) g.links)

abbrev pub or_first {ℓ} : {A : Type ℓ} → Option A → Option A → Option A
or_first none o = o
or_first (some a) o = some a

-- The value of the last element with the key
unfoldable pub last_of {ℓ κ} :
    {A : Type ℓ} {V : Type κ} → (A → Str) → (A → V) → Str → List A → Option V
last_of key val k [] = none
last_of key val k (x ∷ xs) =
    or_first (last_of key val k xs) (if str_eq (key x) k then some (val x) else none)

-- A text without the code unit 0
abbrev pub is_plain : Str → Bool
is_plain s = all (λ c. not (c == 0)) s

-- The link types and the ids of the sources of links are plain.
abbrev pub IsPlain : List OntologyLink → Type 0
IsPlain links = All (λ l. (is_plain l.link_type ≡ true) × (is_plain l.from_id ≡ true)) links

-- No two links join the same objects in the same way.
abbrev pub LinksOnce : OntologyGraph → Type 0
LinksOnce g =
    (t u v : Str)
    → length
        (filter (λ l. str_eq l.link_type t && (str_eq l.from_id u && str_eq l.to_id v)) g.links)
      ≤ 1

abbrev pub Touches : OntologyGraph → OntologyObject → GraphRule → Type 0
Touches g o rule =
    truthy rule.must_connect ≡ true → Any (λ l. (l.from_id ≡ o.id) ⊎ (l.to_id ≡ o.id)) g.links

abbrev pub HasEnough : OntologyGraph → OntologyObject → RequiredRelationshipRule → Type 0
HasEnough g o r =
    blocks r.severity ≡ true
    → or_else r.min 1 ≤ count_such g o.id r.direction r.link_type r.other_type

abbrev pub IsBetween : OntologyGraph → OntologyObject → CardinalityRule → Type 0
IsBetween g o c =
    blocks c.severity ≡ true
    → ((m : ℕ) → c.min ≡ some m → m ≤ count_such g o.id c.direction c.link_type c.other_type)
      × ((m : ℕ) → c.max ≡ some m → count_such g o.id c.direction c.link_type c.other_type ≤ m)

abbrev pub HasNoForbidden : OntologyGraph → OntologyObject → GraphRule → Type 0
HasNoForbidden g o rule =
    ((ts : List Str)
      → rule.forbidden_parent_types ≡ some ts
      → All (λ l. l.to_id ≡ o.id → contains l.from_type ts ≡ false) g.links)
    × ((ts : List Str)
        → rule.forbidden_target_types ≡ some ts
        → All (λ l. l.from_id ≡ o.id → contains l.to_type ts ≡ false) g.links)

-- Where a status is wanted, the object has it.
abbrev pub HasWanted : OntologyGraph → Option Str → Str → Type 0
HasWanted g wanted id =
    (s : Str)
    → wanted ≡ some s
    → is_empty s ≡ false
    → last_of (λ o. o.id) (λ o. o.status) id g.objects ≡ some (some s)

abbrev pub HasRelated : OntologyGraph → OntologyObject → PolicyRule → Type 0
HasRelated g o p =
    blocks p.severity ≡ true
    → Any
        (λ l.
          (is_such o.id p.direction p.link_type p.other_type l ≡ true)
          × HasWanted g p.with_status (other_end p.direction l))
        g.links

-- A link that a rule follows, from one object to another
abbrev pub Followed : OntologyGraph → Option (List Str) → Str → Str → Type 0
Followed g via u v =
    Any
      (λ l.
        ((ts : List Str) → via ≡ some ts → contains l.link_type ts ≡ true)
        × (l.from_id ≡ u)
        × (l.to_id ≡ v))
      g.links

-- Links that the rule follows lead to an object of the type, other than the start.
abbrev pub LeadsTo : OntologyGraph → Option (List Str) → Str → Str → Type 0
LeadsTo g via id t =
    (x : Str) × Reaches (Followed g via) id x
    × (str_eq x id ≡ false)
    × (last_of (λ o. o.id) (λ o. o.object_type) x g.objects ≡ some t)
    × (is_empty t ≡ false)

abbrev pub LeadsToAll : OntologyGraph → OntologyObject → GraphRule → Type 0
LeadsToAll g o rule =
    (r : ReachabilityRule)
    → rule.reachability ≡ some r
    → blocks r.severity ≡ true
    → All (LeadsTo g r.via_link_types o.id) r.must_reach_types

-- A property of the objects that have a rule
abbrev pub Ruled :
    (OntologyObject → GraphRule → Type 0) → (Str → Option GraphRule) → List OntologyObject → Type 0
Ruled P rule_for objects =
    All (λ o. (rule : GraphRule) → rule_for o.object_type ≡ some rule → P o rule) objects

-- What the rules ask of a graph
pub record IsAccepted (g : OntologyGraph) (rule_for : Str → Option GraphRule) (allowed : List Str)
    : Type 0 where
  pub links_once : LinksOnce g
  pub connected : Ruled (Touches g) rule_for g.objects
  pub required :
      Ruled
        (λ o rule. All (HasEnough g o) (or_else rule.required_relationships []))
        rule_for
        g.objects
  pub bounded :
      Ruled (λ o rule. All (IsBetween g o) (or_else rule.cardinality [])) rule_for g.objects
  pub paths : Ruled (HasNoForbidden g) rule_for g.objects
  pub acyclic : (t : Str) → contains t allowed ≡ false → IsAcyclicType g.links t
  pub reaches : Ruled (LeadsToAll g) rule_for g.objects
  pub policies :
      Ruled (λ o rule. All (HasRelated g o) (or_else rule.policies [])) rule_for g.objects
