-- ===== src/Ontology/Graph/Checks/Meets.antt =====
-- What an object with a rule meets when the validators have nothing against it.
use adam_os.Base.{
  ◌+◌, ◌≤◌, ◌<◌, ◌≡◌, refl, ap, ◌↔◌, Bool, true, false, ◌&&◌, Option, none, some, List, [], ◌∷◌,
  map, arith, Str, str_eq, lookup, filter, any, any-append, any-flatten, All-iff, length, or_else,
  truthy, subst,
}
use adam_os.Ontology.Graph.{
  GraphFinding, OntologyObject, OntologyLink, OntologyGraph, EdgeDirection, outward, inward,
  RequiredRelationshipRule, CardinalityRule, PolicyRule, GraphRule, Rules, index_graph, near_id,
  far_type, far_id,
}
use adam_os.Ontology.Graph.Index.{edges_for-index_graph}
use adam_os.Ontology.Graph.Asked.{blocks, Ruled}
use adam_os.Ontology.Graph.Report.{is_error}
use adam_os.Ontology.Graph.Checks.{
  for_ruled, orphan_check, unless_given, matching, required_check, under, over, cardinality_check,
  forbids, path_finding, forbidden_check, status_meets, policy_check,
}

-- The links that stand at an object
abbrev pub links_at : OntologyGraph → Str → EdgeDirection → List OntologyLink
links_at g id d = filter (λ l. str_eq (near_id l d) id) g.links

-- Those of a type, to an object of a type where one is given
abbrev pub links_of : OntologyGraph → Str → EdgeDirection → Str → Option Str → List OntologyLink
links_of g id d link_type other_type =
    filter (λ l. str_eq l.link_type link_type && unless_given other_type (far_type l d))
      (links_at g id d)

abbrev pub WithinBounds : OntologyGraph → OntologyObject → CardinalityRule → Type 0
WithinBounds g o c =
    blocks c.severity ≡ true
    → (under c.min (length (links_of g o.id c.direction c.link_type c.other_type)) ≡ false)
      × (over c.max (length (links_of g o.id c.direction c.link_type c.other_type)) ≡ false)

abbrev pub HasRequired : OntologyGraph → OntologyObject → RequiredRelationshipRule → Type 0
HasRequired g o r =
    blocks r.severity ≡ true
    → or_else r.min 1 ≤ length (links_of g o.id r.direction r.link_type r.other_type)

abbrev pub MeetsPolicy : OntologyGraph → OntologyObject → PolicyRule → Type 0
MeetsPolicy g o p =
    blocks p.severity ≡ true
    → any (λ l. status_meets (index_graph g) p.with_status (far_id l p.direction))
        (links_of g o.id p.direction p.link_type p.other_type)
      ≡ true

abbrev pub IsConnected : OntologyGraph → OntologyObject → GraphRule → Type 0
IsConnected g o rule =
    truthy rule.must_connect ≡ true
    → 0 < length (links_at g o.id outward) + length (links_at g o.id inward)

-- No link comes from, or goes to, an object of a forbidden type.
abbrev pub AvoidsForbidden : OntologyGraph → OntologyObject → GraphRule → Type 0
AvoidsForbidden g o rule =
    (any (λ l. forbids rule.forbidden_parent_types l.from_type) (links_at g o.id inward) ≡ false)
    × (any (λ l. forbids rule.forbidden_target_types l.to_type) (links_at g o.id outward) ≡ false)

pub for_ruled_iff :
    (check : OntologyObject → GraphRule → List GraphFinding)
    (P : OntologyObject → GraphRule → Type 0) (rules : Rules) (objects : List OntologyObject)
    → ((o : OntologyObject) (rule : GraphRule) → (any is_error (check o rule) ≡ false) ↔ P o rule)
    → (any is_error (for_ruled check rules objects) ≡ false) ↔ Ruled P (λ t. lookup t rules) objects
unfolding for_ruled
for_ruled_iff check P rules objects f =
    let (there, back) = any-flatten is_error _ objects in
    let (on, off) = All-iff _ _ objects one in (λ h. on (there h), λ h. back (off h))
  where
    checked : OntologyObject → Option GraphRule → List GraphFinding
    checked o r = elim r [ none ↦ [] | some rule ↦ check o rule ]

    split :
        (o : OntologyObject) (r : Option GraphRule)
        → (any is_error (checked o r) ≡ false) ↔ ((rule : GraphRule) → r ≡ some rule → P o rule)
    split o none = (λ h rule e. absurd (ground (arith, e)), λ h. refl)
    split o (some rule) = (
      λ h rule1 e. subst (P o) (ap (λ r. or_else r rule) e) ((f o rule).0 h),
      λ h. (f o rule).1 (h rule refl),
    )

    one :
        (o : OntologyObject)
        → (any is_error (checked o (lookup o.object_type rules)) ≡ false)
          ↔ ((rule : GraphRule) → lookup o.object_type rules ≡ some rule → P o rule)
    one o = split o (lookup o.object_type rules)

matching-index_graph :
    (g : OntologyGraph) (id : Str) (d : EdgeDirection) (link_type : Str) (other_type : Option Str)
    → matching (index_graph g) id d link_type other_type ≡ links_of g id d link_type other_type
unfolding matching
matching-index_graph g id d link_type other_type =
    ap (filter (λ l. str_eq l.link_type link_type && unless_given other_type (far_type l d)))
      (edges_for-index_graph g id d)

pub orphan_check_iff :
    (g : OntologyGraph) (o : OntologyObject) (rule : GraphRule)
    → (any is_error (orphan_check (index_graph g) o rule) ≡ false) ↔ IsConnected g o rule
unfolding orphan_check
orphan_check_iff g o rule =
    rw (edges_for-index_graph g o.id outward)
      (rw (edges_for-index_graph g o.id inward) (ground arith))

pub required_check_iff :
    (g : OntologyGraph) (o : OntologyObject) (r : RequiredRelationshipRule)
    → (any is_error (required_check (index_graph g) o r) ≡ false) ↔ HasRequired g o r
unfolding required_check
required_check_iff g o r =
    rw (matching-index_graph g o.id r.direction r.link_type r.other_type) (ground arith)

pub cardinality_check_iff :
    (g : OntologyGraph) (o : OntologyObject) (c : CardinalityRule)
    → (any is_error (cardinality_check (index_graph g) o c) ≡ false) ↔ WithinBounds g o c
unfolding cardinality_check
cardinality_check_iff g o c =
    rw (matching-index_graph g o.id c.direction c.link_type c.other_type) (ground arith)

pub policy_check_iff :
    (g : OntologyGraph) (o : OntologyObject) (p : PolicyRule)
    → (any is_error (policy_check (index_graph g) o p) ≡ false) ↔ MeetsPolicy g o p
unfolding policy_check
policy_check_iff g o p =
    rw (matching-index_graph g o.id p.direction p.link_type p.other_type) (ground arith)

any-path_finding :
    (o : OntologyObject) (path : OntologyLink → List Str) (p : OntologyLink → Bool)
    (ls : List OntologyLink)
    → any is_error (map (λ l. path_finding o l (path l)) (filter p ls)) ≡ any p ls
any-path_finding o path p [] = refl
any-path_finding o path p (l ∷ ls) = ground (arith, any-path_finding o path p ls)

pub forbidden_check_iff :
    (g : OntologyGraph) (o : OntologyObject) (rule : GraphRule)
    → (any is_error (forbidden_check (index_graph g) o rule) ≡ false) ↔ AvoidsForbidden g o rule
unfolding forbidden_check
forbidden_check_iff g o rule = rw (edges_for-index_graph g o.id outward) (
    rw (edges_for-index_graph g o.id inward) (
      ground (
        arith,
        any-append is_error
            (map (λ l. path_finding o l (l.from_id ∷ o.id ∷ []))
              (filter (λ l. forbids rule.forbidden_parent_types l.from_type)
                (links_at g o.id inward)))
            (map (λ l. path_finding o l (o.id ∷ l.to_id ∷ []))
              (filter (λ l. forbids rule.forbidden_target_types l.to_type)
                (links_at g o.id outward))),
        any-path_finding o (λ l. l.from_id ∷ o.id ∷ [])
            (λ l. forbids rule.forbidden_parent_types l.from_type) (links_at g o.id inward),
        any-path_finding o (λ l. o.id ∷ l.to_id ∷ [])
            (λ l. forbids rule.forbidden_target_types l.to_type) (links_at g o.id outward),
      )))
