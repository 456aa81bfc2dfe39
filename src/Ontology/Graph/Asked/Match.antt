-- ===== src/Ontology/Graph/Asked/Match.antt =====
-- The tests of the validators against what is asked.
use adam_os.Base.{
  ℕ, ◌+◌, ◌≤◌, ◌<◌, ◌≡◌, refl, sym, ◌∙◌, ap, ◌↔◌, ◌⊎◌, inl, inr, Bool, true, false, ◌&&◌, Option,
  none, some, List, [], ◌∷◌, arith, Str, str_eq, str_eq_iff, contains, lookup, filter, any, All,
  All-iff, Any, length, or_else, Bool-cases, subst,
}
use adam_os.Ontology.Graph.{
  OntologyObject, OntologyLink, OntologyGraph, EdgeDirection, outward, inward,
  RequiredRelationshipRule, CardinalityRule, PolicyRule, GraphRule, index_graph, near_id, far_type,
  far_id,
}
use adam_os.Ontology.Graph.Checks.{unless_given, under, over, forbids, has_status, status_meets}
use adam_os.Ontology.Graph.Checks.Meets.{
  links_of, WithinBounds, HasRequired, MeetsPolicy, IsConnected, AvoidsForbidden,
}
use adam_os.Ontology.Graph.Asked.{
  other_end, admits, is_such, count_such, last_of, Touches, HasEnough, IsBetween, HasNoForbidden,
  HasWanted, HasRelated,
}
use adam_os.Ontology.Graph.Asked.Last.{lookup-foldl-insert, or_first-none}

unless_given-admits : (o : Option Str) (t : Str) → unless_given o t ≡ admits o t
unless_given-admits none t = refl
unless_given-admits (some []) t = refl
unless_given-admits (some (c ∷ x)) t = refl

such_link :
    (id : Str) (d : EdgeDirection) (link_type : Str) (asked : Option Str) (l : OntologyLink)
    → (str_eq (near_id l d) id
        && (str_eq l.link_type link_type && unless_given asked (far_type l d)))
      ≡ is_such id d link_type asked l
such_link id outward link_type asked l = ground (arith, unless_given-admits asked l.to_type)
such_link id inward link_type asked l = ground (arith, unless_given-admits asked l.from_type)

filter-filter {ℓ} :
    {A : Type ℓ} (p q r : A → Bool) (xs : List A)
    → ((a : A) → (q a && p a) ≡ r a)
    → filter p (filter q xs) ≡ filter r xs
filter-filter p q r [] h = refl
filter-filter p q r (x ∷ xs) h = ground (arith, filter-filter p q r xs h, h x)

pub links_of-such :
    (g : OntologyGraph) (id : Str) (d : EdgeDirection) (link_type : Str) (asked : Option Str)
    → links_of g id d link_type asked ≡ filter (is_such id d link_type asked) g.links
links_of-such g id d link_type asked = filter-filter _ _ _ g.links (such_link id d link_type asked)

pub HasRequired-iff :
    (g : OntologyGraph) (o : OntologyObject) (r : RequiredRelationshipRule)
    → HasRequired g o r ↔ HasEnough g o r
HasRequired-iff g o r =
    rw (links_of-such g o.id r.direction r.link_type r.other_type) (λ h. h, λ h. h)

under_iff : (o : Option ℕ) (n : ℕ) → (under o n ≡ false) ↔ ((m : ℕ) → o ≡ some m → m ≤ n)
under_iff none n = (λ h m e. absurd (ground (arith, e)), λ h. refl)
under_iff (some k) n = (λ h m e. ground (arith, h, e), λ h. ground (arith, h k refl))

over_iff : (o : Option ℕ) (n : ℕ) → (over o n ≡ false) ↔ ((m : ℕ) → o ≡ some m → n ≤ m)
over_iff none n = (λ h m e. absurd (ground (arith, e)), λ h. refl)
over_iff (some k) n = (λ h m e. ground (arith, h, e), λ h. ground (arith, h k refl))

pub WithinBounds-iff :
    (g : OntologyGraph) (o : OntologyObject) (c : CardinalityRule)
    → WithinBounds g o c ↔ IsBetween g o c
WithinBounds-iff g o c =
    let n = count_such g o.id c.direction c.link_type c.other_type in
    rw (links_of-such g o.id c.direction c.link_type c.other_type) (
      λ h b. ((under_iff c.min n).0 (h b).0, (over_iff c.max n).0 (h b).1),
      λ h b. ((under_iff c.min n).1 (h b).0, (over_iff c.max n).1 (h b).1),
    )

-- Touching a link is to have one at either end.
at_ends :
    (id : Str) (links : List OntologyLink)
    → (0
        < length (filter (λ l. str_eq l.from_id id) links)
          + length (filter (λ l. str_eq l.to_id id) links))
      ↔ Any (λ l. (l.from_id ≡ id) ⊎ (l.to_id ≡ id)) links
at_ends id [] = (λ h. absurd (omega (arith, h)), λ h. absurd h)
at_ends id (l ∷ links) =
    let (there, back) = at_ends id links in
    (
      λ h. elim (Bool-cases (str_eq l.from_id id)) [
        | inl from ↦ inl (inl ((str_eq_iff l.from_id id).0 from))
        | inr no_from ↦ elim (Bool-cases (str_eq l.to_id id)) [
          | inl to ↦ inl (inr ((str_eq_iff l.to_id id).0 to))
          | inr no_to ↦ inr (there (ground (arith, h, no_from, no_to)))
        ]
      ],
      λ h. elim h [
        | inl (inl e) ↦ ground (arith, (str_eq_iff l.from_id id).1 e)
        | inl (inr e) ↦ ground (arith, (str_eq_iff l.to_id id).1 e)
        | inr rest ↦ ground (arith, back rest)
      ],
    )

pub IsConnected-iff :
    (g : OntologyGraph) (o : OntologyObject) (rule : GraphRule)
    → IsConnected g o rule ↔ Touches g o rule
IsConnected-iff g o rule =
    let (there, back) = at_ends o.id g.links in (λ h m. there (h m), λ h m. back (h m))

none-filter :
    (p q : OntologyLink → Bool) (links : List OntologyLink)
    → (any p (filter q links) ≡ false) ↔ All (λ l. q l ≡ true → p l ≡ false) links
none-filter p q [] = (λ h. tt, λ h. refl)
none-filter p q (l ∷ links) =
    let (there, back) = none-filter p q links in
    elim (Bool-cases (q l)) [
      | inl at_it ↦ rw at_it (
        λ h. (λ e. ground (arith, h), there (ground (arith, h))),
        λ h. ground (arith, h.0 refl, back h.1),
      )
      | inr off ↦ rw off (λ h. (λ e. absurd (ground (arith, e)), there h), λ h. back h.1)
    ]

forbids_iff :
    (o : Option (List Str)) (end_of type_of : OntologyLink → Str) (id : Str)
    (links : List OntologyLink)
    → (any (λ l. forbids o (type_of l)) (filter (λ l. str_eq (end_of l) id) links) ≡ false) ↔ (
        (ts : List Str)
        → o ≡ some ts
        → All (λ l. end_of l ≡ id → contains (type_of l) ts ≡ false) links)
forbids_iff none end_of type_of id links =
    (λ h ts e. absurd (ground (arith, e)), λ h. (none-filter _ _ links).1 (quiet links))
  where
    quiet : (ls : List OntologyLink) → All (λ l. str_eq (end_of l) id ≡ true → false ≡ false) ls
    quiet [] = tt
    quiet (l ∷ ls) = (λ e. refl, quiet ls)
forbids_iff (some ts) end_of type_of id links =
    let (there, back) =
      none-filter (λ l. contains (type_of l) ts) (λ l. str_eq (end_of l) id) links in
    let (on, off) =
      All-iff (λ l. str_eq (end_of l) id ≡ true → contains (type_of l) ts ≡ false)
        (λ l. end_of l ≡ id → contains (type_of l) ts ≡ false) links
        (λ l.
          (λ h e. h ((str_eq_iff (end_of l) id).1 e), λ h e. h ((str_eq_iff (end_of l) id).0 e))) in
    (
      λ h us e.
          subst (λ q. All (λ l. end_of l ≡ id → contains (type_of l) q ≡ false) links)
            (ap (λ q. or_else q ts) e) (on (there h)),
      λ h. back (off (h ts refl)),
    )

pub AvoidsForbidden-iff :
    (g : OntologyGraph) (o : OntologyObject) (rule : GraphRule)
    → AvoidsForbidden g o rule ↔ HasNoForbidden g o rule
AvoidsForbidden-iff g o rule =
    let (a, b) =
      forbids_iff rule.forbidden_parent_types (λ l. l.to_id) (λ l. l.from_type) o.id g.links in
    let (c, d) =
      forbids_iff rule.forbidden_target_types (λ l. l.from_id) (λ l. l.to_type) o.id g.links in
    (λ h. (a h.0, c h.1), λ h. (b h.0, d h.1))

has_status_iff : (o : Option (Option Str)) (s : Str) → (has_status o s ≡ true) ↔ (o ≡ some (some s))
has_status_iff none s = (λ h. absurd (ground (arith, h)), λ h. absurd (ground (arith, h)))
has_status_iff (some none) s = (λ h. absurd (ground (arith, h)), λ h. absurd (ground (arith, h)))
has_status_iff (some (some x)) s =
    (λ h. rw ((str_eq_iff x s).0 h) refl, λ h. ground (arith, h, str_eq_iff x s))

lookup-status :
    (g : OntologyGraph) (id : Str)
    → lookup id (index_graph g).status_by_id ≡ last_of (λ o. o.id) (λ o. o.status) id g.objects
unfolding index_graph lookup
lookup-status g id =
    lookup-foldl-insert (λ o. o.id) (λ o. o.status) id g.objects [] ∙ or_first-none _

status_meets_iff :
    (g : OntologyGraph) (wanted : Option Str) (id : Str)
    → (status_meets (index_graph g) wanted id ≡ true) ↔ HasWanted g wanted id
unfolding status_meets
status_meets_iff g none id = (λ h s e n. absurd (ground (arith, e)), λ h. refl)
status_meets_iff g (some []) id = (λ h s e n. absurd (ground (arith, e, n)), λ h. refl)
status_meets_iff g (some (c ∷ w)) id =
    let (there, back) = has_status_iff (lookup id (index_graph g).status_by_id) (c ∷ w) in
    (
      λ h s e n.
          subst (λ q. last_of (λ o. o.id) (λ o. o.status) id g.objects ≡ some (some q))
            (ap (λ q. or_else q (c ∷ w)) e) (sym (lookup-status g id) ∙ there h),
      λ h. back (lookup-status g id ∙ h (c ∷ w) refl refl),
    )

any-filter_iff :
    (p q : OntologyLink → Bool) (P : OntologyLink → Type 0) (links : List OntologyLink)
    → ((l : OntologyLink) → (p l ≡ true) ↔ P l)
    → (any p (filter q links) ≡ true) ↔ Any (λ l. (q l ≡ true) × P l) links
any-filter_iff p q P [] f = (λ h. absurd (ground (arith, h)), λ h. absurd h)
any-filter_iff p q P (l ∷ links) f =
    let (there, back) = any-filter_iff p q P links f in
    (
      λ h. elim (Bool-cases (q l)) [
        | inr off ↦ inr (there (rw off at h))
        | inl on ↦ elim (Bool-cases (p l)) [
          | inl met ↦ inl (on, (f l).0 met)
          | inr unmet ↦ inr (there (ground (arith, h, on, unmet)))
        ]
      ],
      λ h. elim h [
        | inl (on, met) ↦ rw on (ground (arith, (f l).1 met))
        | inr rest ↦ ground (arith, back rest)
      ],
    )

pub MeetsPolicy-iff :
    (g : OntologyGraph) (o : OntologyObject) (p : PolicyRule) → MeetsPolicy g o p ↔ HasRelated g o p
MeetsPolicy-iff g o p =
    let (there, back) =
      any-filter_iff (λ l. status_meets (index_graph g) p.with_status (far_id l p.direction))
        (is_such o.id p.direction p.link_type p.other_type)
        (λ l. HasWanted g p.with_status (other_end p.direction l)) g.links
        (λ l. status_meets_end l p.direction) in
    rw (links_of-such g o.id p.direction p.link_type p.other_type)
      (λ h b. there (h b), λ h b. back (h b))
  where
    status_meets_end :
        (l : OntologyLink) (d : EdgeDirection)
        → (status_meets (index_graph g) p.with_status (far_id l d) ≡ true)
          ↔ HasWanted g p.with_status (other_end d l)
    status_meets_end l outward = status_meets_iff g p.with_status l.to_id
    status_meets_end l inward = status_meets_iff g p.with_status l.from_id
