-- ===== src/Ontology/Graph/Asked/Lead.antt =====
-- What the search of `checkReachability` reaches against what links lead to.
use adam_os.Base.{
  ◌≡◌, refl, sym, ◌∙◌, ap, ◌↔◌, inl, inr, true, Option, none, some, List, [], ◌∷◌, arith, Str,
  contains, lookup, Any, All-iff, or_else, subst,
}
use adam_os.Ontology.Graph.{OntologyObject, OntologyGraph, GraphRule}
use adam_os.Ontology.Graph.Reachability.{type_by_id, follows}
use adam_os.Ontology.Graph.Reachability.Paths.{ReachesType, Reaches-map}
use adam_os.Ontology.Graph.Reachability.Ruled.{MeetsReach}
use adam_os.Ontology.Graph.Asked.{last_of, LeadsTo, LeadsToAll}
use adam_os.Ontology.Graph.Asked.Last.{lookup-foldl-insert, or_first-none}

follows_iff :
    (via : Option (List Str)) (t : Str)
    → (follows via t ≡ true) ↔ ((ts : List Str) → via ≡ some ts → contains t ts ≡ true)
follows_iff none t = (λ h ts e. absurd (ground (arith, e)), λ h. refl)
follows_iff (some us) t =
    (λ h ts e. subst (λ q. contains t q ≡ true) (ap (λ q. or_else q us) e) h, λ h. h us refl)

Any-iff {ℓ} :
    {A : Type ℓ} (P Q : A → Type 0) (xs : List A) → ((a : A) → P a → Q a) → Any P xs → Any Q xs
Any-iff P Q [] f h = h
Any-iff P Q (x ∷ xs) f (inl p) = inl (f x p)
Any-iff P Q (x ∷ xs) f (inr h) = inr (Any-iff P Q xs f h)

lookup-type :
    (g : OntologyGraph) (x : Str)
    → lookup x (type_by_id g.objects) ≡ last_of (λ o. o.id) (λ o. o.object_type) x g.objects
unfolding type_by_id lookup
lookup-type g x =
    lookup-foldl-insert (λ o. o.id) (λ o. o.object_type) x g.objects [] ∙ or_first-none _

ReachesType-iff :
    (g : OntologyGraph) (via : Option (List Str)) (id t : Str)
    → ReachesType g via id t ↔ LeadsTo g via id t
ReachesType-iff g via id t = (
  λ (x, r, far, (typed, full)). (
    x,
    Reaches-map _ _ id x
        (λ u v. Any-iff _ _ g.links (λ l (f, e1, e2). ((follows_iff via l.link_type).0 f, e1, e2)))
        r,
    far,
    sym (lookup-type g x) ∙ typed,
    full,
  ),
  λ (x, r, far, typed, full). (
    x,
    Reaches-map _ _ id x
        (λ u v. Any-iff _ _ g.links (λ l (f, e1, e2). ((follows_iff via l.link_type).1 f, e1, e2)))
        r,
    far,
    (lookup-type g x ∙ typed, full),
  ),
)

pub MeetsReach-iff :
    (g : OntologyGraph) (o : OntologyObject) (rule : GraphRule)
    → MeetsReach g o rule ↔ LeadsToAll g o rule
MeetsReach-iff g o rule = (
  λ h r e b. (All-iff _ _ r.must_reach_types (ReachesType-iff g r.via_link_types o.id)).0 (h r e b),
  λ h r e b. (All-iff _ _ r.must_reach_types (ReachesType-iff g r.via_link_types o.id)).1 (h r e b),
)
