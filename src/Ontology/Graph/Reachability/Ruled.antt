-- ===== src/Ontology/Graph/Reachability/Ruled.antt =====
-- `checkReachability` over the whole graph against what the objects have to reach.
use adam_os.Base.{
  ◌≡◌, refl, ◌∙◌, ap, ◌↔◌, true, false, not, Option, none, some, List, [], ◌∷◌, ◌++◌, map, arith,
  Str, contains, lookup, filter, any, any-append, All, All-iff, or_else, Bool-cases, inl, inr,
  subst,
}
use adam_os.Ontology.Graph.{
  GraphFinding, OntologyObject, OntologyGraph, ReachabilityRule, GraphRule, Rules, unreachable,
  error,
}
use adam_os.Ontology.Graph.Report.{is_error}
use adam_os.Ontology.Graph.Checks.{object_finding}
use adam_os.Ontology.Graph.Asked.{blocks, Ruled}
use adam_os.Ontology.Graph.Reachability.{
  missing_types, reachability_check, rule_of, reachability_of, check_reachability,
}
use adam_os.Ontology.Graph.Reachability.Paths.{ReachesType, reached_types_iff}

-- Links lead to each type that the rule asks for.
abbrev pub ReachesAll : OntologyGraph → OntologyObject → ReachabilityRule → Type 0
ReachesAll g o r =
    blocks r.severity ≡ true → All (ReachesType g r.via_link_types o.id) r.must_reach_types

abbrev pub MeetsReach : OntologyGraph → OntologyObject → GraphRule → Type 0
MeetsReach g o rule = (r : ReachabilityRule) → rule.reachability ≡ some r → ReachesAll g o r

any-missing :
    (o : OntologyObject) (r : ReachabilityRule) (reached ts : List Str)
    → (any is_error (
          map
            (λ t. object_finding unreachable (or_else r.severity error) o none)
            (filter (λ t. not (contains t reached)) ts))
        ≡ false)
      ↔ (blocks r.severity ≡ true → All (λ t. contains t reached ≡ true) ts)
any-missing o r reached [] = (λ h b. tt, λ h. refl)
any-missing o r reached (t ∷ ts) =
    let (there, back) = any-missing o r reached ts in
    elim (Bool-cases (contains t reached)) [
      | inl has ↦ rw has (λ h b. (refl, there h b), λ h. back (λ b. (h b).1))
      | inr lacks ↦ rw lacks (
        λ h b. absurd (ground (arith, h, b)),
        λ h. elim (Bool-cases (blocks r.severity)) [
          | inl b ↦ absurd (ground (arith, (h b).0))
          | inr quiet ↦ ground (arith, quiet, back (λ b. absurd (ground (arith, b, quiet))))
        ],
      )
    ]

rule_of-some :
    (o : Option GraphRule) (r : ReachabilityRule)
    → rule_of o ≡ some r
    → (rule : GraphRule) × (o ≡ some rule) × (rule.reachability ≡ some r)
rule_of-some none r e = absurd (ground (arith, e))
rule_of-some (some rule) r e = (rule, refl, e)

reachability_check_iff :
    (g : OntologyGraph) (o : OntologyObject) (ro : Option ReachabilityRule)
    → (fs : List GraphFinding) × (reachability_check g o ro ≡ some fs)
      × ((any is_error fs ≡ false) ↔ ((r : ReachabilityRule) → ro ≡ some r → ReachesAll g o r))
unfolding reachability_check missing_types
reachability_check_iff g o none = ([], refl, (λ h r e. absurd (ground (arith, e)), λ h. refl))
reachability_check_iff g o (some r) =
    let (ts, found, iff) = reached_types_iff g r.via_link_types o.id in
    let (there, back) = any-missing o r ts r.must_reach_types in
    let (on, off) = All-iff _ _ r.must_reach_types iff in
    (
      missing_types o r ts,
      rw found refl,
      (
        λ h r1 e. subst (ReachesAll g o) (ap (λ q. or_else q r) e) (λ b. on (there h b)),
        λ h. back (λ b. off (h r refl b)),
      ),
    )

reachability_of_iff :
    (g : OntologyGraph) (rules : Rules) (os : List OntologyObject)
    → (fs : List GraphFinding) × (reachability_of g rules os ≡ some fs)
      × ((any is_error fs ≡ false) ↔ Ruled (MeetsReach g) (λ t. lookup t rules) os)
unfolding reachability_of
reachability_of_iff g rules [] = ([], refl, (λ h. tt, λ h. refl))
reachability_of_iff g rules (o ∷ os) =
    let (fs, found, iff) = reachability_check_iff g o (rule_of (lookup o.object_type rules)) in
    let (rest, founds, iffs) = reachability_of_iff g rules os in
    (
      fs ++ rest,
      rw found (rw founds refl),
      (
        λ h. (
          λ rule e r e1.
              iff.0 (ground (arith, h, any-append is_error fs rest)) r (ap rule_of e ∙ e1),
          iffs.0 (ground (arith, h, any-append is_error fs rest)),
        ),
        λ h.
            let here : any is_error fs ≡ false = iff.1 (λ r e.
              let (rule, e1, e2) = rule_of-some (lookup o.object_type rules) r e in
              h.0 rule e1 r e2) in
            ground (arith, here, iffs.1 h.1, any-append is_error fs rest),
      ),
    )

-- The check answers, and has no error exactly when each object reaches what its rule asks for.
pub check_reachability_iff :
    (g : OntologyGraph) (rules : Rules)
    → (fs : List GraphFinding) × (check_reachability g rules ≡ some fs)
      × ((any is_error fs ≡ false) ↔ Ruled (MeetsReach g) (λ t. lookup t rules) g.objects)
unfolding check_reachability
check_reachability_iff g rules = reachability_of_iff g rules g.objects
