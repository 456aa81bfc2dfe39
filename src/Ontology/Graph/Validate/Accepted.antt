-- ===== src/Ontology/Graph/Validate/Accepted.antt =====
-- The findings of `validateGraph` against what the rules ask of a graph.
use adam_os.Base.{
  ◌≡◌, refl, ◌∙◌, ap, ◌↔◌, Bool, false, some, List, [], ◌∷◌, ◌++◌, arith, Str, contains, Option,
  lookup, any, any-append, All, All-iff, or_else,
}
use adam_os.Ontology.Graph.{GraphFinding, OntologyObject, OntologyGraph, GraphRule, Rules}
use adam_os.Ontology.Graph.Report.{is_error}
use adam_os.Ontology.Graph.Checks.{
  detect_duplicate_edges, detect_orphans, check_required_relationships, check_cardinality,
  check_forbidden_paths, check_policies,
}
use adam_os.Ontology.Graph.Asked.{
  Ruled, Touches, HasEnough, IsBetween, HasNoForbidden, HasRelated, IsPlain, IsAccepted,
}
use adam_os.Ontology.Graph.Asked.Match.{
  HasRequired-iff, WithinBounds-iff, IsConnected-iff, AvoidsForbidden-iff, MeetsPolicy-iff,
}
use adam_os.Ontology.Graph.Asked.Plain.{keys_once_iff}
use adam_os.Ontology.Graph.Asked.Lead.{MeetsReach-iff}
use adam_os.Ontology.Graph.Checks.Ruled.{
  iff_trans, detect_orphans_iff, check_required_relationships_iff, check_cardinality_iff,
  check_forbidden_paths_iff, check_policies_iff, detect_duplicate_edges_iff,
}
use adam_os.Ontology.Graph.Cycles.{detect_cycles}
use adam_os.Ontology.Graph.Cycles.Complete.{
  IsAcyclicType, detect_cycles_total, detect_cycles_complete,
}
use adam_os.Ontology.Graph.Cycles.Sound.{IsCycleFinding, detect_cycles_sound, detect_cycles-acyclic}
use adam_os.Ontology.Graph.Reachability.Ruled.{check_reachability_iff}
use adam_os.Ontology.Graph.Validate.{all_findings}

Ruled-iff :
    (P Q : OntologyObject → GraphRule → Type 0) (rule_for : Str → Option GraphRule)
    (objects : List OntologyObject)
    → ((o : OntologyObject) (rule : GraphRule) → P o rule ↔ Q o rule)
    → Ruled P rule_for objects ↔ Ruled Q rule_for objects
Ruled-iff P Q rule_for objects f =
    All-iff _ _ objects
      (λ o. (λ h rule e. (f o rule).0 (h rule e), λ h rule e. (f o rule).1 (h rule e)))

-- Every finding of a cycle is an error.
any-cycles :
    (g : OntologyGraph) (allowed : List Str) (fs : List GraphFinding)
    → All (IsCycleFinding g.links allowed) fs
    → any is_error fs ≡ false
    → fs ≡ []
any-cycles g allowed [] a h = refl
any-cycles g allowed (f ∷ fs) ((t, path, e, _, _), a) h = absurd (ground (arith, h, e))

cycles_iff :
    (g : OntologyGraph) (allowed : List Str) {fs : List GraphFinding}
    → detect_cycles g allowed ≡ some fs
    → (any is_error fs ≡ false) ↔ ((t : Str) → contains t allowed ≡ false → IsAcyclicType g.links t)
cycles_iff g allowed {fs} found = (
  λ h t free.
      detect_cycles_complete g allowed t
        (found ∙ ap some (any-cycles g allowed fs (detect_cycles_sound g allowed found) h)) free,
  λ ranked. ground (arith, found, detect_cycles-acyclic g allowed ranked),
)

parts_iff :
    (p : GraphFinding → Bool) (a b c d e f g h : List GraphFinding)
    → (any p (a ++ (b ++ (c ++ (d ++ (e ++ (f ++ (g ++ h))))))) ≡ false) ↔ (
        (any p a ≡ false)
        × (any p b ≡ false)
        × (any p c ≡ false)
        × (any p d ≡ false)
        × (any p e ≡ false)
        × (any p f ≡ false)
        × (any p g ≡ false)
        × (any p h ≡ false))
parts_iff p a b c d e f g h = ground (
  arith,
  any-append p a (b ++ (c ++ (d ++ (e ++ (f ++ (g ++ h)))))),
  any-append p b (c ++ (d ++ (e ++ (f ++ (g ++ h))))),
  any-append p c (d ++ (e ++ (f ++ (g ++ h)))),
  any-append p d (e ++ (f ++ (g ++ h))),
  any-append p e (f ++ (g ++ h)),
  any-append p f (g ++ h),
  any-append p g h,
)

module _ (g : OntologyGraph) (rules : Rules) where
  orphans_iff :
      (any is_error (detect_orphans g rules) ≡ false)
      ↔ Ruled (Touches g) (λ t. lookup t rules) g.objects
  orphans_iff = iff_trans (detect_orphans_iff g rules) (Ruled-iff _ _ _ _ (IsConnected-iff g))

  paths_iff :
      (any is_error (check_forbidden_paths g rules) ≡ false)
      ↔ Ruled (HasNoForbidden g) (λ t. lookup t rules) g.objects
  paths_iff =
      iff_trans (check_forbidden_paths_iff g rules) (Ruled-iff _ _ _ _ (AvoidsForbidden-iff g))

  required_iff :
      (any is_error (check_required_relationships g rules) ≡ false)
      ↔ Ruled
          (λ o rule. All (HasEnough g o) (or_else rule.required_relationships []))
          (λ t. lookup t rules)
          g.objects
  required_iff =
      iff_trans (check_required_relationships_iff g rules)
        (Ruled-iff _ _ _ _ (λ o rule. All-iff _ _ _ (HasRequired-iff g o)))

  cardinality_iff :
      (any is_error (check_cardinality g rules) ≡ false)
      ↔ Ruled
          (λ o rule. All (IsBetween g o) (or_else rule.cardinality []))
          (λ t. lookup t rules)
          g.objects
  cardinality_iff =
      iff_trans (check_cardinality_iff g rules)
        (Ruled-iff _ _ _ _ (λ o rule. All-iff _ _ _ (WithinBounds-iff g o)))

  policies_iff :
      (any is_error (check_policies g rules) ≡ false)
      ↔ Ruled
          (λ o rule. All (HasRelated g o) (or_else rule.policies []))
          (λ t. lookup t rules)
          g.objects
  policies_iff =
      iff_trans (check_policies_iff g rules)
        (Ruled-iff _ _ _ _ (λ o rule. All-iff _ _ _ (MeetsPolicy-iff g o)))

  -- The findings are computed. When no link type and no id of a link's source has the code unit 0
  -- in it, none of the findings is an error exactly when the graph is as the rules ask.
  pub all_findings_iff :
      (allowed : List Str)
      → IsPlain g.links
      → (fs : List GraphFinding) × (all_findings g rules allowed ≡ some fs)
        × ((any is_error fs ≡ false) ↔ IsAccepted g (λ t. lookup t rules) allowed)
  unfolding all_findings
  all_findings_iff allowed plain =
      let (cycles, found) = detect_cycles_total g allowed in
      let (unreachable, searched, reach) = check_reachability_iff g rules in
      let once = iff_trans (detect_duplicate_edges_iff g) (keys_once_iff g plain) in
      let reach_iff = iff_trans reach (Ruled-iff _ _ _ _ (MeetsReach-iff g)) in
      let cycle_iff = cycles_iff g allowed found in
      let (split, join) =
        parts_iff is_error (detect_duplicate_edges g) (detect_orphans g rules)
          (check_required_relationships g rules) (check_cardinality g rules)
          (check_forbidden_paths g rules) cycles unreachable (check_policies g rules) in
      (
        detect_duplicate_edges g
            ++ (detect_orphans g rules
                ++ (check_required_relationships g rules
                    ++ (check_cardinality g rules
                        ++ (check_forbidden_paths g rules
                            ++ (cycles ++ (unreachable ++ check_policies g rules)))))),
        rw found (rw searched refl),
        (
          λ h.
              let (a, b, c, d, e, f, r, p) = split h in
              record {
                links_once = once.0 a;
                connected = orphans_iff.0 b;
                required = required_iff.0 c;
                bounded = cardinality_iff.0 d;
                paths = paths_iff.0 e;
                acyclic = cycle_iff.0 f;
                reaches = reach_iff.0 r;
                policies = policies_iff.0 p;
              },
          λ a. join (
            once.1 a.links_once,
            orphans_iff.1 a.connected,
            required_iff.1 a.required,
            cardinality_iff.1 a.bounded,
            paths_iff.1 a.paths,
            cycle_iff.1 a.acyclic,
            reach_iff.1 a.reaches,
            policies_iff.1 a.policies,
          ),
        ),
      )
