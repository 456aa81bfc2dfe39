-- ===== src/Ontology/Graph/Checks/Ruled.antt =====
-- Each validator over the whole graph against what the objects have to meet.
use adam_os.Base.{
  ◌≤◌, ◌≡◌, ◌↔◌, true, false, List, [], ◌∷◌, map, arith, Str, lookup, count, any, any-flatten, All,
  All-iff, or_else, is_empty,
}
use adam_os.Ontology.Graph.{OntologyGraph, Rules}
use adam_os.Ontology.Graph.Report.{is_error}
use adam_os.Ontology.Graph.Asked.{Ruled}
use adam_os.Ontology.Graph.Checks.{
  SeenEdge, duplicate_finding, edge_key, detect_duplicate_edges, detect_orphans,
  check_required_relationships, check_cardinality, check_forbidden_paths, check_policies,
}
use adam_os.Ontology.Graph.Checks.Edges.{detect_duplicate_edges-none}
use adam_os.Ontology.Graph.Checks.Meets.{
  HasRequired, WithinBounds, MeetsPolicy, IsConnected, AvoidsForbidden, for_ruled_iff,
  orphan_check_iff, required_check_iff, cardinality_check_iff, policy_check_iff,
  forbidden_check_iff,
}

pub iff_trans : {A B C : Type 0} → A ↔ B → B ↔ C → A ↔ C
iff_trans f g = (λ a. g.0 (f.0 a), λ c. f.1 (g.1 c))

module _ (g : OntologyGraph) (rules : Rules) where
  pub detect_orphans_iff :
      (any is_error (detect_orphans g rules) ≡ false)
      ↔ Ruled (IsConnected g) (λ t. lookup t rules) g.objects
  unfolding detect_orphans
  detect_orphans_iff = for_ruled_iff _ (IsConnected g) rules g.objects (orphan_check_iff g)

  pub check_forbidden_paths_iff :
      (any is_error (check_forbidden_paths g rules) ≡ false)
      ↔ Ruled (AvoidsForbidden g) (λ t. lookup t rules) g.objects
  unfolding check_forbidden_paths
  check_forbidden_paths_iff =
      for_ruled_iff _ (AvoidsForbidden g) rules g.objects (forbidden_check_iff g)

  pub check_required_relationships_iff :
      (any is_error (check_required_relationships g rules) ≡ false)
      ↔ Ruled
          (λ o rule. All (HasRequired g o) (or_else rule.required_relationships []))
          (λ t. lookup t rules)
          g.objects
  unfolding check_required_relationships
  check_required_relationships_iff =
      for_ruled_iff _ _ rules g.objects
        (λ o rule. iff_trans (any-flatten is_error _ _) (All-iff _ _ _ (required_check_iff g o)))

  pub check_cardinality_iff :
      (any is_error (check_cardinality g rules) ≡ false)
      ↔ Ruled
          (λ o rule. All (WithinBounds g o) (or_else rule.cardinality []))
          (λ t. lookup t rules)
          g.objects
  unfolding check_cardinality
  check_cardinality_iff =
      for_ruled_iff _ _ rules g.objects
        (λ o rule. iff_trans (any-flatten is_error _ _) (All-iff _ _ _ (cardinality_check_iff g o)))

  pub check_policies_iff :
      (any is_error (check_policies g rules) ≡ false)
      ↔ Ruled
          (λ o rule. All (MeetsPolicy g o) (or_else rule.policies []))
          (λ t. lookup t rules)
          g.objects
  unfolding check_policies
  check_policies_iff =
      for_ruled_iff _ _ rules g.objects
        (λ o rule. iff_trans (any-flatten is_error _ _) (All-iff _ _ _ (policy_check_iff g o)))

any-duplicate_finding :
    (es : List SeenEdge)
    → (any is_error (map duplicate_finding es) ≡ false)
      ↔ (is_empty (map duplicate_finding es) ≡ true)
any-duplicate_finding [] = ground arith
any-duplicate_finding (e ∷ es) = ground arith

pub detect_duplicate_edges_iff :
    (g : OntologyGraph)
    → (any is_error (detect_duplicate_edges g) ≡ false)
      ↔ ((k : Str) → count k (map edge_key g.links) ≤ 1)
unfolding detect_duplicate_edges
detect_duplicate_edges_iff g = iff_trans (any-duplicate_finding _) (detect_duplicate_edges-none g)
