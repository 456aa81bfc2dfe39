-- ===== src/Ontology/Graph/Validate/Outcome.antt =====
-- What `validateGraph` returns or throws.
use std.Path.{fun_ext}
use adam_os.Base.{
  ◌≡◌, refl, sym, ◌∙◌, ap, ◌↔◌, ℕ, ◌+◌, Bool, true, false, not, ◌||◌, some, List, [], ◌∷◌, arith,
  Str, filter, any, is_empty, length, if◌then◌else◌, Result, ok, err, Option, lookup, subst,
}
use adam_os.Ontology.Graph.{GraphFinding, OntologyGraph, GraphRule, index_rules}
use adam_os.Ontology.Graph.Components.Count.{
  IsTransversal, count_disconnected_subgraphs-IsTransversal,
}
use adam_os.Ontology.Graph.Report.{
  GraphIntegrityReport, is_error, insert_finding, sort_findings, report_of, build_report,
}
use adam_os.Ontology.Graph.Enforcement.{GraphEnforcementMode, warn, enforce}
use adam_os.Ontology.Graph.Validate.{
  GraphMetrics, GraphIntegrityError, integrity_error, Validation, count_report, settle,
  validate_graph,
}
use adam_os.Ontology.Graph.Validate.Accepted.{all_findings_iff}
use adam_os.Ontology.Graph.Asked.{last_of, IsPlain, IsAccepted}
use adam_os.Ontology.Graph.Asked.Last.{lookup-foldl-insert, or_first-none}

any-insert_finding :
    (p : GraphFinding → Bool) (in_order : GraphFinding → GraphFinding → Bool) (f : GraphFinding)
    (xs : List GraphFinding)
    → any p (insert_finding in_order f xs) ≡ (p f || any p xs)
unfolding insert_finding
any-insert_finding p in_order f [] = refl
any-insert_finding p in_order f (x ∷ xs) = ground (arith, any-insert_finding p in_order f xs)

any-sort_findings :
    (p : GraphFinding → Bool) (in_order : GraphFinding → GraphFinding → Bool)
    (xs : List GraphFinding)
    → any p (sort_findings in_order xs) ≡ any p xs
unfolding sort_findings
any-sort_findings p in_order [] = refl
any-sort_findings p in_order (x ∷ xs) = ground (
  arith,
  any-insert_finding p in_order x (sort_findings in_order xs),
  any-sort_findings p in_order xs,
)

is_empty-filter {ℓ} :
    {A : Type ℓ} (p : A → Bool) (xs : List A) → is_empty (filter p xs) ≡ not (any p xs)
is_empty-filter p [] = refl
is_empty-filter p (x ∷ xs) = ground (arith, is_empty-filter p xs)

-- Whether a run returned
abbrev pub returned : Validation → Bool
returned v = elim v.result [ ok r ↦ true | err e ↦ false ]

-- The report that it returned, or that the error carries
abbrev pub report_in : Result GraphIntegrityError GraphIntegrityReport → GraphIntegrityReport
report_in (ok r) = r
report_in (err (integrity_error r)) = r

abbrev pub is_enforced : GraphEnforcementMode → Bool
is_enforced warn = false
is_enforced enforce = true

settle-report :
    (mode : GraphEnforcementMode) (valid : Bool) (r : GraphIntegrityReport) (m : GraphMetrics)
    → (report_in (settle mode valid r m).result ≡ r)
      × (returned (settle mode valid r m) ≡ (valid || not (is_enforced mode)))
      × ((settle mode valid r m).metrics.graphs_rejected
          ≡ (if returned (settle mode valid r m) then m.graphs_rejected else m.graphs_rejected + 1))
unfolding settle
settle-report warn true r m = (refl, refl, refl)
settle-report enforce true r m = (refl, refl, refl)
settle-report warn false r m = (refl, refl, refl)
settle-report enforce false r m = (refl, refl, refl)

of_not : {b : Bool} → not b ≡ true → b ≡ false
of_not {b = true} h = absurd (ground (arith, h))
of_not {b = false} h = refl

-- The last rule of a type
abbrev pub rule_in : List GraphRule → Str → Option GraphRule
rule_in rules t = last_of (λ r. r.object_type) (λ r. r) t rules

lookup-index_rules : (rules : List GraphRule) → (λ t. lookup t (index_rules rules)) ≡ rule_in rules
unfolding index_rules lookup
lookup-index_rules rules =
    fun_ext (λ t. lookup-foldl-insert (λ r. r.object_type) (λ r. r) t rules [] ∙ or_first-none _)

module _ (in_order : GraphFinding → GraphFinding → Bool) (g : OntologyGraph) where
  report_of-valid :
      (fs : List GraphFinding) (time n : ℕ)
      → (report_of (sort_findings in_order fs) g time n).valid ≡ not (any is_error fs)
  unfolding report_of
  report_of-valid fs time n = ground (
    arith,
    is_empty-filter is_error (sort_findings in_order fs),
    any-sort_findings is_error in_order fs,
  )

  -- What a run leaves, against the graph and the rules
  pub record IsOutcome (rules : List GraphRule) (allowed : List Str) (mode : GraphEnforcementMode)
      (m : GraphMetrics) (v : Validation) : Type 0 where
    pub valid_iff : ((report_in v.result).valid ≡ true) ↔ IsAccepted g (rule_in rules) allowed
    pub counts :
        (roots : List Str) × ((report_in v.result).statistics.disconnected_subgraphs ≡ length roots)
        × IsTransversal g roots
    pub returns : returned v ≡ ((report_in v.result).valid || not (is_enforced mode))
    pub rejects :
        v.metrics.graphs_rejected
        ≡ (if returned v then m.graphs_rejected else m.graphs_rejected + 1)

  -- When no link type and no id of a link's source has the code unit 0 in it, a run ends with a
  -- report. The report is valid exactly when the graph is as the rules ask, its number of
  -- disconnected subgraphs is the number of the graph's connected parts, it is thrown exactly when
  -- it is invalid and the mode enforces, and a rejection is counted exactly when it is thrown.
  pub validate_graph-IsOutcome :
      (rules : List GraphRule) (allowed : List Str) (mode : GraphEnforcementMode) (time : ℕ)
      (m : GraphMetrics)
      → IsPlain g.links
      → (v : Validation) × (validate_graph in_order g rules allowed mode time m ≡ some v)
        × IsOutcome rules allowed mode m v
  unfolding validate_graph build_report report_of
  validate_graph-IsOutcome rules allowed mode time m plain =
      let (fs, found, iff) = all_findings_iff g (index_rules rules) allowed plain in
      let (roots, counted, transversal) = count_disconnected_subgraphs-IsTransversal g in
      let r : GraphIntegrityReport = report_of (sort_findings in_order fs) g time (length roots) in
      let by_type = lookup-index_rules rules in
      let (same, back, rejected) = settle-report mode r.valid r (count_report r m) in
      let valid : (report_in (settle mode r.valid r (count_report r m)).result).valid
          ≡ not (any is_error fs) =
        ap (λ q. q.valid) same ∙ report_of-valid fs time (length roots) in
      (
        settle mode r.valid r (count_report r m),
        rw found (rw counted refl),
        record {
          valid_iff = (
            λ h. subst (λ f. IsAccepted g f allowed) by_type (iff.0 (of_not (sym valid ∙ h))),
            λ a. valid ∙ ap not (iff.1 (subst (λ f. IsAccepted g f allowed) (sym by_type) a)),
          );
          counts = (roots, ap (λ q. q.statistics.disconnected_subgraphs) same, transversal);
          returns = back ∙ ap (λ q. q.valid || not (is_enforced mode)) (sym same);
          rejects = rejected;
        },
      )
