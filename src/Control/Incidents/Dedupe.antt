-- ===== src/Control/Incidents/Dedupe.antt =====
-- A component in a crash loop has one incident per window.
use adam_os.Base.{
  ℕ, ◌+◌, ◌≤◌, ◌≡◌, refl, sym, ap, ◌∙◌, ◌||◌, Bool-cases, any, All, or_else, str_eq, Bool, true,
  ◌&&◌, inl, inr, Option, none, some, List, [], ◌∷◌, arith, Str, str_eq_refl, is_some, length,
  filter, map, lookup, insert, if◌then◌else◌, suc,
}
use adam_os.Core.Collection.{
  Row, Rows, insert_row, patch_row, update_row, find_row, list_rows, first, is_of,
}
use adam_os.Control.Incidents.{
  Severity, critical, Incident, window_ms, threshold_source, severity_of, is_duplicate,
  raise_incident, raise_or_escalate, with_severity, maybe_raise,
}

length-insert :
    {B : Type 0} (k : Str) (r : B) (rows : List (Str × B))
    → length (insert k r rows)
      ≡ (if is_some (lookup k rows) then length rows else suc (length rows))
unfolding insert lookup
length-insert k r [] = refl
length-insert k r ((j, x) ∷ rows) = ground (arith, length-insert k r rows)

inserted-any :
    {B : Type 0} (q : Row B → Bool) (k : Str) (r : Row B) (rows : Rows B)
    → q r ≡ true
    → any q (map (λ e. e.1) (insert k r rows)) ≡ true
unfolding insert
inserted-any q k r [] h = rw h refl
inserted-any q k r ((j, x) ∷ rows) h = ground (arith, inserted-any q k r rows h)

first-of-any :
    {B : Type 0} (q : Row B → Bool) (rows : List (Row B))
    → any q rows ≡ true
    → (r : Row B) × (first (filter q rows) ≡ some r)
first-of-any q [] h = absurd (ground arith)
first-of-any q (x ∷ rows) h = elim (Bool-cases (q x)) [
  | inl it ↦ (x, rw it refl)
  | inr other ↦ let (r, e) = first-of-any q rows (ground arith) in (r, rw other e)
]

any-insert :
    {B : Type 0} (q : Row B → Bool) (k : Str) (r r' : Row B) (rows : Rows B)
    → lookup k rows ≡ some r
    → q r' ≡ q r
    → any q (map (λ e. e.1) (insert k r' rows)) ≡ any q (map (λ e. e.1) rows)
unfolding insert lookup
any-insert q k r r' [] found same = absurd (ground arith)
any-insert q k r r' ((j, x) ∷ rows) found same = elim (Bool-cases (str_eq j k)) [
  | inl here ↦ rw here (ap (λ b. b || any q (map (λ e. e.1) rows)) (same ∙ at here))
  | inr other ↦ rw other (ground (arith, any-insert q k r r' rows (ground (arith, found)) same))
]
  where
    at : str_eq j k ≡ true → q r ≡ q x
    at here =
        let this : lookup k ((j, x) ∷ rows) ≡ some x = rw here refl in
        ap (λ o. q (or_else o x)) (sym found ∙ this)

patch_row-any :
    {B : Type 0} (q : Row B → Bool) (id : Str) (patch : B → B) (o : Option (Row B)) (rows : Rows B)
    → lookup id rows ≡ o
    → ((r : Row B) → q (record r { body = patch r.body }) ≡ q r)
    → any q (map (λ e. e.1) (patch_row id patch o rows).1) ≡ any q (map (λ e. e.1) rows)
unfolding patch_row
patch_row-any q id patch none rows found same = refl
patch_row-any q id patch (some r) rows found same =
    any-insert q id r (record r { body = patch r.body }) rows found (same r)

patch_row-length :
    {B : Type 0} (id : Str) (patch : B → B) (o : Option (Row B)) (rows : Rows B)
    → lookup id rows ≡ o
    → length (patch_row id patch o rows).1 ≡ length rows
unfolding patch_row
patch_row-length id patch none rows found = refl
patch_row-length id patch (some r) rows found =
    ground (arith, found, length-insert id (record r { body = patch r.body }) rows)

-- With a duplicate there is no new incident.
raise_or_escalate-length :
    (now : ℕ) (tenant id : Str) (s : Severity) (marker : Str) (r : Row Incident)
    (rows : Rows Incident)
    → length (raise_or_escalate now tenant id s marker (some r) rows).1 ≡ length rows
unfolding raise_or_escalate update_row
raise_or_escalate-length now tenant id s marker r rows = ground (
  arith,
  patch_row-length r.id (λ i. record i { severity = critical }) (lookup r.id rows) rows refl,
)

module _ (tenant marker : Str) where
  -- The rows have a duplicate for calls at the time.
  HasDuplicate : ℕ → Rows Incident → Type 0
  HasDuplicate later rows =
      any (λ r. is_of tenant r && is_duplicate later marker r) (map (λ e. e.1) rows) ≡ true

  raised-HasDuplicate :
      (now later : ℕ) (id : Str) (s : Severity) (rows : Rows Incident)
      → later ≤ now + window_ms
      → HasDuplicate later (raise_incident now tenant id s marker rows)
  unfolding HasDuplicate raise_incident insert_row is_duplicate
  raised-HasDuplicate now later id s rows within =
      inserted-any (λ r. is_of tenant r && is_duplicate later marker r) id _ rows
        (ground (arith, str_eq_refl tenant, str_eq_refl marker, str_eq_refl threshold_source))

  raise_or_escalate-HasDuplicate :
      (now later : ℕ) (id : Str) (s : Severity) (r : Row Incident) (rows : Rows Incident)
      → HasDuplicate later rows
      → HasDuplicate later (raise_or_escalate now tenant id s marker (some r) rows).1
  unfolding HasDuplicate raise_or_escalate update_row is_duplicate
  raise_or_escalate-HasDuplicate now later id s r rows h = ground (
    arith,
    h,
    patch_row-any (λ x. is_of tenant x && is_duplicate later marker x) r.id
        (λ i. record i { severity = critical }) (lookup r.id rows) rows refl (λ x. refl),
  )

  found :
      (now : ℕ) (rows : Rows Incident)
      → HasDuplicate now rows
      → (r : Row Incident) × (find_row tenant (is_duplicate now marker) rows ≡ some r)
  unfolding HasDuplicate find_row list_rows
  found now rows h =
      first-of-any (λ r. is_of tenant r && is_duplicate now marker r) (map (λ e. e.1) rows) h

  with_severity-once :
      (now : ℕ) (id : Str) (s : Option Severity) (rows : Rows Incident)
      → HasDuplicate now rows
      → (length (with_severity now tenant id marker s rows).1 ≡ length rows)
        × ((later : ℕ)
            → HasDuplicate later rows
            → HasDuplicate later (with_severity now tenant id marker s rows).1)
  with_severity-once now id none rows h = (refl, λ later h'. h')
  with_severity-once now id (some s) rows h =
      let (r, same) = found now rows h in
      rw same (
        raise_or_escalate-length now tenant id s marker r rows,
        λ later. raise_or_escalate-HasDuplicate now later id s r rows,
      )

  -- The incidents after calls for a component, each with its time, the id that a new incident would
  -- get, and the failures counted.
  abbrev pub after_calls : List (ℕ × Str × ℕ) → Rows Incident → Rows Incident
  after_calls [] rows = rows
  after_calls ((now, id, failures) ∷ calls) rows =
      after_calls calls (maybe_raise now tenant id marker failures rows).1

  after_calls-length :
      (until : ℕ) (calls : List (ℕ × Str × ℕ)) (rows : Rows Incident)
      → All (λ c. c.0 ≤ until) calls
      → ((later : ℕ) → later ≤ until → HasDuplicate later rows)
      → length (after_calls calls rows) ≡ length rows
  unfolding maybe_raise
  after_calls-length until [] rows early h = refl
  after_calls-length until ((now, id, failures) ∷ calls) rows (this, early) h =
      let (same, keeps) = with_severity-once now id (severity_of failures) rows (h now this) in
      after_calls-length until calls (maybe_raise now tenant id marker failures rows).1 early
        (λ later within. keeps later (h later within))
      ∙ same

  -- After an incident is raised for a component, further calls for it within the window add none,
  -- however many they are, in whatever order, and however often the component fails.
  pub maybe_raise-once :
      (now : ℕ) (id : Str) (s : Severity) (rows : Rows Incident) (calls : List (ℕ × Str × ℕ))
      → All (λ c. c.0 ≤ now + window_ms) calls
      → length (after_calls calls (raise_incident now tenant id s marker rows))
        ≡ length (raise_incident now tenant id s marker rows)
  maybe_raise-once now id s rows calls early =
      after_calls-length (now + window_ms) calls (raise_incident now tenant id s marker rows) early
        (λ later within. raised-HasDuplicate now later id s rows within)
