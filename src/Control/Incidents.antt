-- ===== src/Control/Incidents.antt =====
-- lib/mission-control/runtime/failure-threshold.ts, with raiseIncident of deployment-service.ts.
pub mod Dedupe
use adam_os.Base.{
  ℕ, ◌+◌, ◌-◌, ◌*◌, Bool, true, false, not, ◌&&◌, Option, none, some, List, [], ◌∷◌, Str, str,
  str_eq, leb, if◌then◌else◌, length, filter,
}
use adam_os.Core.Collection.{Row, Rows, insert_row, update_row, find_row}

pub data Severity : Type 0 where
  high critical : Severity

-- Another severity may stand in an incident that someone else raised.
pub record Incident : Type 0 where
  pub resolved : Bool
  pub source : Str
  pub detail : Option Str
  pub severity : Severity
  pub created_at : ℕ

abbrev pub window_ms : ℕ
window_ms = 15 * 60 * 1000

abbrev pub threshold_source : Str
threshold_source = str "runtime_threshold"

abbrev pub is_critical : Severity → Bool
is_critical high = false
is_critical critical = true

unfoldable pub severity_of : ℕ → Option Severity
severity_of n = if leb 5 n then some critical else if leb 3 n then some high else none

abbrev pub is_detail : Str → Option Str → Bool
is_detail marker none = false
is_detail marker (some d) = str_eq d marker

-- An unresolved threshold incident of the component inside the window before `now`.
unfoldable pub is_duplicate : ℕ → Str → Row Incident → Bool
is_duplicate now marker r =
    not r.body.resolved
    && str_eq r.body.source threshold_source
    && is_detail marker r.body.detail
    && leb (now - r.body.created_at) window_ms

unfoldable pub raise_incident : ℕ → Str → Str → Severity → Str → Rows Incident → Rows Incident
raise_incident now tenant id severity marker rows =
    insert_row
      (record {
        id = id;
        tenant_id = tenant;
        body = record {
          resolved = false;
          source = threshold_source;
          detail = some marker;
          severity = severity;
          created_at = now;
        };
      })
      rows

-- What follows the search for a duplicate.
unfoldable pub raise_or_escalate :
    ℕ
    → Str
    → Str
    → Severity
    → Str
    → Option (Row Incident)
    → Rows Incident
    → Option Severity × Rows Incident
unfolding raise_incident
raise_or_escalate now tenant id severity marker none rows =
    (some severity, raise_incident now tenant id severity marker rows)
raise_or_escalate now tenant id severity marker (some existing) rows =
    if is_critical severity && not (is_critical existing.body.severity)
    then (some critical, (update_row existing.id (λ i. record i { severity = critical }) rows).1)
    else (none, rows)

abbrev pub with_severity :
    ℕ → Str → Str → Str → Option Severity → Rows Incident → Option Severity × Rows Incident
with_severity now tenant id marker none rows = (none, rows)
with_severity now tenant id marker (some severity) rows =
    raise_or_escalate now tenant id severity marker (find_row tenant (is_duplicate now marker) rows)
      rows

-- `maybeRaiseFailureIncident` of a tenant at `now`, with the id that a new incident would get.
unfoldable pub maybe_raise :
    ℕ → Str → Str → Str → ℕ → Rows Incident → Option Severity × Rows Incident
unfolding raise_or_escalate severity_of is_duplicate
maybe_raise now tenant id marker failures rows =
    with_severity now tenant id marker (severity_of failures) rows

unfoldable pub count_recent_failures : {R : Type 0} → ℕ → (R → ℕ) → (R → Bool) → List R → ℕ
count_recent_failures now created_at is_failure rows =
    length (filter (λ r. is_failure r && leb (now - created_at r) window_ms) rows)
