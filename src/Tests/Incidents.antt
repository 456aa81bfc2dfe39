-- ===== src/Tests/Incidents.antt =====
-- lib/mission-control/runtime/failure-threshold.ts: three failures and then five.
use adam_os.Base.{
  ℕ, List, ◌∷◌, ◌≡◌, refl, some, [], arith, Str, str, str_eq, length, lookup, insert,
}
use adam_os.Core.Collection.{insert_row, update_row, find_row}
use adam_os.Control.Incidents.{high, critical, raise_incident, maybe_raise}
use adam_os.Control.Incidents.Dedupe.{after_calls, maybe_raise-once}

abbrev tenant : Str
tenant = str "t"

abbrev marker : Str
marker = str "agent:a"

raises_high : (maybe_raise 9 tenant (str "1") marker 3 []).0 ≡ some high
unfolding maybe_raise find_row
raises_high = refl

escalates :
    (maybe_raise 10 tenant (str "2") marker 5 (maybe_raise 9 tenant (str "1") marker 3 []).1).0
    ≡ some critical
unfolding maybe_raise find_row update_row insert_row insert lookup str_eq
escalates = refl

abbrev calls : List (ℕ × Str × ℕ)
calls = (10, str "2", 5) ∷ (11, str "3", 20) ∷ (12, str "4", 3) ∷ []

maybe_raise-once_example :
    length (after_calls tenant marker calls (raise_incident 9 tenant (str "1") high marker []))
    ≡ length (raise_incident 9 tenant (str "1") high marker [])
maybe_raise-once_example =
    maybe_raise-once tenant marker 9 (str "1") high [] calls
      (omega arith, (omega arith, (omega arith, tt)))
