-- ===== src/Missions/RetryManager/Attempts.antt =====
-- `runWithRetry`: the first success wins, after at most the attempts that it is given.
use adam_os.Base.{
  ℕ, zero, suc, ◌+◌, ◌≤◌, ◌<◌, ◌≡◌, refl, ◌⊎◌, inl, inr, true, false, Option, none, some, arith,
  Str, Result, ok, err, Result-cases, Bool-cases, ◌==◌, subst,
}
use adam_os.Missions.RetryManager.{AttemptOutcome, retry_from, run_with_retry}

next_or_later : (n i : ℕ) → n < i → (i ≡ n + 1) ⊎ (n + 1 < i)
next_or_later n i h = elim (Bool-cases (i == n + 1)) [
  | inl same ↦ inl (ground arith)
  | inr other ↦ inr (ground arith)
]

module _ {A : Type 0} (fn : ℕ → Result Str A) where
  abbrev pub Fails : ℕ → Type 0
  Fails n = (e : Str) × (fn n ≡ err e)

  -- Every attempt before the last one failed; the last one is the answer, or the attempts are used
  -- up and it failed too.
  pub record IsFirst (used total : ℕ) (o : AttemptOutcome A) : Type 0 where
    pub bounded : o.attempts ≤ total
    pub earlier : (i : ℕ) → used < i → i < o.attempts → Fails i
    pub last :
        ((a : A) × (fn o.attempts ≡ ok a) × (o.result ≡ some a) × (o.succeeded ≡ true))
        ⊎ ((o.attempts ≡ total)
            × (o.succeeded ≡ false)
            × ((i : ℕ) → used < i → i ≤ total → Fails i))

  module _ (on_attempt_error : ℕ → Str → Option Str) where
    abbrev pub IsSilent : Type 0
    IsSilent = (n : ℕ) (e : Str) → on_attempt_error n e ≡ none

    IsFirst-later :
        (used total : ℕ) (o : AttemptOutcome A)
        → Fails (used + 1)
        → IsFirst (used + 1) total o
        → IsFirst used total o
    IsFirst-later used total o failed f = record {
      bounded = f.bounded;
      earlier = λ i low high. at i low (λ l. f.earlier i l high);
      last = elim (f.last) [
        | inl answer ↦ inl answer
        | inr (all_used, lost, fails) ↦
            inr (all_used, lost, λ i low high. at i low (λ l. fails i l high))
      ];
    }
      where
        at : (i : ℕ) → used < i → (used + 1 < i → Fails i) → Fails i
        at i low rest = elim (next_or_later used i low) [
          | inl same ↦ rw same failed
          | inr later ↦ rest later
        ]

    retry_from-IsFirst :
        (left used : ℕ) (e : Option Str)
        → IsSilent
        → (o : AttemptOutcome A) × (retry_from fn on_attempt_error left used e ≡ ok o)
          × IsFirst used (used + left) o
    unfolding retry_from
    retry_from-IsFirst zero used e silent = (
      record { succeeded = false; attempts = used; result = none; error = e },
      refl,
      record {
        bounded = omega arith;
        earlier = λ i low high. absurd (omega arith);
        last = inr (omega arith, refl, λ i low high. absurd (omega arith));
      },
    )
    retry_from-IsFirst (suc left) used e silent = elim (Result-cases (fn (used + 1))) [
      | inl (a, answer) ↦ (
        record { succeeded = true; attempts = used + 1; result = some a; error = none },
        ground arith,
        record {
          bounded = omega arith;
          earlier = λ i low high. absurd (omega arith);
          last = inl (a, answer, refl, refl);
        },
      )
      | inr (thrown, failed) ↦
          let (o, answer, first) = retry_from-IsFirst left (used + 1) (some thrown) silent in
          (
            o,
            ground (arith, silent (used + 1) thrown),
            IsFirst-later used (used + suc left) o (thrown, failed)
                (subst (λ n. IsFirst (used + 1) n o) (omega arith) first),
          )
    ]

    -- With a callback that does not throw, `runWithRetry` answers with the first success, or with a
    -- failure after all the attempts.
    pub run_with_retry-IsFirst :
        (max_attempts : ℕ)
        → IsSilent
        → (o : AttemptOutcome A) × (run_with_retry fn on_attempt_error max_attempts ≡ ok o)
          × IsFirst 0 max_attempts o
    unfolding run_with_retry
    run_with_retry-IsFirst max_attempts silent =
        let (o, answer, first) = retry_from-IsFirst max_attempts 0 none silent in
        (o, answer, subst (λ n. IsFirst 0 n o) (omega arith) first)
