-- ===== src/Aiops/Retry/Delay.antt =====
-- The delays between attempts.
use adam_os.Base.{ℕ, zero, suc, ◌+◌, ◌*◌, ◌^◌, ◌≤◌, ◌≡◌, sym, ap, ◌∙◌, min, arith}
use native.Mathlib.Nat.{two-pow-succ}
use adam_os.Aiops.Retry.{RetryPolicy, fixed, exponential, compute_delay_ms}

-- The delay after the first attempt, and how the next one follows from a delay.
abbrev pub next_delay : RetryPolicy → ℕ → ℕ
next_delay p delay = elim p.backoff [ exponential ↦ min (2 * delay) p.max_delay_ms | fixed ↦ delay ]

raw : RetryPolicy → ℕ → ℕ
raw p k = elim p.backoff [ exponential ↦ p.initial_delay_ms * 2 ^ k | fixed ↦ p.initial_delay_ms ]

compute_delay_ms-raw :
    (p : RetryPolicy) (k : ℕ) → compute_delay_ms (suc k) p ≡ min (raw p k) p.max_delay_ms
unfolding compute_delay_ms raw
compute_delay_ms-raw p k =
    ap
      (λ e.
        min
          (elim p.backoff [ exponential ↦ p.initial_delay_ms * 2 ^ e | fixed ↦ p.initial_delay_ms ])
          p.max_delay_ms)
      (omega arith)

raw-suc :
    (p : RetryPolicy) (k : ℕ)
    → min (raw p (suc k)) p.max_delay_ms ≡ next_delay p (min (raw p k) p.max_delay_ms)
unfolding raw
raw-suc p k = ground (arith, doubled)
  where
    doubled : p.initial_delay_ms * 2 ^ suc k ≡ 2 * (p.initial_delay_ms * 2 ^ k)
    doubled = rw two-pow-succ (omega arith)

raw-zero : (p : RetryPolicy) → min (raw p 0) p.max_delay_ms ≡ min p.initial_delay_ms p.max_delay_ms
unfolding raw
raw-zero p = ground arith

-- The delays start at the initial one, grow as the policy says, and are never above its bound.
pub compute_delay_ms_lem :
    (p : RetryPolicy) (attempt : ℕ)
    → 1 ≤ attempt
    → (compute_delay_ms 1 p ≡ min p.initial_delay_ms p.max_delay_ms)
      × (compute_delay_ms (attempt + 1) p ≡ next_delay p (compute_delay_ms attempt p))
      × (compute_delay_ms attempt p ≤ p.max_delay_ms)
compute_delay_ms_lem p zero h = elim h [ ]
compute_delay_ms_lem p (suc k) h = (first, step, bounded)
  where
    first : compute_delay_ms 1 p ≡ min p.initial_delay_ms p.max_delay_ms
    first = compute_delay_ms-raw p 0 ∙ raw-zero p

    step : compute_delay_ms (suc k + 1) p ≡ next_delay p (compute_delay_ms (suc k) p)
    step =
        ap (λ n. compute_delay_ms n p) (omega arith)
        ∙ compute_delay_ms-raw p (suc k)
        ∙ raw-suc p k
        ∙ ap (next_delay p) (sym (compute_delay_ms-raw p k))

    bounded : compute_delay_ms (suc k) p ≤ p.max_delay_ms
    bounded = rw (compute_delay_ms-raw p k) (omega arith)
