-- ===== src/Aiops/Fallback/Laws.antt =====
-- Which targets fallback tries, how often it calls on, and what it answers.
use adam_os.Base.{
  ℕ, ◌+◌, ◌*◌, ◌≤◌, ◌≡◌, refl, sym, ap, ◌∙◌, Bool, true, false, not, ◌&&◌, Option, none, some, List,
  [], ◌∷◌, arith, ok, err, if◌then◌else◌, length, subst, is_some, filter, all, flatten, map,
  is_empty, length-take-le, all-take, all-append, all-filter, all-filter_of_all, all_mono, all-and,
  Str, str_eq, str_eq_refl,
}
use native.Mathlib.Nat.{mul-le-mul_right}
use adam_os.Aiops.Types.{
  CompletionRequest, CompletionResponse, ExecutionTarget, Context, same_target, primary_of,
  plan_contains,
}
use adam_os.Aiops.Errors.{Thrown, normalize_error}
use adam_os.Aiops.Effects.{
  State, Outcome, Action, Next, emit, fallback_attempt, fallback_started, fallback_bypassed,
  fallback_succeeded, fallback_exhausted,
}
use adam_os.Aiops.Retry.Laws.{CallsAtMost}
use adam_os.Aiops.Fallback.{
  FallbackPolicy, alternates, ordered_fallback_targets, after_target, try_targets, coordinator_run,
  after_primary, fallback_around, fallback_eligible, is_fallback_eligible,
}

plan_contains_self : (plan : List ExecutionTarget) → all (plan_contains plan) plan ≡ true
unfolding plan_contains
plan_contains_self [] = refl
plan_contains_self (t ∷ ts) = ground (
  arith,
  str_eq_refl t.provider,
  str_eq_refl t.model,
  all_mono (plan_contains ts) (plan_contains (t ∷ ts)) ts (λ u h. ground (arith, h))
      (plan_contains_self ts),
)

-- A target of the plan that is not the primary one.
abbrev pub is_alternate : List ExecutionTarget → Context → ExecutionTarget → Bool
is_alternate plan ctx t = plan_contains plan t && not (same_target t (primary_of ctx))

alternates-all :
    (plan : List ExecutionTarget) (ctx : Context)
    → all (is_alternate plan ctx) (alternates plan ctx) ≡ true
unfolding alternates
alternates-all plan ctx =
    let differs = λ (t : ExecutionTarget). not (same_target t (primary_of ctx)) in
    all-and (plan_contains plan) differs (filter differs plan)
      (all-filter_of_all (plan_contains plan) differs plan (plan_contains_self plan))
      (all-filter differs plan)

listed-all :
    (good : ExecutionTarget → Bool) (others : List ExecutionTarget) (providers : List Str)
    → all good others ≡ true
    → all good (flatten (map (λ q. filter (λ t. str_eq t.provider q) others) providers)) ≡ true
listed-all good others [] h = refl
listed-all good others (q ∷ qs) h =
    all-append good (filter (λ t. str_eq t.provider q) others) _
      (all-filter_of_all good (λ t. str_eq t.provider q) others h) (listed-all good others qs h)

-- Fallback tries alternates of the plan only, and not more than the policy allows.
pub ordered_fallback_targets-all :
    (plan : List ExecutionTarget) (p : FallbackPolicy) (ctx : Context)
    → (all (is_alternate plan ctx) (ordered_fallback_targets plan p ctx) ≡ true)
      × (length (ordered_fallback_targets plan p ctx) ≤ p.max_fallback_attempts)
unfolding ordered_fallback_targets
ordered_fallback_targets-all plan p ctx = (
  all-take (is_alternate plan ctx) p.max_fallback_attempts _
      (by_case (is_empty p.fallback_providers)),
  length-take-le p.max_fallback_attempts _,
)
  where
    by_case :
        (b : Bool)
        → all (is_alternate plan ctx) (
            if b
            then alternates plan ctx
            else flatten (
                map
                  (λ q. filter (λ t. str_eq t.provider q) (alternates plan ctx))
                  p.fallback_providers))
          ≡ true
    by_case true = alternates-all plan ctx
    by_case false =
        listed-all (is_alternate plan ctx) (alternates plan ctx) p.fallback_providers
          (alternates-all plan ctx)

-- The targets that are tried in their order and fail, each in the state that the one before left: what
-- is left of the targets, how many were tried, the last error, and the state.
pub data Failing (next : Next) (request : CompletionRequest) (left : List ExecutionTarget)
    (tried : ℕ) (last : Thrown) (u : State)
    : List ExecutionTarget → ℕ → Thrown → State → Type 0 where
  arrived : Failing next request left tried last u left tried last u
  failing :
      {t : ExecutionTarget} {ts : List ExecutionTarget} {n : ℕ} {e : Thrown} {s s1 : State}
      (e1 : Thrown)
      → next request (some t) (emit (fallback_attempt t (n + 1)) s) ≡ (err e1, s1)
      → Failing next request left tried last u ts (n + 1) e1 s1
      → Failing next request left tried last u (t ∷ ts) n e s

-- The last error where no target is left, or else the response of the next one
abbrev pub Concludes :
    Next → CompletionRequest → List ExecutionTarget → ℕ → Thrown → State → Outcome × State → Type 0
Concludes next request [] tried last u r = r ≡ (err last, emit (fallback_exhausted tried) u)
Concludes next request (t ∷ ts) tried last u r =
    (response : CompletionResponse) × (s : State) × (next request (some t)
        (emit (fallback_attempt t (tried + 1)) u)
      ≡ (ok response, s))
    × (r ≡ (ok response, emit (fallback_succeeded t (tried + 1)) s))

abbrev pub TriesInOrder :
    Next → CompletionRequest → List ExecutionTarget → ℕ → Thrown → State → Outcome × State → Type 0
TriesInOrder next request ts n e s r =
    (left : List ExecutionTarget) × (tried : ℕ) × (last : Thrown) × (u : State) × Failing next
      request left tried last u ts n e s
    × Concludes next request left tried last u r

module _ (next : Next) (request : CompletionRequest) where
  after_target-TriesInOrder :
      (t : ExecutionTarget) (ts : List ExecutionTarget) (n : ℕ) (rest : Thrown → Action)
      (e : Thrown) (s : State) (r : Outcome × State)
      → next request (some t) (emit (fallback_attempt t (n + 1)) s) ≡ r
      → ((e1 : Thrown) (s1 : State) → TriesInOrder next request ts (n + 1) e1 s1 (rest e1 s1))
      → TriesInOrder next request (t ∷ ts) n e s (after_target t (n + 1) rest r)
  unfolding after_target
  after_target-TriesInOrder t ts n rest e s (ok response, s1) same again =
      (t ∷ ts, n, e, s, arrived, (response, s1, same, refl))
  after_target-TriesInOrder t ts n rest e s (err e1, s1) same again =
      let (left, tried, last, u, fails, ends) = again e1 s1 in
      (left, tried, last, u, failing e1 same fails, ends)

  try_targets-TriesInOrder :
      (ts : List ExecutionTarget) (n : ℕ) (e : Thrown) (s : State)
      → TriesInOrder next request ts n e s (try_targets next request ts n e s)
  unfolding try_targets
  try_targets-TriesInOrder [] n e s = ([], n, e, s, arrived, refl)
  try_targets-TriesInOrder (t ∷ ts) n e s =
      after_target-TriesInOrder t ts n (try_targets next request ts (n + 1)) e s
        (next request (some t) (emit (fallback_attempt t (n + 1)) s)) refl
        (λ e1 s1. try_targets-TriesInOrder ts (n + 1) e1 s1)

  fallback_around-active :
      (p : FallbackPolicy) (ctx : Context) (s : State)
      → p.enabled ≡ true
      → p.bypass ≡ false
      → is_some ctx.routing_decision ≡ true
      → fallback_eligible p ctx ≡ true
      → fallback_around p ctx request next s
        ≡ after_primary p ctx request next (next request none s)
  unfolding fallback_around
  fallback_around-active p ctx s on watched routed admitted = ground (arith, admitted)

  after_primary-redirects :
      (p : FallbackPolicy) (ctx : Context) (s : State) (e : Thrown)
      → is_fallback_eligible (normalize_error e).kind p ≡ true
      → is_empty (ordered_fallback_targets ctx.execution_plan p ctx) ≡ false
      → after_primary p ctx request next (err e, s)
        ≡ try_targets next request
            (ordered_fallback_targets ctx.execution_plan p ctx)
            0
            e
            (emit (fallback_started (normalize_error e).kind) s)
  unfolding after_primary coordinator_run
  after_primary-redirects p ctx s e redirects some_left = ground (arith, redirects, some_left)

  -- Where fallback is on and the primary call fails with an error that the policy redirects, the
  -- ordered alternates of the plan, of which there is one, are tried one by one, each in the state
  -- that the one before left. All that are tried before the last fail; the answer is the response of
  -- the last, or, when all fail, its error.
  pub fallback_around-TriesInOrder :
      (p : FallbackPolicy) (ctx : Context) (s s1 : State) (e : Thrown)
      → p.enabled ≡ true
      → p.bypass ≡ false
      → is_some ctx.routing_decision ≡ true
      → fallback_eligible p ctx ≡ true
      → next request none s ≡ (err e, s1)
      → is_fallback_eligible (normalize_error e).kind p ≡ true
      → is_empty (ordered_fallback_targets ctx.execution_plan p ctx) ≡ false
      → TriesInOrder next request
          (ordered_fallback_targets ctx.execution_plan p ctx)
          0
          e
          (emit (fallback_started (normalize_error e).kind) s1)
          (fallback_around p ctx request next s)
  fallback_around-TriesInOrder p ctx s s1 e on watched routed admitted fails redirects some_left =
      let targets = ordered_fallback_targets ctx.execution_plan p ctx in
      let s2 = emit (fallback_started (normalize_error e).kind) s1 in
      subst (TriesInOrder next request targets 0 e s2)
        (sym (
          fallback_around-active p ctx s on watched routed admitted
          ∙ ap (after_primary p ctx request next) fails
          ∙ after_primary-redirects p ctx s1 e redirects some_left))
        (try_targets-TriesInOrder targets 0 e s2)

module _ (next : Next) (request : CompletionRequest) (n : ℕ)
    (bound : (t : Option ExecutionTarget) → CallsAtMost n (next request t)) where
  after_target-calls :
      (t : ExecutionTarget) (attempt k : ℕ) (rest : Thrown → Action) (r : Outcome × State)
      → ((e : Thrown) → CallsAtMost k (rest e))
      → length (after_target t attempt rest r).1.calls ≤ length r.1.calls + k
  unfolding after_target
  after_target-calls t attempt k rest (ok response, s) h = omega arith
  after_target-calls t attempt k rest (err e, s) h = h e s

  try_targets-CallsAtMost :
      (ts : List ExecutionTarget) (attempt : ℕ) (e : Thrown)
      → CallsAtMost (length ts * n) (try_targets next request ts attempt e)
  unfolding try_targets
  try_targets-CallsAtMost [] attempt e s = omega arith
  try_targets-CallsAtMost (t ∷ ts) attempt e s = omega (
    arith,
    bound (some t) (emit (fallback_attempt t (attempt + 1)) s),
    after_target-calls t (attempt + 1) (length ts * n) (try_targets next request ts (attempt + 1))
        (next request (some t) (emit (fallback_attempt t (attempt + 1)) s))
        (λ e'. try_targets-CallsAtMost ts (attempt + 1) e'),
  )

  after_primary-calls :
      (p : FallbackPolicy) (ctx : Context) (r : Outcome × State)
      → length (after_primary p ctx request next r).1.calls
        ≤ length r.1.calls + p.max_fallback_attempts * n
  unfolding after_primary coordinator_run
  after_primary-calls p ctx (ok response, s) = omega arith
  after_primary-calls p ctx (err e, s) =
      let targets = ordered_fallback_targets ctx.execution_plan p ctx in
      let kind = (normalize_error e).kind in
      ground (
        arith,
        try_targets-CallsAtMost targets 0 e (emit (fallback_started kind) s),
        mul-le-mul_right n (ordered_fallback_targets-all ctx.execution_plan p ctx).1,
      )

  -- If `next` calls providers at most `n` times, so does fallback for the primary target and for
  -- each alternate that the policy allows.
  pub fallback_around-CallsAtMost :
      (p : FallbackPolicy) (ctx : Context)
      → CallsAtMost ((1 + p.max_fallback_attempts) * n) (fallback_around p ctx request next)
  unfolding fallback_around
  fallback_around-CallsAtMost p ctx s = ground (
    arith,
    bound none s,
    bound none (emit fallback_bypassed s),
    after_primary-calls p ctx (next request none s),
  )
