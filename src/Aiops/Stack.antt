-- ===== src/Aiops/Stack.antt =====
-- The middleware as `runLifecycle` of lib/aiops/execution/inference-pipeline.ts composes it: in
-- the order of the priorities, breaker (2.4) round fallback (2.45) round retry (2.5).
pub mod Calls
pub mod Authorized
pub mod Transparent
use adam_os.Aiops.Types.{Context}
use adam_os.Aiops.Effects.{Env, Next, layer, invoke}
use adam_os.Aiops.Circuit.{CircuitPolicy, circuit_around}
use adam_os.Aiops.Fallback.{FallbackPolicy, fallback_around}
use adam_os.Aiops.Retry.{RetryPolicy, retry_run}

pub record Policies : Type 0 where
  pub circuit : CircuitPolicy
  pub fallback : FallbackPolicy
  pub retry : RetryPolicy

unfoldable pub retried : Env → Policies → Context → Next
retried env p ctx = layer (retry_run p.retry ctx) (invoke env ctx)

unfoldable pub redirected : Env → Policies → Context → Next
redirected env p ctx = layer (fallback_around p.fallback ctx) (retried env p ctx)

unfoldable pub chain : Env → Policies → Context → Next
chain env p ctx = layer (circuit_around env p.circuit ctx) (redirected env p ctx)
