-- ===== src/Aiops/Stack/Transparent.antt =====
-- The composed middleware behind an open circuit.
use adam_os.Base.{◌+◌, ◌≡◌, false, ◌∷◌, none, err}
use adam_os.Aiops.Types.{CompletionRequest, Context}
use adam_os.Aiops.Errors.{provider_unavailable}
use adam_os.Aiops.Effects.{Env, State, open_, layer, merge, throw_kind, circuit_rejected}
use adam_os.Aiops.Circuit.{circuit, circuit_key, cooled, circuit_open_message}
use adam_os.Aiops.Circuit.Lifecycle.{IsActive, circuit_around-open}
use adam_os.Aiops.Stack.{Policies, redirected, chain}

-- An open circuit that is hot fails the execution at once: fallback is not reached, whatever its
-- policy and the plan are, and no provider is called.
pub chain-open :
    (env : Env) (p : Policies) (ctx : Context) (request : CompletionRequest) (s : State)
    → IsActive p.circuit ctx
    → (circuit (circuit_key ctx) s.circuits).state ≡ open_
    → cooled p.circuit (env.clock s.reads) (circuit (circuit_key ctx) s.circuits) ≡ false
    → chain env p ctx request none s ≡ (
      err (throw_kind provider_unavailable (circuit_open_message (circuit_key ctx))),
      record s { reads = s.reads + 1; events = circuit_rejected (circuit_key ctx) ∷ s.events },
    )
unfolding chain layer
chain-open env p ctx request s a o hot =
    circuit_around-open env p.circuit ctx request
      (λ r this. redirected env p ctx r (merge this none)) s a o hot
