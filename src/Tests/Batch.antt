-- ===== src/Tests/Batch.antt =====
-- lib/aiops/batch: three requests of one key with batches of two, and one of another key.
use adam_os.Base.{
  KeysOnce, ◌+◌, ◌≡◌, refl, true, false, List, [], ◌∷◌, arith, str, str_eq, lookup, insert, remove,
}
use adam_os.Aiops.Batch.{BatchPolicy, pending, flush, enqueue, dispatch, pending_entries}
use adam_os.Aiops.Batch.Conservation.{count_of, resumed}
use adam_os.Aiops.Batch.Interleaving.{Event, request, timeout, handle_all, requested, known}
use adam_os.Aiops.Batch.Forming.{AllForming}
use adam_os.Aiops.Batch.Laws.{idle, handle_all-known, handle_all-AllForming, flush-resumes}

abbrev pairs : BatchPolicy
pairs = record {
  enabled = true;
  max_batch_size = 2;
  max_wait_ms = 50;
  supported_workloads = [];
  supported_providers = [];
  supported_models = [];
  bypass = false;
}

abbrev events : List Event
events =
    request (str "k") 1
    ∷ request (str "j") 2
    ∷ request (str "k") 3
    ∷ request (str "k") 4
    ∷ timeout (str "j")
    ∷ []

resumed_in_order : resumed (handle_all pairs events (idle 0 0)).log ≡ 1 ∷ 3 ∷ 2 ∷ []
unfolding handle_all enqueue dispatch flush lookup insert remove resumed str_eq
resumed_in_order = refl

one_held : pending (handle_all pairs events (idle 0 0)) ≡ 1
unfolding handle_all enqueue dispatch flush lookup insert remove pending_entries str_eq
one_held = refl

handle_all-known_example :
    (known 3 (handle_all pairs events (idle 0 0))
      ≡ known 3 (idle 0 0) + count_of 3 (requested events))
    × KeysOnce (handle_all pairs events (idle 0 0)).groups
handle_all-known_example = handle_all-known 3 pairs events (idle 0 0) tt

idle-AllForming : AllForming pairs (idle 0 0)
unfolding lookup
idle-AllForming k g f = absurd (ground arith)

handle_all-AllForming_example : AllForming pairs (handle_all pairs events (idle 0 0))
handle_all-AllForming_example = handle_all-AllForming pairs events (idle 0 0) idle-AllForming

flush-resumes_example :
    (count_of 4 (resumed (flush (handle_all pairs events (idle 0 0))).log)
      ≡ count_of 4 (requested events))
    × ((flush (handle_all pairs events (idle 0 0))).groups ≡ [])
flush-resumes_example = flush-resumes pairs 0 0 events 4
