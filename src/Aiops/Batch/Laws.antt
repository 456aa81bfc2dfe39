-- ===== src/Aiops/Batch/Laws.antt =====
-- Batches keep every request, stay below their bound, and are all dispatched by a flush.
use adam_os.Base.{KeysOnce, ℕ, ◌+◌, ◌≡◌, refl, ◌∙◌, List, [], ◌∷◌, arith, Str, lookup}
use adam_os.Aiops.Batch.{
  BatchGroup, BatchPolicy, Coordinator, by_timeout, dispatch, flush_groups, flush, pending_entries,
}
use adam_os.Aiops.Batch.Conservation.{count_of, resumed, held}
use adam_os.Aiops.Batch.Interleaving.{
  Event, request, timeout, flushed, handle, handle_all, requested, known, known-dispatch,
  dispatch-KeysOnce, known-enqueue, enqueue-KeysOnce,
}
use adam_os.Aiops.Batch.Forming.{
  AllForming, dispatch-AllForming, flush_groups-lookup, no_groups, enqueue-AllForming,
}

known-flush_groups :
    (a : ℕ) (gs : List (Str × BatchGroup)) (c : Coordinator)
    → KeysOnce c.groups
    → (known a (flush_groups gs c) ≡ known a c) × KeysOnce (flush_groups gs c).groups
unfolding flush_groups
known-flush_groups a [] c h = (refl, h)
known-flush_groups a ((key, g) ∷ gs) c h =
    let (same, once) =
      known-flush_groups a gs (dispatch key by_timeout c) (dispatch-KeysOnce key by_timeout c h) in
    (same ∙ known-dispatch a key by_timeout c h, once)

known-handle :
    (a : ℕ) (p : BatchPolicy) (e : Event) (c : Coordinator)
    → KeysOnce c.groups
    → (known a (handle p e c) ≡ known a c + count_of a (requested (e ∷ [])))
      × KeysOnce (handle p e c).groups
unfolding handle flush
known-handle a p (request key entry) c h =
    (known-enqueue a p key entry c h, enqueue-KeysOnce p key entry c h)
known-handle a p (timeout key) c h =
    (omega (arith, known-dispatch a key by_timeout c h), dispatch-KeysOnce key by_timeout c h)
known-handle a p flushed c h =
    let (same, once) = known-flush_groups a c.groups c h in (omega (arith, same), once)

-- However requests, timeouts and flushes interleave, each request is as often resumed or held as it
-- was made.
pub handle_all-known :
    (a : ℕ) (p : BatchPolicy) (es : List Event) (c : Coordinator)
    → KeysOnce c.groups
    → (known a (handle_all p es c) ≡ known a c + count_of a (requested es))
      × KeysOnce (handle_all p es c).groups
unfolding handle_all
handle_all-known a p [] c h = (omega arith, h)
handle_all-known a p (e ∷ es) c h =
    let (one, once) = known-handle a p e c h in
    let (rest, after) = handle_all-known a p es (handle p e c) once in
    (omega (arith, one, rest, split e), after)
  where
    split :
        (f : Event)
        → count_of a (requested (f ∷ es))
          ≡ count_of a (requested (f ∷ [])) + count_of a (requested es)
    split (request key entry) = ground arith
    split (timeout key) = omega arith
    split flushed = omega arith

-- After a flush nothing is held.
flush-held : (p : BatchPolicy) (c : Coordinator) → AllForming p c → (flush c).groups ≡ []
unfolding flush
flush-held p c h = no_groups _ (flush_groups-lookup p c.groups c h (λ k gone. gone))

handle-AllForming :
    (p : BatchPolicy) (e : Event) (c : Coordinator) → AllForming p c → AllForming p (handle p e c)
unfolding handle
handle-AllForming p (request key entry) c h = enqueue-AllForming p key entry c h
handle-AllForming p (timeout key) c h = dispatch-AllForming p key by_timeout c h
handle-AllForming p flushed c h =
    rw (flush-held p c h) (λ k g f. absurd (unfold lookup in ground arith))

-- However requests, timeouts and flushes interleave, every group that is held back has an entry,
-- fewer of them than a batch, and a timer that ends its wait.
pub handle_all-AllForming :
    (p : BatchPolicy) (es : List Event) (c : Coordinator)
    → AllForming p c
    → AllForming p (handle_all p es c)
unfolding handle_all
handle_all-AllForming p [] c h = h
handle_all-AllForming p (e ∷ es) c h =
    handle_all-AllForming p es (handle p e c) (handle-AllForming p e c h)

-- A coordinator that holds nothing and has resumed nothing.
abbrev pub idle : ℕ → ℕ → Coordinator
idle now timers = record { groups = []; now = now; timers = timers; log = [] }

-- From an idle coordinator, whatever happens, a flush resumes each request exactly as often as it
-- was made, and leaves none.
pub flush-resumes :
    (p : BatchPolicy) (now timers : ℕ) (es : List Event) (a : ℕ)
    → (count_of a (resumed (flush (handle_all p es (idle now timers))).log)
        ≡ count_of a (requested es))
      × ((flush (handle_all p es (idle now timers))).groups ≡ [])
unfolding flush resumed pending_entries
flush-resumes p now timers es a =
    let c = handle_all p es (idle now timers) in
    let (same, once) = handle_all-known a p es (idle now timers) tt in
    let (kept, _) = known-flush_groups a c.groups c once in
    let empty = flush-held p c (
      handle_all-AllForming p es (idle now timers)
        (λ k g f. absurd (unfold lookup in ground arith))) in
    (omega (arith, same, kept, held_nothing _ empty), empty)
  where
    held_nothing : (gs : List (Str × BatchGroup)) → gs ≡ [] → held a gs ≡ 0
    held_nothing gs e = rw e refl
