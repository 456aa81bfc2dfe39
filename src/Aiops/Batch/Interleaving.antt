-- ===== src/Aiops/Batch/Interleaving.antt =====
-- Requests, timeouts and flushes in any order.
use adam_os.Base.{
  KeysOnce, insert-KeysOnce, remove-KeysOnce, ℕ, ◌+◌, ◌≡◌, refl, subst, max, inl, inr, Option, none,
  some, List, [], ◌∷◌, ◌++◌, map, arith, Str, str_eq_iff, is_empty, length, lookup, remove,
  lookup-insert, leb, ◌==◌, Bool-cases, Option-cases,
}
use adam_os.Aiops.Batch.{
  BatchGroup, BatchPolicy, Coordinator, DispatchReason, by_size, by_timeout, released,
  dispatch_effects, dispatch_group, dispatch, opened, announced, pushed, push, start_timer, queued,
  timer_set, enqueue, flush,
}
use adam_os.Aiops.Batch.Conservation.{
  count_of, count_of-append, resumed, count-resumed-append, held, held_in, held-insert, held-remove,
}

-- What happens to a coordinator: a request, the timer of a key, a flush.
pub data Event : Type 0 where
  request : Str → ℕ → Event
  timeout : Str → Event
  flushed : Event

unfoldable pub handle : BatchPolicy → Event → Coordinator → Coordinator
handle p (request key entry) c = enqueue p key entry c
handle p (timeout key) c = dispatch key by_timeout c
handle p flushed c = flush c

unfoldable pub handle_all : BatchPolicy → List Event → Coordinator → Coordinator
unfolding handle
handle_all p [] c = c
handle_all p (e ∷ es) c = handle_all p es (handle p e c)

abbrev pub requested : List Event → List ℕ
requested [] = []
requested (request key entry ∷ es) = entry ∷ requested es
requested (timeout key ∷ es) = requested es
requested (flushed ∷ es) = requested es

-- The requests that a coordinator has resumed or holds.
abbrev pub known : ℕ → Coordinator → ℕ
known a c = count_of a (resumed c.log) + held a c.groups

resumed-map : (a : ℕ) (es : List ℕ) → count_of a (resumed (map released es)) ≡ count_of a es
unfolding resumed
resumed-map a [] = refl
resumed-map a (e ∷ es) = ground (arith, resumed-map a es)

resumed-dispatch_effects :
    (a : ℕ) (key : Str) (r : DispatchReason) (now : ℕ) (g : BatchGroup)
    → count_of a (resumed (dispatch_effects key r now g)) ≡ count_of a g.entries
unfolding resumed
resumed-dispatch_effects a key r now g = elim (Option-cases g.timer) [
  | inl free ↦ rw free (resumed-map a g.entries)
  | inr (t, set) ↦ rw set (resumed-map a g.entries)
]

known-dispatch_group :
    (a : ℕ) (key : Str) (r : DispatchReason) (o : Option BatchGroup) (c : Coordinator)
    → KeysOnce c.groups
    → lookup key c.groups ≡ o
    → known a (dispatch_group key r o c) ≡ known a c
unfolding dispatch_group
known-dispatch_group a key r none c h found = refl
known-dispatch_group a key r (some g) c h found = elim (Bool-cases (is_empty g.entries)) [
  | inl empty ↦ rw empty refl
  | inr full ↦ rw full (
      omega (
        arith,
        count-resumed-append a c.log (dispatch_effects key r c.now g),
        resumed-dispatch_effects a key r c.now g,
        kept,
      ))
]
  where
    kept : held a (remove key c.groups) + count_of a g.entries ≡ held a c.groups
    kept =
        subst (λ o. held a (remove key c.groups) + held_in a o ≡ held a c.groups) found
          (held-remove a key c.groups h)

pub known-dispatch :
    (a : ℕ) (key : Str) (r : DispatchReason) (c : Coordinator)
    → KeysOnce c.groups
    → known a (dispatch key r c) ≡ known a c
unfolding dispatch
known-dispatch a key r c h = known-dispatch_group a key r (lookup key c.groups) c h refl

dispatch_group-KeysOnce :
    (key : Str) (r : DispatchReason) (o : Option BatchGroup) (c : Coordinator)
    → KeysOnce c.groups
    → KeysOnce (dispatch_group key r o c).groups
unfolding dispatch_group
dispatch_group-KeysOnce key r none c h = h
dispatch_group-KeysOnce key r (some g) c h = elim (Bool-cases (is_empty g.entries)) [
  | inl empty ↦ rw empty h
  | inr full ↦ rw full (remove-KeysOnce key c.groups h)
]

pub dispatch-KeysOnce :
    (key : Str) (r : DispatchReason) (c : Coordinator)
    → KeysOnce c.groups
    → KeysOnce (dispatch key r c).groups
unfolding dispatch
dispatch-KeysOnce key r c h = dispatch_group-KeysOnce key r (lookup key c.groups) c h

known-push :
    (a : ℕ) (key : Str) (entry : ℕ) (o : Option BatchGroup) (c : Coordinator)
    → lookup key c.groups ≡ o
    → known a (push key entry o c) ≡ known a c + count_of a (entry ∷ [])
unfolding push resumed
known-push a key entry o c found =
    let g = pushed c.now entry o in
    omega (
      arith,
      count-resumed-append a c.log _,
      silent o,
      held-insert a key g c.groups,
      count_of-append a (opened c.now o).entries (entry ∷ []),
      before o found,
    )
  where
    silent :
        (f : Option BatchGroup)
        → count_of a (
            resumed
              (announced key f ++ (queued key entry (length (pushed c.now entry f).entries) ∷ [])))
          ≡ 0
    silent none = refl
    silent (some g) = refl

    before :
        (f : Option BatchGroup)
        → lookup key c.groups ≡ f
        → count_of a (opened c.now f).entries ≡ held_in a (lookup key c.groups)
    before none h = rw h refl
    before (some g) h = rw h refl

known-start_timer :
    (a : ℕ) (p : BatchPolicy) (key : Str) (g : BatchGroup) (c : Coordinator)
    → lookup key c.groups ≡ some g
    → known a (start_timer p key g c) ≡ known a c
unfolding start_timer resumed
known-start_timer a p key g c found = omega (
  arith,
  count-resumed-append a c.log (timer_set c.timers key p.max_wait_ms ∷ []),
  held-insert a key (record g { timer = some c.timers }) c.groups,
  before,
)
  where
    before : held_in a (lookup key c.groups) ≡ count_of a g.entries
    before = rw found refl

push-KeysOnce :
    (key : Str) (entry : ℕ) (o : Option BatchGroup) (c : Coordinator)
    → KeysOnce c.groups
    → KeysOnce (push key entry o c).groups
unfolding push
push-KeysOnce key entry o c h = insert-KeysOnce key _ c.groups h

pub lookup-push :
    (key : Str) (entry : ℕ) (o : Option BatchGroup) (c : Coordinator)
    → lookup key (push key entry o c).groups ≡ some (pushed c.now entry o)
unfolding push
lookup-push key entry o c =
    ground (arith, lookup-insert key key (pushed c.now entry o) c.groups, str_eq_iff key key)

-- A request is held or resumed, and nothing else changes.
pub known-enqueue :
    (a : ℕ) (p : BatchPolicy) (key : Str) (entry : ℕ) (c : Coordinator)
    → KeysOnce c.groups
    → known a (enqueue p key entry c) ≡ known a c + count_of a (entry ∷ [])
unfolding enqueue
known-enqueue a p key entry c h =
    let o = lookup key c.groups in
    ground (
      arith,
      known-push a key entry o c refl,
      known-dispatch a key by_size (push key entry o c) (push-KeysOnce key entry o c h),
      known-start_timer a p key (pushed c.now entry o) (push key entry o c)
          (lookup-push key entry o c),
    )

pub enqueue-KeysOnce :
    (p : BatchPolicy) (key : Str) (entry : ℕ) (c : Coordinator)
    → KeysOnce c.groups
    → KeysOnce (enqueue p key entry c).groups
unfolding enqueue start_timer
enqueue-KeysOnce p key entry c h =
    let o = lookup key c.groups in
    let c1 = push key entry o c in
    let once = push-KeysOnce key entry o c h in
    elim (Bool-cases (leb (max 1 p.max_batch_size) (length (pushed c.now entry o).entries))) [
      | inl full ↦ rw full (dispatch-KeysOnce key by_size c1 once)
      | inr more ↦ elim (Bool-cases (length (pushed c.now entry o).entries == 1)) [
        | inl first ↦ rw more (rw first (insert-KeysOnce key _ c1.groups once))
        | inr later ↦ rw more (rw later once)
      ]
    ]
