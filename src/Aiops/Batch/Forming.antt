-- ===== src/Aiops/Batch/Forming.antt =====
-- The groups that are held back.
use adam_os.Base.{
  is_empty-append, ℕ, ◌<◌, ◌≡◌, refl, max, true, false, inl, inr, Option, none, some, List, [], ◌∷◌,
  arith, Str, str_eq, str_eq_iff, is_empty, is_some, length, lookup, lookup-insert, lookup-remove,
  leb, ◌==◌, if◌then◌else◌, Bool-cases,
}
use adam_os.Aiops.Batch.{
  BatchGroup, BatchPolicy, Coordinator, DispatchReason, by_size, by_timeout, dispatch_group,
  dispatch, opened, pushed, push, start_timer, enqueue, flush_groups,
}
use adam_os.Aiops.Batch.Interleaving.{lookup-push}

-- A group that is held back: not empty, below the size of a batch, and with a timer.
pub record IsForming (p : BatchPolicy) (g : BatchGroup) : Type 0 where
  pub inhabited : is_empty g.entries ≡ false
  pub below : length g.entries < max 1 p.max_batch_size
  pub timed : is_some g.timer ≡ true

abbrev pub AllForming : BatchPolicy → Coordinator → Type 0
AllForming p c = (k : Str) (g : BatchGroup) → lookup k c.groups ≡ some g → IsForming p g

dispatch_group-lookup :
    (p : BatchPolicy) (key k : Str) (r : DispatchReason) (o : Option BatchGroup) (c : Coordinator)
    → ((g : BatchGroup) → o ≡ some g → is_empty g.entries ≡ false)
    → lookup key c.groups ≡ o
    → lookup k (dispatch_group key r o c).groups
      ≡ (if str_eq key k then none else lookup k c.groups)
unfolding dispatch_group
dispatch_group-lookup p key k r none c h found = ground (arith, found, str_eq_iff key k)
dispatch_group-lookup p key k r (some g) c h found = rw (h g refl) (lookup-remove key k c.groups)

dispatch-lookup :
    (p : BatchPolicy) (key k : Str) (r : DispatchReason) (c : Coordinator)
    → ((g : BatchGroup) → lookup key c.groups ≡ some g → is_empty g.entries ≡ false)
    → lookup k (dispatch key r c).groups ≡ (if str_eq key k then none else lookup k c.groups)
unfolding dispatch
dispatch-lookup p key k r c h = dispatch_group-lookup p key k r (lookup key c.groups) c h refl

pub dispatch-AllForming :
    (p : BatchPolicy) (key : Str) (r : DispatchReason) (c : Coordinator)
    → AllForming p c
    → AllForming p (dispatch key r c)
dispatch-AllForming p key r c h k g found =
    h k g (ground (arith, dispatch-lookup p key k r c (λ g' f. (h key g' f).inhabited)))

-- After a flush nothing is held.
pub flush_groups-lookup :
    (p : BatchPolicy) (gs : List (Str × BatchGroup)) (c : Coordinator)
    → AllForming p c
    → ((k : Str) → lookup k gs ≡ none → lookup k c.groups ≡ none)
    → (k : Str) → lookup k (flush_groups gs c).groups ≡ none
unfolding flush_groups lookup
flush_groups-lookup p [] c h covered k = covered k refl
flush_groups-lookup p ((key, g) ∷ gs) c h covered k =
    flush_groups-lookup p gs (dispatch key by_timeout c) (dispatch-AllForming p key by_timeout c h)
      (λ j gone. ground (
        arith,
        gone,
        covered j,
        dispatch-lookup p key j by_timeout c (λ g' f. (h key g' f).inhabited),
      ))
      k

pub no_groups : (gs : List (Str × BatchGroup)) → ((k : Str) → lookup k gs ≡ none) → gs ≡ []
unfolding lookup
no_groups [] h = refl
no_groups ((k, g) ∷ gs) h = absurd (ground (arith, h k, str_eq_iff k k))

push-lookup :
    (key k : Str) (entry : ℕ) (o : Option BatchGroup) (c : Coordinator)
    → lookup k (push key entry o c).groups
      ≡ (if str_eq key k then some (pushed c.now entry o) else lookup k c.groups)
unfolding push
push-lookup key k entry o c = lookup-insert key k (pushed c.now entry o) c.groups

module _ (p : BatchPolicy) (key : Str) (entry : ℕ) (c : Coordinator)
    (forming : AllForming p c) where
  -- A second entry joins a group that has its timer.
  joined-timed :
      (o : Option BatchGroup)
      → lookup key c.groups ≡ o
      → (length (pushed c.now entry o).entries == 1) ≡ false
      → is_some (pushed c.now entry o).timer ≡ true
  joined-timed none f more = absurd (ground arith)
  joined-timed (some g) f more = (forming key g f).timed

  push-other :
      (k : Str) (g : BatchGroup)
      → str_eq key k ≡ false
      → lookup k (push key entry (lookup key c.groups) c).groups ≡ some g
      → IsForming p g
  push-other k g other f =
      forming k g (ground (arith, f, push-lookup key k entry (lookup key c.groups) c))

  push-joined :
      (length (pushed c.now entry (lookup key c.groups)).entries < max 1 p.max_batch_size)
      → is_some (pushed c.now entry (lookup key c.groups)).timer ≡ true
      → AllForming p (push key entry (lookup key c.groups) c)
  push-joined below timed k g f = elim (Bool-cases (str_eq key k)) [
    | inr other ↦ push-other k g other f
    | inl same ↦
        let here : pushed c.now entry (lookup key c.groups) ≡ g =
          ground (arith, f, same, push-lookup key k entry (lookup key c.groups) c) in
        rw (← here) (record {
          inhabited = is_empty-append (opened c.now (lookup key c.groups)).entries entry;
          below = below;
          timed = timed;
        })
  ]

  dispatched-forming : AllForming p (dispatch key by_size (push key entry (lookup key c.groups) c))
  dispatched-forming k g f = elim (Bool-cases (str_eq key k)) [
    | inl same ↦ absurd (ground (arith, f, same, gone k))
    | inr other ↦ push-other k g other (ground (arith, f, other, gone k))
  ]
    where
      gone :
          (j : Str)
          → lookup j (dispatch key by_size (push key entry (lookup key c.groups) c)).groups ≡ (
              if str_eq key j
              then none
              else lookup j (push key entry (lookup key c.groups) c).groups)
      gone j = dispatch-lookup p key j by_size (push key entry (lookup key c.groups) c) (λ g' f'.
          ground (
            arith,
            f',
            lookup-push key entry (lookup key c.groups) c,
            is_empty-append (opened c.now (lookup key c.groups)).entries entry,
          ))

  timed-forming :
      (length (pushed c.now entry (lookup key c.groups)).entries < max 1 p.max_batch_size)
      → AllForming p (
          start_timer p key
            (pushed c.now entry (lookup key c.groups))
            (push key entry (lookup key c.groups) c))
  unfolding start_timer
  timed-forming below k g f =
      let c1 = push key entry (lookup key c.groups) c in
      let g1 = record (pushed c.now entry (lookup key c.groups)) { timer = some c1.timers } in
      elim (Bool-cases (str_eq key k)) [
        | inr other ↦
            push-other k g other (ground (arith, f, other, lookup-insert key k g1 c1.groups))
        | inl same ↦
            let here : g1 ≡ g = ground (arith, f, same, lookup-insert key k g1 c1.groups) in
            rw (← here) (record {
              inhabited = is_empty-append (opened c.now (lookup key c.groups)).entries entry;
              below = below;
              timed = refl;
            })
      ]

  pub enqueue-AllForming : AllForming p (enqueue p key entry c)
  unfolding enqueue
  enqueue-AllForming =
      let joined = pushed c.now entry (lookup key c.groups) in
      elim (Bool-cases (leb (max 1 p.max_batch_size) (length joined.entries))) [
        | inl full ↦ rw full dispatched-forming
        | inr more ↦ elim (Bool-cases (length joined.entries == 1)) [
          | inl first ↦ rw more (rw first (timed-forming (ground arith)))
          | inr later ↦ rw more (
              rw later (push-joined (ground arith) (joined-timed (lookup key c.groups) refl later)))
        ]
      ]
