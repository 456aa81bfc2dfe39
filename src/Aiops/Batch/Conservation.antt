-- ===== src/Aiops/Batch/Conservation.antt =====
-- No request is lost or resumed twice, however enqueueing, timeouts and flushes interleave.
use adam_os.Base.{
  ℕ, suc, ◌+◌, ◌≡◌, refl, Option, none, some, List, [], ◌∷◌, ◌++◌, arith, Str, str_eq_iff, lookup,
  insert, remove, KeysOnce, ◌==◌, if◌then◌else◌,
}
use adam_os.Aiops.Batch.{
  BatchGroup, Effect, created, queued, timer_set, timer_cleared, dispatched, released,
  pending_entries,
}

-- How often a number occurs.
abbrev pub count_of : ℕ → List ℕ → ℕ
count_of a [] = 0
count_of a (x ∷ xs) = if a == x then suc (count_of a xs) else count_of a xs

pub count_of-append :
    (a : ℕ) (xs ys : List ℕ) → count_of a (xs ++ ys) ≡ count_of a xs + count_of a ys
count_of-append a [] ys = omega arith
count_of-append a (x ∷ xs) ys = ground (arith, count_of-append a xs ys)

-- The requests that a log resumes.
unfoldable pub resumed : List Effect → List ℕ
resumed [] = []
resumed (released e ∷ es) = e ∷ resumed es
resumed (created k ∷ es) = resumed es
resumed (queued k e n ∷ es) = resumed es
resumed (timer_set t k n ∷ es) = resumed es
resumed (timer_cleared t ∷ es) = resumed es
resumed (dispatched k r n w ∷ es) = resumed es

pub count-resumed-append :
    (a : ℕ) (es fs : List Effect)
    → count_of a (resumed (es ++ fs)) ≡ count_of a (resumed es) + count_of a (resumed fs)
unfolding resumed
count-resumed-append a [] fs = omega arith
count-resumed-append a (released e ∷ es) fs = ground (arith, count-resumed-append a es fs)
count-resumed-append a (created k ∷ es) fs = count-resumed-append a es fs
count-resumed-append a (queued k e n ∷ es) fs = count-resumed-append a es fs
count-resumed-append a (timer_set t k n ∷ es) fs = count-resumed-append a es fs
count-resumed-append a (timer_cleared t ∷ es) fs = count-resumed-append a es fs
count-resumed-append a (dispatched k r n w ∷ es) fs = count-resumed-append a es fs

-- How often a request is held, and how often by one group.
abbrev pub held : ℕ → List (Str × BatchGroup) → ℕ
held a gs = count_of a (pending_entries gs)

abbrev pub held_in : ℕ → Option BatchGroup → ℕ
held_in a none = 0
held_in a (some g) = count_of a g.entries

pub held-insert :
    (a : ℕ) (k : Str) (g : BatchGroup) (gs : List (Str × BatchGroup))
    → held a (insert k g gs) + held_in a (lookup k gs) ≡ held a gs + count_of a g.entries
unfolding insert lookup pending_entries
held-insert a k g [] = omega (arith, count_of-append a g.entries [])
held-insert a k g ((j, w) ∷ gs) = ground (
  arith,
  held-insert a k g gs,
  count_of-append a g.entries (pending_entries gs),
  count_of-append a w.entries (pending_entries gs),
  count_of-append a w.entries (pending_entries (insert k g gs)),
)

pub held-remove :
    (a : ℕ) (k : Str) (gs : List (Str × BatchGroup))
    → KeysOnce gs
    → held a (remove k gs) + held_in a (lookup k gs) ≡ held a gs
unfolding remove lookup pending_entries
held-remove a k [] h = refl
held-remove a k ((j, w) ∷ gs) h = ground (
  arith,
  h.0,
  str_eq_iff j k,
  held-remove a k gs h.1,
  count_of-append a w.entries (pending_entries gs),
  count_of-append a w.entries (pending_entries (remove k gs)),
)
