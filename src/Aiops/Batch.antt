-- ===== src/Aiops/Batch.antt =====
-- lib/aiops/batch: requests that are held until their batch is dispatched. A held request is named
-- by a number, the call of `resolveCompletion` that holds it; time and timers are numbers too.
pub mod Conservation
pub mod Interleaving
pub mod Forming
pub mod Laws
use adam_os.Base.{
  ℕ, zero, suc, ◌+◌, ◌-◌, max, Bool, true, false, not, ◌&&◌, ◌||◌, Option, none, some, List, [],
  ◌∷◌, ◌++◌, map, Str, str_eq, contains, is_empty, length, filter, lookup, insert, remove, leb, ltb,
  ◌==◌, if◌then◌else◌,
}

pub data DispatchReason : Type 0 where
  by_size by_timeout : DispatchReason

pub record BatchPolicy : Type 0 where
  pub enabled : Bool
  pub max_batch_size : ℕ
  pub max_wait_ms : ℕ
  pub supported_workloads : List Str
  pub supported_providers : List Str
  pub supported_models : List Str
  pub bypass : Bool

unfoldable pub default_batch_policy : BatchPolicy
default_batch_policy = record {
  enabled = false;
  max_batch_size = 8;
  max_wait_ms = 50;
  supported_workloads = [];
  supported_providers = [];
  supported_models = [];
  bypass = false;
}

pub record BatchGroup : Type 0 where
  pub entries : List ℕ
  pub created_at : ℕ
  pub timer : Option ℕ

-- What the coordinator tells its callbacks and timers, and the requests that it resumes, in order.
pub data Effect : Type 0 where
  created : Str → Effect
  queued : Str → ℕ → ℕ → Effect
  timer_set : ℕ → Str → ℕ → Effect
  timer_cleared : ℕ → Effect
  dispatched : Str → DispatchReason → ℕ → ℕ → Effect
  released : ℕ → Effect

-- `now` is the reading of the clock, `timers` the handle of the next timer; `log` grows at its end.
pub record Coordinator : Type 0 where
  pub groups : List (Str × BatchGroup)
  pub now : ℕ
  pub timers : ℕ
  pub log : List Effect

abbrev pub log_all : List Effect → Coordinator → Coordinator
log_all es c = record c { log = c.log ++ es }

abbrev pub clear_timer : Option ℕ → List Effect
clear_timer none = []
clear_timer (some t) = timer_cleared t ∷ []

-- What a dispatch does with a group: the timer, the announcement, then each entry in order.
abbrev pub dispatch_effects : Str → DispatchReason → ℕ → BatchGroup → List Effect
dispatch_effects key reason now g =
    clear_timer g.timer
    ++ (dispatched key reason (length g.entries) (now - g.created_at) ∷ map released g.entries)

unfoldable pub dispatch_group : Str → DispatchReason → Option BatchGroup → Coordinator → Coordinator
dispatch_group key reason none c = c
dispatch_group key reason (some g) c =
    if is_empty g.entries
    then c
    else log_all (dispatch_effects key reason c.now g) (record c { groups = remove key c.groups })

unfoldable pub dispatch : Str → DispatchReason → Coordinator → Coordinator
unfolding dispatch_group lookup
dispatch key reason c = dispatch_group key reason (lookup key c.groups) c

-- The group of a key, opened when there is none; `groups.set` of the entry that is pushed.
abbrev pub opened : ℕ → Option BatchGroup → BatchGroup
opened now (some g) = g
opened now none = record { entries = []; created_at = now; timer = none }

abbrev pub announced : Str → Option BatchGroup → List Effect
announced key none = created key ∷ []
announced key (some g) = []

-- The group with the entry that is pushed.
abbrev pub pushed : ℕ → ℕ → Option BatchGroup → BatchGroup
pushed now entry found = record (opened now found) {
  entries = (opened now found).entries ++ entry ∷ [];
}

unfoldable pub push : Str → ℕ → Option BatchGroup → Coordinator → Coordinator
unfolding insert
push key entry found c =
    let g = pushed c.now entry found in
    log_all (announced key found ++ (queued key entry (length g.entries) ∷ []))
      (record c { groups = insert key g c.groups })

unfoldable pub start_timer : BatchPolicy → Str → BatchGroup → Coordinator → Coordinator
unfolding insert
start_timer policy key g c = log_all (timer_set c.timers key policy.max_wait_ms ∷ []) (record c {
  groups = insert key (record g { timer = some c.timers }) c.groups;
  timers = suc c.timers;
})

unfoldable pub enqueue : BatchPolicy → Str → ℕ → Coordinator → Coordinator
unfolding dispatch push start_timer lookup
enqueue policy key entry c =
    let found = lookup key c.groups in
    let g = pushed c.now entry found in
    let n = length g.entries in
    let c1 = push key entry found c in
    if leb (max 1 policy.max_batch_size) n
    then dispatch key by_size c1
    else if n == 1
    then start_timer policy key g c1
    else c1

-- `flush`: every group that is open when it starts.
unfoldable pub flush_groups : List (Str × BatchGroup) → Coordinator → Coordinator
unfolding dispatch
flush_groups [] c = c
flush_groups ((key, g) ∷ gs) c = flush_groups gs (dispatch key by_timeout c)

unfoldable pub flush : Coordinator → Coordinator
unfolding flush_groups
flush c = flush_groups c.groups c

unfoldable pub pending_entries : List (Str × BatchGroup) → List ℕ
pending_entries [] = []
pending_entries ((key, g) ∷ gs) = g.entries ++ pending_entries gs

-- `pending()`
abbrev pub pending : Coordinator → ℕ
pending c = length (pending_entries c.groups)

-- An empty list of the policy admits everything.
abbrev pub admits : List Str → Str → Bool
admits [] x = true
admits xs x = contains x xs

unfoldable pub batch_eligible : BatchPolicy → Str → Str → Str → Bool
batch_eligible p workload provider model =
    admits p.supported_workloads workload
    && admits p.supported_providers provider
    && admits p.supported_models model

-- `resolveCompletion` for a request with its key: passed on at once, or held until its release.
unfoldable pub resolve_completion :
    BatchPolicy → Str → Str → Str → Str → ℕ → Coordinator → Bool × Coordinator
unfolding batch_eligible enqueue
resolve_completion p workload provider model key entry c =
    if p.enabled && not p.bypass && batch_eligible p workload provider model
    then (true, enqueue p key entry c)
    else (false, c)
