-- ===== src/Tests/Cache.antt =====
-- lib/aiops/cache/exact-match-cache-store.ts: room for two entries that live for ten milliseconds.
use adam_os.Base.{
  ℕ, ◌+◌, ◌-◌, ◌≤◌, ◌≡◌, refl, true, none, some, List, [], ◌∷◌, ◌++◌, arith, Str, str, str_eq,
  length, Any, lookup, insert, remove, leb, if◌then◌else◌,
}
use adam_os.Aiops.Types.{CompletionResponse}
use adam_os.Aiops.Cache.{
  CacheEntry, CachePolicy, CacheStore, empty_cache, cache_lookup, cache_store, evict, lookup_entry,
}
use adam_os.Aiops.Cache.Capacity.{keys, cache_store-IsEviction}
use adam_os.Aiops.Cache.Freshness.{
  Operation, look, put, operate, operate_all, stored_by_all, cache_lookup-hit, cache_lookup-store,
}

abbrev policy : CachePolicy
policy = record { ttl_ms = 10; max_entries = 2 }

abbrev answer : Str → CompletionResponse
answer text = record {
  text = text;
  json = none;
  prompt_tokens = 1;
  completion_tokens = 1;
  latency_ms = 1;
  cost_usd = 0;
  provider = str "p";
  model_key = str "m";
}

-- The lookup of the first key keeps it; the third key evicts the second.
abbrev operations : List Operation
operations =
    put 0 policy (str "a") (answer (str "1"))
    ∷ put 1 policy (str "b") (answer (str "2"))
    ∷ look 2 (str "a")
    ∷ put 3 policy (str "c") (answer (str "3"))
    ∷ []

cache : Unit {0}
unfolding operate_all operate cache_lookup cache_store evict lookup_entry lookup insert remove
    str_eq
cache = tt

abbrev filled : CacheStore
filled = operate_all operations empty_cache

kept : keys filled.entries ≡ str "a" ∷ str "c" ∷ []
unfolding cache
kept = refl

hit : (cache_lookup 10 (str "a") filled).0.hit ≡ true
unfolding cache
hit = refl

cache_lookup-hit_example :
    (r : CompletionResponse) × (expires : ℕ) × ((cache_lookup 10
        (str "a")
        (operate_all operations empty_cache)).0.response
      ≡ some r)
    × (10 ≤ expires)
    × Any (λ t. t ≡ (str "a", r, expires)) (stored_by_all operations [])
cache_lookup-hit_example = cache_lookup-hit operations 10 (str "a") hit

within : length filled.entries ≤ 2
unfolding cache
within = omega arith

cache_lookup-store_example :
    (cache_lookup 14
      (str "d")
      (cache_store 4 policy (str "d") (answer (str "4")) filled).1).0.response
    ≡ (if leb 14 (4 + 10) then some (answer (str "4")) else none)
cache_lookup-store_example =
    cache_lookup-store 4 14 policy (str "d") (answer (str "4")) filled (omega arith) within

cache_store-IsEviction_example :
    let (outcome, after) = cache_store 4 policy (str "d") (answer (str "4")) filled in
    (length after.entries ≤ 2)
    × (outcome.entry_count ≡ length after.entries)
    × (after.evictions ≡ filled.evictions + length outcome.evicted)
    × ((e : CacheEntry) × (outcome.evicted ++ keys after.entries
          ≡ keys (insert (str "d") e filled.entries))
        × (length outcome.evicted ≡ length (insert (str "d") e filled.entries) - 2))
cache_store-IsEviction_example = cache_store-IsEviction 4 policy (str "d") (answer (str "4")) filled
