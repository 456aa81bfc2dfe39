-- ===== src/Aiops/Cache.antt =====
-- lib/aiops/cache/exact-match-cache-store.ts. A request stands as the key that keyFor gives it; the
-- entries are a Map, the oldest first.
pub mod Capacity
pub mod Freshness
use adam_os.Base.{
  ℕ, zero, suc, ◌+◌, Bool, true, false, Option, none, some, List, [], ◌∷◌, ◌++◌, Str, str_eq,
  length, lookup, insert, remove, is_some, leb, if◌then◌else◌,
}
use adam_os.Aiops.Types.{CompletionResponse}

pub record CacheEntry : Type 0 where
  pub response : CompletionResponse
  pub created_at : ℕ
  pub expires_at : ℕ
  pub hit_count : ℕ

pub record CachePolicy : Type 0 where
  pub ttl_ms : ℕ
  pub max_entries : ℕ

pub record CacheStore : Type 0 where
  pub entries : List (Str × CacheEntry)
  pub hits : ℕ
  pub misses : ℕ
  pub stores : ℕ
  pub evictions : ℕ

abbrev pub empty_cache : CacheStore
empty_cache = record { entries = []; hits = 0; misses = 0; stores = 0; evictions = 0 }

pub record LookupOutcome : Type 0 where
  pub hit : Bool
  pub response : Option CompletionResponse
  pub hit_count : ℕ
  pub expired_removed : Bool
  pub entry_count : ℕ

-- `delete` and then `set`, which puts the entry behind all others
abbrev pub bump : Str → CacheEntry → List (Str × CacheEntry) → List (Str × CacheEntry)
bump key e es = remove key es ++ (key, e) ∷ []

abbrev pub miss : Bool → CacheStore → LookupOutcome × CacheStore
miss removed s = (
  record {
    hit = false;
    response = none;
    hit_count = 0;
    expired_removed = removed;
    entry_count = length s.entries;
  },
  record s { misses = suc s.misses },
)

abbrev pub hit : Str → CacheEntry → CacheStore → LookupOutcome × CacheStore
hit key found s =
    let e = record found { hit_count = suc found.hit_count } in
    let es = bump key e s.entries in
    (
      record {
        hit = true;
        response = some e.response;
        hit_count = e.hit_count;
        expired_removed = false;
        entry_count = length es;
      },
      record s { entries = es; hits = suc s.hits },
    )

unfoldable pub lookup_entry : ℕ → Str → Option CacheEntry → CacheStore → LookupOutcome × CacheStore
lookup_entry now key none s = miss false s
lookup_entry now key (some e) s =
    if leb now e.expires_at
    then hit key e s
    else miss true (record s { entries = remove key s.entries })

-- `lookup` at the clock reading `now`
unfoldable pub cache_lookup : ℕ → Str → CacheStore → LookupOutcome × CacheStore
unfolding lookup_entry lookup
cache_lookup now key s = lookup_entry now key (lookup key s.entries) s

-- The `while` loop of `store` with the keys that it evicts, the oldest first.
unfoldable pub evict : ℕ → List (Str × CacheEntry) → List (Str × CacheEntry) × List Str
evict max_entries [] = ([], [])
evict max_entries ((key, e) ∷ es) =
    let rest = evict max_entries es in
    if leb (suc (length es)) max_entries then ((key, e) ∷ es, []) else (rest.0, key ∷ rest.1)

pub record StoreOutcome : Type 0 where
  pub entry_count : ℕ
  pub evicted : List Str

unfoldable pub cache_store :
    ℕ → CachePolicy → Str → CompletionResponse → CacheStore → StoreOutcome × CacheStore
unfolding evict insert
cache_store now policy key response s =
    let e : CacheEntry = record {
      response = response;
      created_at = now;
      expires_at = now + policy.ttl_ms;
      hit_count = 0;
    } in
    let kept = evict policy.max_entries (insert key e s.entries) in
    (
      record { entry_count = length kept.0; evicted = kept.1 },
      record s { entries = kept.0; stores = suc s.stores; evictions = s.evictions + length kept.1 },
    )

unfoldable pub cache_remove : Str → CacheStore → Bool × CacheStore
unfolding lookup
cache_remove key s = (is_some (lookup key s.entries), record s { entries = remove key s.entries })

abbrev pub cache_clear : CacheStore → CacheStore
cache_clear s = record s { entries = [] }

abbrev pub cache_size : CacheStore → ℕ
cache_size s = length s.entries
