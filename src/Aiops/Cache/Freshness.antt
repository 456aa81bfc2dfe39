-- ===== src/Aiops/Cache/Freshness.antt =====
-- What the cache answers was stored for the same key and has not expired.
use adam_os.Base.{
  ℕ, suc, ◌+◌, ◌≤◌, ◌≡◌, refl, true, false, ◌⊎◌, inl, inr, Option, none, some, List, [], ◌∷◌, ◌++◌,
  arith, Str, str_eq, str_eq_iff, length, lookup, insert, remove, is_some, Any, lookup-insert,
  lookup-remove, lookup-append, KeysOnce, insert-KeysOnce, remove-KeysOnce, leb, if◌then◌else◌,
  Bool-cases,
}
use adam_os.Aiops.Types.{CompletionResponse}
use adam_os.Aiops.Cache.{
  CacheEntry, CachePolicy, CacheStore, empty_cache, bump, lookup_entry, cache_lookup, cache_store,
  cache_remove, cache_clear,
}
use adam_os.Aiops.Cache.Capacity.{lookup-evict-insert, lookup-evict, evict-KeysOnce}

-- The operations of a cache; a lookup and a store come with the reading of the clock.
pub data Operation : Type 0 where
  look : ℕ → Str → Operation
  put : ℕ → CachePolicy → Str → CompletionResponse → Operation
  drop_key : Str → Operation
  clear_all : Operation

unfoldable pub operate : Operation → CacheStore → CacheStore
operate (look now key) s = (cache_lookup now key s).1
operate (put now p key r) s = (cache_store now p key r s).1
operate (drop_key key) s = (cache_remove key s).1
operate clear_all s = cache_clear s

-- A response that was stored, with its key and the time at which it expires.
abbrev pub Stored : Type 0
Stored = Str × CompletionResponse × ℕ

abbrev pub stored_by : Operation → List Stored → List Stored
stored_by (put now p key r) h = (key, r, now + p.ttl_ms) ∷ h
stored_by (look now key) h = h
stored_by (drop_key key) h = h
stored_by clear_all h = h

-- Each entry is one that was stored for its key.
pub record IsFaithful (h : List Stored) (s : CacheStore) : Type 0 where
  pub once : KeysOnce s.entries
  pub origin :
      (k : Str) (e : CacheEntry)
      → lookup k s.entries ≡ some e
      → Any (λ t. t ≡ (k, e.response, e.expires_at)) h

remove_entries :
    (h : List Stored) (key : Str) (s : CacheStore)
    → IsFaithful h s
    → IsFaithful h (record s { entries = remove key s.entries })
remove_entries h key s f = record {
  once = remove-KeysOnce key s.entries f.once;
  origin = λ k e found. f.origin k e (ground (arith, found, lookup-remove key k s.entries));
}

append-KeysOnce :
    (key : Str) (e : CacheEntry) (es : List (Str × CacheEntry))
    → KeysOnce es
    → is_some (lookup key es) ≡ false
    → KeysOnce (es ++ (key, e) ∷ [])
unfolding lookup
append-KeysOnce key e [] h fresh = (refl, tt)
append-KeysOnce key e ((k, w) ∷ es) h fresh = (
  ground
      (arith, h.0, fresh, lookup-append k es ((key, e) ∷ []), str_eq_iff key k, str_eq_iff k key),
  append-KeysOnce key e es h.1 (ground (arith, fresh)),
)

bump-KeysOnce :
    (key : Str) (e : CacheEntry) (es : List (Str × CacheEntry))
    → KeysOnce es
    → KeysOnce (bump key e es)
bump-KeysOnce key e es h =
    append-KeysOnce key e (remove key es) (remove-KeysOnce key es h)
      (ground (arith, lookup-remove key key es, str_eq_iff key key))

lookup-bump :
    (key k : Str) (e : CacheEntry) (es : List (Str × CacheEntry))
    → lookup k (bump key e es) ≡ (if str_eq key k then some e else lookup k es)
unfolding lookup
lookup-bump key k e es =
    ground (arith, lookup-append k (remove key es) ((key, e) ∷ []), lookup-remove key k es)

lookup_entry-IsFaithful :
    (h : List Stored) (now : ℕ) (key : Str) (o : Option CacheEntry) (s : CacheStore)
    → lookup key s.entries ≡ o
    → IsFaithful h s
    → IsFaithful h (lookup_entry now key o s).1
unfolding lookup_entry
lookup_entry-IsFaithful h now key none s found f = record { once = f.once; origin = f.origin }
lookup_entry-IsFaithful h now key (some e) s found f = elim (Bool-cases (leb now e.expires_at)) [
  | inr stale ↦ rw stale (record {
    once = remove-KeysOnce key s.entries f.once;
    origin = (remove_entries h key s f).origin;
  })
  | inl fresh ↦
      let e1 = record e { hit_count = suc e.hit_count } in
      rw fresh (record {
        once = bump-KeysOnce key e1 s.entries f.once;
        origin = λ k w at. bumped k w at (Bool-cases (str_eq key k));
      })
]
  where
    bumped :
        (k : Str) (w : CacheEntry)
        → lookup k (bump key (record e { hit_count = suc e.hit_count }) s.entries) ≡ some w
        → (str_eq key k ≡ true) ⊎ (str_eq key k ≡ false)
        → Any (λ t. t ≡ (k, w.response, w.expires_at)) h
    bumped k w at (inr other) = f.origin k w (
        ground (
          arith,
          at,
          other,
          lookup-bump key k (record e { hit_count = suc e.hit_count }) s.entries,
        ))
    bumped k w at (inl same) =
        let e1 : CacheEntry = record e { hit_count = suc e.hit_count } in
        let here : e1 ≡ w = ground (arith, at, same, lookup-bump key k e1 s.entries) in
        let name : key ≡ k = (str_eq_iff key k).0 same in
        rw (← here) (rw (← name) (f.origin key e found))

cache_store-IsFaithful :
    (h : List Stored) (now : ℕ) (p : CachePolicy) (key : Str) (r : CompletionResponse)
    (s : CacheStore)
    → IsFaithful h s
    → IsFaithful ((key, r, now + p.ttl_ms) ∷ h) (cache_store now p key r s).1
unfolding cache_store
cache_store-IsFaithful h now p key r s f = record {
  once =
      evict-KeysOnce p.max_entries (insert key e s.entries)
        (insert-KeysOnce key e s.entries f.once);
  origin = λ k w at.
      origin k w
        (lookup-evict k p.max_entries (insert key e s.entries) {e = w}
          (insert-KeysOnce key e s.entries f.once) at)
        (Bool-cases (str_eq key k));
}
  where
    e : CacheEntry
    e = record { response = r; created_at = now; expires_at = now + p.ttl_ms; hit_count = 0 }

    origin :
        (k : Str) (w : CacheEntry)
        → lookup k (insert key e s.entries) ≡ some w
        → (str_eq key k ≡ true) ⊎ (str_eq key k ≡ false)
        → Any (λ t. t ≡ (k, w.response, w.expires_at)) ((key, r, now + p.ttl_ms) ∷ h)
    origin k w at (inr other) =
        inr (f.origin k w (ground (arith, at, other, lookup-insert key k e s.entries)))
    origin k w at (inl same) =
        let here : e ≡ w = ground (arith, at, same, lookup-insert key k e s.entries) in
        let name : key ≡ k = (str_eq_iff key k).0 same in inl (rw (← here) (rw (← name) refl))

operate-IsFaithful :
    (h : List Stored) (op : Operation) (s : CacheStore)
    → IsFaithful h s
    → IsFaithful (stored_by op h) (operate op s)
unfolding operate cache_lookup cache_remove lookup
operate-IsFaithful h (look now key) s f =
    lookup_entry-IsFaithful h now key (lookup key s.entries) s refl f
operate-IsFaithful h (put now p key r) s f = cache_store-IsFaithful h now p key r s f
operate-IsFaithful h (drop_key key) s f = remove_entries h key s f
operate-IsFaithful h clear_all s f = record { once = tt; origin = λ k e at. absurd (ground arith) }

unfoldable pub operate_all : List Operation → CacheStore → CacheStore
operate_all [] s = s
operate_all (op ∷ ops) s = operate_all ops (operate op s)

abbrev pub stored_by_all : List Operation → List Stored → List Stored
stored_by_all [] h = h
stored_by_all (op ∷ ops) h = stored_by_all ops (stored_by op h)

operate_all-IsFaithful :
    (ops : List Operation) (h : List Stored) (s : CacheStore)
    → IsFaithful h s
    → IsFaithful (stored_by_all ops h) (operate_all ops s)
unfolding operate_all
operate_all-IsFaithful [] h s f = f
operate_all-IsFaithful (op ∷ ops) h s f =
    operate_all-IsFaithful ops (stored_by op h) (operate op s) (operate-IsFaithful h op s f)

lookup_entry-hit :
    (now : ℕ) (key : Str) (o : Option CacheEntry) (s : CacheStore)
    → (lookup_entry now key o s).0.hit ≡ true
    → (e : CacheEntry) × (o ≡ some e)
      × ((lookup_entry now key o s).0.response ≡ some e.response)
      × (now ≤ e.expires_at)
unfolding lookup_entry
lookup_entry-hit now key none s h = absurd (ground arith)
lookup_entry-hit now key (some e) s h = (e, refl, ground arith, ground arith)

-- Whatever is done to an empty cache, a hit answers with a response that was stored for the same
-- key, and that has not expired.
pub cache_lookup-hit :
    (ops : List Operation) (now : ℕ) (key : Str)
    → (cache_lookup now key (operate_all ops empty_cache)).0.hit ≡ true
    → (r : CompletionResponse) × (expires : ℕ) × ((cache_lookup now key
          (operate_all ops empty_cache)).0.response
        ≡ some r)
      × (now ≤ expires)
      × Any (λ t. t ≡ (key, r, expires)) (stored_by_all ops [])
unfolding cache_lookup
cache_lookup-hit ops now key h =
    let s = operate_all ops empty_cache in
    let f =
      operate_all-IsFaithful ops [] empty_cache
        (record { once = tt; origin = λ k e at. absurd (unfold lookup in ground arith) }) in
    let (e, found, answer, fresh) = lookup_entry-hit now key (lookup key s.entries) s h in
    (e.response, e.expires_at, answer, fresh, f.origin key e found)

-- With room for an entry and a cache within its bound, what was stored is answered until it
-- expires, and not after.
pub cache_lookup-store :
    (now later : ℕ) (p : CachePolicy) (key : Str) (r : CompletionResponse) (s : CacheStore)
    → 1 ≤ p.max_entries
    → length s.entries ≤ p.max_entries
    → (cache_lookup later key (cache_store now p key r s).1).0.response
      ≡ (if leb later (now + p.ttl_ms) then some r else none)
unfolding cache_lookup cache_store lookup_entry
cache_lookup-store now later p key r s room within =
    let e : CacheEntry = record {
      response = r;
      created_at = now;
      expires_at = now + p.ttl_ms;
      hit_count = 0;
    } in
    ground (arith, lookup-evict-insert p.max_entries key e s.entries room within)
