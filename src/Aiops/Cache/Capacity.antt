-- ===== src/Aiops/Cache/Capacity.antt =====
-- The loop of `store` that evicts.
use adam_os.Base.{
  ℕ, suc, ◌+◌, ◌-◌, ◌≤◌, ◌≡◌, refl, ap, false, inl, inr, some, List, [], ◌∷◌, ◌++◌, map, arith, Str,
  str_eq, str_eq_iff, length, lookup, insert, is_some, lookup-insert, KeysOnce, leb, Bool-cases,
}
use adam_os.Aiops.Types.{CompletionResponse}
use adam_os.Aiops.Cache.{CacheEntry, CachePolicy, CacheStore, evict, cache_store}

abbrev pub keys : List (Str × CacheEntry) → List Str
keys = map (λ e. e.0)

-- What is evicted is a prefix of what was there, no longer than it has to be.
pub record IsEviction (n : ℕ) (es : List (Str × CacheEntry)) : Type 0 where
  pub prefix : (evict n es).1 ++ keys (evict n es).0 ≡ keys es
  pub bounded : length (evict n es).0 ≤ n
  pub needed : length (evict n es).1 ≡ length es - n

pub evict-IsEviction : (n : ℕ) (es : List (Str × CacheEntry)) → IsEviction n es
unfolding evict
evict-IsEviction n [] = record { prefix = refl; bounded = omega arith; needed = omega arith }
evict-IsEviction n ((k, e) ∷ es) =
    let h = evict-IsEviction n es in
    elim (Bool-cases (leb (suc (length es)) n)) [
      | inl fits ↦ record {
        prefix = rw fits refl;
        bounded = rw fits (ground arith);
        needed = rw fits (ground arith);
      }
      | inr over ↦ record {
        prefix = rw over (ap (λ r. k ∷ r) h.prefix);
        bounded = rw over h.bounded;
        needed = rw over (ground (arith, h.needed));
      }
    ]

-- `store` leaves at most `maxEntries` entries, and evicts the oldest keys only, as few as it must.
pub cache_store-IsEviction :
    (now : ℕ) (p : CachePolicy) (key : Str) (r : CompletionResponse) (s : CacheStore)
    → let (outcome, after) = cache_store now p key r s in
      (length after.entries ≤ p.max_entries)
      × (outcome.entry_count ≡ length after.entries)
      × (after.evictions ≡ s.evictions + length outcome.evicted)
      × ((e : CacheEntry) × (outcome.evicted ++ keys after.entries ≡ keys (insert key e s.entries))
          × (length outcome.evicted ≡ length (insert key e s.entries) - p.max_entries))
unfolding cache_store
cache_store-IsEviction now p key r s =
    let e : CacheEntry = record {
      response = r;
      created_at = now;
      expires_at = now + p.ttl_ms;
      hit_count = 0;
    } in
    let h = evict-IsEviction p.max_entries (insert key e s.entries) in
    (h.bounded, refl, refl, (e, h.prefix, h.needed))

pub evict-fits : (n : ℕ) (es : List (Str × CacheEntry)) → length es ≤ n → (evict n es).0 ≡ es
unfolding evict
evict-fits n [] h = refl
evict-fits n ((k, e) ∷ es) h = ground arith

pub length-insert-le :
    (key : Str) (e : CacheEntry) (es : List (Str × CacheEntry))
    → length (insert key e es) ≤ suc (length es)
unfolding insert
length-insert-le key e [] = omega arith
length-insert-le key e ((k, w) ∷ es) = ground (arith, length-insert-le key e es)

-- With room for one entry, what is stored into a cache within its bound is not evicted.
pub lookup-evict-insert :
    (n : ℕ) (key : Str) (e : CacheEntry) (es : List (Str × CacheEntry))
    → 1 ≤ n
    → length es ≤ n
    → lookup key (evict n (insert key e es)).0 ≡ some e
unfolding evict insert lookup
lookup-evict-insert n key e [] room h = ground (arith, str_eq_iff key key)
lookup-evict-insert n key e ((k, w) ∷ es) room h = elim (Bool-cases (str_eq k key)) [
  | inl same ↦ ground arith
  | inr other ↦
      let stays : lookup key (insert key e es) ≡ some e =
        ground (arith, lookup-insert key key e es, str_eq_iff key key) in
      ground (arith, stays, evict-fits n (insert key e es), length-insert-le key e es)
]

none_of :
    (j : Str) (n : ℕ) (es : List (Str × CacheEntry))
    → is_some (lookup j es) ≡ false
    → is_some (lookup j (evict n es).0) ≡ false
unfolding evict lookup
none_of j n [] h = refl
none_of j n ((k, w) ∷ es) h = ground (arith, none_of j n es)

-- What is found after an eviction was there.
pub lookup-evict :
    (j : Str) (n : ℕ) (es : List (Str × CacheEntry)) {e : CacheEntry}
    → KeysOnce es
    → lookup j (evict n es).0 ≡ some e
    → lookup j es ≡ some e
unfolding evict lookup
lookup-evict j n [] once h = h
lookup-evict j n ((k, w) ∷ es) {e} once h =
    ground (arith, once.0, str_eq_iff k j, lookup-evict j n es {e = e} once.1, none_of j n es)

pub evict-KeysOnce : (n : ℕ) (es : List (Str × CacheEntry)) → KeysOnce es → KeysOnce (evict n es).0
unfolding evict
evict-KeysOnce n [] h = tt
evict-KeysOnce n ((k, w) ∷ es) h = elim (Bool-cases (leb (suc (length es)) n)) [
  | inl fits ↦ rw fits h
  | inr over ↦ rw over (evict-KeysOnce n es h.1)
]
