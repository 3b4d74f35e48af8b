-- ===== src/Cache/Lru/Invariant.antt =====
-- The invariant of the cache, kept by every method: no key twice, no more entries than the
-- capacity, and statistics that count exactly what is stored.
use custom_network_proxy_ser.Base.{
  ℕ, suc, ◌-◌, ◌≤◌, ◌≡◌, refl, some, List, [], ◌∷◌, arith, length, drop, take_last, length-append,
  length-drop, ltb, Bool-cases, Option-cases, inl, inr,
}
use custom_network_proxy_ser.Config.{CacheConfig}
use custom_network_proxy_ser.Cache.Stats.{
  CacheStats, record_eviction, record_store, record_hit, record_miss, record_remove,
}
use custom_network_proxy_ser.Dict.{lookup, erase, move_to_end, insert}
use custom_network_proxy_ser.Dict.Laws.{
  Distinct, erase_absent, append-Distinct, erase-Distinct, lookup-erase_self, length-erase, total,
  total-append, total_one, total-erase,
}
use custom_network_proxy_ser.Cache.Lru.{
  Value, LruCache, size_of, timestamp_of, stamp, init, evict, get_present, get, make_way, store,
  put, clear,
}
use custom_network_proxy_ser.Cache.Lru.Items.{touch, insert-make_way, capacity-store, store-items}

-- The counters of the dashboard say what a list of items holds.
pub record Counts {K : Type 0} (s : CacheStats) (d : List (K × Value)) : Type 0 where
  pub entries : s.current_entries ≡ length d
  pub bytes : s.current_bytes ≡ total size_of d

pub record IsValid {K : Type 0} (dec : Discrete K) (c : LruCache K) : Type 0 where
  pub bounded : length c.items ≤ c.capacity
  pub distinct : Distinct dec c.items
  pub entries : c.stats.current_entries ≡ length c.items
  pub bytes : c.stats.current_bytes ≡ total size_of c.items

length-take_last-le : {A : Type 0} (n : ℕ) (xs : List A) → length (take_last n xs) ≤ n
length-take_last-le n xs = omega (arith, length-drop (length xs - n) xs)

drop-Distinct :
    {K : Type 0} (dec : Discrete K) (n : ℕ) (d : List (K × Value))
    → Distinct dec d
    → Distinct dec (drop n d)
drop-Distinct dec ℕ.zero d h = h
drop-Distinct dec (suc n) [] h = tt
drop-Distinct dec (suc n) ((k, v) ∷ d) h = drop-Distinct dec n d h.1

evict-Counts :
    {K : Type 0} (cap : ℕ) (d : List (K × Value)) (s : CacheStats)
    → Counts s d
    → Counts (evict cap d s).1 (evict cap d s).0
unfolding evict record_eviction total
evict-Counts cap [] s h = h
evict-Counts cap ((k, v) ∷ d) s h =
    ground (arith, evict-Counts cap d (record_eviction (size_of v) s) (omega arith))

pub init-IsValid : {K : Type 0} (dec : Discrete K) (cfg : CacheConfig) → IsValid dec (init cfg)
unfolding init total
init-IsValid dec cfg = record { bounded = omega arith; distinct = tt; entries = refl; bytes = refl }

pub clear-IsValid : {K : Type 0} (dec : Discrete K) (c : LruCache K) → IsValid dec (clear c)
unfolding clear total
clear-IsValid dec c = record { bounded = omega arith; distinct = tt; entries = refl; bytes = refl }

module _ {K : Type 0} (dec : Discrete K) where
  pub touch-Distinct :
      (k : K) (v : Value) (d : List (K × Value)) → Distinct dec d → Distinct dec (touch dec k v d)
  touch-Distinct k v d h =
      append-Distinct dec k v (erase dec k d) (lookup-erase_self dec k d h)
        (erase-Distinct dec k d h)

  -- Uncounting the old entry and counting the new one leaves the counters of the touched items.
  make_way-Counts :
      (k : K) (v : Value) (c : LruCache K)
      → Counts c.stats c.items
      → Counts (record_store (size_of v) (make_way dec k c).stats) (touch dec k v c.items)
  unfolding make_way record_store record_remove
  make_way-Counts k v c h = elim (Option-cases (lookup dec k c.items)) [
    | inl miss ↦
        rw (miss, make_way, erase_absent dec k c.items miss)
          (omega (
            arith,
            length-append c.items ((k, v) ∷ []),
            total-append size_of c.items ((k, v) ∷ []),
            total_one size_of k v,
          ))
    | inr (old, hit) ↦
        rw (hit, make_way)
          (omega (
            arith,
            length-append (erase dec k c.items) ((k, v) ∷ []),
            total-append size_of (erase dec k c.items) ((k, v) ∷ []),
            total_one size_of k v,
            length-erase dec k old c.items hit,
            total-erase dec size_of k old c.items hit,
          ))
  ]

  store-Counts :
      (k : K) (v : Value) (c : LruCache K)
      → IsValid dec c
      → Counts (store dec k v c).stats (store dec k v c).items
  unfolding store
  store-Counts k v c h =
      evict-Counts (make_way dec k c).capacity (insert dec k v (make_way dec k c).items)
        (record_store (size_of v) (make_way dec k c).stats)
        (rw (insert-make_way dec k v c h.distinct)
          (make_way-Counts k v c (record { entries = h.entries; bytes = h.bytes })))

  pub store-IsValid :
      (k : K) (v : Value) (c : LruCache K) → IsValid dec c → IsValid dec (store dec k v c)
  store-IsValid k v c h = record {
    bounded =
        rw (store-items dec k v c h.distinct, (capacity-store dec k v c).0)
          (length-take_last-le c.capacity (touch dec k v c.items));
    distinct =
        rw (store-items dec k v c h.distinct)
          (drop-Distinct dec _ (touch dec k v c.items) (touch-Distinct k v c.items h.distinct));
    entries = (store-Counts k v c h).entries;
    bytes = (store-Counts k v c h).bytes;
  }

  get_present-IsValid :
      (now : ℕ) (k : K) (v : Value) (c : LruCache K)
      → IsValid dec c
      → lookup dec k c.items ≡ some v
      → IsValid dec (get_present dec now k v c).0
  unfolding get_present move_to_end record_miss record_eviction record_hit
  get_present-IsValid now k v c h hit = elim (Bool-cases (ltb c.ttl (now - timestamp_of v))) [
    | inl old ↦ rw old (record {
      bounded = omega (arith, length-erase dec k v c.items hit);
      distinct = erase-Distinct dec k c.items h.distinct;
      entries = omega (arith, length-erase dec k v c.items hit);
      bytes = omega (arith, total-erase dec size_of k v c.items hit);
    })
    | inr fresh ↦
        rw (fresh, hit, move_to_end)
          (record {
            bounded = omega (
              arith,
              length-append (erase dec k c.items) ((k, v) ∷ []),
              length-erase dec k v c.items hit,
            );
            distinct = touch-Distinct k v c.items h.distinct;
            entries = omega (
              arith,
              length-append (erase dec k c.items) ((k, v) ∷ []),
              length-erase dec k v c.items hit,
            );
            bytes = omega (
              arith,
              total-append size_of (erase dec k c.items) ((k, v) ∷ []),
              total_one size_of k v,
              total-erase dec size_of k v c.items hit,
            );
          })
  ]

  module _ (cfg : CacheConfig) where
    -- `put` keeps the invariant, whatever the value.
    pub put-IsValid :
        (now : ℕ) (k : K) (v : Value) (c : LruCache K)
        → IsValid dec c
        → IsValid dec (put dec cfg now k v c)
    unfolding put
    put-IsValid now k v c h = ground (arith, store-IsValid k (stamp now v) c h)

    -- `get` keeps the invariant, on a miss, on a hit and on an expired entry.
    pub get-IsValid :
        (now : ℕ) (k : K) (c : LruCache K) → IsValid dec c → IsValid dec (get dec cfg now k c).0
    unfolding get record_miss
    get-IsValid now k c h = elim (Bool-cases cfg.enabled) [
      | inr off ↦ rw off h
      | inl on ↦ elim (Option-cases (lookup dec k c.items)) [
        | inl miss ↦ rw (on, miss) assumption
        | inr (v, hit) ↦ rw (on, hit) (get_present-IsValid now k v c h hit)
      ]
    ]
