-- ===== src/Cache/Lru.antt =====
-- `LRUCache` of src/cache.py. Each method runs under the cache's lock, so it is one step; the time
-- that it reads is its argument `now`. Keys are any type with decidable equality.
pub mod Items
pub mod Invariant
pub mod History
pub mod Reads
use mathlib.Core.Option
use custom_network_proxy_ser.Base.{
  ℕ, ◌-◌, Bool, Option, none, some, List, [], ◌∷◌, length, ltb, if◌then◌else◌,
}
use custom_network_proxy_ser.Config.{CacheConfig}
use custom_network_proxy_ser.Dict.{lookup, erase, move_to_end, insert}
use custom_network_proxy_ser.Cache.Stats.{
  CacheStats, zero_stats, record_hit, record_miss, record_eviction, record_store, record_remove,
}

-- The dict that is stored; `none` is a missing key of it.
pub record Value : Type 0 where
  pub response : List ℕ
  pub size : Option ℕ
  pub timestamp : Option ℕ

-- `value.get("size", 0)` and `entry.get("timestamp", 0)`
abbrev pub size_of : Value → ℕ
size_of v = Option.get_or v.size 0

abbrev pub timestamp_of : Value → ℕ
timestamp_of v = Option.get_or v.timestamp 0

pub record LruCache (K : Type 0) : Type 0 where
  pub capacity : ℕ
  pub ttl : ℕ
  pub items : List (K × Value)
  pub stats : CacheStats

unfoldable pub init : {K : Type 0} → CacheConfig → LruCache K
init cfg = record {
  capacity = cfg.max_entries;
  ttl = cfg.cache_ttl;
  items = [];
  stats = zero_stats;
}

-- `if "timestamp" not in value: value["timestamp"] = time.time()`
abbrev pub stamp : ℕ → Value → Value
stamp now v = elim v.timestamp [ none ↦ record v { timestamp = some now } | some _ ↦ v ]

-- `while len(self.cache) > self.capacity: popitem(last=False)`, each one counted
unfoldable pub evict :
    {K : Type 0} → ℕ → List (K × Value) → CacheStats → List (K × Value) × CacheStats
evict capacity [] s = ([], s)
evict capacity ((k, v) ∷ d) s =
    let rest = evict capacity d (record_eviction (size_of v) s) in
    if ltb capacity (length ((k, v) ∷ d)) then rest else ((k, v) ∷ d, s)

module _ {K : Type 0} (dec : Discrete K) where
  -- the items and the statistics after an overwritten entry has been moved and uncounted
  unfoldable pub make_way : K → LruCache K → LruCache K
  make_way key c = elim (lookup dec key c.items) [
    | none ↦ c
    | some old ↦ record c {
      items = move_to_end dec key c.items;
      stats = record_remove (size_of old) c.stats;
    }
  ]

  -- the part of `put` under the lock
  unfoldable pub store : K → Value → LruCache K → LruCache K
  unfolding make_way evict
  store key value c =
      let c' = make_way key c in
      let (items, stats) =
        evict c'.capacity (insert dec key value c'.items) (record_store (size_of value) c'.stats) in
      record c' { items = items; stats = stats }

  -- `get`, for a key that is in the cache
  unfoldable pub get_present : ℕ → K → Value → LruCache K → LruCache K × Option Value
  get_present now key entry c =
      if ltb c.ttl (now - timestamp_of entry)
      then (
        record c {
          items = erase dec key c.items;
          stats = record_miss (record_eviction (size_of entry) c.stats);
        },
        none,
      )
      else (
        record c { items = move_to_end dec key c.items; stats = record_hit c.stats },
        some entry,
      )

  module _ (cfg : CacheConfig) where
    unfoldable pub get : ℕ → K → LruCache K → LruCache K × Option Value
    unfolding get_present
    get now key c =
        if cfg.enabled
        then elim (lookup dec key c.items) [
          | none ↦ (record c { stats = record_miss c.stats }, none)
          | some entry ↦ get_present now key entry c
        ]
        else (c, none)

    unfoldable pub put : ℕ → K → Value → LruCache K → LruCache K
    unfolding store
    put now key value c =
        if cfg.enabled
        then if ltb cfg.max_object_size (size_of value) then c else store key (stamp now value) c
        else c

unfoldable pub clear : {K : Type 0} → LruCache K → LruCache K
clear c = record c { items = []; stats = zero_stats }
