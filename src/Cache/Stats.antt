-- ===== src/Cache/Stats.antt =====
-- `CacheStats` of src/cache.py. Its lock makes each method one step. A count that Python clamps by
-- `max(0, n - k)` is a subtraction of natural numbers, which stops at 0 by itself.
use custom_network_proxy_ser.Base.{ℕ, ◌+◌, ◌-◌}

pub record CacheStats : Type 0 where
  pub hits : ℕ
  pub misses : ℕ
  pub evictions : ℕ
  pub stores : ℕ
  pub current_entries : ℕ
  pub current_bytes : ℕ

abbrev pub zero_stats : CacheStats
zero_stats = record {
  hits = 0;
  misses = 0;
  evictions = 0;
  stores = 0;
  current_entries = 0;
  current_bytes = 0;
}

unfoldable pub record_hit : CacheStats → CacheStats
record_hit s = record s { hits = s.hits + 1 }

unfoldable pub record_miss : CacheStats → CacheStats
record_miss s = record s { misses = s.misses + 1 }

unfoldable pub record_eviction : ℕ → CacheStats → CacheStats
record_eviction size s = record s {
  evictions = s.evictions + 1;
  current_entries = s.current_entries - 1;
  current_bytes = s.current_bytes - size;
}

unfoldable pub record_store : ℕ → CacheStats → CacheStats
record_store size s = record s {
  stores = s.stores + 1;
  current_entries = s.current_entries + 1;
  current_bytes = s.current_bytes + size;
}

unfoldable pub record_remove : ℕ → CacheStats → CacheStats
record_remove size s = record s {
  current_entries = s.current_entries - 1;
  current_bytes = s.current_bytes - size;
}
