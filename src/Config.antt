-- ===== src/Config.antt =====
-- src/config_loader.py: the settings that the other modules read.
pub mod Values
pub mod Accessors
pub mod Plain
use custom_network_proxy_ser.Base.{ℕ, Bool}

-- `get_cache_config`
pub record CacheConfig : Type 0 where
  pub enabled : Bool
  pub max_entries : ℕ
  pub max_object_size : ℕ
  pub cache_ttl : ℕ

-- `get_rate_limit_config`; the rate is in thousandths of a token a second
pub record RateLimitConfig : Type 0 where
  pub enabled : Bool
  pub capacity : ℕ
  pub refill_rate : ℕ
