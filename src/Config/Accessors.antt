-- ===== src/Config/Accessors.antt =====
-- The accessors of src/config_loader.py, on what `proxy.conf` gives.
use custom_network_proxy_ser.Base.{◌*◌, Bool, true, Option, Result, ok, ◌>>=◌, map}
use custom_network_proxy_ser.Text.{Text, codes}
use custom_network_proxy_ser.Text.Number.{ℤ, pos}
use custom_network_proxy_ser.Logger.{upper_char}
use custom_network_proxy_ser.Config.Values.{Config, get_text, get_int, get_boolean, get_float}

pub record ServerSettings : Type 0 where
  pub host : Text
  pub port : ℤ
  pub max_conn : ℤ
  pub thread_pool_size : ℤ

pub record LoggingSettings : Type 0 where
  pub log_file : Text
  pub max_size : ℤ
  pub backup_count : ℤ
  pub log_level : Text

pub record CacheSettings : Type 0 where
  pub enabled : Bool
  pub max_entries : ℤ
  pub max_object_size : ℤ
  pub cache_ttl : ℤ

-- The rate is what `float` gives, with 2.0 as an argument.
pub record RateLimitSettings (Float : Type 0) : Type 0 where
  pub enabled : Bool
  pub capacity : ℤ
  pub refill_rate : Float

pub record DashboardSettings : Type 0 where
  pub enabled : Bool
  pub port : ℤ

unfoldable pub get_server_config : Config → Result ServerSettings
unfolding get_text get_int
get_server_config config =
    get_text config (codes "server") (codes "listen_host") (codes "0.0.0.0") >>= λ host.
    get_int config (codes "server") (codes "listen_port") (pos 8888) >>= λ port.
    get_int config (codes "server") (codes "max_connections") (pos 50) >>= λ max_conn.
    get_int config (codes "server") (codes "thread_pool_size") (pos 20) >>= λ size.
    ok (record { host = host; port = port; max_conn = max_conn; thread_pool_size = size })

unfoldable pub get_logging_config : Config → Result LoggingSettings
unfolding get_text get_int
get_logging_config config =
    get_text config (codes "logging") (codes "log_file") (codes "logs/proxy.log") >>= λ log_file.
    get_int config (codes "logging") (codes "max_log_size") (pos 1_048_576) >>= λ max_size.
    get_int config (codes "logging") (codes "backup_count") (pos 5) >>= λ backup_count.
    get_text config (codes "logging") (codes "log_level") (codes "INFO") >>= λ level. ok (record {
      log_file = log_file;
      max_size = max_size;
      backup_count = backup_count;
      log_level = map upper_char level;
    })

unfoldable pub get_cache_config : Config → Result CacheSettings
unfolding get_boolean get_int
get_cache_config config = get_boolean config (codes "cache") (codes "enabled") true >>= λ enabled.
    get_int config (codes "cache") (codes "max_entries") (pos 100) >>= λ max_entries.
    get_int config (codes "cache") (codes "max_object_size") (pos (512 * 1024)) >>= λ size.
    get_int config (codes "cache") (codes "cache_ttl") (pos 300) >>= λ ttl. ok (record {
      enabled = enabled;
      max_entries = max_entries;
      max_object_size = size;
      cache_ttl = ttl;
    })

unfoldable pub get_rate_limit_config :
    {Float : Type 0} → (Text → Option Float) → Float → Config → Result (RateLimitSettings Float)
unfolding get_boolean get_int get_float
get_rate_limit_config to_float two config =
    get_boolean config (codes "rate_limit") (codes "enabled") true >>= λ enabled.
    get_int config (codes "rate_limit") (codes "capacity") (pos 20) >>= λ capacity.
    get_float to_float config (codes "rate_limit") (codes "refill_rate") two >>= λ rate.
    ok (record { enabled = enabled; capacity = capacity; refill_rate = rate })

unfoldable pub get_dashboard_config : Config → Result DashboardSettings
unfolding get_boolean get_int
get_dashboard_config config =
    get_boolean config (codes "dashboard") (codes "enabled") true >>= λ enabled.
    get_int config (codes "dashboard") (codes "port") (pos 8889) >>= λ port.
    ok (record { enabled = enabled; port = port })
