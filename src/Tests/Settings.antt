-- ===== src/Tests/Settings.antt =====
-- The settings of config/proxy.conf, and those of a file that is not there.
use custom_network_proxy_ser.Base.{◌≡◌, refl, true, [], ◌∷◌, ok, raise, ℕ_discrete}
use custom_network_proxy_ser.Text.{codes, text_dec, same, has_char, lower}
use custom_network_proxy_ser.Text.Number.{pos, to_int}
use custom_network_proxy_ser.Dict.{lookup}
use custom_network_proxy_ser.Config.Values.{Config, no_config}
use custom_network_proxy_ser.Config.Accessors.{
  get_server_config, get_cache_config, get_dashboard_config,
}

abbrev proxy_conf : Config
proxy_conf = record {
  sections =
      (
        codes "server",
        (codes "listen_host", codes "0.0.0.0")
            ∷ (codes "listen_port", codes "8888")
            ∷ (codes "max_connections", codes "50")
            ∷ (codes "thread_pool_size", codes "20")
            ∷ [],
      )
      ∷ (
        codes "cache",
        (codes "enabled", codes "true")
            ∷ (codes "max_entries", codes "100")
            ∷ (codes "max_object_size", codes "524288")
            ∷ (codes "cache_ttl", codes "300")
            ∷ [],
      )
      ∷ [];
  defaults = [];
}

server_of_file :
    get_server_config proxy_conf
    ≡ ok (record {
      host = codes "0.0.0.0";
      port = pos 8888;
      max_conn = pos 50;
      thread_pool_size = pos 20;
    })
unfolding get_server_config codes lookup text_dec ℕ_discrete to_int has_char
server_of_file = refl

cache_of_file :
    get_cache_config proxy_conf
    ≡ ok (record {
      enabled = true;
      max_entries = pos 100;
      max_object_size = pos 524288;
      cache_ttl = pos 300;
    })
unfolding get_cache_config codes lookup text_dec ℕ_discrete to_int has_char same lower
cache_of_file = refl

dashboard_of_no_file :
    get_dashboard_config no_config ≡ ok (record { enabled = true; port = pos 8889 })
unfolding get_dashboard_config codes lookup
dashboard_of_no_file = refl

-- A value that refers to itself raises.
abbrev looped : Config
looped = record {
  sections = (codes "server", (codes "listen_port", codes "%(listen_port)s") ∷ []) ∷ [];
  defaults = [];
}

server_looped : get_server_config looped ≡ raise
unfolding get_server_config codes lookup text_dec ℕ_discrete to_int has_char lower
server_looped = refl
