-- ===== src/Tests/Streams.antt =====
-- The log file, and the stream of the dashboard, on concrete events.
use custom_network_proxy_ser.Base.{
  ℕ, ◌⊎◌, arith, length, ◌*◌, ◌/◌, ◌≡◌, refl, false, List, [], ◌∷◌, ◌++◌, map,
}
use custom_network_proxy_ser.Text.{Text, codes, same}
use custom_network_proxy_ser.Text.Number.{show_ℤ}
use custom_network_proxy_ser.Text.Codec.{encode}
use custom_network_proxy_ser.LogSchema.{LogEntry}
use custom_network_proxy_ser.Json.{dumps}
use custom_network_proxy_ser.Logger.{empty_logger, no_extra, entry_of}
use custom_network_proxy_ser.Logger.Format.{Rotation, Logged, handle_all, level_number}
use custom_network_proxy_ser.Logger.Lines.{fields_of}
use custom_network_proxy_ser.Logger.Rotated.{no_outputs, read_back, read_object-handle_all}
use custom_network_proxy_ser.Cache.Stats.{zero_stats}
use custom_network_proxy_ser.RateLimiter.Registry.{RateLimiter}
use custom_network_proxy_ser.Dashboard.Snapshot.{State, stats_snapshot}
use custom_network_proxy_ser.Dashboard.Serve.{serve_sse}
use custom_network_proxy_ser.Dashboard.Events.{event_source}
use custom_network_proxy_ser.Dashboard.Told.{taking}
use custom_network_proxy_ser.Dashboard.Delivered.{
  Meanwhile, passes_from, all_logged, log_data, entry_text, log_data-serve_sse,
}

abbrev entry : LogEntry
entry = entry_of (codes "12:00:00") (codes "a \"quoted\" word") no_extra

abbrev logged : List Logged
logged =
    record { now = codes "12:00:00"; level_name = codes "INFO"; entry = entry }
    ∷ record { now = codes "12:00:01"; level_name = codes "ERROR"; entry = entry }
    ∷ []

abbrev rotation : Rotation
rotation = record { max_bytes = 200; backup_count = 1; rolls_empty = false }

read_object-handle_all_example :
    let out = handle_all rotation 30 logged no_outputs in
    (older : List Logged) × (newer : List Logged) × (logged ≡ older ++ newer)
    × (read_back (out.file ∷ out.backups) ≡ map fields_of newer)
    × ((older ≡ []) ⊎ (length out.backups ≡ 1))
unfolding level_number codes same
read_object-handle_all_example = read_object-handle_all rotation 30 logged (refl, (refl, tt))

abbrev limiter : RateLimiter Text
limiter = record { capacity = 20; refill_rate = 2000; buckets = []; last_prune = 0 }

abbrev state : State
state = record { logger = empty_logger; stats = zero_stats; limiter = limiter }

abbrev rate : ℕ → ℕ → ℕ
rate hits total = hits * 1000 / total

abbrev meanwhile : List Meanwhile
meanwhile =
    record { logged = []; seen = state }
    ∷ record {
      logged =
          record { now = codes "12:00:00"; message = codes "two\nlines"; extra = no_extra } ∷ [];
      seen = state;
    }
    ∷ []

log_data-serve_sse_example :
    (stream : Text) × ((serve_sse rate 0
        (passes_from empty_logger meanwhile)
        (taking (1 ∷ []) false)).delivered
      ≡ (1 ∷ []) ++ encode stream)
    × (log_data (event_source stream) ≡ map entry_text (all_logged meanwhile))
log_data-serve_sse_example =
    log_data-serve_sse rate empty_logger meanwhile (1 ∷ []) false (omega arith)

dumped_stats :
    dumps (stats_snapshot rate (record zero_stats { hits = 1; misses = 2 }))
    ≡ codes
        "{\"hits\": 1, \"misses\": 2, \"evictions\": 0, \"stores\": 0, \"current_entries\": 0, \"current_bytes\": 0, \"hit_rate\": 33.3}"
unfolding dumps stats_snapshot codes show_ℤ
dumped_stats = refl
