-- ===== src/Tests/Logs.antt =====
-- src/logger.py and the stream of src/dashboard.py on concrete events.
use mathlib.Core.List.{reverse, Perm}
use custom_network_proxy_ser.Base.{ℕ, zero, suc, ◌≡◌, refl, arith, List, [], ◌∷◌, length, take, map}
use custom_network_proxy_ser.Text.{Text, codes}
use custom_network_proxy_ser.LogSchema.{Fields}
use custom_network_proxy_ser.Logger.{
  Logger, empty_logger, no_extra, get_recent_logs, get_top_hosts, ring_buffer_size,
}
use custom_network_proxy_ser.Logger.Ring.{Event, dict_of, log_all, get_recent_logs-log_all}
use custom_network_proxy_ser.Logger.Hosts.{record_all}
use custom_network_proxy_ser.Logger.TopHosts.{IsSorted, get_top_hosts_lem}
use custom_network_proxy_ser.Dashboard.{new_entries}
use custom_network_proxy_ser.Dashboard.Stream.{new_entries_until_full, new_entries_when_full}

abbrev event : Text → Event
event message = record { now = codes "12:00:00"; message = message; extra = no_extra }

abbrev events : List Event
events = event (codes "one") ∷ event (codes "two") ∷ event (codes "three") ∷ []

get_recent_logs-log_all_example :
    get_recent_logs 2 (log_all events empty_logger) ≡ take 2 (reverse (map dict_of events))
get_recent_logs-log_all_example = get_recent_logs-log_all 2 events (omega arith) (omega arith)

abbrev hosts : List Text
hosts = codes "a.com" ∷ codes "b.com" ∷ codes "a.com" ∷ []

get_top_hosts_lem_example :
    (all : List (Text × ℕ)) × Perm all (record_all hosts empty_logger).host_counters
    × IsSorted all
    × (get_top_hosts 1 (record_all hosts empty_logger) ≡ take 1 all)
get_top_hosts_lem_example = get_top_hosts_lem 1 (record_all hosts empty_logger)

new_entries_until_full_example :
    (new_entries 0 (log_all events empty_logger)).0 ≡ map dict_of events
new_entries_until_full_example = new_entries_until_full events empty_logger (omega arith)

-- A full ring.
unfoldable empty_entries : ℕ → List Fields
empty_entries zero = []
empty_entries (suc n) = [] ∷ empty_entries n

length-empty_entries : (n : ℕ) → length (empty_entries n) ≡ n
unfolding empty_entries
length-empty_entries zero = refl
length-empty_entries (suc n) = omega (arith, length-empty_entries n)

abbrev full_logger : Logger
full_logger = record empty_logger { log_ring_buffer = empty_entries ring_buffer_size }

new_entries_when_full_example :
    new_entries ring_buffer_size (log_all events full_logger) ≡ ([], ring_buffer_size)
new_entries_when_full_example =
    new_entries_when_full events full_logger (length-empty_entries ring_buffer_size)
