-- ===== src/Logger.antt =====
-- src/logger.py: the metrics, the counters of hosts and the ring buffer of recent entries. Each
-- update runs under its own lock, so it is one step. Writing to the file and to the terminal is
-- the list of the entries that were handed to the handlers of `logging`.
pub mod Ring
pub mod Format
pub mod Lines
pub mod Rotated
pub mod Hosts
pub mod TopHosts
use mathlib.Core.List.{reverse}
use mathlib.Core.Option
use custom_network_proxy_ser.Base.{
  ℕ, zero, suc, ◌+◌, ◌-◌, Bool, true, false, Option, none, some, List, [], ◌∷◌, ◌++◌, map, ltb, leb,
  ◌==◌, if◌then◌else◌, take, drop, take_last, length,
}
use custom_network_proxy_ser.Text.{Text, codes, text_dec}
use custom_network_proxy_ser.Text.Number.{ℤ}
use custom_network_proxy_ser.Dict.{lookup, insert}
use custom_network_proxy_ser.LogSchema.{LogEntry, Fields, to_dict}

pub record Metrics : Type 0 where
  pub total : ℕ
  pub allowed : ℕ
  pub blocked : ℕ
  pub cached : ℕ
  pub rate_limited : ℕ
  pub errors : ℕ

abbrev pub zero_metrics : Metrics
zero_metrics = record {
  total = 0;
  allowed = 0;
  blocked = 0;
  cached = 0;
  rate_limited = 0;
  errors = 0;
}

abbrev pub ring_buffer_size : ℕ
ring_buffer_size = 200

pub record Logger : Type 0 where
  pub metrics : Metrics
  pub host_counters : List (Text × ℕ)
  pub log_ring_buffer : List Fields
  pub written : List LogEntry

abbrev pub empty_logger : Logger
empty_logger = record {
  metrics = zero_metrics;
  host_counters = [];
  log_ring_buffer = [];
  written = [];
}

unfoldable pub count_host : Text → List (Text × ℕ) → List (Text × ℕ)
count_host host d = insert text_dec host (Option.get_or (lookup text_dec host d) 0 + 1) d

unfoldable pub record_host : Text → Logger → Logger
unfolding count_host
record_host [] l = l
record_host (c ∷ host) l = record l { host_counters = count_host (c ∷ host) l.host_counters }

-- `sorted(items, key=lambda x: x[1], reverse=True)`: the order of equal counts is kept
unfoldable pub insert_by_count : Text × ℕ → List (Text × ℕ) → List (Text × ℕ)
insert_by_count x [] = x ∷ []
insert_by_count x (y ∷ ys) =
    let rest = insert_by_count x ys in if ltb x.1 y.1 then y ∷ rest else x ∷ y ∷ ys

unfoldable pub sort_by_count : List (Text × ℕ) → List (Text × ℕ)
unfolding insert_by_count
sort_by_count [] = []
sort_by_count (x ∷ xs) = insert_by_count x (sort_by_count xs)

unfoldable pub get_top_hosts : ℕ → Logger → List (Text × ℕ)
unfolding sort_by_count
get_top_hosts n l = take n (sort_by_count l.host_counters)

-- The keyword arguments of `log_event`.
pub record Extra : Type 0 where
  pub level : Option Text
  pub request_id : Option Text
  pub client_ip : Option Text
  pub method : Option Text
  pub host : Option Text
  pub port : Option ℤ
  pub path : Option Text
  pub action : Option Text
  pub status_code : Option ℤ
  pub latency_ms : Option ℕ
  pub bytes_transferred : Option ℕ

abbrev pub no_extra : Extra
no_extra = record {
  level = none;
  request_id = none;
  client_ip = none;
  method = none;
  host = none;
  port = none;
  path = none;
  action = none;
  status_code = none;
  latency_ms = none;
  bytes_transferred = none;
}

abbrev pub upper_char : ℕ → ℕ
upper_char c = if ltb c b'a' then c else if ltb b'z' c then c else c - 32

-- The entry that `log_event` builds.
unfoldable pub entry_of : Text → Text → Extra → LogEntry
entry_of now message x = record {
  event = Option.get_or x.action (codes "PROXY");
  message = message;
  timestamp = now;
  level = map upper_char (Option.get_or x.level (codes "INFO"));
  request_id = x.request_id;
  client_ip = x.client_ip;
  method = x.method;
  host = x.host;
  port = x.port;
  path = x.path;
  action = x.action;
  status_code = x.status_code;
  latency_ms = x.latency_ms;
  bytes_transferred = x.bytes_transferred;
}

-- `append` of a `deque` of bounded length: the oldest items fall out
unfoldable pub push_ring : Fields → List Fields → List Fields
push_ring d ring = take_last ring_buffer_size (ring ++ d ∷ [])

unfoldable pub log_event : Text → Text → Extra → Logger → Logger
unfolding push_ring
log_event now message x l =
    let entry = entry_of now message x in
    record l {
      written = l.written ++ entry ∷ [];
      log_ring_buffer = push_ring (to_dict entry) l.log_ring_buffer;
    }

-- `list(ring)[-n:][::-1]`; for n = 0 the slice is the whole list
unfoldable pub get_recent_logs : ℕ → Logger → List Fields
get_recent_logs n l = reverse (if n == 0 then l.log_ring_buffer else take_last n l.log_ring_buffer)
