-- ===== src/Lib.antt =====
-- Verification of the custom network proxy server, a threaded forward proxy in Python (`src/*.py`).
--
-- A connection is handed to `handle_client`, which receives and parses the request, asks the rate
-- limiter, the users file and the blocklist, and then tunnels (CONNECT) or forwards it; forwarding
-- goes through the cache. Every step leaves log entries and counts in the metrics, which the
-- dashboard shows.
--
-- The parts, and the files that model them:
--   Cache, Cache/Stats, Cache/Lru   `LRUCache` and `CacheStats` of `src/cache.py`: the
--       OrderedDict is the list of its items, the oldest first (Dict); `get`, `put`, `clear`, with
--       the statistics as a part of the cache
--   RateLimiter/Bucket, RateLimiter/Registry   `TokenBucket` and `RateLimiter` of
--       `src/rate_limiter.py`: `consume`, `remaining`, `retry_after`; `is_allowed`,
--       `_get_or_create_bucket`, `_maybe_prune`; RateLimiter/Threads has the same by several threads,
--       with the lookup, the consume and the pruning as steps that interleave
--   Filter   `src/filter.py`: `load_blocklist`, `is_blocked`; IpAddress is what it uses of the
--       library `ipaddress`
--   Auth   `src/auth.py`: `hash_password`, `verify_password`, `load_users`
--   ManageUsers   `tools/manage_users.py`: the commands `add`, `remove`, `list`, `migrate`, and
--       `main`, on the content of the users file
--   LogSchema, Logger   `LogEntry` of `src/log_schema.py`; metrics, host counters, the ring buffer
--       and `log_event` of `src/logger.py`
--   Logger/Format   the two formatters, and what the handlers write to the file, its rotated backups
--       and the terminal
--   Json   `json.dumps` as the logger and the dashboard call it, and readers of its strings and
--       flat objects
--   Dashboard, Dashboard/Snapshot, Dashboard/Serve   `_build_snapshot`, the routes and the stream of
--       events of `src/dashboard.py`; Dashboard/Events is the client's side of the stream
--   Server   the accept loop, the pool of workers and the shutdown of `src/server.py`, as events
--   Parser/Receive, Parser/Url, Parser/Request   `recv_http_request` and `parse_http_request` of
--       `src/parser.py`, and what they use of `urllib.parse`
--   World   what one connection reads and writes: the shared cache, limiter and logger, the two
--       sockets, and what the outside gives (clocks, settings, the answer of `connect`)
--   Forwarder/Outbound, Forwarder/Relay, Forwarder/Http, Forwarder/Tunnel   `src/forwarder.py`:
--       `_build_outbound_request`, the loop that relays the response, `forward_http`, `tunnel`
--   Handler   `_check_auth` and `handle_client` of `src/handler.py`, one function for each stage
--   Config, Config/Values, Config/Accessors   `src/config_loader.py`: the accessors, and what they use
--       of `configparser`; the settings that the cache and the limiter take
--   Base, Dict, Text   shared helpers: exceptions (`Result`), dicts, `str` and `bytes` with their
--       methods, numbers, UTF-8, base64 and hexadecimal
--   Tests   runs on concrete input
--
-- How the code is modelled. A method that runs under a lock is one step on the state of its part. A
-- socket that is read is the list of what its next calls of `recv` give (a chunk, the end, an
-- `OSError`); a socket that is written has a script of which calls of `sendall` fail and after how
-- many bytes. A handler ends by returning or by an exception (`Outcome`), and a call that may raise
-- gives a `Result`. Time is an argument of every operation that reads a clock: seconds in the cache,
-- nanoseconds in the limiter. Tokens are counted in units of 10^-12 and rates in thousandths of a
-- token a second, so that they are whole numbers; latencies are tenths of a millisecond. Python's
-- whole numbers are a sign and a magnitude. Loops are recursions on their list or socket, so that no
-- fuel is needed but in `show`, where the number itself bounds the count of its digits.
--
-- Not modelled: the rounding of floats, which is a parameter where the dashboard shows a rate; case
-- folding beyond ASCII; where two threads interleave within a
-- connection, but for the limiter; the files
-- behind the blocklist and the settings, which are lists of lines or what `configparser` reads of
-- them; `hashlib.pbkdf2_hmac`, which is a
-- parameter: its keys, and which counts and lengths it takes; the HTTP server of
-- the standard library that calls the dashboard, and its page, `src/dashboard_ui.py`, which is a
-- constant. The 120 seconds that a tunnel waits for its threads are a limit on the calls of `recv` of
-- each, and whether an empty log file is rotated, which differs between versions of Python, is an
-- argument.
pub mod Base
pub mod Dict
pub mod Text
pub mod Config
pub mod Cache
pub mod RateLimiter
pub mod IpAddress
pub mod Filter
pub mod Auth
pub mod ManageUsers
pub mod Json
pub mod Server
pub mod LogSchema
pub mod Logger
pub mod Dashboard
pub mod Parser
pub mod World
pub mod Forwarder
pub mod Handler
pub mod Tests
