-- ===== src/World.antt =====
-- What one connection reads and writes: the proxy's shared state, the two sockets and the log
-- (src/handler.py, src/forwarder.py), and what the outside gives: clocks, settings, the origin.
use custom_network_proxy_ser.Base.{
  ℕ, ◌+◌, Bool, true, false, Option, none, some, List, [], ◌∷◌, ◌++◌, take, ℕ_discrete,
  if◌then◌else◌,
}
use custom_network_proxy_ser.Config.{CacheConfig, RateLimitConfig}
use custom_network_proxy_ser.Text.{Text, text_dec}
use custom_network_proxy_ser.Text.Number.{ℤ}
use custom_network_proxy_ser.Text.Codec.{Bytes}
use custom_network_proxy_ser.Cache.Lru.{LruCache}
use custom_network_proxy_ser.RateLimiter.Registry.{RateLimiter}
use custom_network_proxy_ser.Filter.{Blocklist}
use custom_network_proxy_ser.Auth.{Derive, Users}
use custom_network_proxy_ser.Logger.{Logger, Metrics, Extra}
use custom_network_proxy_ser.Logger
use custom_network_proxy_ser.Parser.Receive.{Socket}

-- The sending side of a socket: what it has delivered, and what its next calls of `sendall` do:
-- `some n` is an `OSError` after n bytes. Past the end of the list every call succeeds.
pub record Writer : Type 0 where
  pub delivered : Bytes
  pub script : List (Option ℕ)
  pub shut : Bool

abbrev send_by : Bytes → Bytes → Bool → List (Option ℕ) → Writer × Bool
send_by b old shut [] = (record { delivered = old ++ b; script = []; shut = shut }, true)
send_by b old shut (none ∷ s) = (record { delivered = old ++ b; script = s; shut = shut }, true)
send_by b old shut (some n ∷ s) =
    (record { delivered = old ++ take n b; script = s; shut = shut }, false)

-- `sendall`; the flag says that it did not raise
unfoldable pub send : Bytes → Writer → Writer × Bool
send b o = send_by b o.delivered o.shut o.script

-- `cache_key`: method, host, port and path
abbrev pub Key : Type 0
Key = Text × Text × ℤ × Option Text

unfoldable pub ℤ_dec : Discrete ℤ
ℤ_dec = hlevel ℕ_discrete

unfoldable pub key_dec : Discrete Key
key_dec = hlevel (text_dec, ℤ_dec)

pub record World : Type 0 where
  pub logger : Logger
  pub limiter : RateLimiter Text
  pub cache : LruCache Key
  pub client : Writer
  pub server : Writer
  pub dialed : List (Text × ℤ)
  pub upstream_open : Bool
  pub client_closed : Bool

-- What `connect` does: a socket, an `OSError`, or another exception, as for a port out of range.
pub data Connect : Type 0 where
  connected : Socket → Connect
  refused : Connect
  failed : Connect

-- A log entry's time is given by its action, since one connection logs no action twice.
pub record Env : Type 0 where
  pub cache_cfg : CacheConfig
  pub limit_cfg : RateLimitConfig
  pub users : Users
  pub blocklist : Blocklist
  pub derive : Derive
  pub request_id : Text
  pub client_ip : Text
  pub client_addr : Text
  pub error_text : Text
  pub timestamp : Text → Text
  pub created : ℕ
  pub checked : ℕ
  pub pruned : ℕ
  pub read_at : ℕ
  pub stored_at : ℕ
  pub latency : ℕ
  pub client_limit : Option ℕ
  pub server_limit : Option ℕ
  pub connect : Text → ℤ → Connect

-- How a handler ends: it returns, or an exception leaves it.
pub data Outcome : Type 0 where
  done : World → Outcome
  raised : World → Outcome

abbrev pub world_of : Outcome → World
world_of (done w) = w
world_of (raised w) = w

-- `with metrics_lock: metrics[...] += 1`
unfoldable pub count : (Metrics → Metrics) → World → World
count f w = record w { logger = record w.logger { metrics = f w.logger.metrics } }

unfoldable pub log : Env → Text → Text → Extra → World → World
log e action message x w = record w {
  logger =
      Logger.log_event (e.timestamp action) message (record x { action = some action }) w.logger;
}

unfoldable pub send_client : Bytes → World → World × Bool
send_client b w = let (o, sent) = send b w.client in (record w { client = o }, sent)

-- `client_sock.sendall(data)`, then the rest of the branch if it did not raise
unfoldable pub reply : Bytes → (World → World) → World → Outcome
unfolding send_client
reply b after w = let (w', sent) = send_client b w in if sent then done (after w') else raised w'

abbrev pub count_error : Metrics → Metrics
count_error m = record m { errors = m.errors + 1 }
