-- ===== src/Forwarder/Http.antt =====
-- `forward_http` of src/forwarder.py: the cache lookup, the connection to the origin, the relay and
-- the store. `MAX_OBJECT_SIZE` is the cache's setting.
pub mod Caching
pub mod Repeats
use custom_network_proxy_ser.Base.{
  ℕ, ◌+◌, ◌/◌, ◌%◌, Bool, true, false, ◌&&◌, Option, none, some, List, [], ◌∷◌, ◌++◌, if◌then◌else◌,
  length, ◌==◌,
}
use custom_network_proxy_ser.Text.{Text, codes, same}
use custom_network_proxy_ser.Text.Number.{ℤ, pos, show, show_ℤ}
use custom_network_proxy_ser.Text.Codec.{Bytes}
use custom_network_proxy_ser.Cache.Lru.{Value, LruCache}
use custom_network_proxy_ser.Cache.Lru
use custom_network_proxy_ser.Logger.{Metrics, Extra, no_extra}
use custom_network_proxy_ser.Parser.Receive.{Socket}
use custom_network_proxy_ser.Parser.Request.{Parsed}
use custom_network_proxy_ser.World.{
  Key, key_dec, World, Env, Outcome, done, Connect, connected, refused, failed, raised, Writer,
  send, count, log, reply, send_client, count_error,
}
use custom_network_proxy_ser.Forwarder.Outbound.{build_outbound_request}
use custom_network_proxy_ser.Forwarder.Relay.{Relay, start, stream, joined}

abbrev crlf : Text
crlf = 13 ∷ 10 ∷ []

-- the reply of three lines that has no body
abbrev pub short_reply : Text → Bytes
short_reply status =
    codes "HTTP/1.1 "
    ++ status
    ++ crlf
    ++ codes "Connection: close"
    ++ crlf
    ++ codes "Content-Length: 0"
    ++ crlf
    ++ crlf

abbrev pub bad_gateway : Bytes
bad_gateway = short_reply (codes "502 Bad Gateway")

abbrev pub cache_key : Parsed → Key
cache_key p = (p.method, p.host, p.port, p.path)

abbrev show_path : Option Text → Text
show_path none = codes "None"
show_path (some path) = path

abbrev place : Parsed → Text
place p = p.host ++ b':' ∷ show_ℤ p.port ++ show_path p.path

abbrev pub cache_extra : Parsed → Extra
cache_extra p = record no_extra { request_id = some p.request_id; host = some p.host }

abbrev count_cached : Metrics → Metrics
count_cached m = record m { cached = m.cached + 1 }

-- the branch of a hit; an `OSError` of the client is passed over
unfoldable pub serve_cached : Env → Parsed → Value → World → World
serve_cached e p v w =
    let hit = log e (codes "CACHE_HIT") (codes "CACHE HIT → " ++ place p) (cache_extra p) w in
    (send_client v.response (count count_cached hit)).0

abbrev show_tenths : ℕ → Text
show_tenths n = show (n / 10) ++ b'.' ∷ show (n % 10)

abbrev figures : ℕ → ℕ → Text
figures size latency = codes " (" ++ show size ++ codes "B, " ++ show_tenths latency ++ codes "ms)"

abbrev sized_extra : Env → Parsed → Relay → Extra
sized_extra e p r = record (cache_extra p) {
  latency_ms = some e.latency;
  bytes_transferred = some r.total_size;
}

abbrev show_status : Option ℤ → Text
show_status none = codes "None"
show_status (some n) = show_ℤ n

-- The dict that is stored.
abbrev pub entry_for : Env → Relay → Value
entry_for e r = record {
  response = joined r.response_chunks;
  size = some r.total_size;
  timestamp = some e.stored_at;
}

-- whether the response is stored
abbrev pub stores : Relay → Bool
stores r = elim r.response_chunks [ [] ↦ false | b ∷ bs ↦ r.cacheable ]

-- what follows the loop
unfoldable pub settle : Env → Parsed → Relay → World → World
settle e p r w =
    if stores r
    then log e (codes "CACHE_STORE")
        (codes "CACHE STORE → " ++ place p ++ figures r.total_size e.latency) (sized_extra e p r)
        (record w {
          cache = Lru.put key_dec e.cache_cfg e.stored_at (cache_key p) (entry_for e r) w.cache;
        })
    else log e (codes "FORWARDED")
        (codes "FORWARDED → "
          ++ place p
          ++ codes " ["
          ++ show_status r.status_code
          ++ codes "]"
          ++ figures r.total_size e.latency)
        (record (sized_extra e p r) { status_code = r.status_code }) w

-- The response is relayed, the server's socket closed and the result stored or not.
unfoldable pub relay_response : Env → Parsed → Socket → World → World
unfolding settle
relay_response e p up w =
    let (r, o) =
      stream e.cache_cfg.max_object_size up (start (same p.method (codes "GET"))) w.client in
    settle e p r (record w { client = o; upstream_open = false })

-- The request is sent and the response relayed.
unfoldable pub exchange : Env → Parsed → Socket → World → Outcome
unfolding relay_response
exchange e p up w =
    let (o, sent) = send (build_outbound_request p) w.server in
    if sent
    then done (relay_response e p up (record w { server = o }))
    else reply bad_gateway (count count_error) (record w { server = o; upstream_open = false })

-- What `connect` gave.
unfoldable pub contacted : Env → Parsed → Connect → World → Outcome
unfolding exchange
contacted e p refused w = reply bad_gateway (count count_error) w
contacted e p failed w = raised w
contacted e p (connected up) w = exchange e p up (record w { upstream_open = true })

unfoldable pub contact_origin : Env → Parsed → World → Outcome
unfolding contacted
contact_origin e p w =
    contacted e p (e.connect p.host p.port)
      (record w { dialed = w.dialed ++ (p.host, p.port) ∷ [] })

-- What `cache.get` gave for a GET.
unfoldable pub looked_up : Env → Parsed → Option Value → World → Outcome
unfolding serve_cached contact_origin
looked_up e p (some v) w = done (serve_cached e p v w)
looked_up e p none w =
    contact_origin e p
      (log e (codes "CACHE_MISS") (codes "CACHE MISS → " ++ place p) (cache_extra p) w)

unfoldable pub forward_get : Env → Parsed → World → Outcome
unfolding looked_up
forward_get e p w =
    let (c, found) = Lru.get key_dec e.cache_cfg e.read_at (cache_key p) w.cache in
    looked_up e p found (record w { cache = c })

unfoldable pub forward_http : Env → Parsed → World → Outcome
unfolding forward_get contact_origin
forward_http e p w = if same p.method (codes "GET") then forward_get e p w else contact_origin e p w
