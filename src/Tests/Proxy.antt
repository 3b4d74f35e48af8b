-- ===== src/Tests/Proxy.antt =====
-- Whole connections through src/handler.py and src/forwarder.py.
use custom_network_proxy_ser.Base.{
  ◌≡◌, refl, ◌⊎◌, arith, true, false, none, some, List, [], ◌∷◌, ◌++◌, All,
}
use custom_network_proxy_ser.Dict.{lookup}
use custom_network_proxy_ser.Config.{CacheConfig, RateLimitConfig}
use custom_network_proxy_ser.Text.{
  Text, codes, same, starts_with, split_crlf, find, lower, lstrip, is_space, span, is_byte_space,
}
use custom_network_proxy_ser.Text.Number.{pos, to_int}
use custom_network_proxy_ser.Text.Codec.{Bytes, decode_ignore}
use custom_network_proxy_ser.Cache.Lru
use custom_network_proxy_ser.Cache.Lru.Invariant.{init-IsValid}
use custom_network_proxy_ser.Filter.{empty}
use custom_network_proxy_ser.Logger.{empty_logger}
use custom_network_proxy_ser.RateLimiter.Registry
use custom_network_proxy_ser.Parser.Receive.{
  chunk, closed, os_error, Socket, recv_http_request, recv_headers, recv_body, remaining,
  header_end, extract_content_length,
}
use custom_network_proxy_ser.Parser.Request.{
  Parsed, parse_headers, parse_http_request, request_line,
}
use custom_network_proxy_ser.World.{World, Env, connected, key_dec, Writer, world_of}
use custom_network_proxy_ser.Forwarder.Outbound.{is_hop_by_hop, kept_headers}
use custom_network_proxy_ser.Forwarder.Outbound.Hops.{kept_headers-parse_headers}
use custom_network_proxy_ser.Forwarder.Relay.{
  start, stream, collect, read_status, parse_response_status,
}
use custom_network_proxy_ser.Forwarder.Relay.Faithful.{
  taking, bytes_of, collected, start-Keeps, Relayed, stream-Relayed, stream-taking, stream-cut,
}
use custom_network_proxy_ser.Forwarder.Tunnel.{tunnel}
use custom_network_proxy_ser.Forwarder.Tunnel.Faithful.{within, ends_within, tunnel-bytes_of}
use custom_network_proxy_ser.Forwarder.Http.{stores, cache_key, forward_http}
use custom_network_proxy_ser.Forwarder.Http.Caching.{final, with_sockets}
use custom_network_proxy_ser.Forwarder.Http.Repeats.{forward_http-forward_http}
use custom_network_proxy_ser.Handler.{bad_request, handle_client}
use custom_network_proxy_ser.Handler.Closing.{handle_client-closed}
use custom_network_proxy_ser.Handler.Refusals.{
  Refused, malformed, with_client, handle_client-Refused,
}
use custom_network_proxy_ser.Handler.Dialing.{Reaches, handle_client-dialed}
use custom_network_proxy_ser.Handler.Totals.{
  Connection, handle_all, IsConsistent, handle_all-IsConsistent,
}

abbrev crlf : Text
crlf = 13 ∷ 10 ∷ []

abbrev response : Bytes
response = codes "HTTP/1.1 200 OK" ++ crlf ++ crlf ++ codes "hi"

abbrev origin : Socket
origin = chunk b'H' (codes "TTP/1.1 200 OK") ∷ chunk 13 (10 ∷ crlf ++ codes "hi") ∷ closed ∷ []

abbrev cache_cfg : CacheConfig
cache_cfg = record { enabled = true; max_entries = 2; max_object_size = 100; cache_ttl = 60 }

abbrev limit_cfg : RateLimitConfig
limit_cfg = record { enabled = true; capacity = 2; refill_rate = 1000 }

abbrev pub env : Env
env = record {
  cache_cfg = cache_cfg;
  limit_cfg = limit_cfg;
  users = (codes "bob", codes "pw") ∷ [];
  blocklist = empty;
  derive = record { key = λ plain salt n k. []; takes = λ n k. true };
  request_id = codes "12345678-0";
  client_ip = codes "10.0.0.1";
  client_addr = codes "10.0.0.1:5000";
  error_text = codes "error";
  timestamp = λ action. codes "12:00:00";
  created = 0;
  checked = 0;
  pruned = 0;
  read_at = 100;
  stored_at = 101;
  latency = 15;
  client_limit = none;
  server_limit = none;
  connect = λ host port. connected origin;
}

abbrev quiet : Writer
quiet = taking [] false

abbrev pub world : World
world = record {
  logger = empty_logger;
  limiter = Registry.init limit_cfg 0;
  cache = Lru.init cache_cfg;
  client = quiet;
  server = quiet;
  dialed = [];
  upstream_open = false;
  client_closed = false;
}

abbrev request_text : Bytes
request_text =
    codes "ET http://a.com/ HTTP/1.1"
    ++ crlf
    ++ codes "Proxy-Authorization: Basic Ym9iOnB3"
    ++ crlf
    ++ crlf

abbrev pub client : Socket
client = chunk b'G' request_text ∷ closed ∷ []

handle_client-dialed_example :
    ((handle_client env client world).dialed ≡ [])
    ⊎ Reaches env (recv_http_request client).0 world (handle_client env client world)
handle_client-dialed_example = handle_client-dialed env client world

abbrev connections : List Connection
connections =
    record { env = env; client_sock = client; client = quiet; server = quiet }
    ∷ record { env = env; client_sock = client; client = quiet; server = quiet }
    ∷ []

handle_all-IsConsistent_example : IsConsistent 2 (handle_all connections world).logger.metrics
handle_all-IsConsistent_example = handle_all-IsConsistent connections world refl

abbrev parsed : Parsed
parsed = record {
  method = codes "GET";
  host = codes "a.com";
  port = pos 80;
  path = some (codes "/");
  headers = [];
  content_length = none;
  body = [];
  request_id = [];
  raw = [];
  client_ip = none;
}

missed : (Lru.get key_dec cache_cfg 100 (cache_key parsed) world.cache).1 ≡ none
unfolding Lru.get Lru.init lookup
missed = refl

stored : stores (final env parsed origin) ≡ true
unfolding collected collect read_status parse_response_status codes same to_int split_crlf span
    is_byte_space
stored = refl

forward_http-forward_http_example :
    ((world_of (forward_http env parsed (with_sockets quiet quiet world))).client.delivered
      ≡ bytes_of origin)
    × ((world_of (
          forward_http
            (record env { read_at = 130 })
            parsed
            (with_sockets quiet quiet (
              world_of
                (forward_http env parsed (with_sockets quiet quiet world)))))).client.delivered
        ≡ bytes_of origin)
    × ((world_of (
          forward_http
            (record env { read_at = 130 })
            parsed
            (with_sockets quiet quiet
              (world_of (forward_http env parsed (with_sockets quiet quiet world)))))).dialed
        ≡ (world_of (forward_http env parsed (with_sockets quiet quiet world))).dialed)
unfolding Lru.init
forward_http-forward_http_example =
    forward_http-forward_http env parsed parsed origin 130 quiet world
      (init-IsValid key_dec cache_cfg) refl (omega arith) refl refl missed refl stored (omega arith)

stream-Relayed_example : Relayed 100 [] origin quiet (stream 100 origin (start true) quiet)
stream-Relayed_example = stream-Relayed 100 origin [] (start true) quiet (start-Keeps 100 true)

stream-taking_example :
    stream 100 origin (start true) (taking (1 ∷ []) false)
    ≡ (collected 100 origin (start true), taking ((1 ∷ []) ++ bytes_of origin) false)
stream-taking_example = stream-taking 100 origin (start true) (1 ∷ []) false

tunnel-bytes_of_example :
    tunnel none (some 1) client origin (with_sockets (taking [] false) (taking [] false) world)
    ≡ with_sockets
        (taking ([] ++ bytes_of (within (some 1) origin)) (ends_within (some 1) origin))
        (taking ([] ++ bytes_of (within none client)) (ends_within none client))
        world
tunnel-bytes_of_example = tunnel-bytes_of none (some 1) client origin [] [] world

abbrev header_lines : List Text
header_lines = codes "Proxy-Authorization: Basic Ym9iOnB3" ∷ codes "Accept: */*" ∷ []

kept_headers-parse_headers_example :
    All
      (λ line. starts_with (codes "proxy-authorization" ++ b':' ∷ []) line ≡ false)
      (kept_headers (parse_headers header_lines []))
unfolding is_hop_by_hop codes same
kept_headers-parse_headers_example =
    kept_headers-parse_headers (codes "proxy-authorization") header_lines refl

abbrev origin_part : Socket
origin_part = chunk b'H' (codes "TTP/1.1 200 OK") ∷ []

stream-cut_example :
    stream 100 (origin_part ++ os_error ∷ []) (start true) quiet
    ≡ stream 100 (origin_part ++ closed ∷ []) (start true) quiet
stream-cut_example = stream-cut 100 origin_part [] [] (start true) quiet

handle_client-closed_example :
    ((handle_client env client world).client_closed ≡ true)
    × ((handle_client env client world).upstream_open ≡ false)
handle_client-closed_example = handle_client-closed env client world refl

-- A request with no line of its headers is not one.
abbrev bad_client : Socket
bad_client = chunk b'x' (crlf ++ crlf) ∷ closed ∷ []

bad-Refused : Refused env (recv_http_request bad_client).0 world bad_request
unfolding recv_http_request recv_headers recv_body remaining header_end find starts_with
    parse_http_request extract_content_length split_crlf decode_ignore codes lower request_line span
    lstrip is_space
bad-Refused = malformed b'x' (crlf ++ crlf) refl refl

handle_client-Refused_example :
    (handle_client env bad_client (with_client [] false world)).client.delivered ≡ [] ++ bad_request
handle_client-Refused_example =
    handle_client-Refused env bad_client [] bad_request false world bad-Refused
