-- ===== src/Handler.antt =====
-- src/handler.py: one client connection from its first byte to the closing of its socket. Every
-- exception of a stage ends in `catch`.
pub mod Guards
pub mod Dialing
pub mod Closing
pub mod Refusals
pub mod Verdicts
pub mod Totals
pub mod Credentials
pub mod Accounting
use custom_network_proxy_ser.Base.{
  ℕ, ◌+◌, Bool, true, false, not, Option, none, some, List, [], ◌∷◌, ◌++◌, if◌then◌else◌, Result,
  ok, raise, take,
}
use custom_network_proxy_ser.Text.{
  Text, codes, text_dec, same, lower, starts_with, is_space, lstrip, span, split_once,
}
use custom_network_proxy_ser.Text.Number.{ℤ, pos, show, show_ℤ}
use custom_network_proxy_ser.Text.Base64.{b64decode}
use custom_network_proxy_ser.Text.Codec.{Bytes, decode_strict}
use custom_network_proxy_ser.Dict.{lookup}
use custom_network_proxy_ser.Auth.{Derive, Users, verify_password}
use custom_network_proxy_ser.Filter.{is_blocked}
use custom_network_proxy_ser.Logger.{Metrics, Extra, no_extra, record_host}
use custom_network_proxy_ser.RateLimiter.Registry.{RateLimiter, is_allowed, get_retry_after}
use custom_network_proxy_ser.Parser.Receive.{Socket, recv_http_request}
use custom_network_proxy_ser.Parser.Request.{Parsed, Headers, header, parse_http_request}
use custom_network_proxy_ser.World.{
  World, Env, Outcome, done, raised, Connect, connected, refused, failed, count, log, reply,
  send_client, count_error,
}
use custom_network_proxy_ser.Forwarder.Tunnel.{tunnel}
use custom_network_proxy_ser.Forwarder.Http.{short_reply, bad_gateway, forward_http}

-- `auth.split(None, 1)[1]`; a missing one is empty
abbrev pub credentials : Text → Text
credentials auth = lstrip (span (λ c. not (is_space c)) (lstrip auth)).1

-- `base64.b64decode(encoded).decode("utf-8")`, `none` where one of the two raises
abbrev pub decoded : Text → Option Text
decoded encoded = elim encoded [
  | [] ↦ none
  | c ∷ s ↦ elim (b64decode (c ∷ s)) [ none ↦ none | some b ↦ decode_strict b ]
]

-- `USERS.get(username)`, then `verify_password`
unfoldable pub check_user : Derive → Users → Text → Text → Result Bool
check_user derive users username password = elim (lookup text_dec username users) [
  | none ↦ ok false
  | some stored ↦ verify_password derive password stored
]

unfoldable pub check_decoded : Derive → Users → Text → Result Bool
unfolding check_user
check_decoded derive users text = elim (split_once b':' text) [
  | none ↦ ok false
  | some (username, password) ↦ check_user derive users username password
]

unfoldable pub check_auth : Derive → Users → Headers → Result Bool
unfolding check_decoded
check_auth derive users headers = elim (header (codes "proxy-authorization") headers) [
  | none ↦ ok false
  | some auth ↦
      if starts_with (codes "basic ") (lower auth)
      then elim (decoded (credentials auth)) [
        | none ↦ ok false
        | some t ↦ check_decoded derive users t
      ]
      else ok false
]

abbrev pub count_total : Metrics → Metrics
count_total m = record m { total = m.total + 1 }

abbrev pub count_allowed : Metrics → Metrics
count_allowed m = record m { allowed = m.allowed + 1 }

abbrev pub count_blocked : Metrics → Metrics
count_blocked m = record m { blocked = m.blocked + 1 }

abbrev pub count_rate_limited : Metrics → Metrics
count_rate_limited m = record m { rate_limited = m.rate_limited + 1 }

abbrev crlf : Text
crlf = 13 ∷ 10 ∷ []

abbrev pub bad_request : Bytes
bad_request = short_reply (codes "400 Bad Request")

abbrev pub forbidden : Bytes
forbidden = short_reply (codes "403 Forbidden")

abbrev pub unauthorized : Bytes
unauthorized =
    codes "HTTP/1.1 407 Proxy Authentication Required"
    ++ crlf
    ++ codes "Proxy-Authenticate: Basic realm=\"Proxy\""
    ++ crlf
    ++ codes "Connection: close"
    ++ crlf
    ++ codes "Content-Length: 0"
    ++ crlf
    ++ crlf

abbrev pub established : Bytes
established = codes "HTTP/1.1 200 Connection Established" ++ crlf ++ crlf

abbrev pub too_many_requests : ℕ → Bytes
too_many_requests retry_after =
    codes "HTTP/1.1 429 Too Many Requests"
    ++ crlf
    ++ codes "Connection: close"
    ++ crlf
    ++ codes "Content-Length: 0"
    ++ crlf
    ++ codes "Retry-After: "
    ++ show retry_after
    ++ crlf
    ++ crlf

-- `[{request_id[:8]}] {client_addr} → `
abbrev intro : Env → Parsed → Text
intro e p = b'[' ∷ take 8 p.request_id ++ codes "] " ++ e.client_addr ++ codes " → "

abbrev place : Parsed → Text
place p = p.host ++ b':' ∷ show_ℤ p.port

abbrev auth_extra : Env → Parsed → Extra
auth_extra e p = record no_extra { request_id = some p.request_id; client_ip = some e.client_ip }

abbrev full_extra : Env → Parsed → Extra
full_extra e p = record (auth_extra e p) {
  host = some p.host;
  port = some p.port;
  method = some p.method;
}

-- The CONNECT branch, once the server's socket is connected; the socket is closed on every path.
unfoldable pub serve_tunnel : Env → Socket → Socket → World → Outcome
serve_tunnel e rest up w =
    let (w', sent) = send_client established (record w { upstream_open = true }) in
    if sent
    then done (record (tunnel e.client_limit e.server_limit rest up w') { upstream_open = false })
    else reply bad_gateway (count count_error) (record w' { upstream_open = false })

-- What `connect` gave.
unfoldable pub tunneled : Env → Socket → Connect → World → Outcome
unfolding serve_tunnel
tunneled e rest refused w = reply bad_gateway (count count_error) w
tunneled e rest failed w = raised w
tunneled e rest (connected up) w = serve_tunnel e rest up w

unfoldable pub serve_connect : Env → Socket → Parsed → World → Outcome
unfolding tunneled
serve_connect e rest p w =
    let logged =
      log e (codes "CONNECT") (intro e p ++ place p ++ codes " | CONNECT") (full_extra e p) w in
    tunneled e rest (e.connect p.host p.port)
      (record logged { dialed = logged.dialed ++ (p.host, p.port) ∷ [] })

-- Steps 5 and 6, for a request that is let through.
unfoldable pub dispatch : Env → Socket → Parsed → World → Outcome
unfolding serve_connect
dispatch e rest p w =
    if same p.method (codes "CONNECT")
    then serve_connect e rest p w
    else forward_http e p (
        log e (codes "FORWARD") (intro e p ++ place p ++ codes " | " ++ p.method) (full_extra e p)
          w)

-- Step 4: the blocklist.
unfoldable pub filter_stage : Env → Socket → Parsed → World → Outcome
unfolding dispatch
filter_stage e rest p w =
    if is_blocked e.blocklist (some p.host)
    then reply forbidden (λ v. v)
        (log e (codes "BLOCKED") (intro e p ++ place p ++ codes " | BLOCKED") (full_extra e p)
          (count count_blocked w))
    else dispatch e rest p (count count_allowed w)

-- Step 3: authentication, on what `_check_auth` gives.
unfoldable pub authenticated : Env → Socket → Parsed → Result Bool → World → Outcome
unfolding filter_stage
authenticated e rest p raise w = raised w
authenticated e rest p (ok true) w = filter_stage e rest p w
authenticated e rest p (ok false) w =
    reply unauthorized (λ v. v)
      (log e (codes "AUTH_FAILED") (intro e p ++ codes "AUTH FAILED") (auth_extra e p) w)

unfoldable pub auth_stage : Env → Socket → Parsed → World → Outcome
unfolding authenticated
auth_stage e rest p w = authenticated e rest p (check_auth e.derive e.users p.headers) w

-- The branch of a client that is over its limit; `none` is the exception of `get_retry_after`.
unfoldable pub limited : Env → Parsed → Option ℕ → World → Outcome
limited e p none w = raised w
limited e p (some retry_after) w =
    reply (too_many_requests retry_after) (λ v. v)
      (log e (codes "RATE_LIMITED")
        (intro e p ++ codes "RATE LIMITED (retry after " ++ show retry_after ++ codes "s)")
        (full_extra e p) (count count_rate_limited w))

-- Step 2: the rate limit, on whether the client is allowed.
unfoldable pub admitted : Env → Socket → Parsed → Bool → World → Outcome
unfolding auth_stage limited
admitted e rest p true w = auth_stage e rest p w
admitted e rest p false w = limited e p (get_retry_after text_dec e.client_ip w.limiter) w

unfoldable pub limit_stage : Env → Socket → Parsed → World → Outcome
unfolding admitted
limit_stage e rest p w =
    let (l, allowed) =
      is_allowed text_dec e.limit_cfg e.created e.checked e.pruned e.client_ip w.limiter in
    if e.limit_cfg.enabled
    then admitted e rest p allowed (record w { limiter = l })
    else auth_stage e rest p w

-- A request that was parsed is counted, then the stages follow.
unfoldable pub serve_parsed : Env → Socket → Parsed → World → Outcome
unfolding limit_stage
serve_parsed e rest p w =
    let counted = count count_total w in
    limit_stage e rest (record p { client_ip = some e.client_ip })
      (record counted { logger = record_host p.host counted.logger })

-- What `parse_http_request` gave.
unfoldable pub serve_request : Env → Socket → Result (Option Parsed) → World → Outcome
unfolding serve_parsed
serve_request e rest raise w = raised w
serve_request e rest (ok none) w = reply bad_request (count count_error) w
serve_request e rest (ok (some p)) w = serve_parsed e rest p w

-- The body of the `try`, on the bytes that were received.
unfoldable pub received : Env → Socket → Bytes → World → Outcome
unfolding serve_request
received e rest [] w = done w
received e rest (c ∷ raw) w = serve_request e rest (parse_http_request e.request_id (c ∷ raw)) w

unfoldable pub serve : Env → Socket → World → Outcome
unfolding received
serve e client_sock w = let (raw, rest) = recv_http_request client_sock in received e rest raw w

-- `except Exception`
unfoldable pub catch : Env → Outcome → World
catch e (done w) = w
catch e (raised w) =
    log e (codes "ERROR") (e.client_addr ++ codes " → INTERNAL ERROR: " ++ e.error_text) no_extra
      (count count_error w)

unfoldable pub handle_client : Env → Socket → World → World
unfolding serve catch
handle_client e client_sock w = record (catch e (serve e client_sock w)) { client_closed = true }
