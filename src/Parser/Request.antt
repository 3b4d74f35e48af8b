-- ===== src/Parser/Request.antt =====
-- `parse_http_request` of src/parser.py. `raise` is an exception of `urlparse` that escapes; the
-- request id is an argument.
pub mod Shape
pub mod Stored
pub mod Unbroken
use custom_network_proxy_ser.Base.{
  ℕ, zero, suc, ◌+◌, ◌-◌, Bool, true, false, ◌&&◌, ◌||◌, not, Option, none, some, List, [], ◌∷◌,
  ◌++◌, ltb, leb, ◌==◌, if◌then◌else◌, length, take, drop, Result, ok, raise, ◌>>=◌,
}
use custom_network_proxy_ser.Text.{
  Text, codes, text_dec, same, strip, lower, lstrip, is_space, starts_with, has_char, split_once,
  rsplit_once, split_crlf, span,
}
use custom_network_proxy_ser.Text.Number.{ℤ, pos, to_int}
use custom_network_proxy_ser.Text.Codec.{Bytes, decode_ignore}
use custom_network_proxy_ser.Dict.{lookup, insert}
use custom_network_proxy_ser.Parser.Url.{ParsedUrl, urlparse, hostname, url_port}
use custom_network_proxy_ser.Parser.Receive.{header_end}

abbrev pub Headers : Type 0
Headers = List (Text × Text)

pub record Parsed : Type 0 where
  pub method : Text
  pub host : Text
  pub port : ℤ
  pub path : Option Text
  pub headers : Headers
  pub content_length : Option ℤ
  pub body : Bytes
  pub request_id : Text
  pub raw : Bytes
  pub client_ip : Option Text

-- `lines[0].split(maxsplit=2)`, if it gives three words: the first two
unfoldable pub request_line : Text → Option (Text × Text)
request_line line =
    let (method, rest) = span (λ c. not (is_space c)) (lstrip line) in
    let (target, rest') = span (λ c. not (is_space c)) (lstrip rest) in
    if length method == 0 || length target == 0 || length (lstrip rest') == 0
    then none
    else some (method, target)

-- the body of the loop over the header lines
unfoldable pub add_header : Text → Headers → Headers
add_header line headers = elim (split_once b':' line) [
  | none ↦ headers
  | some (key, value) ↦ insert text_dec (lower (strip key)) (strip value) headers
]

unfoldable pub parse_headers : List Text → Headers → Headers
unfolding add_header
parse_headers [] headers = headers
parse_headers (line ∷ lines) headers = parse_headers lines (add_header line headers)

-- `headers.get(key)`, if it is there and not empty
unfoldable pub header : Text → Headers → Option Text
header key headers = elim (lookup text_dec key headers) [
  | none ↦ none
  | some [] ↦ none
  | some (c ∷ v) ↦ some (c ∷ v)
]

unfoldable pub content_length_of : Headers → Option ℤ
unfolding header
content_length_of headers = elim (header (codes "content-length") headers) [
  | none ↦ none
  | some v ↦ to_int v
]

-- The destination: host, port and path; no host is the empty one.
pub record Destination : Type 0 where
  pub host : Text
  pub port : ℤ
  pub path : Option Text

-- `CONNECT host:port`
unfoldable pub connect_destination : Text → Option Destination
connect_destination target = elim (rsplit_once b':' target) [
  | none ↦ none
  | some (host, port) ↦ elim (to_int port) [
    | none ↦ none
    | some n ↦ some (record { host = host; port = n; path = none })
  ]
]

-- `port or default`
abbrev port_or : ℕ → Option ℕ → ℕ
port_or default none = default
port_or default (some zero) = default
port_or default (some (suc n)) = suc n

abbrev or_root : Text → Text
or_root [] = b'/' ∷ []
or_root (c ∷ s) = c ∷ s

abbrev with_query : Text → Text → Text
with_query path [] = path
with_query path (c ∷ q) = path ++ b'?' ∷ c ∷ q

-- `GET http://example.com/path?q=1 HTTP/1.1`
unfoldable pub absolute_destination : Text → Result Destination
absolute_destination target = do
  u ← urlparse target
  port ← url_port u
  ok (record {
    host = hostname u;
    port = pos (port_or (if same u.scheme (codes "https") then 443 else 80) port);
    path = some (with_query (or_root u.path) u.query);
  })

-- The host and the port of a `Host` header; a port that is no number belongs to the host.
unfoldable pub host_header_destination : Text → Text × ℤ
host_header_destination host_header = elim (rsplit_once b':' host_header) [
  | none ↦ (host_header, pos 80)
  | some (host, port) ↦ elim (to_int port) [ none ↦ (host_header, pos 80) | some n ↦ (host, n) ]
]

-- `GET /path?q=1 HTTP/1.1`, with a `Host` header
unfoldable pub origin_destination : Text → Headers → Destination
unfolding header host_header_destination
origin_destination target headers = elim (header (codes "host") headers) [
  | none ↦ record { host = []; port = pos 80; path = some (or_root target) }
  | some h ↦
      let (host, port) = host_header_destination h in
      record { host = host; port = port; path = some (or_root target) }
]

unfoldable pub destination : Text → Text → Headers → Result (Option Destination)
destination method target headers =
    if same method (codes "CONNECT")
    then ok (connect_destination target)
    else if starts_with (codes "http://") target || starts_with (codes "https://") target
    then (do d ← absolute_destination target; ok (some d))
    else ok (some (origin_destination target headers))

-- `if not host: return None`, and the result otherwise
unfoldable pub finish : Text → Bytes → ℕ → Text → Headers → Option Destination → Option Parsed
finish request_id raw n method headers none = none
finish request_id raw n method headers (some d) =
    if length d.host == 0
    then none
    else some (record {
      method = method;
      host = d.host;
      port = d.port;
      path = d.path;
      headers = headers;
      content_length = content_length_of headers;
      body = drop n raw;
      request_id = request_id;
      raw = raw;
      client_ip = none;
    })

abbrev parse_lines : Text → Bytes → ℕ → List Text → Result (Option Parsed)
parse_lines request_id raw n [] = ok none
parse_lines request_id raw n (line ∷ lines) = elim (request_line line) [
  | none ↦ ok none
  | some (method, target) ↦
      let headers = parse_headers lines [] in
      destination method target headers >>= λ d. ok (finish request_id raw n method headers d)
]

unfoldable pub parse_http_request : Text → Bytes → Result (Option Parsed)
parse_http_request request_id raw = elim (header_end raw) [
  | none ↦ ok none
  | some n ↦ parse_lines request_id raw n (split_crlf (decode_ignore (take n raw)))
]
