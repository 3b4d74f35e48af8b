-- ===== src/Forwarder/Outbound.antt =====
-- `_build_outbound_request` of src/forwarder.py.
pub mod Framed
pub mod Hops
pub mod Kept
pub mod Passed
use custom_network_proxy_ser.Base.{
  ℕ, Bool, true, false, ◌&&◌, ◌||◌, not, Option, none, some, List, [], ◌∷◌, ◌++◌, ◌==◌,
  if◌then◌else◌, length,
}
use custom_network_proxy_ser.Text.{Text, codes, same, join}
use custom_network_proxy_ser.Text.Number.{ℤ, pos, negsuc, show_ℤ, is_positive}
use custom_network_proxy_ser.Text.Codec.{Bytes, encode}
use custom_network_proxy_ser.Parser.Request.{Parsed, Headers, header}

abbrev pub hop_by_hop_headers : List Text
hop_by_hop_headers =
    codes "connection"
    ∷ codes "keep-alive"
    ∷ codes "proxy-authenticate"
    ∷ codes "proxy-authorization"
    ∷ codes "proxy-connection"
    ∷ codes "te"
    ∷ codes "trailers"
    ∷ codes "transfer-encoding"
    ∷ codes "upgrade"
    ∷ []

abbrev pub one_of : Text → List Text → Bool
one_of key [] = false
one_of key (k ∷ ks) = same key k || one_of key ks

unfoldable pub is_hop_by_hop : Text → Bool
is_hop_by_hop key = one_of key hop_by_hop_headers

abbrev pub header_line : Text → Text → Text
header_line key value = key ++ b':' ∷ b' ' ∷ value

-- the loop over `headers.items()`
unfoldable pub kept_headers : Headers → List Text
unfolding is_hop_by_hop
kept_headers [] = []
kept_headers ((key, value) ∷ headers) =
    let rest = kept_headers headers in
    if is_hop_by_hop key || same key (codes "host") then rest else header_line key value ∷ rest

abbrev pub default_port : ℤ → Bool
default_port (pos n) = n == 80 || n == 443
default_port (negsuc n) = false

unfoldable pub host_line : Text → ℤ → Text
host_line host port =
    if default_port port
    then header_line (codes "Host") host
    else header_line (codes "Host") (host ++ b':' ∷ show_ℤ port)

-- `if client_ip`, for a text that may be missing
abbrev pub forwarded_for : Option Text → Option Text → List Text
forwarded_for (some (c ∷ ip)) (some xff) =
    header_line (codes "X-Forwarded-For") (xff ++ codes ", " ++ (c ∷ ip)) ∷ []
forwarded_for (some (c ∷ ip)) none = header_line (codes "X-Forwarded-For") (c ∷ ip) ∷ []
forwarded_for _ (some xff) = header_line (codes "X-Forwarded-For") xff ∷ []
forwarded_for _ none = []

unfoldable pub out_headers : Parsed → List Text
unfolding kept_headers host_line
out_headers p =
    host_line p.host p.port ∷ kept_headers p.headers
    ++ header_line (codes "Connection") (codes "close")
      ∷ forwarded_for p.client_ip (header (codes "x-forwarded-for") p.headers)
    ++ header_line (codes "Via") (codes "1.1 proxy") ∷ []

-- the formatted path; a missing one prints as `None`
abbrev pub show_path : Option Text → Text
show_path none = codes "None"
show_path (some path) = path

abbrev crlf : Text
crlf = 13 ∷ 10 ∷ []

unfoldable pub header_block : Parsed → Text
unfolding out_headers
header_block p =
    p.method
    ++ b' ' ∷ show_path p.path
    ++ codes " HTTP/1.1"
    ++ crlf
    ++ join crlf (out_headers p)
    ++ crlf
    ++ crlf

abbrev positive_length : Option ℤ → Bool
positive_length none = false
positive_length (some n) = is_positive n

-- whether the body is appended
unfoldable pub sends_body : Parsed → Bool
sends_body p =
    not (length p.body == 0)
    && (one_of p.method (codes "POST" ∷ codes "PUT" ∷ codes "PATCH" ∷ [])
        || positive_length p.content_length)

unfoldable pub build_outbound_request : Parsed → Bytes
unfolding header_block sends_body
build_outbound_request p = encode (header_block p) ++ (if sends_body p then p.body else [])
