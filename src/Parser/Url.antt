-- ===== src/Parser/Url.antt =====
-- What src/parser.py uses of `urllib.parse`: `urlparse` on a target that starts with `http://` or
-- `https://` and has no white space in it. An exception is `raise`.
use custom_network_proxy_ser.Base.{
  ℕ, Bool, true, false, ◌&&◌, ◌||◌, not, Option, none, some, [], ◌∷◌, ◌++◌, leb, ◌==◌,
  if◌then◌else◌, drop, length, Result, ok, raise,
}
use custom_network_proxy_ser.Text.{
  Text, codes, starts_with, has_char, split_once, rsplit_once, span, lower,
}
use custom_network_proxy_ser.Text.Number.{is_digit, digits_value}
use custom_network_proxy_ser.IpAddress.{parse_v6}

pub record ParsedUrl : Type 0 where
  pub scheme : Text
  pub netloc : Text
  pub path : Text
  pub query : Text

-- `s.partition(c)` and `s.rpartition(c)`, as far as they are used
abbrev before : ℕ → Text → Text
before c s = elim (split_once c s) [ none ↦ s | some (a, b) ↦ a ]

abbrev after : ℕ → Text → Text
after c s = elim (split_once c s) [ none ↦ [] | some (a, b) ↦ b ]

abbrev after_last : ℕ → Text → Text
after_last c s = elim (rsplit_once c s) [ none ↦ s | some (a, b) ↦ b ]

-- The characters up to the first of `/?#`.
abbrev in_netloc : ℕ → Bool
in_netloc c = not (c == b'/' || c == b'?' || c == b'#')

-- `_check_bracketed_host`: an IPv6 address, or a future version of the form `v<hex>.<text>`
is_hex : ℕ → Bool
is_hex c = (leb b'0' c && leb c b'9') || (leb b'a' c && leb c b'f') || (leb b'A' c && leb c b'F')

future_rest : Text → Bool
future_rest [] = false
future_rest (c ∷ s) = true

abbrev is_future : Text → Bool
is_future s =
    let (digits, rest) = span is_hex s in
    not (length digits == 0) && elim rest [ [] ↦ false | c ∷ t ↦ c == b'.' && future_rest t ]

unfoldable pub check_bracketed : Text → Bool
unfolding is_hex future_rest
check_bracketed [] = false
check_bracketed (c ∷ s) =
    if c == b'v' then is_future s else elim (parse_v6 (c ∷ s)) [ none ↦ false | some n ↦ true ]

-- The brackets of the network location are balanced and hold an address.
unfoldable pub check_brackets : Text → Bool
unfolding check_bracketed
check_brackets netloc =
    if has_char b'[' netloc
    then has_char b']' netloc && check_bracketed (before b']' (after b'[' netloc))
    else not (has_char b']' netloc)

-- The last segment of a path loses what follows its first semicolon.
unfoldable pub without_params : Text → Text
without_params path = elim (rsplit_once b'/' path) [
  | none ↦ before b';' path
  | some (dir, last) ↦ dir ++ b'/' ∷ before b';' last
]

-- `urlparse(target)`, for a target with the given scheme and what follows `scheme://`
abbrev parse_rest : Text → Text → Result ParsedUrl
parse_rest scheme s =
    let (netloc, rest) = span in_netloc s in
    let url = before b'#' rest in
    if check_brackets netloc
    then ok (record {
      scheme = scheme;
      netloc = netloc;
      path = without_params (before b'?' url);
      query = after b'?' url;
    })
    else raise

unfoldable pub urlparse : Text → Result ParsedUrl
unfolding check_brackets without_params
urlparse target =
    if starts_with (codes "https://") target
    then parse_rest (codes "https") (drop 8 target)
    else parse_rest (codes "http") (drop 7 target)

-- The host and the port of `_hostinfo`, each perhaps empty.
abbrev host_info : Text → Text × Text
host_info netloc =
    let info = after_last b'@' netloc in
    if has_char b'[' info
    then (let bracketed = after b'[' info in
        (before b']' bracketed, after b':' (after b']' bracketed)))
    else (before b':' info, after b':' info)

abbrev lower_host : Text → Text
lower_host h = elim (split_once b'%' h) [ none ↦ lower h | some (a, zone) ↦ lower a ++ b'%' ∷ zone ]

-- `parsed_url.hostname`, empty where it is `None`
unfoldable pub hostname : ParsedUrl → Text
hostname u = lower_host ((host_info u.netloc).0)

all_digits : Text → Bool
unfolding is_digit
all_digits [] = true
all_digits (c ∷ s) = is_digit c && all_digits s

abbrev port_of : Text → Result (Option ℕ)
port_of [] = ok none
port_of (c ∷ s) =
    if all_digits (c ∷ s)
    then elim (digits_value 0 false (c ∷ s)) [
      | none ↦ raise
      | some n ↦ if leb n 65535 then ok (some n) else raise
    ]
    else raise

-- `parsed_url.port`; `raise` is the `ValueError`
unfoldable pub url_port : ParsedUrl → Result (Option ℕ)
unfolding all_digits
url_port u = port_of ((host_info u.netloc).1)
