-- ===== src/Forwarder/Relay.antt =====
-- The loop of `forward_http` (src/forwarder.py) that relays the response and collects it for the
-- cache, with `_parse_response_status`.
pub mod Faithful
use custom_network_proxy_ser.Base.{
  ℕ, ◌+◌, Bool, true, false, ◌&&◌, ◌||◌, not, Option, none, some, List, [], ◌∷◌, ◌++◌, leb, ◌==◌,
  if◌then◌else◌, length,
}
use custom_network_proxy_ser.Text.{Text, is_space, is_byte_space, split_crlf, span}
use custom_network_proxy_ser.Text.Number.{ℤ, pos, negsuc, to_int}
use custom_network_proxy_ser.Text.Codec.{Bytes}
use custom_network_proxy_ser.Parser.Receive.{Recv, chunk, closed, os_error, Socket}
use custom_network_proxy_ser.World.{Writer, send}

abbrev skip_spaces : Bytes → Bytes
skip_spaces b = (span is_byte_space b).1

-- `line.split(None, 2)[1]`; no second word is the empty one
abbrev second_word : Bytes → Bytes
second_word line =
    (span (λ c. not (is_byte_space c))
      (skip_spaces (span (λ c. not (is_byte_space c)) (skip_spaces line)).1)).0

abbrev any_space : Bytes → Bool
any_space [] = false
any_space (c ∷ s) = is_space c || any_space s

-- `int` of bytes: unlike a text's, its spaces are those of `bytes`
abbrev int_of : Bytes → Option ℤ
int_of b = if any_space b then none else to_int b

abbrev status_of_lines : List Bytes → Option ℤ
status_of_lines [] = none
status_of_lines (line ∷ lines) = int_of (second_word line)

unfoldable pub parse_response_status : Bytes → Option ℤ
parse_response_status first_chunk = status_of_lines (split_crlf first_chunk)

-- The variables of the loop.
pub record Relay : Type 0 where
  pub response_chunks : List Bytes
  pub total_size : ℕ
  pub cacheable : Bool
  pub status_code : Option ℤ

abbrev pub start : Bool → Relay
start cacheable = record {
  response_chunks = [];
  total_size = 0;
  cacheable = cacheable;
  status_code = none;
}

-- `status_code and status_code != 200`
abbrev pub other_status : Option ℤ → Bool
other_status none = false
other_status (some (pos n)) = not (n == 0 || n == 200)
other_status (some (negsuc n)) = true

-- `if status_code is None`, on the status code so far
abbrev pub read_status_after : Option ℤ → Bytes → Relay → Relay
read_status_after (some code) b r = r
read_status_after none b r =
    let code = parse_response_status b in
    record r { status_code = code; cacheable = if other_status code then false else r.cacheable }

unfoldable pub read_status : Bytes → Relay → Relay
read_status b r = read_status_after r.status_code b r

-- `if cacheable`
unfoldable pub collect : ℕ → Bytes → Relay → Relay
collect max_object_size b r =
    if r.cacheable
    then (if leb (r.total_size + length b) max_object_size
        then record r {
          response_chunks = r.response_chunks ++ b ∷ [];
          total_size = r.total_size + length b;
        }
        else record r {
          response_chunks = [];
          total_size = r.total_size + length b;
          cacheable = false;
        })
    else r

-- The loop: the server's data goes to the client; an `OSError` of either socket ends it.
unfoldable pub stream : ℕ → Socket → Relay → Writer → Relay × Writer
unfolding read_status collect
stream m [] r o = (r, o)
stream m (closed ∷ s) r o = (r, o)
stream m (os_error ∷ s) r o = (r, o)
stream m (chunk c b ∷ s) r o =
    let (o', sent) = send (c ∷ b) o in
    elim sent [ true ↦ stream m s (collect m (c ∷ b) (read_status (c ∷ b) r)) o' | false ↦ (r, o') ]

-- `b"".join(response_chunks)`
unfoldable pub joined : List Bytes → Bytes
joined [] = []
joined (b ∷ bs) = b ++ joined bs
