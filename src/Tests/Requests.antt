-- ===== src/Tests/Requests.antt =====
-- src/parser.py on a request that comes in two chunks, cut within its terminator.
use custom_network_proxy_ser.Base.{◌+◌, ◌≡◌, ◌≤◌, refl, arith, some, [], ◌∷◌, ◌++◌, length, take}
use custom_network_proxy_ser.Text.{
  codes, find, starts_with, split_crlf, lower, strip, lstrip, is_space, split_once,
}
use custom_network_proxy_ser.Text.Number.{to_int}
use custom_network_proxy_ser.Text.Codec.{Bytes, decode_ignore}
use custom_network_proxy_ser.Parser.Receive.{
  chunk, closed, Socket, header_end, extract_content_length, length_in, recv_http_request,
  recv_headers, remaining, max_header_size, buffer_size,
}
use custom_network_proxy_ser.Parser.Receive.Bounded.{
  IsAsked, body_declared, recv_http_request-bounded,
}
use custom_network_proxy_ser.Parser.Receive.Reassembly.{
  Sends, sent, more, declared, recv_http_request-Sends,
}

abbrev first_part : Bytes
first_part = codes "OST / HTTP/1.1" ++ 13 ∷ 10 ∷ (codes "Content-Length: 2" ++ 13 ∷ 10 ∷ [])

abbrev second_part : Bytes
second_part = 10 ∷ codes "hi"

abbrev whole : Bytes
whole = (b'P' ∷ first_part) ++ ((13 ∷ second_part) ++ [])

abbrev two_chunks : Socket
two_chunks = chunk b'P' first_part ∷ chunk 13 second_part ∷ closed ∷ []

whole-Sends : Sends two_chunks whole (closed ∷ [])
whole-Sends = more b'P' first_part (more 13 second_part (sent (closed ∷ [])))

ended : header_end whole ≡ some 38
unfolding header_end find starts_with codes
ended = refl

long_enough : length whole ≡ 38 + declared (take 38 whole)
unfolding codes extract_content_length length_in decode_ignore split_crlf starts_with lower
    split_once strip lstrip is_space to_int
long_enough = refl

recv_http_request-Sends_example : recv_http_request two_chunks ≡ (whole, closed ∷ [])
recv_http_request-Sends_example =
    recv_http_request-Sends two_chunks (closed ∷ []) whole 38 whole-Sends ended (omega arith)
      long_enough

-- The headers in one chunk, and the body in the next.
abbrev headers : Bytes
headers = first_part ++ 13 ∷ 10 ∷ []

abbrev body_later : Socket
body_later = chunk b'P' headers ∷ chunk b'h' (b'i' ∷ []) ∷ closed ∷ []

asked : IsAsked (recv_headers [] body_later)
unfolding recv_headers header_end find starts_with codes remaining extract_content_length length_in
    decode_ignore split_crlf lower split_once strip lstrip is_space to_int
asked = (omega arith, tt)

recv_http_request-bounded_example :
    length (recv_http_request body_later).0
    ≤ max_header_size + buffer_size + body_declared (recv_http_request body_later).0
unfolding codes
recv_http_request-bounded_example =
    recv_http_request-bounded body_later (omega arith, (omega arith, tt)) asked
