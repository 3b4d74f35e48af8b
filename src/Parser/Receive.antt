-- ===== src/Parser/Receive.antt =====
-- `recv_http_request` of src/parser.py. A socket is the list of what its next calls of `recv`
-- give; past the end of the list it is closed.
pub mod Terminator
pub mod Reassembly
pub mod Bounded
use custom_network_proxy_ser.Base.{
  ℕ, zero, suc, ◌+◌, ◌-◌, true, false, Option, none, some, List, [], ◌∷◌, ◌++◌, ltb, if◌then◌else◌,
  length, take,
}
use custom_network_proxy_ser.Text.{
  Text, codes, strip, lower, starts_with, split_once, split_crlf, find,
}
use custom_network_proxy_ser.Text.Number.{ℤ, to_int, is_positive, to_nat}
use custom_network_proxy_ser.Text.Codec.{Bytes, decode_ignore}

abbrev pub buffer_size : ℕ
buffer_size = 4096

abbrev pub header_terminator : Bytes
header_terminator = 13 ∷ 10 ∷ 13 ∷ 10 ∷ []

abbrev pub max_header_size : ℕ
max_header_size = 65536

-- What a call of `recv` gives: some bytes, the end of the data, or an `OSError`.
pub data Recv : Type 0 where
  chunk : ℕ → Bytes → Recv
  closed : Recv
  os_error : Recv

abbrev pub Socket : Type 0
Socket = List Recv

-- `HEADER_TERMINATOR in data`, and where the block of headers ends
unfoldable pub header_end : Bytes → Option ℕ
header_end b = elim (find header_terminator b) [ none ↦ none | some n ↦ some (n + 4) ]

-- The first loop; `none` is a block of headers that is too long.
unfoldable pub recv_headers : Bytes → Socket → Option Bytes × Socket
recv_headers acc [] = elim (header_end acc) [
  | some n ↦ (some acc, [])
  | none ↦ if ltb max_header_size (length acc) then (none, []) else (some acc, [])
]
recv_headers acc (r ∷ s) = elim (header_end acc) [
  | some n ↦ (some acc, r ∷ s)
  | none ↦ elim (ltb max_header_size (length acc)) [
    | true ↦ (none, r ∷ s)
    | false ↦ elim r [
      | chunk c b ↦ recv_headers (acc ++ c ∷ b) s
      | closed ↦ (some acc, s)
      | os_error ↦ (some acc, s)
    ]
  ]
]

-- The second loop, while bytes of the body remain.
unfoldable pub recv_body : ℕ → Bytes → Socket → Bytes × Socket
recv_body zero acc s = (acc, s)
recv_body (suc n) acc [] = (acc, [])
recv_body (suc n) acc (chunk c b ∷ s) = recv_body (suc n - length (c ∷ b)) (acc ++ c ∷ b) s
recv_body (suc n) acc (closed ∷ s) = (acc, s)
recv_body (suc n) acc (os_error ∷ s) = (acc, s)

-- The first line that names the length decides, also if its value is no number.
unfoldable pub length_in : List Text → Option ℤ
length_in [] = none
length_in (line ∷ lines) =
    if starts_with (codes "content-length:") (lower line)
    then elim (split_once b':' line) [ none ↦ none | some (k, v) ↦ to_int (strip v) ]
    else length_in lines

unfoldable pub extract_content_length : Text → Option ℤ
unfolding length_in
extract_content_length header_text = length_in (split_crlf header_text)

-- How many bytes of the body are still to come, once the headers are there.
unfoldable pub remaining : ℕ → Bytes → ℕ
remaining n acc = elim (extract_content_length (decode_ignore (take n acc))) [
  | none ↦ 0
  | some k ↦ if is_positive k then to_nat k - (length acc - n) else 0
]

abbrev pub after_headers : Option Bytes × Socket → Bytes × Socket
after_headers (none, s) = ([], s)
after_headers (some acc, s) = elim (header_end acc) [
  | none ↦ (acc, s)
  | some n ↦ recv_body (remaining n acc) acc s
]

unfoldable pub recv_http_request : Socket → Bytes × Socket
unfolding recv_headers recv_body remaining
recv_http_request s = after_headers (recv_headers [] s)
