-- ===== src/Parser/Receive/Reassembly.antt =====
-- A request of src/parser.py is received whole, however it is cut into chunks.
use custom_network_proxy_ser.Base.{
  ℕ, zero, suc, ◌+◌, ◌-◌, ◌≤◌, ◌≡◌, refl, sym, ap, ◌∙◌, inl, inr, arith, false, Option, none, some,
  [], ◌∷◌, ◌++◌, append-nil, append_assoc, length, length-append, take, ltb, ltb→lt, if◌then◌else◌,
  Bool-cases, Option-cases,
}
use custom_network_proxy_ser.Parser.Receive.Terminator.{
  some_same, header_end-length, header_end-more, header_end-less,
}
use custom_network_proxy_ser.Text.Number.{ℤ, is_positive, to_nat}
use custom_network_proxy_ser.Text.Codec.{Bytes, decode_ignore}
use custom_network_proxy_ser.Parser.Receive.{
  chunk, Socket, max_header_size, header_end, recv_headers, recv_body, extract_content_length,
  remaining, after_headers, recv_http_request,
}

-- `Sends s b t`: the socket s gives exactly the bytes b, in some chunks, and then goes on as t.
pub data Sends : Socket → Bytes → Socket → Type 0 where
  sent : (s : Socket) → Sends s [] s
  more :
      {s t : Socket} {b : Bytes} (c : ℕ) (a : Bytes)
      → Sends s b t
      → Sends (chunk c a ∷ s) ((c ∷ a) ++ b) t

recv_body-Sends :
    (s : Socket) (b : Bytes) (t : Socket) (k : ℕ) (acc : Bytes)
    → Sends s b t
    → length b ≡ k
    → recv_body k acc s ≡ (acc ++ b, t)
unfolding recv_body
recv_body-Sends s _ _ zero acc (sent _) h = rw (append-nil acc) refl
recv_body-Sends s _ _ (suc k) acc (sent _) h = absurd (omega arith)
recv_body-Sends _ _ t zero acc (more c a r) h = absurd (omega arith)
recv_body-Sends _ _ t (suc k) acc (more {s} {b = b} c a r) h =
    recv_body-Sends s b t (suc k - length (c ∷ a)) (acc ++ c ∷ a) r
      (omega (arith, length-append (c ∷ a) b, h))
    ∙ ap (λ (x : Bytes). (x, t)) (append_assoc acc (c ∷ a) b)

-- The loop over the headers stops in the middle of a request whose headers are not too long.
record Stopped (acc : Bytes) (b : Bytes) (t : Socket) (n : ℕ) (r : Option Bytes × Socket)
    : Type 0 where
  got : Bytes
  left : Bytes
  later : Socket
  result : r ≡ (some got, later)
  sends : Sends later left t
  whole : got ++ left ≡ acc ++ b
  ended : header_end got ≡ some n

pub recv_headers-found :
    (s : Socket) (acc : Bytes) (n : ℕ)
    → header_end acc ≡ some n
    → recv_headers acc s ≡ (some acc, s)
unfolding recv_headers
recv_headers-found [] acc n h = rw (h, recv_headers) refl
recv_headers-found (r ∷ s) acc n h = rw (h, recv_headers) refl

pub recv_headers-next :
    (s : Socket) (acc : Bytes) (c : ℕ) (a : Bytes)
    → header_end acc ≡ none
    → length acc ≤ max_header_size
    → recv_headers acc (chunk c a ∷ s) ≡ recv_headers (acc ++ c ∷ a) s
unfolding recv_headers
recv_headers-next s acc c a h short =
    let fits : ltb max_header_size (length acc) ≡ false = ground arith in
    rw (h, recv_headers, fits) refl

stop_here :
    (s t : Socket) (acc b : Bytes) (n : ℕ)
    → Sends s b t
    → header_end acc ≡ some n
    → Stopped acc b t n (recv_headers acc s)
stop_here s t acc b n r h = record {
  got = acc;
  left = b;
  later = s;
  result = recv_headers-found s acc n h;
  sends = r;
  whole = refl;
  ended = h;
}

-- Where the headers have not ended yet, there are not too many bytes.
still_short :
    (acc b : Bytes) (n : ℕ)
    → header_end acc ≡ none
    → header_end (acc ++ b) ≡ some n
    → n ≤ max_header_size
    → length acc ≤ max_header_size
still_short acc b n e h small = elim (Bool-cases (ltb (length acc) n)) [
  | inl less ↦ omega (arith, ltb→lt _ _ less)
  | inr more_there ↦
      let fits : n ≤ length acc = ground arith in
      let there = header_end-less acc b n h fits in absurd (cc)
]

recv_headers-Stopped :
    (s : Socket) (b : Bytes) (t : Socket) (acc : Bytes) (n : ℕ)
    → Sends s b t
    → header_end (acc ++ b) ≡ some n
    → n ≤ max_header_size
    → Stopped acc b t n (recv_headers acc s)
recv_headers-Stopped s _ _ acc n (sent _) h small = stop_here s s acc [] n (sent s) (
    header_end-less acc [] n h
      (omega (arith, header_end-length (acc ++ []) n h, length-append acc [])))
recv_headers-Stopped _ _ t acc n (more {s} {b = b} c a r) h small =
    elim (Option-cases (header_end acc)) [
      | inr (k, e) ↦
          let place = some_same k n _ (header_end-more acc ((c ∷ a) ++ b) k e) h in
          stop_here (chunk c a ∷ s) t acc ((c ∷ a) ++ b) n (more c a r) (e ∙ ap some place)
      | inl e ↦
          let next = recv_headers-next s acc c a e (still_short acc ((c ∷ a) ++ b) n e h small) in
          let whole = append_assoc acc (c ∷ a) b in
          let rest =
            recv_headers-Stopped s b t (acc ++ c ∷ a) n r (ap header_end whole ∙ h) small in
          record {
            got = rest.got;
            left = rest.left;
            later = rest.later;
            result = next ∙ rest.result;
            sends = rest.sends;
            whole = rest.whole ∙ whole;
            ended = rest.ended;
          }
    ]

-- How many bytes of a body the headers declare.
abbrev declared_by : Option ℤ → ℕ
declared_by none = 0
declared_by (some k) = if is_positive k then to_nat k else 0

abbrev pub declared : Bytes → ℕ
declared headers = declared_by (extract_content_length (decode_ignore headers))

pub remaining-declared :
    (n : ℕ) (acc : Bytes) → remaining n acc ≡ declared (take n acc) - (length acc - n)
unfolding remaining
remaining-declared n acc =
    elim (Option-cases (extract_content_length (decode_ignore (take n acc)))) [
      | inl e ↦ rw (e, remaining) (omega arith)
      | inr (k, e) ↦ rw (e, remaining) (ground arith)
    ]

pub take-prefix : (n : ℕ) (s u : Bytes) → n ≤ length s → take n (s ++ u) ≡ take n s
take-prefix zero s u h = refl
take-prefix (suc n) [] u h = absurd (omega arith)
take-prefix (suc n) (c ∷ s) u h = ap (◌∷◌ c) (take-prefix n s u (omega arith))

after_headers-found :
    (acc : Bytes) (s : Socket) (n : ℕ)
    → header_end acc ≡ some n
    → after_headers (some acc, s) ≡ recv_body (remaining n acc) acc s
after_headers-found acc s n h = rw (h, after_headers) refl

-- What is left of a request is as long as what its headers say is left.
left-remaining :
    (got left raw : Bytes) (n : ℕ)
    → got ++ left ≡ raw
    → n ≤ length got
    → length raw ≡ n + declared (take n raw)
    → length left ≡ remaining n got
left-remaining got left raw n whole fits len =
    let same_headers : take n raw ≡ take n got =
      ap (take n) (sym whole) ∙ take-prefix n got left fits in
    omega (
      arith,
      remaining-declared n got,
      length-append got left,
      ap length whole,
      len,
      ap declared same_headers,
    )

-- A complete request, whose headers end within the limit and whose body is as long as they
-- declare, is received whole and exactly, however it is cut into chunks; what the client sends
-- after it stays in the socket, where it comes in chunks of its own.
pub recv_http_request-Sends :
    (s t : Socket) (raw : Bytes) (n : ℕ)
    → Sends s raw t
    → header_end raw ≡ some n
    → n ≤ max_header_size
    → length raw ≡ n + declared (take n raw)
    → recv_http_request s ≡ (raw, t)
unfolding recv_http_request
recv_http_request-Sends s t raw n r h small len =
    let stopped = recv_headers-Stopped s raw t [] n r h small in
    let fits = header_end-length stopped.got n stopped.ended in
    ap after_headers stopped.result
    ∙ after_headers-found stopped.got stopped.later n stopped.ended
    ∙ recv_body-Sends stopped.later stopped.left t (remaining n stopped.got) stopped.got
        stopped.sends (left-remaining stopped.got stopped.left raw n stopped.whole fits len)
    ∙ ap (λ (x : Bytes). (x, t)) stopped.whole
