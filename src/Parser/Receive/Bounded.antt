-- ===== src/Parser/Receive/Bounded.antt =====
-- How much a request of src/parser.py can take up: the limit on headers, one buffer, and the length
-- that the headers declare.
use mathlib.Core.Path.{subst}
use mathlib.Core.List.{append-nil}
use custom_network_proxy_ser.Base.{
  ℕ, zero, suc, ◌+◌, ◌-◌, ◌≤◌, ◌≡◌, ◌⊎◌, refl, sym, ap, ◌∙◌, inl, inr, arith, true, false, Option,
  none, some, [], ◌∷◌, ◌++◌, append_assoc, length, length-append, take, ltb, Bool-cases,
  Option-cases,
}
use custom_network_proxy_ser.Text.Codec.{Bytes}
use custom_network_proxy_ser.Parser.Receive.{
  Recv, chunk, closed, os_error, Socket, buffer_size, max_header_size, header_end, recv_headers,
  recv_body, remaining, after_headers, recv_http_request,
}
use custom_network_proxy_ser.Parser.Receive.Terminator.{header_end-more, header_end-length}
use custom_network_proxy_ser.Parser.Receive.Reassembly.{
  declared, remaining-declared, take-prefix, recv_headers-found, recv_headers-next,
}

-- No call of `recv` gives more than a buffer.
abbrev pub IsSmall : Socket → Type 0
IsSmall [] = Unit
IsSmall (chunk c b ∷ s) = (length (c ∷ b) ≤ buffer_size) × IsSmall s
IsSmall (r ∷ s) = IsSmall s

-- Nor one for the body more than what remains of it.
abbrev pub IsWithin : ℕ → Socket → Type 0
IsWithin n [] = Unit
IsWithin zero (r ∷ s) = Unit
IsWithin (suc n) (chunk c b ∷ s) = (length (c ∷ b) ≤ suc n) × IsWithin (suc n - length (c ∷ b)) s
IsWithin (suc n) (r ∷ s) = Unit

-- What is asked for after the headers: the body, of the length that is still to come.
abbrev IsBodyOf : Bytes → Socket → Option ℕ → Type 0
IsBodyOf acc s none = Unit
IsBodyOf acc s (some n) = IsWithin (remaining n acc) s

abbrev pub IsAsked : Option Bytes × Socket → Type 0
IsAsked (none, s) = Unit
IsAsked (some acc, s) = IsBodyOf acc s (header_end acc)

abbrev IsLimited : Option Bytes × Socket → Type 0
IsLimited (none, s) = Unit
IsLimited (some acc, s) = length acc ≤ max_header_size + buffer_size

recv_headers-over :
    (s : Socket) (acc : Bytes)
    → header_end acc ≡ none
    → ltb max_header_size (length acc) ≡ true
    → recv_headers acc s ≡ (none, s)
unfolding recv_headers
recv_headers-over [] acc e f = rw (e, recv_headers, f) refl
recv_headers-over (r ∷ s) acc e f = rw (e, recv_headers, f) refl

recv_headers-last :
    (r : Recv) (s : Socket) (acc : Bytes)
    → (r ≡ closed) ⊎ (r ≡ os_error)
    → header_end acc ≡ none
    → ltb max_header_size (length acc) ≡ false
    → recv_headers acc (r ∷ s) ≡ (some acc, s)
unfolding recv_headers
recv_headers-last r s acc (inl k) e f = rw k (rw (e, recv_headers, f) refl)
recv_headers-last r s acc (inr k) e f = rw k (rw (e, recv_headers, f) refl)

-- Found, too long, or neither.
three_ways :
    (P : Option Bytes × Socket → Type 0) (s : Socket) (acc : Bytes)
    → P (some acc, s)
    → P (none, s)
    → (header_end acc ≡ none → ltb max_header_size (length acc) ≡ false → P (recv_headers acc s))
    → P (recv_headers acc s)
three_ways P s acc here over on = elim (Option-cases (header_end acc)) [
  | inr (n, e) ↦ subst P (sym (recv_headers-found s acc n e)) here
  | inl e ↦ elim (Bool-cases (ltb max_header_size (length acc))) [
    | inl f ↦ subst P (sym (recv_headers-over s acc e f)) over
    | inr f ↦ on e f
  ]
]

recv_headers-IsLimited :
    (s : Socket) (acc : Bytes)
    → IsSmall s
    → length acc ≤ max_header_size + buffer_size
    → IsLimited (recv_headers acc s)
recv_headers-IsLimited [] acc h k =
    three_ways IsLimited [] acc k tt (λ e f. unfold recv_headers in rw (e, recv_headers, f) k)
recv_headers-IsLimited (chunk c b ∷ s) acc (small, h) k =
    let later : length acc ≤ max_header_size → IsLimited (recv_headers (acc ++ c ∷ b) s) = λ short.
      recv_headers-IsLimited s (acc ++ c ∷ b) h
        (omega (arith, short, small, length-append acc (c ∷ b))) in
    three_ways IsLimited (chunk c b ∷ s) acc k tt (λ e f.
      let short : length acc ≤ max_header_size = ground (arith, f) in
      subst IsLimited (sym (recv_headers-next s acc c b e short)) (later short))
recv_headers-IsLimited (closed ∷ s) acc h k =
    three_ways IsLimited (closed ∷ s) acc k tt
      (λ e f. subst IsLimited (sym (recv_headers-last closed s acc (inl refl) e f)) k)
recv_headers-IsLimited (os_error ∷ s) acc h k =
    three_ways IsLimited (os_error ∷ s) acc k tt
      (λ e f. subst IsLimited (sym (recv_headers-last os_error s acc (inr refl) e f)) k)

-- What is received of a body: at most what remains, after what is there.
recv_body-append :
    (s : Socket) (n : ℕ) (acc : Bytes)
    → IsWithin n s
    → (u : Bytes) × ((recv_body n acc s).0 ≡ acc ++ u) × (length u ≤ n)
unfolding recv_body
recv_body-append s zero acc h = ([], sym (append-nil acc), omega arith)
recv_body-append [] (suc n) acc h = ([], sym (append-nil acc), omega arith)
recv_body-append (chunk c b ∷ s) (suc n) acc (small, h) =
    let (u, e, len) = recv_body-append s (suc n - length (c ∷ b)) (acc ++ c ∷ b) h in
    (
      (c ∷ b) ++ u,
      e ∙ append_assoc acc (c ∷ b) u,
      omega (arith, length-append (c ∷ b) u, len, small),
    )
recv_body-append (closed ∷ s) (suc n) acc h = ([], sym (append-nil acc), omega arith)
recv_body-append (os_error ∷ s) (suc n) acc h = ([], sym (append-nil acc), omega arith)

-- The length of the body that the headers in these bytes declare.
abbrev declared_at : Bytes → Option ℕ → ℕ
declared_at b none = 0
declared_at b (some n) = declared (take n b)

abbrev pub body_declared : Bytes → ℕ
body_declared b = declared_at b (header_end b)

IsBounded : Bytes → Type 0
IsBounded b = length b ≤ max_header_size + buffer_size + body_declared b

after_headers-found :
    (acc : Bytes) (s : Socket) (n : ℕ)
    → header_end acc ≡ some n
    → (after_headers (some acc, s)).0 ≡ (recv_body (remaining n acc) acc s).0
after_headers-found acc s n h = rw (h, after_headers) refl

declared_found : (b : Bytes) (n : ℕ) → header_end b ≡ some n → body_declared b ≡ declared (take n b)
declared_found b n h = ap (declared_at b) h

whole-IsBounded :
    (acc u : Bytes) (n : ℕ)
    → length acc ≤ max_header_size + buffer_size
    → header_end acc ≡ some n
    → length u ≤ remaining n acc
    → IsBounded (acc ++ u)
unfolding IsBounded
whole-IsBounded acc u n k e len =
    let same : body_declared (acc ++ u) ≡ declared (take n acc) =
      declared_found (acc ++ u) n (header_end-more acc u n e)
      ∙ ap declared (take-prefix n acc u (header_end-length acc n e)) in
    omega (arith, same, len, k, length-append acc u, remaining-declared n acc)

short_IsBounded : (acc : Bytes) → length acc ≤ max_header_size + buffer_size → IsBounded acc
unfolding IsBounded
short_IsBounded acc k = omega (arith, k)

after_headers-IsBounded :
    (r : Option Bytes × Socket) → IsLimited r → IsAsked r → IsBounded (after_headers r).0
after_headers-IsBounded (none, s) k asked = unfold IsBounded in omega arith
after_headers-IsBounded (some acc, s) k asked = elim (Option-cases (header_end acc)) [
  | inl e ↦
      let none_more : (after_headers (some acc, s)).0 ≡ acc = rw (e, after_headers) refl in
      subst IsBounded (sym none_more) (short_IsBounded acc k)
  | inr (n, e) ↦
      let within : IsWithin (remaining n acc) s = rw e at asked in
      let (u, whole, len) = recv_body-append s (remaining n acc) acc within in
      subst IsBounded (sym (after_headers-found acc s n e ∙ whole))
        (whole-IsBounded acc u n k e len)
]

-- A request that is received is no longer than the limit on headers, one buffer, and the length of
-- the body that its own headers declare. A call of `recv` gives no more than it is asked for.
pub recv_http_request-bounded :
    (s : Socket)
    → IsSmall s
    → IsAsked (recv_headers [] s)
    → length (recv_http_request s).0
      ≤ max_header_size + buffer_size + body_declared (recv_http_request s).0
unfolding recv_http_request IsBounded
recv_http_request-bounded s h asked =
    after_headers-IsBounded (recv_headers [] s) (recv_headers-IsLimited s [] h (omega arith)) asked
