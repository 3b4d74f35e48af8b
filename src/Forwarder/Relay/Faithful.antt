-- ===== src/Forwarder/Relay/Faithful.antt =====
-- What the loop of `forward_http` (src/forwarder.py) relays and what it keeps for the cache.
use custom_network_proxy_ser.Base.{
  ℕ, ◌+◌, ◌≤◌, ◌≡◌, refl, sym, ◌∙◌, ap, arith, Bool, true, false, Option, none, some, List, [], ◌∷◌,
  ◌++◌, append-nil, append_assoc, length, length-append, leb, leb→le, if◌then◌else◌, if_elim,
  Bool-cases, inl, inr, ◌⊎◌, take,
}
use custom_network_proxy_ser.Text.Number.{ℤ}
use custom_network_proxy_ser.Text.Codec.{Bytes}
use custom_network_proxy_ser.Parser.Receive.{chunk, closed, os_error, Socket}
use custom_network_proxy_ser.World.{Writer, send}
use custom_network_proxy_ser.Forwarder.Relay.{
  Relay, start, stream, read_status, read_status_after, collect, joined,
}

-- A socket's sending side that takes everything.
abbrev pub taking : Bytes → Bool → Writer
taking d shut = record { delivered = d; script = []; shut = shut }

-- All that a socket gives before its data ends.
unfoldable pub bytes_of : Socket → Bytes
bytes_of [] = []
bytes_of (closed ∷ s) = []
bytes_of (os_error ∷ s) = []
bytes_of (chunk c b ∷ s) = (c ∷ b) ++ bytes_of s

-- The variables of the loop after all data of a socket.
unfoldable pub collected : ℕ → Socket → Relay → Relay
collected m [] r = r
collected m (closed ∷ s) r = r
collected m (os_error ∷ s) r = r
collected m (chunk c b ∷ s) r = collected m s (collect m (c ∷ b) (read_status (c ∷ b) r))

-- To a client that takes everything, the loop relays exactly the bytes that the server's socket
-- gives before its data ends, in order; the loop's variables do not depend on the client.
pub stream-taking :
    (m : ℕ) (s : Socket) (r : Relay) (d : Bytes) (shut : Bool)
    → stream m s r (taking d shut) ≡ (collected m s r, taking (d ++ bytes_of s) shut)
unfolding stream send bytes_of collected
stream-taking m [] r d shut = rw (append-nil d) refl
stream-taking m (closed ∷ s) r d shut = rw (append-nil d) refl
stream-taking m (os_error ∷ s) r d shut = rw (append-nil d) refl
stream-taking m (chunk c b ∷ s) r d shut =
    rw (sym (append_assoc d (c ∷ b) (bytes_of s))) (stream-taking m s _ (d ++ c ∷ b) shut)

joined-append : (bs : List Bytes) (b : Bytes) → joined (bs ++ b ∷ []) ≡ joined bs ++ b
unfolding joined
joined-append [] b = append-nil b
joined-append (a ∷ bs) b = rw (joined-append bs b) (sym (append_assoc a (joined bs) b))

-- While a response can still be cached, the chunks are all that was received and their size is
-- counted.
pub record Keeps (m : ℕ) (got : Bytes) (r : Relay) : Type 0 where
  pub bytes : r.cacheable ≡ true → joined r.response_chunks ≡ got
  pub size : r.cacheable ≡ true → r.total_size ≡ length got
  pub bounded : r.cacheable ≡ true → r.total_size ≤ m

pub start-Keeps : (m : ℕ) (get : Bool) → Keeps m [] (start get)
unfolding joined
start-Keeps m get = record { bytes = λ h. refl; size = λ h. refl; bounded = λ h. omega arith }

read_status-Keeps :
    (m : ℕ) (got b : Bytes) (o : Option ℤ) (r : Relay)
    → Keeps m got r
    → Keeps m got (read_status_after o b r)
read_status-Keeps m got b (some code) r k = k
read_status-Keeps m got b none r k = record {
  bytes = λ h. k.bytes (still _ h);
  size = λ h. k.size (still _ h);
  bounded = λ h. k.bounded (still _ h);
}
  where
    still : (x : Bool) → (if x then false else r.cacheable) ≡ true → r.cacheable ≡ true
    still true h = ground (arith, h)
    still false h = h

collect-Keeps :
    (m : ℕ) (got b : Bytes) (r : Relay) → Keeps m got r → Keeps m (got ++ b) (collect m b r)
unfolding collect joined
collect-Keeps m got b r k =
    if_elim (Keeps m (got ++ b)) r.cacheable
      (λ h.
        if_elim (Keeps m (got ++ b)) (leb (r.total_size + length b) m)
          (λ fits. record {
            bytes = λ _. joined-append r.response_chunks b ∙ ap (λ x. x ++ b) (k.bytes h);
            size = λ _. omega (arith, k.size h, length-append got b);
            bounded = λ _. leb→le _ _ fits;
          })
          (λ big. record {
            bytes = λ c. ground (arith, c);
            size = λ c. ground (arith, c);
            bounded = λ c. ground (arith, c);
          }))
      (λ h. record {
        bytes = λ c. ground (arith, c, h);
        size = λ c. ground (arith, c, h);
        bounded = λ c. ground (arith, c, h);
      })

kept_chunk :
    (m : ℕ) (got b : Bytes) (r : Relay)
    → Keeps m got r
    → Keeps m (got ++ b) (collect m b (read_status b r))
unfolding read_status
kept_chunk m got b r k = collect-Keeps m got b _ (read_status-Keeps m got b r.status_code r k)

pub collected-Keeps :
    (m : ℕ) (s : Socket) (got : Bytes) (r : Relay)
    → Keeps m got r
    → Keeps m (got ++ bytes_of s) (collected m s r)
unfolding bytes_of collected
collected-Keeps m [] got r k = rw (append-nil got) k
collected-Keeps m (closed ∷ s) got r k = rw (append-nil got) k
collected-Keeps m (os_error ∷ s) got r k = rw (append-nil got) k
collected-Keeps m (chunk c b ∷ s) got r k =
    rw (sym (append_assoc got (c ∷ b) (bytes_of s)))
      (collected-Keeps m s (got ++ c ∷ b) _ (kept_chunk m got (c ∷ b) r k))

-- A call of `sendall` raises.
abbrev pub Raises : List (Option ℕ) → Type 0
Raises [] = ⊥
Raises (none ∷ script) = Raises script
Raises (some n ∷ script) = Unit

-- What the loop did with the data of a socket: it relayed some first part whole, and all of it
-- unless the client's socket raised; in its variables it kept, besides what it had got before,
-- that part exactly; and the client was delivered it and at most a piece of the chunk after it.
pub record Relayed (m : ℕ) (got : Bytes) (s : Socket) (o : Writer) (end : Relay × Writer)
    : Type 0 where
  pub relayed : Bytes
  pub rest : Bytes
  pub piece : Bytes
  pub parts : bytes_of s ≡ relayed ++ rest
  pub whole : ((rest ≡ []) × (piece ≡ [])) ⊎ Raises o.script
  pub kept : Keeps m (got ++ relayed) end.0
  pub delivered : end.1.delivered ≡ o.delivered ++ (relayed ++ piece)

ended-Relayed :
    (m : ℕ) (got : Bytes) (r : Relay) (s : Socket) (o : Writer)
    → bytes_of s ≡ []
    → Keeps m got r
    → Relayed m got s o (r, o)
ended-Relayed m got r s o e k = record {
  relayed = [];
  rest = [];
  piece = [];
  parts = e;
  whole = inl (refl, refl);
  kept = rw (append-nil got) k;
  delivered = sym (append-nil o.delivered);
}

next-Relayed :
    (m : ℕ) (got b : Bytes) (s t : Socket) (o o' : Writer) (end : Relay × Writer)
    → o'.delivered ≡ o.delivered ++ b
    → (Raises o'.script → Raises o.script)
    → bytes_of t ≡ b ++ bytes_of s
    → Relayed m (got ++ b) s o' end
    → Relayed m got t o end
next-Relayed m got b s t o o' end sent raises e h = record {
  relayed = b ++ h.relayed;
  rest = h.rest;
  piece = h.piece;
  parts = e ∙ ap (◌++◌ b) h.parts ∙ sym (append_assoc b h.relayed h.rest);
  whole = elim h.whole [ inl k ↦ inl k | inr k ↦ inr (raises k) ];
  kept = rw (sym (append_assoc got b h.relayed)) h.kept;
  delivered =
      h.delivered
      ∙ ap (λ (d : Bytes). d ++ (h.relayed ++ h.piece)) sent
      ∙ append_assoc o.delivered b (h.relayed ++ h.piece)
      ∙ ap (◌++◌ o.delivered) (sym (append_assoc b h.relayed h.piece));
}

abbrev writer : Bytes → List (Option ℕ) → Bool → Writer
writer d script shut = record { delivered = d; script = script; shut = shut }

stream-Relayed_by :
    (m : ℕ) (s : Socket) (got : Bytes) (r : Relay) (d : Bytes) (script : List (Option ℕ))
    (shut : Bool)
    → Keeps m got r
    → Relayed m got s (writer d script shut) (stream m s r (writer d script shut))
unfolding stream bytes_of send
stream-Relayed_by m [] got r d script shut k = ended-Relayed m got r [] _ refl k
stream-Relayed_by m (closed ∷ s) got r d script shut k = ended-Relayed m got r (closed ∷ s) _ refl k
stream-Relayed_by m (os_error ∷ s) got r d script shut k =
    ended-Relayed m got r (os_error ∷ s) _ refl k
stream-Relayed_by m (chunk c b ∷ s) got r d [] shut k =
    next-Relayed m got (c ∷ b) s (chunk c b ∷ s) _ (writer (d ++ c ∷ b) [] shut) _ refl (λ h. h)
      refl
      (stream-Relayed_by m s (got ++ c ∷ b) _ (d ++ c ∷ b) [] shut (kept_chunk m got (c ∷ b) r k))
stream-Relayed_by m (chunk c b ∷ s) got r d (none ∷ script) shut k =
    next-Relayed m got (c ∷ b) s (chunk c b ∷ s) _ (writer (d ++ c ∷ b) script shut) _ refl (λ h. h)
      refl
      (stream-Relayed_by m s (got ++ c ∷ b) _ (d ++ c ∷ b) script shut
        (kept_chunk m got (c ∷ b) r k))
stream-Relayed_by m (chunk c b ∷ s) got r d (some n ∷ script) shut k = record {
  relayed = [];
  rest = (c ∷ b) ++ bytes_of s;
  piece = take n (c ∷ b);
  parts = refl;
  whole = inr tt;
  kept = rw (append-nil got) k;
  delivered = refl;
}

-- Whatever the client's socket does, the loop, from variables that keep what was got before, ends
-- with variables that keep besides exactly what it relayed whole: as long as the response can be
-- cached, the chunks are those bytes, their number is the counted size and within the limit. What
-- it relayed is all that the server's socket gives, unless the client's socket raised.
pub stream-Relayed :
    (m : ℕ) (s : Socket) (got : Bytes) (r : Relay) (o : Writer)
    → Keeps m got r
    → Relayed m got s o (stream m s r o)
stream-Relayed m s got r o k = stream-Relayed_by m s got r o.delivered o.script o.shut k

-- The loop cannot tell an error of the server's socket, such as a timeout, from the end of the
-- response: whatever came before, and whatever the client does, what it keeps and relays is the same.
pub stream-cut :
    (m : ℕ) (s t u : Socket) (r : Relay) (o : Writer)
    → stream m (s ++ os_error ∷ t) r o ≡ stream m (s ++ closed ∷ u) r o
unfolding stream
stream-cut m [] t u r o = refl
stream-cut m (closed ∷ s) t u r o = refl
stream-cut m (os_error ∷ s) t u r o = refl
stream-cut m (chunk c b ∷ s) t u r o = elim (Bool-cases (send (c ∷ b) o).1) [
  | inl yes_sent ↦ rw (yes_sent, stream) (stream-cut m s t u _ _)
  | inr not_sent ↦ rw (not_sent, stream)
]
