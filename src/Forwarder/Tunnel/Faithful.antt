-- ===== src/Forwarder/Tunnel/Faithful.antt =====
-- What each side of a tunnel of src/forwarder.py gets from the other.
use custom_network_proxy_ser.Base.{
  zero, suc, none, some, take, ap, ◌∙◌, if◌then◌else◌, Bool-cases, inl, inr, ◌≡◌, refl, sym, Bool,
  true, false, [], ◌∷◌, ◌++◌, append-nil, append_assoc,
}
use custom_network_proxy_ser.Text.Codec.{Bytes}
use custom_network_proxy_ser.Parser.Receive.{chunk, closed, os_error, Socket}
use custom_network_proxy_ser.World.{Writer, send, World}
use custom_network_proxy_ser.Forwarder.Tunnel.{Limit, relay, forward, tunnel}
use custom_network_proxy_ser.Forwarder.Relay.Faithful.{taking, bytes_of}
use custom_network_proxy_ser.Forwarder.Http.Caching.{with_sockets}

-- What a socket gives within a limit, and whether its data ends there.
unfoldable pub within : Limit → Socket → Socket
within none s = s
within (some n) s = take n s

unfoldable pub ends_within : Limit → Socket → Bool
ends_within (some zero) s = false
ends_within limit [] = true
ends_within limit (closed ∷ s) = true
ends_within limit (os_error ∷ s) = true
ends_within none (chunk c b ∷ s) = ends_within none s
ends_within (some (suc n)) (chunk c b ∷ s) = ends_within (some n) s

relay-taking :
    (limit : Limit) (src : Socket) (d : Bytes) (shut : Bool)
    → relay limit src (taking d shut)
      ≡ (taking (d ++ bytes_of (within limit src)) shut, ends_within limit src)
unfolding relay send bytes_of within ends_within
relay-taking none [] d shut = rw (append-nil d) refl
relay-taking none (closed ∷ src) d shut = rw (append-nil d) refl
relay-taking none (os_error ∷ src) d shut = rw (append-nil d) refl
relay-taking none (chunk c b ∷ src) d shut =
    rw (sym (append_assoc d (c ∷ b) (bytes_of src))) (relay-taking none src (d ++ c ∷ b) shut)
relay-taking (some zero) [] d shut = rw (append-nil d) refl
relay-taking (some zero) (closed ∷ src) d shut = rw (append-nil d) refl
relay-taking (some zero) (os_error ∷ src) d shut = rw (append-nil d) refl
relay-taking (some zero) (chunk c b ∷ src) d shut = rw (append-nil d) refl
relay-taking (some (suc n)) [] d shut = rw (append-nil d) refl
relay-taking (some (suc n)) (closed ∷ src) d shut = rw (append-nil d) refl
relay-taking (some (suc n)) (os_error ∷ src) d shut = rw (append-nil d) refl
relay-taking (some (suc n)) (chunk c b ∷ src) d shut =
    rw (sym (append_assoc d (c ∷ b) (bytes_of (take n src))))
      (relay-taking (some n) src (d ++ c ∷ b) shut)

forward-taking :
    (limit : Limit) (src : Socket) (d : Bytes)
    → forward limit src (taking d false)
      ≡ taking (d ++ bytes_of (within limit src)) (ends_within limit src)
unfolding forward
forward-taking limit src d =
    ap (λ (o : Writer × Bool). if o.1 then record o.0 { shut = true } else o.0)
      (relay-taking limit src d false)
    ∙ elim (Bool-cases (ends_within limit src)) [ inl e ↦ rw e refl | inr e ↦ rw e refl ]

-- Between sockets that take everything, a tunnel gives each side exactly the bytes, in order, that
-- the other side's socket gives until it ends or fails (a timeout counts as a failure) or the 120
-- seconds are over, whichever is first; a direction is shut down where its source ends or fails
-- before that, and nothing else changes.
pub tunnel-bytes_of :
    (client_limit server_limit : Limit) (client_sock server_sock : Socket) (c s : Bytes) (w : World)
    → tunnel client_limit server_limit client_sock server_sock
        (with_sockets (taking c false) (taking s false) w)
      ≡ with_sockets
          (taking
            (c ++ bytes_of (within server_limit server_sock))
            (ends_within server_limit server_sock))
          (taking
            (s ++ bytes_of (within client_limit client_sock))
            (ends_within client_limit client_sock))
          w
unfolding tunnel
tunnel-bytes_of client_limit server_limit client_sock server_sock c s w =
    rw (forward-taking client_limit client_sock s, forward-taking server_limit server_sock c) refl
