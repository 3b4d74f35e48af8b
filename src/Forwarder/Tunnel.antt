-- ===== src/Forwarder/Tunnel.antt =====
-- `tunnel` of src/forwarder.py. The two directions run in threads that share no socket's sending
-- side, so each is a function of what its source gives. The main thread joins each thread for 120
-- seconds and then returns, upon which the sockets are closed. What a thread has done by then is
-- its limit: `none` if it has ended, `some n` if at most n of its calls of `recv` have returned.
pub mod Faithful
use custom_network_proxy_ser.Base.{
  ℕ, zero, suc, Bool, true, false, Option, none, some, List, [], ◌∷◌, not, if◌then◌else◌,
}
use custom_network_proxy_ser.Parser.Receive.{Recv, chunk, closed, os_error, Socket}
use custom_network_proxy_ser.World.{Writer, send, World}

abbrev pub Limit : Type 0
Limit = Option ℕ

abbrev pub one_less : Limit → Limit
one_less none = none
one_less (some zero) = some zero
one_less (some (suc n)) = some n

-- Whether the sockets are closed before the next call of `recv` returns.
abbrev pub is_over : Limit → Bool
is_over none = false
is_over (some zero) = true
is_over (some (suc n)) = false

-- The loop of one direction; the flag says whether it came to its end before the limit.
unfoldable pub relay : Limit → Socket → Writer → Writer × Bool
relay limit [] dst = (dst, not (is_over limit))
relay limit (closed ∷ src) dst = (dst, not (is_over limit))
relay limit (os_error ∷ src) dst = (dst, not (is_over limit))
relay limit (chunk c b ∷ src) dst =
    let (dst', sent) = send (c ∷ b) dst in
    elim (is_over limit) [
      | true ↦ (dst, false)
      | false ↦ elim sent [ true ↦ relay (one_less limit) src dst' | false ↦ (dst', true) ]
    ]

-- `_forward`: the loop, then `dst.shutdown(SHUT_WR)`, which fails on a socket that is closed
unfoldable pub forward : Limit → Socket → Writer → Writer
unfolding relay
forward limit src dst =
    let (dst', ended) = relay limit src dst in if ended then record dst' { shut = true } else dst'

-- The limits are those of the thread that reads from the client and of the other.
unfoldable pub tunnel : Limit → Limit → Socket → Socket → World → World
unfolding forward
tunnel client_limit server_limit client_sock server_sock w = record w {
  server = forward client_limit client_sock w.server;
  client = forward server_limit server_sock w.client;
}
