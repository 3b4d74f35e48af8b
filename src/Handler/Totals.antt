-- ===== src/Handler/Totals.antt =====
-- The metrics after any number of connections that are served by src/handler.py, each with its own
-- sockets and its own readings of the clocks.
use custom_network_proxy_ser.Base.{ℕ, ◌+◌, ◌≤◌, ◌≡◌, sym, arith, false, List, [], ◌∷◌, length}
use custom_network_proxy_ser.Logger.{Metrics, zero_metrics}
use custom_network_proxy_ser.Parser.Receive.{Socket}
use custom_network_proxy_ser.World.{World, Env, Writer}
use custom_network_proxy_ser.Handler.{handle_client}
use custom_network_proxy_ser.Handler.Verdicts.{Counted, handle_client-Counted}

-- A client that connects: what it sends, and what it takes.
pub record Connection : Type 0 where
  pub env : Env
  pub client_sock : Socket
  pub client : Writer
  pub server : Writer

abbrev pub accept : Connection → World → World
accept k w = record w {
  client = k.client;
  server = k.server;
  upstream_open = false;
  client_closed = false;
}

unfoldable pub handle_all : List Connection → World → World
handle_all [] w = w
handle_all (k ∷ ks) w = handle_all ks (handle_client k.env k.client_sock (accept k w))

-- Metrics that n connections can have left.
pub record IsConsistent (n : ℕ) (m : Metrics) : Type 0 where
  pub total : m.total ≤ n
  pub verdicts : m.allowed + m.blocked + m.rate_limited ≤ m.total
  pub cached : m.cached ≤ m.allowed
  pub errors : m.errors ≤ n

Counted-IsConsistent :
    (n : ℕ) (m k : Metrics) → Counted m k → IsConsistent n m → IsConsistent (n + 1) k
Counted-IsConsistent n m k c h = record {
  total = omega (arith, c.total, h.total);
  verdicts = omega (arith, c.verdicts, h.verdicts);
  cached = omega (arith, c.cached, h.cached);
  errors = omega (arith, c.errors, h.errors);
}

IsConsistent-at : (a b : ℕ) (m : Metrics) → a ≡ b → IsConsistent a m → IsConsistent b m
IsConsistent-at a b m e h = rw (sym e) h

zero-IsConsistent : IsConsistent 0 zero_metrics
zero-IsConsistent = record {
  total = omega arith;
  verdicts = omega arith;
  cached = omega arith;
  errors = omega arith;
}

handle_all-from :
    (ks : List Connection) (n : ℕ) (w : World)
    → IsConsistent n w.logger.metrics
    → IsConsistent (n + length ks) (handle_all ks w).logger.metrics
unfolding handle_all
handle_all-from [] n w h = IsConsistent-at n (n + 0) _ (omega arith) h
handle_all-from (k ∷ ks) n w h =
    IsConsistent-at (n + 1 + length ks) (n + length (k ∷ ks)) _ (omega arith) (
      handle_all-from ks (n + 1) _
        (Counted-IsConsistent n _ _ (handle_client-Counted k.env k.client_sock (accept k w)) h))

-- Starting from zero metrics, after any connections one after the other: the total is at most their
-- number, the verdicts (allowed, blocked, rate limited) add up to at most the total, no more answers
-- came from the cache than requests were allowed, and there are at most as many errors as
-- connections.
pub handle_all-IsConsistent :
    (ks : List Connection) (w : World)
    → w.logger.metrics ≡ zero_metrics
    → IsConsistent (length ks) (handle_all ks w).logger.metrics
handle_all-IsConsistent ks w h =
    IsConsistent-at (0 + length ks) (length ks) _ (omega arith)
      (handle_all-from ks 0 w (rw h zero-IsConsistent))
