-- ===== src/Handler/Dialing.antt =====
-- What src/handler.py guarantees of every connection: which host it may dial, and what it closes.
use custom_network_proxy_ser.Base.{◌≡◌, refl, ◌⊎◌, inl, some, [], ◌∷◌, ◌++◌, ok}
use custom_network_proxy_ser.Text.Codec.{Bytes}
use custom_network_proxy_ser.Parser.Receive.{Socket, recv_http_request}
use custom_network_proxy_ser.Parser.Request.{Parsed, parse_http_request}
use custom_network_proxy_ser.World.{World, Env, Outcome, done, raised, log, count, world_of}
use custom_network_proxy_ser.Handler.{received, serve, catch, handle_client}
use custom_network_proxy_ser.Handler.Guards.{Passes, serve_request-Dials}

-- `Reaches e raw w v`: between w and v the host of the request in `raw` was dialed, after it had
-- passed every check.
pub Reaches : Env → Bytes → World → World → Type 0
Reaches e raw w v =
    (p : Parsed) × (parse_http_request e.request_id raw ≡ ok (some p))
    × Passes e p w
    × (v.dialed ≡ w.dialed ++ (p.host, p.port) ∷ [])

received-dialed :
    (e : Env) (rest : Socket) (raw : Bytes) (w : World)
    → ((world_of (received e rest raw w)).dialed ≡ w.dialed)
      ⊎ Reaches e raw w (world_of (received e rest raw w))
unfolding received Reaches
received-dialed e rest [] w = inl refl
received-dialed e rest (c ∷ raw) w = serve_request-Dials e rest _ w

catch-dialed : (e : Env) (o : Outcome) → (catch e o).dialed ≡ (world_of o).dialed
unfolding catch log count
catch-dialed e (done w) = refl
catch-dialed e (raised w) = refl

-- Serving a connection dials no host, or exactly one, once: that of the request that was received
-- and parsed, and then the client had a token or there is no rate limit, the credentials are those
-- of a user, and the host is not blocked. This holds for every outcome of the network.
pub handle_client-dialed :
    (e : Env) (client_sock : Socket) (w : World)
    → ((handle_client e client_sock w).dialed ≡ w.dialed)
      ⊎ Reaches e (recv_http_request client_sock).0 w (handle_client e client_sock w)
unfolding handle_client serve Reaches
handle_client-dialed e s w =
    rw (catch-dialed e (serve e s w))
      (received-dialed e (recv_http_request s).1 (recv_http_request s).0 w)
