-- ===== src/Handler/Closing.antt =====
-- The sockets that src/handler.py and src/forwarder.py close.
use custom_network_proxy_ser.Base.{
  ℕ, ◌≡◌, refl, Bool, true, false, Option, none, some, [], ◌∷◌, if_elim, Result, ok, raise,
}
use custom_network_proxy_ser.Text.{codes, same}
use custom_network_proxy_ser.Text.Codec.{Bytes}
use custom_network_proxy_ser.Cache.Lru.{Value}
use custom_network_proxy_ser.Filter.{is_blocked}
use custom_network_proxy_ser.Parser.Receive.{Socket, recv_http_request}
use custom_network_proxy_ser.Parser.Request.{Parsed}
use custom_network_proxy_ser.World.{
  World, Env, Outcome, done, raised, Connect, connected, refused, failed, send, count, log,
  send_client, world_of,
}
use custom_network_proxy_ser.Forwarder.Outbound.{build_outbound_request}
use custom_network_proxy_ser.Forwarder.Tunnel.{tunnel}
use custom_network_proxy_ser.Forwarder.Http.{
  exchange, relay_response, settle, contacted, contact_origin, looked_up, forward_get, forward_http,
  serve_cached,
}
use custom_network_proxy_ser.Handler.{
  established, serve_tunnel, tunneled, serve_connect, dispatch, filter_stage, count_allowed,
  authenticated, auth_stage, limited, admitted, limit_stage, serve_parsed, serve_request, received,
  serve, catch, handle_client,
}
use custom_network_proxy_ser.Handler.Guards.{reply_elim}

-- No connected server socket is left open.
IsClosed : World → Type 0
IsClosed w = w.upstream_open ≡ false

exchange-IsClosed :
    (e : Env) (p : Parsed) (up : Socket) (w : World) → IsClosed (world_of (exchange e p up w))
unfolding IsClosed exchange relay_response settle count log
exchange-IsClosed e p up w =
    if_elim (λ o. IsClosed (world_of o)) (send (build_outbound_request p) w.server).1
      (λ h. if_elim IsClosed _ (λ h. refl) (λ h. refl))
      (λ h. reply_elim IsClosed _ _ _ (λ o. refl) (λ o. refl))

contacted-IsClosed :
    (e : Env) (p : Parsed) (c : Connect) (w : World)
    → IsClosed w
    → IsClosed (world_of (contacted e p c w))
unfolding IsClosed contacted count
contacted-IsClosed e p (connected up) w h =
    exchange-IsClosed e p up (record w { upstream_open = true })
contacted-IsClosed e p refused w h = reply_elim IsClosed _ _ w (λ o. h) (λ o. h)
contacted-IsClosed e p failed w h = h

looked_up-IsClosed :
    (e : Env) (p : Parsed) (o : Option Value) (w : World)
    → IsClosed w
    → IsClosed (world_of (looked_up e p o w))
unfolding IsClosed looked_up contact_origin serve_cached log count send_client
looked_up-IsClosed e p none w h = contacted-IsClosed e p _ _ h
looked_up-IsClosed e p (some v) w h = h

forward_http-IsClosed :
    (e : Env) (p : Parsed) (w : World) → IsClosed w → IsClosed (world_of (forward_http e p w))
unfolding IsClosed forward_http forward_get contact_origin
forward_http-IsClosed e p w h =
    if_elim (λ o. IsClosed (world_of o)) (same p.method (codes "GET"))
      (λ g. looked_up-IsClosed e p _ _ h) (λ g. contacted-IsClosed e p _ _ h)

tunneled-IsClosed :
    (e : Env) (rest : Socket) (c : Connect) (w : World)
    → IsClosed w
    → IsClosed (world_of (tunneled e rest c w))
unfolding IsClosed tunneled serve_tunnel send_client tunnel count
tunneled-IsClosed e rest refused w h = reply_elim IsClosed _ _ w (λ o. h) (λ o. h)
tunneled-IsClosed e rest failed w h = h
tunneled-IsClosed e rest (connected up) w h =
    if_elim (λ o. IsClosed (world_of o)) (send established w.client).1 (λ g. refl)
      (λ g. reply_elim IsClosed _ _ _ (λ o. refl) (λ o. refl))

dispatch-IsClosed :
    (e : Env) (rest : Socket) (p : Parsed) (w : World)
    → IsClosed w
    → IsClosed (world_of (dispatch e rest p w))
unfolding IsClosed dispatch serve_connect log
dispatch-IsClosed e rest p w h =
    if_elim (λ o. IsClosed (world_of o)) (same p.method (codes "CONNECT"))
      (λ g. tunneled-IsClosed e rest _ _ h) (λ g. forward_http-IsClosed e p _ h)

authenticated-IsClosed :
    (e : Env) (rest : Socket) (p : Parsed) (a : Result Bool) (w : World)
    → IsClosed w
    → IsClosed (world_of (authenticated e rest p a w))
unfolding IsClosed authenticated filter_stage log count
authenticated-IsClosed e rest p raise w h = h
authenticated-IsClosed e rest p (ok false) w h = reply_elim IsClosed _ _ _ (λ o. h) (λ o. h)
authenticated-IsClosed e rest p (ok true) w h =
    if_elim (λ o. IsClosed (world_of o)) (is_blocked e.blocklist (some p.host))
      (λ g. reply_elim IsClosed _ _ _ (λ o. h) (λ o. h))
      (λ g. dispatch-IsClosed e rest p (count count_allowed w) h)

limited-IsClosed :
    (e : Env) (p : Parsed) (o : Option ℕ) (w : World)
    → IsClosed w
    → IsClosed (world_of (limited e p o w))
unfolding IsClosed limited log count
limited-IsClosed e p none w h = h
limited-IsClosed e p (some n) w h = reply_elim IsClosed _ _ _ (λ o. h) (λ o. h)

admitted-IsClosed :
    (e : Env) (rest : Socket) (p : Parsed) (b : Bool) (w : World)
    → IsClosed w
    → IsClosed (world_of (admitted e rest p b w))
unfolding admitted auth_stage
admitted-IsClosed e rest p true w h = authenticated-IsClosed e rest p _ w h
admitted-IsClosed e rest p false w h = limited-IsClosed e p _ w h

serve_request-IsClosed :
    (e : Env) (rest : Socket) (r : Result (Option Parsed)) (w : World)
    → IsClosed w
    → IsClosed (world_of (serve_request e rest r w))
unfolding IsClosed serve_request serve_parsed limit_stage auth_stage count
serve_request-IsClosed e rest raise w h = h
serve_request-IsClosed e rest (ok none) w h = reply_elim IsClosed _ _ w (λ o. h) (λ o. h)
serve_request-IsClosed e rest (ok (some p)) w h =
    if_elim (λ o. IsClosed (world_of o)) e.limit_cfg.enabled
      (λ g. admitted-IsClosed e rest (record p { client_ip = some e.client_ip }) _ _ h)
      (λ g. authenticated-IsClosed e rest (record p { client_ip = some e.client_ip }) _ _ h)

received-IsClosed :
    (e : Env) (rest : Socket) (raw : Bytes) (w : World)
    → IsClosed w
    → IsClosed (world_of (received e rest raw w))
unfolding received
received-IsClosed e rest [] w h = h
received-IsClosed e rest (c ∷ raw) w h = serve_request-IsClosed e rest _ w h

catch-IsClosed : (e : Env) (o : Outcome) → IsClosed (world_of o) → IsClosed (catch e o)
unfolding IsClosed catch log count
catch-IsClosed e (done w) h = h
catch-IsClosed e (raised w) h = h

-- However a connection ends, also by an exception at any point, afterwards its client socket is
-- closed and no connected server socket is left open.
pub handle_client-closed :
    (e : Env) (client_sock : Socket) (w : World)
    → w.upstream_open ≡ false
    → ((handle_client e client_sock w).client_closed ≡ true)
      × ((handle_client e client_sock w).upstream_open ≡ false)
unfolding handle_client serve IsClosed
handle_client-closed e s w h = (
  refl,
  catch-IsClosed e (serve e s w)
      (received-IsClosed e (recv_http_request s).1 (recv_http_request s).0 w h),
)
