-- ===== src/Handler/Accounting.antt =====
-- What one connection adds to the metrics of src/logger.py, by src/handler.py and src/forwarder.py.
use custom_network_proxy_ser.Base.{◌+◌, ◌≤◌, ◌≡◌, refl, arith, true, Option, none, some, if_elim}
use custom_network_proxy_ser.Text.{codes, same}
use custom_network_proxy_ser.Cache.Lru.{Value}
use custom_network_proxy_ser.Logger.{Metrics, log_event}
use custom_network_proxy_ser.Parser.Receive.{Socket}
use custom_network_proxy_ser.Parser.Request.{Parsed}
use custom_network_proxy_ser.World.{
  World, Env, Outcome, done, raised, Connect, connected, refused, failed, send, count, log,
  send_client, count_error,
}
use custom_network_proxy_ser.Forwarder.Outbound.{build_outbound_request}
use custom_network_proxy_ser.Forwarder.Tunnel.{tunnel}
use custom_network_proxy_ser.Forwarder.Http.{
  exchange, relay_response, settle, contacted, contact_origin, looked_up, forward_get, forward_http,
  serve_cached,
}
use custom_network_proxy_ser.Handler.{established, serve_tunnel, tunneled, serve_connect, dispatch}
use custom_network_proxy_ser.Handler.Guards.{reply_ends}

-- The metrics once an exception, if there was one, has been counted.
abbrev pub settled : Outcome → Metrics
settled (done w) = w.logger.metrics
settled (raised w) = count_error w.logger.metrics

-- What is added for a request that was let through.
pub record Late (m n : Metrics) : Type 0 where
  pub total : n.total ≡ m.total
  pub allowed : n.allowed ≡ m.allowed
  pub blocked : n.blocked ≡ m.blocked
  pub rate_limited : n.rate_limited ≡ m.rate_limited
  pub cached_least : m.cached ≤ n.cached
  pub cached : n.cached ≤ m.cached + 1
  pub errors : n.errors ≤ m.errors + 1

late : (m : Metrics) → Late m m
late m = record {
  total = refl;
  allowed = refl;
  blocked = refl;
  rate_limited = refl;
  cached_least = omega arith;
  cached = omega arith;
  errors = omega arith;
}

Late-error : (m : Metrics) → Late m (count_error m)
Late-error m = record {
  total = refl;
  allowed = refl;
  blocked = refl;
  rate_limited = refl;
  cached_least = omega arith;
  cached = omega arith;
  errors = omega arith;
}

exchange-Late :
    (e : Env) (p : Parsed) (up : Socket) (w : World)
    → Late w.logger.metrics (settled (exchange e p up w))
unfolding exchange relay_response settle count log log_event
exchange-Late e p up w =
    if_elim (λ o. Late w.logger.metrics (settled o)) (send (build_outbound_request p) w.server).1
      (λ h.
        if_elim (λ (v : World). Late w.logger.metrics v.logger.metrics) _ (λ h. late _)
          (λ h. late _))
      (λ h.
        reply_ends (λ o. Late w.logger.metrics (settled o)) _ _ _ (λ o. Late-error _)
          (λ o. Late-error _))

contacted-Late :
    (e : Env) (p : Parsed) (c : Connect) (w : World)
    → Late w.logger.metrics (settled (contacted e p c w))
unfolding contacted count
contacted-Late e p (connected up) w = exchange-Late e p up (record w { upstream_open = true })
contacted-Late e p refused w =
    reply_ends (λ o. Late w.logger.metrics (settled o)) _ _ w (λ o. Late-error _)
      (λ o. Late-error _)
contacted-Late e p failed w = Late-error _

looked_up-Late :
    (e : Env) (p : Parsed) (o : Option Value) (w : World)
    → Late w.logger.metrics (settled (looked_up e p o w))
unfolding looked_up contact_origin serve_cached log count send_client log_event
looked_up-Late e p none w = contacted-Late e p _ _
looked_up-Late e p (some v) w = record {
  total = refl;
  allowed = refl;
  blocked = refl;
  rate_limited = refl;
  cached_least = omega arith;
  cached = omega arith;
  errors = omega arith;
}

forward_http-Late :
    (e : Env) (p : Parsed) (w : World) → Late w.logger.metrics (settled (forward_http e p w))
unfolding forward_http forward_get contact_origin
forward_http-Late e p w =
    if_elim (λ o. Late w.logger.metrics (settled o)) (same p.method (codes "GET"))
      (λ h. looked_up-Late e p _ _) (λ h. contacted-Late e p _ _)

tunneled-Late :
    (e : Env) (rest : Socket) (c : Connect) (w : World)
    → Late w.logger.metrics (settled (tunneled e rest c w))
unfolding tunneled serve_tunnel send_client tunnel count
tunneled-Late e rest refused w =
    reply_ends (λ o. Late w.logger.metrics (settled o)) _ _ w (λ o. Late-error _)
      (λ o. Late-error _)
tunneled-Late e rest failed w = Late-error _
tunneled-Late e rest (connected up) w =
    if_elim (λ o. Late w.logger.metrics (settled o)) (send established w.client).1 (λ h. late _)
      (λ h.
        reply_ends (λ o. Late w.logger.metrics (settled o)) _ _ _ (λ o. Late-error _)
          (λ o. Late-error _))

pub dispatch-Late :
    (e : Env) (rest : Socket) (p : Parsed) (w : World)
    → Late w.logger.metrics (settled (dispatch e rest p w))
unfolding dispatch serve_connect log log_event
dispatch-Late e rest p w =
    if_elim (λ o. Late w.logger.metrics (settled o)) (same p.method (codes "CONNECT"))
      (λ h. tunneled-Late e rest _ _) (λ h. forward_http-Late e p _)
