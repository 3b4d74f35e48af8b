-- ===== src/Handler/Verdicts.antt =====
-- Every request that src/handler.py counts gets at most one verdict in the metrics: it is allowed,
-- blocked or rate limited.
use custom_network_proxy_ser.Base.{
  ℕ, ◌+◌, ◌≤◌, ◌≡◌, refl, sym, arith, Bool, true, false, Option, none, some, [], ◌∷◌, if_elim,
  Result, ok, raise,
}
use custom_network_proxy_ser.Filter.{is_blocked}
use custom_network_proxy_ser.Logger.{Logger, Metrics, record_host, log_event}
use custom_network_proxy_ser.RateLimiter.Registry.{is_allowed}
use custom_network_proxy_ser.Parser.Receive.{Socket, recv_http_request}
use custom_network_proxy_ser.Parser.Request.{Parsed}
use custom_network_proxy_ser.Text.{Text, text_dec}
use custom_network_proxy_ser.Text.Codec.{Bytes}
use custom_network_proxy_ser.World.{World, Env, Outcome, done, raised, count, log}
use custom_network_proxy_ser.Handler.{
  filter_stage, count_allowed, count_total, authenticated, auth_stage, limited, admitted,
  limit_stage, serve_parsed, serve_request, received, serve, catch, handle_client,
}
use custom_network_proxy_ser.Handler.Guards.{reply_ends}
use custom_network_proxy_ser.Handler.Accounting.{settled, Late, dispatch-Late}

-- What is added from the first check on: at most one of the three verdicts.
record Judged (m n : Metrics) : Type 0 where
  total : n.total ≡ m.total
  verdicts : n.allowed + n.blocked + n.rate_limited ≤ m.allowed + m.blocked + m.rate_limited + 1
  cached : n.cached + m.allowed ≤ m.cached + n.allowed
  errors : n.errors ≤ m.errors + 1

Late-Judged : (m n : Metrics) → Late (count_allowed m) n → Judged m n
Late-Judged m n h = record {
  total = h.total;
  verdicts = omega (arith, h.allowed, h.blocked, h.rate_limited);
  cached = omega (arith, h.allowed, h.cached);
  errors = h.errors;
}

-- The replies that let nothing through raise at most one of the other two counters.
Judged-by :
    (m n : Metrics)
    → n.total ≡ m.total
    → n.allowed ≡ m.allowed
    → n.cached ≡ m.cached
    → n.blocked + n.rate_limited ≤ m.blocked + m.rate_limited + 1
    → n.errors ≤ m.errors + 1
    → Judged m n
Judged-by m n t a c v e = record {
  total = t;
  verdicts = omega (arith, a);
  cached = omega (arith, a, c);
  errors = e;
}

filter_stage-Judged :
    (e : Env) (rest : Socket) (p : Parsed) (w : World)
    → Judged w.logger.metrics (settled (filter_stage e rest p w))
unfolding filter_stage log log_event count
filter_stage-Judged e rest p w =
    if_elim (λ o. Judged w.logger.metrics (settled o)) (is_blocked e.blocklist (some p.host))
      (λ h.
        reply_ends (λ o. Judged w.logger.metrics (settled o)) _ _ _
          (λ o. Judged-by _ _ refl refl refl (omega arith) (omega arith))
          (λ o. Judged-by _ _ refl refl refl (omega arith) (omega arith)))
      (λ h. Late-Judged _ _ (dispatch-Late e rest p (count count_allowed w)))

authenticated-Judged :
    (e : Env) (rest : Socket) (p : Parsed) (a : Result Bool) (w : World)
    → Judged w.logger.metrics (settled (authenticated e rest p a w))
unfolding authenticated log log_event
authenticated-Judged e rest p raise w = Judged-by _ _ refl refl refl (omega arith) (omega arith)
authenticated-Judged e rest p (ok true) w = filter_stage-Judged e rest p w
authenticated-Judged e rest p (ok false) w =
    reply_ends (λ o. Judged w.logger.metrics (settled o)) _ _ _
      (λ o. Judged-by _ _ refl refl refl (omega arith) (omega arith))
      (λ o. Judged-by _ _ refl refl refl (omega arith) (omega arith))

limited-Judged :
    (e : Env) (p : Parsed) (o : Option ℕ) (w : World)
    → Judged w.logger.metrics (settled (limited e p o w))
unfolding limited log log_event count
limited-Judged e p none w = Judged-by _ _ refl refl refl (omega arith) (omega arith)
limited-Judged e p (some n) w =
    reply_ends (λ o. Judged w.logger.metrics (settled o)) _ _ _
      (λ o. Judged-by _ _ refl refl refl (omega arith) (omega arith))
      (λ o. Judged-by _ _ refl refl refl (omega arith) (omega arith))

admitted-Judged :
    (e : Env) (rest : Socket) (p : Parsed) (b : Bool) (w : World)
    → Judged w.logger.metrics (settled (admitted e rest p b w))
unfolding admitted auth_stage
admitted-Judged e rest p true w = authenticated-Judged e rest p _ w
admitted-Judged e rest p false w = limited-Judged e p _ w

limit_stage-Judged :
    (e : Env) (rest : Socket) (p : Parsed) (w : World)
    → Judged w.logger.metrics (settled (limit_stage e rest p w))
unfolding limit_stage auth_stage
limit_stage-Judged e rest p w =
    if_elim (λ o. Judged w.logger.metrics (settled o)) e.limit_cfg.enabled
      (λ h. admitted-Judged e rest p _ (record w {
        limiter =
            (is_allowed text_dec e.limit_cfg e.created e.checked e.pruned e.client_ip w.limiter).0;
      }))
      (λ h. authenticated-Judged e rest p _ w)

-- What one connection adds to the metrics m, which become n.
pub record Counted (m n : Metrics) : Type 0 where
  pub total_least : m.total ≤ n.total
  pub total : n.total ≤ m.total + 1
  pub verdicts :
      n.allowed + n.blocked + n.rate_limited + m.total
      ≤ m.allowed + m.blocked + m.rate_limited + n.total
  pub cached : n.cached + m.allowed ≤ m.cached + n.allowed
  pub errors : n.errors ≤ m.errors + 1

Judged-Counted : (m n : Metrics) → Judged (count_total m) n → Counted m n
Judged-Counted m n h = record {
  total_least = omega (arith, h.total);
  total = omega (arith, h.total);
  verdicts = omega (arith, h.total, h.verdicts);
  cached = h.cached;
  errors = h.errors;
}

uncounted :
    (m n : Metrics)
    → n.total ≡ m.total
    → n.allowed + n.blocked + n.rate_limited ≡ m.allowed + m.blocked + m.rate_limited
    → n.cached + m.allowed ≡ m.cached + n.allowed
    → n.errors ≤ m.errors + 1
    → Counted m n
uncounted m n t v c e = record {
  total_least = omega (arith, t);
  total = omega (arith, t);
  verdicts = omega (arith, t, v);
  cached = omega (arith, c);
  errors = e;
}

Judged-from : (m k n : Metrics) → k ≡ m → Judged k n → Judged m n
Judged-from m k n h j = rw (sym h) j

metrics-record_host : (host : Text) (l : Logger) → (record_host host l).metrics ≡ l.metrics
unfolding record_host
metrics-record_host [] l = refl
metrics-record_host (c ∷ host) l = refl

serve_request-Counted :
    (e : Env) (rest : Socket) (r : Result (Option Parsed)) (w : World)
    → Counted w.logger.metrics (settled (serve_request e rest r w))
unfolding serve_request serve_parsed count
serve_request-Counted e rest raise w = uncounted _ _ refl refl refl (omega arith)
serve_request-Counted e rest (ok none) w =
    reply_ends (λ o. Counted w.logger.metrics (settled o)) _ _ w
      (λ o. uncounted _ _ refl refl refl (omega arith))
      (λ o. uncounted _ _ refl refl refl (omega arith))
serve_request-Counted e rest (ok (some p)) w =
    let counted = count count_total w in
    let v = record counted { logger = record_host p.host counted.logger } in
    Judged-Counted w.logger.metrics _ (
      Judged-from _ _ _ (metrics-record_host p.host counted.logger)
        (limit_stage-Judged e rest (record p { client_ip = some e.client_ip }) v))

received-Counted :
    (e : Env) (rest : Socket) (raw : Bytes) (w : World)
    → Counted w.logger.metrics (settled (received e rest raw w))
unfolding received
received-Counted e rest [] w = uncounted _ _ refl refl refl (omega arith)
received-Counted e rest (c ∷ raw) w = serve_request-Counted e rest _ w

metrics-catch : (e : Env) (o : Outcome) → (catch e o).logger.metrics ≡ settled o
unfolding catch log log_event count
metrics-catch e (done w) = refl
metrics-catch e (raised w) = refl

-- A connection raises the total by at most one, gives at most as many verdicts (allowed, blocked,
-- rate limited) as it raises the total, counts no more answers from the cache than requests let
-- through, and adds at most one error, whatever fails.
pub handle_client-Counted :
    (e : Env) (client_sock : Socket) (w : World)
    → Counted w.logger.metrics (handle_client e client_sock w).logger.metrics
unfolding handle_client serve
handle_client-Counted e s w =
    rw (metrics-catch e (serve e s w))
      (received-Counted e (recv_http_request s).1 (recv_http_request s).0 w)
