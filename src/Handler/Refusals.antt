-- ===== src/Handler/Refusals.antt =====
-- The reply that src/handler.py gives to a request that it does not serve.
use custom_network_proxy_ser.Base.{
  ℕ, ◌≡◌, refl, ap, ◌∙◌, Bool, true, false, none, some, [], ◌∷◌, ◌++◌, if_elim, ok,
}
use custom_network_proxy_ser.Text.{Text, text_dec, find, starts_with}
use custom_network_proxy_ser.Text.Codec.{Bytes}
use custom_network_proxy_ser.Filter.{is_blocked}
use custom_network_proxy_ser.Logger.{record_host}
use custom_network_proxy_ser.RateLimiter.Registry.{RateLimiter, is_allowed, get_retry_after}
use custom_network_proxy_ser.Parser.Receive.{Socket, recv_http_request, header_end}
use custom_network_proxy_ser.Parser.Request.{Parsed, parse_http_request}
use custom_network_proxy_ser.World.{
  World, Env, Outcome, done, raised, send, count, log, reply, send_client, world_of,
}
use custom_network_proxy_ser.Forwarder.Relay.Faithful.{taking}
use custom_network_proxy_ser.Handler.{
  check_auth, count_total, bad_request, forbidden, unauthorized, too_many_requests, filter_stage,
  authenticated, auth_stage, limited, admitted, limit_stage, serve_parsed, serve_request, received,
  serve, catch, handle_client,
}

-- What the rate limiter says of the client.
abbrev pub allowed_by : Env → World → Bool
allowed_by e w =
    (is_allowed text_dec e.limit_cfg e.created e.checked e.pruned e.client_ip w.limiter).1

-- `Refused e raw w b`: the request in `raw` is answered by b. The checks come in this order; a later
-- one decides only if the earlier ones let the request pass.
pub data Refused (e : Env) (raw : Bytes) (w : World) : Bytes → Type 0 where
  malformed :
      (c : ℕ) (rest : Bytes)
      → raw ≡ c ∷ rest
      → parse_http_request e.request_id raw ≡ ok none
      → Refused e raw w bad_request
  over_limit :
      (p : Parsed) (n : ℕ)
      → parse_http_request e.request_id raw ≡ ok (some p)
      → allowed_by e w ≡ false
      → get_retry_after text_dec e.client_ip
          (is_allowed text_dec e.limit_cfg e.created e.checked e.pruned e.client_ip w.limiter).0
        ≡ some n
      → Refused e raw w (too_many_requests n)
  not_authorized :
      (p : Parsed)
      → parse_http_request e.request_id raw ≡ ok (some p)
      → allowed_by e w ≡ true
      → check_auth e.derive e.users p.headers ≡ ok false
      → Refused e raw w unauthorized
  on_blocklist :
      (p : Parsed)
      → parse_http_request e.request_id raw ≡ ok (some p)
      → allowed_by e w ≡ true
      → check_auth e.derive e.users p.headers ≡ ok true
      → is_blocked e.blocklist (some p.host) ≡ true
      → Refused e raw w forbidden

-- The world of a client that takes everything.
abbrev pub with_client : Bytes → Bool → World → World
with_client d shut w = record w { client = taking d shut }

delivered_by : Outcome → Bytes
delivered_by o = (world_of o).client.delivered

-- With the limiter switched off every client is allowed.
allowed_by-off : (e : Env) (w : World) → e.limit_cfg.enabled ≡ false → allowed_by e w ≡ true
unfolding is_allowed
allowed_by-off e w off =
    if_elim (λ (o : RateLimiter Text × Bool). o.1 ≡ true) e.limit_cfg.enabled (λ on. absurd (cc))
      (λ h. refl)

admitted-over :
    (e : Env) (rest : Socket) (p : Parsed) (n : ℕ) (d : Bytes) (shut a : Bool) (w : World)
    → a ≡ false
    → get_retry_after text_dec e.client_ip w.limiter ≡ some n
    → delivered_by (admitted e rest p a (with_client d shut w)) ≡ d ++ too_many_requests n
unfolding delivered_by admitted limited reply send_client send log count
admitted-over e rest p n d shut a w h after = rw (h, after) refl

limit_stage-over :
    (e : Env) (rest : Socket) (p : Parsed) (n : ℕ) (d : Bytes) (shut : Bool) (w : World)
    → allowed_by e w ≡ false
    → get_retry_after text_dec e.client_ip
        (is_allowed text_dec e.limit_cfg e.created e.checked e.pruned e.client_ip w.limiter).0
      ≡ some n
    → delivered_by (limit_stage e rest p (with_client d shut w)) ≡ d ++ too_many_requests n
unfolding limit_stage
limit_stage-over e rest p n d shut w h after =
    if_elim (λ o. delivered_by o ≡ d ++ too_many_requests n) e.limit_cfg.enabled
      (λ on.
        admitted-over e rest p n d shut _
          (record w {
            limiter =
                (is_allowed text_dec e.limit_cfg e.created e.checked e.pruned e.client_ip
                  w.limiter).0;
          })
          h after)
      (λ off. let allowed = allowed_by-off e w off in absurd (cc))

admitted-allowed :
    (e : Env) (rest : Socket) (p : Parsed) (a : Bool) (w : World)
    → a ≡ true
    → admitted e rest p a w ≡ auth_stage e rest p w
unfolding admitted
admitted-allowed e rest p a w h = rw h refl

-- From the second check on, for any state of the limiter.
limit_stage-allowed :
    (e : Env) (rest : Socket) (p : Parsed) (d b : Bytes) (shut : Bool) (w : World)
    → allowed_by e w ≡ true
    → ((v : World) → delivered_by (auth_stage e rest p (with_client d shut v)) ≡ d ++ b)
    → delivered_by (limit_stage e rest p (with_client d shut w)) ≡ d ++ b
unfolding limit_stage
limit_stage-allowed e rest p d b shut w h next =
    let v = record w {
      limiter =
          (is_allowed text_dec e.limit_cfg e.created e.checked e.pruned e.client_ip w.limiter).0;
    } in
    if_elim (λ o. delivered_by o ≡ d ++ b) e.limit_cfg.enabled
      (λ on. ap delivered_by (admitted-allowed e rest p _ (with_client d shut v) h) ∙ next v)
      (λ off. next w)

auth_stage-refused :
    (e : Env) (rest : Socket) (p : Parsed) (d : Bytes) (shut : Bool) (w : World)
    → check_auth e.derive e.users p.headers ≡ ok false
    → delivered_by (auth_stage e rest p (with_client d shut w)) ≡ d ++ unauthorized
unfolding delivered_by auth_stage authenticated reply send_client send log
auth_stage-refused e rest p d shut w h = rw h refl

auth_stage-blocked :
    (e : Env) (rest : Socket) (p : Parsed) (d : Bytes) (shut : Bool) (w : World)
    → check_auth e.derive e.users p.headers ≡ ok true
    → is_blocked e.blocklist (some p.host) ≡ true
    → delivered_by (auth_stage e rest p (with_client d shut w)) ≡ d ++ forbidden
unfolding delivered_by auth_stage authenticated filter_stage reply send_client send log count
auth_stage-blocked e rest p d shut w h b = rw (h, b) refl

-- The parsed request that is handed on has the address of the client; the checks do not read it.
serve_parsed-refused :
    (e : Env) (rest : Socket) (p : Parsed) (d b : Bytes) (shut : Bool) (w : World)
    → ((v : World)
        → v.limiter ≡ w.limiter
        → delivered_by
            (limit_stage e rest (record p { client_ip = some e.client_ip }) (with_client d shut v))
          ≡ d ++ b)
    → delivered_by (serve_parsed e rest p (with_client d shut w)) ≡ d ++ b
unfolding serve_parsed count
serve_parsed-refused e rest p d b shut w next =
    next
      (record w {
        logger = record_host p.host (record w.logger { metrics = count_total w.logger.metrics });
      })
      refl

-- A parsed request, by the first check that it fails.
served-refused :
    (e : Env) (rest : Socket) (p : Parsed) (c : ℕ) (raw d b : Bytes) (shut : Bool) (w : World)
    → parse_http_request e.request_id (c ∷ raw) ≡ ok (some p)
    → delivered_by (serve_parsed e rest p (with_client d shut w)) ≡ d ++ b
    → delivered_by (received e rest (c ∷ raw) (with_client d shut w)) ≡ d ++ b
unfolding received serve_request
served-refused e rest p c raw d b shut w parsed h = rw parsed h

no_request : (id : Text) → parse_http_request id [] ≡ ok none
unfolding parse_http_request header_end find starts_with
no_request id = refl

malformed-reply :
    (e : Env) (rest : Socket) (c : ℕ) (raw d : Bytes) (shut : Bool) (w : World)
    → parse_http_request e.request_id (c ∷ raw) ≡ ok none
    → delivered_by (received e rest (c ∷ raw) (with_client d shut w)) ≡ d ++ bad_request
unfolding delivered_by received serve_request reply send_client send count
malformed-reply e rest c raw d shut w h = rw h refl

received-Refused :
    (e : Env) (rest : Socket) (raw d b : Bytes) (shut : Bool) (w : World)
    → Refused e raw w b
    → delivered_by (received e rest raw (with_client d shut w)) ≡ d ++ b
received-Refused e rest (c ∷ raw) d _ shut w (malformed c' raw' r h) =
    malformed-reply e rest c raw d shut w h
received-Refused e rest (c ∷ raw) d _ shut w (over_limit p n h a k) =
    served-refused e rest p c raw d _ shut w h (
      serve_parsed-refused e rest p d _ shut w
        (λ v l. limit_stage-over e rest _ n d shut v (rw l a) (rw l k)))
received-Refused e rest (c ∷ raw) d _ shut w (not_authorized p h a u) =
    served-refused e rest p c raw d _ shut w h (
      serve_parsed-refused e rest p d _ shut w (λ v l.
        limit_stage-allowed e rest _ d _ shut v (rw l a)
          (λ u'. auth_stage-refused e rest _ d shut u' u)))
received-Refused e rest (c ∷ raw) d _ shut w (on_blocklist p h a u k) =
    served-refused e rest p c raw d _ shut w h (
      serve_parsed-refused e rest p d _ shut w (λ v l.
        limit_stage-allowed e rest _ d _ shut v (rw l a)
          (λ u'. auth_stage-blocked e rest _ d shut u' u k)))
received-Refused e rest [] d _ shut w (malformed c raw r h) = absurd (cc)
received-Refused e rest [] d _ shut w (over_limit p n h a k) =
    let none_there = no_request e.request_id in absurd (cc)
received-Refused e rest [] d _ shut w (not_authorized p h a u) =
    let none_there = no_request e.request_id in absurd (cc)
received-Refused e rest [] d _ shut w (on_blocklist p h a u k) =
    let none_there = no_request e.request_id in absurd (cc)

delivered-catch : (e : Env) (o : Outcome) → (catch e o).client.delivered ≡ delivered_by o
unfolding delivered_by catch log count
delivered-catch e (done w) = refl
delivered-catch e (raised w) = refl

-- A client that takes everything gets exactly one reply to a request that is refused: 400 if it
-- cannot be parsed, else 429 with the announced wait if it is over its limit, else 407 if its
-- credentials are not those of a user, else 403 if its host is blocked.
pub handle_client-Refused :
    (e : Env) (client_sock : Socket) (d b : Bytes) (shut : Bool) (w : World)
    → Refused e (recv_http_request client_sock).0 w b
    → (handle_client e client_sock (with_client d shut w)).client.delivered ≡ d ++ b
unfolding handle_client serve
handle_client-Refused e s d b shut w h =
    delivered-catch e (serve e s (with_client d shut w))
    ∙ received-Refused e (recv_http_request s).1 (recv_http_request s).0 d b shut w h
