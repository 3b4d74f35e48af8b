-- ===== src/Handler/Guards.antt =====
-- Which requests reach the network: src/handler.py dials no host before all of its checks.
use custom_network_proxy_ser.Base.{
  ℕ, ◌≡◌, refl, ◌⊎◌, inl, inr, Bool, true, false, Option, none, some, [], ◌∷◌, ◌++◌, if_elim,
  Result, ok, raise,
}
use custom_network_proxy_ser.Text.{codes, text_dec, same}
use custom_network_proxy_ser.Text.Codec.{Bytes}
use custom_network_proxy_ser.Cache.Lru.{Value}
use custom_network_proxy_ser.Filter.{is_blocked}
use custom_network_proxy_ser.RateLimiter.Registry.{is_allowed}
use custom_network_proxy_ser.Parser.Receive.{Socket}
use custom_network_proxy_ser.Parser.Request.{Parsed}
use custom_network_proxy_ser.World.{
  World, Env, Outcome, done, raised, Connect, connected, refused, failed, Writer, send, count, log,
  reply, send_client, world_of,
}
use custom_network_proxy_ser.Forwarder.Tunnel.{tunnel}
use custom_network_proxy_ser.Forwarder.Http.{
  exchange, relay_response, settle, contacted, looked_up, contact_origin, forward_get, forward_http,
  serve_cached,
}
use custom_network_proxy_ser.Forwarder.Outbound.{build_outbound_request}
use custom_network_proxy_ser.Handler.{
  check_auth, serve_tunnel, tunneled, established, serve_connect, count_allowed, authenticated,
  admitted, dispatch, filter_stage, auth_stage, limited, limit_stage, serve_parsed, serve_request,
}

-- What holds of both ways that a reply can end.
pub reply_ends {ℓ} :
    (P : Outcome → Type ℓ) (b : Bytes) (f : World → World) (w : World)
    → ((o : Writer) → P (done (f (record w { client = o }))))
    → ((o : Writer) → P (raised (record w { client = o })))
    → P (reply b f w)
unfolding reply send_client
reply_ends P b f w sent lost = if_elim P (send b w.client).1 (λ h. sent _) (λ h. lost _)

-- What holds after a reply, whether or not the client took it.
pub reply_elim {ℓ} :
    (P : World → Type ℓ) (b : Bytes) (f : World → World) (w : World)
    → ((o : Writer) → P (f (record w { client = o })))
    → ((o : Writer) → P (record w { client = o }))
    → P (world_of (reply b f w))
reply_elim P b f w sent lost = reply_ends (λ o. P (world_of o)) b f w sent lost

-- `Dials Q p w v`: from w to v no host was dialed, or Q holds and it was the one that p names.
pub Dials : Type 0 → Parsed → World → World → Type 0
Dials Q p w v = (v.dialed ≡ w.dialed) ⊎ (Q × (v.dialed ≡ w.dialed ++ (p.host, p.port) ∷ []))

exchange-dialed :
    (e : Env) (p : Parsed) (up : Socket) (w : World)
    → (world_of (exchange e p up w)).dialed ≡ w.dialed
unfolding exchange relay_response settle count log
exchange-dialed e p up w =
    if_elim (λ o. (world_of o).dialed ≡ w.dialed) (send (build_outbound_request p) w.server).1
      (λ h. if_elim (λ (v : World). v.dialed ≡ w.dialed) _ (λ h. refl) (λ h. refl))
      (λ h. reply_elim (λ (v : World). v.dialed ≡ w.dialed) _ _ _ (λ o. refl) (λ o. refl))

contacted-dialed :
    (e : Env) (p : Parsed) (c : Connect) (w : World)
    → (world_of (contacted e p c w)).dialed ≡ w.dialed
unfolding contacted count
contacted-dialed e p (connected up) w = exchange-dialed e p up (record w { upstream_open = true })
contacted-dialed e p refused w =
    reply_elim (λ (v : World). v.dialed ≡ w.dialed) _ _ _ (λ o. refl) (λ o. refl)
contacted-dialed e p failed w = refl

contact_origin-Dials :
    (Q : Type 0) (e : Env) (p : Parsed) (w : World)
    → Q
    → Dials Q p w (world_of (contact_origin e p w))
unfolding Dials contact_origin
contact_origin-Dials Q e p w q = inr (q, contacted-dialed e p _ _)

looked_up-Dials :
    (Q : Type 0) (e : Env) (p : Parsed) (o : Option Value) (w : World)
    → Q
    → Dials Q p w (world_of (looked_up e p o w))
unfolding Dials looked_up serve_cached log count send_client
looked_up-Dials Q e p (some v) w q = inl refl
looked_up-Dials Q e p none w q = contact_origin-Dials Q e p _ q

forward_http-Dials :
    (Q : Type 0) (e : Env) (p : Parsed) (w : World)
    → Q
    → Dials Q p w (world_of (forward_http e p w))
unfolding Dials forward_http forward_get
forward_http-Dials Q e p w q =
    if_elim (λ o. Dials Q p w (world_of o)) (same p.method (codes "GET"))
      (λ h. looked_up-Dials Q e p _ _ q) (λ h. contact_origin-Dials Q e p w q)

tunneled-dialed :
    (e : Env) (rest : Socket) (c : Connect) (w : World)
    → (world_of (tunneled e rest c w)).dialed ≡ w.dialed
unfolding tunneled serve_tunnel send_client tunnel count
tunneled-dialed e rest refused w =
    reply_elim (λ (v : World). v.dialed ≡ w.dialed) _ _ w (λ o. refl) (λ o. refl)
tunneled-dialed e rest failed w = refl
tunneled-dialed e rest (connected up) w =
    if_elim (λ o. (world_of o).dialed ≡ w.dialed) (send established w.client).1 (λ h. refl)
      (λ h. reply_elim (λ (v : World). v.dialed ≡ w.dialed) _ _ _ (λ o. refl) (λ o. refl))

dispatch-Dials :
    (Q : Type 0) (e : Env) (rest : Socket) (p : Parsed) (w : World)
    → Q
    → Dials Q p w (world_of (dispatch e rest p w))
unfolding Dials dispatch serve_connect log
dispatch-Dials Q e rest p w q =
    if_elim (λ o. Dials Q p w (world_of o)) (same p.method (codes "CONNECT"))
      (λ h. inr (q, tunneled-dialed e rest _ _)) (λ h. forward_http-Dials Q e p _ q)

filter_stage-Dials :
    (Q : Type 0) (e : Env) (rest : Socket) (p : Parsed) (w : World)
    → (is_blocked e.blocklist (some p.host) ≡ false → Q)
    → Dials Q p w (world_of (filter_stage e rest p w))
unfolding Dials filter_stage log count
filter_stage-Dials Q e rest p w q =
    if_elim (λ o. Dials Q p w (world_of o)) (is_blocked e.blocklist (some p.host))
      (λ h. inl (reply_elim (λ (v : World). v.dialed ≡ w.dialed) _ _ _ (λ o. refl) (λ o. refl)))
      (λ h. dispatch-Dials Q e rest p (count count_allowed w) (q h))

authenticated-Dials :
    (Q : Type 0) (e : Env) (rest : Socket) (p : Parsed) (a : Result Bool) (w : World)
    → (a ≡ ok true → is_blocked e.blocklist (some p.host) ≡ false → Q)
    → Dials Q p w (world_of (authenticated e rest p a w))
unfolding Dials authenticated log
authenticated-Dials Q e rest p raise w q = inl refl
authenticated-Dials Q e rest p (ok true) w q = filter_stage-Dials Q e rest p w (q refl)
authenticated-Dials Q e rest p (ok false) w q =
    inl (reply_elim (λ (v : World). v.dialed ≡ w.dialed) _ _ _ (λ o. refl) (λ o. refl))

limited-dialed :
    (e : Env) (p : Parsed) (o : Option ℕ) (w : World)
    → (world_of (limited e p o w)).dialed ≡ w.dialed
unfolding limited log count
limited-dialed e p none w = refl
limited-dialed e p (some n) w =
    reply_elim (λ (v : World). v.dialed ≡ w.dialed) _ _ _ (λ o. refl) (λ o. refl)

-- The checks that a request has passed: its client had a token, or there is no limit; its
-- credentials are those of a user; its host is not blocked.
pub record Passes (e : Env) (p : Parsed) (w : World) : Type 0 where
  pub allowed :
      (is_allowed text_dec e.limit_cfg e.created e.checked e.pruned e.client_ip w.limiter).1 ≡ true
  pub authorized : check_auth e.derive e.users p.headers ≡ ok true
  pub unblocked : is_blocked e.blocklist (some p.host) ≡ false

auth_stage-Dials :
    (Q : Type 0) (e : Env) (rest : Socket) (p : Parsed) (w : World)
    → (check_auth e.derive e.users p.headers ≡ ok true
        → is_blocked e.blocklist (some p.host) ≡ false
        → Q)
    → Dials Q p w (world_of (auth_stage e rest p w))
unfolding auth_stage
auth_stage-Dials Q e rest p w q =
    authenticated-Dials Q e rest p (check_auth e.derive e.users p.headers) w q

admitted-Dials :
    (Q : Type 0) (e : Env) (rest : Socket) (p : Parsed) (b : Bool) (w : World)
    → (b ≡ true
        → check_auth e.derive e.users p.headers ≡ ok true
        → is_blocked e.blocklist (some p.host) ≡ false
        → Q)
    → Dials Q p w (world_of (admitted e rest p b w))
unfolding Dials admitted
admitted-Dials Q e rest p true w q = auth_stage-Dials Q e rest p w (q refl)
admitted-Dials Q e rest p false w q = inl (limited-dialed e p _ w)

limit_stage-Dials :
    (e : Env) (rest : Socket) (p : Parsed) (w : World)
    → Dials (Passes e p w) p w (world_of (limit_stage e rest p w))
unfolding Dials limit_stage is_allowed
limit_stage-Dials e rest p w =
    if_elim (λ o. Dials (Passes e p w) p w (world_of o)) e.limit_cfg.enabled
      (λ h.
        admitted-Dials (Passes e p w) e rest p _ _
          (λ a b c. record { allowed = a; authorized = b; unblocked = c }))
      (λ h.
        auth_stage-Dials (Passes e p w) e rest p w
          (λ b c. record { allowed = rw h refl; authorized = b; unblocked = c }))

pub serve_request-Dials :
    (e : Env) (rest : Socket) (r : Result (Option Parsed)) (w : World)
    → (world_of (serve_request e rest r w)).dialed ≡ w.dialed
      ⊎ ((p : Parsed) × (r ≡ ok (some p))
          × Passes e p w
          × ((world_of (serve_request e rest r w)).dialed ≡ w.dialed ++ (p.host, p.port) ∷ []))
unfolding Dials serve_request serve_parsed count
serve_request-Dials e rest raise w = inl refl
serve_request-Dials e rest (ok none) w =
    inl (reply_elim (λ (v : World). v.dialed ≡ w.dialed) _ _ _ (λ o. refl) (λ o. refl))
serve_request-Dials e rest (ok (some p)) w =
    elim (limit_stage-Dials e rest (record p { client_ip = some e.client_ip }) _) [
      | inl h ↦ inl h
      | inr (q, h) ↦ inr (
        p,
        refl,
        record { allowed = q.allowed; authorized = q.authorized; unblocked = q.unblocked },
        h,
      )
    ]
