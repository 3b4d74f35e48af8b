-- ===== src/Forwarder/Http/Caching.antt =====
-- What `forward_http` (src/forwarder.py) stores, and what a later request for it gets.
use custom_network_proxy_ser.Base.{◌≡◌, refl, ap, Bool, true, false, none, some, [], ◌∷◌, ◌++◌}
use custom_network_proxy_ser.Text.{codes, same}
use custom_network_proxy_ser.Text.Codec.{Bytes}
use custom_network_proxy_ser.Cache.Lru.{Value, LruCache}
use custom_network_proxy_ser.Cache.Lru
use custom_network_proxy_ser.Parser.Receive.{Socket}
use custom_network_proxy_ser.Parser.Request.{Parsed}
use custom_network_proxy_ser.World.{
  key_dec, World, Env, connected, Writer, send, count, log, send_client, world_of,
}
use custom_network_proxy_ser.Forwarder.Outbound.{build_outbound_request}
use custom_network_proxy_ser.Forwarder.Relay.{Relay, start}
use custom_network_proxy_ser.Forwarder.Relay.Faithful.{taking, bytes_of, collected, stream-taking}
use custom_network_proxy_ser.Forwarder.Http.{
  cache_key, cache_extra, entry_for, stores, settle, relay_response, exchange, contacted,
  contact_origin, looked_up, serve_cached, forward_get, forward_http,
}

-- The loop's variables at its end.
abbrev pub final : Env → Parsed → Socket → Relay
final e p up = collected e.cache_cfg.max_object_size up (start (same p.method (codes "GET")))

-- What is known of the world v after a response that the client took was stored in the world w.
pub record Stored (e : Env) (p : Parsed) (up : Socket) (d : Bytes) (w v : World) : Type 0 where
  pub delivered : v.client.delivered ≡ d ++ bytes_of up
  pub cache :
      v.cache
      ≡ Lru.put key_dec e.cache_cfg e.stored_at (cache_key p) (entry_for e (final e p up)) w.cache
  pub dialed : v.dialed ≡ w.dialed

settle-Stored :
    (e : Env) (p : Parsed) (up : Socket) (d : Bytes) (r : Relay) (w : World)
    → stores r ≡ true
    → (settle e p r w).client ≡ w.client
      × ((settle e p r w).cache
          ≡ Lru.put key_dec e.cache_cfg e.stored_at (cache_key p) (entry_for e r) w.cache)
      × ((settle e p r w).dialed ≡ w.dialed)
unfolding settle log
settle-Stored e p up d r w h = rw h (refl, refl, refl)

relay_response-Stored :
    (e : Env) (p : Parsed) (up : Socket) (d : Bytes) (shut : Bool) (w : World)
    → stores (final e p up) ≡ true
    → Stored e p up d w (relay_response e p up (record w { client = taking d shut }))
unfolding relay_response
relay_response-Stored e p up d shut w h =
    let run =
      stream-taking e.cache_cfg.max_object_size up (start (same p.method (codes "GET"))) d shut in
    rw run (
      let (c, k, n) =
        settle-Stored e p up d (final e p up)
          (record w { client = taking (d ++ bytes_of up) shut; upstream_open = false }) h in
      record { delivered = ap (λ (o : Writer). o.delivered) c; cache = k; dialed = n })

-- The world of a client and an origin that take everything.
abbrev pub with_sockets : Writer → Writer → World → World
with_sockets client server w = record w { client = client; server = server }

contact_origin-Stored :
    (e : Env) (p : Parsed) (up : Socket) (d sd : Bytes) (shut sshut : Bool) (w : World)
    → e.connect p.host p.port ≡ connected up
    → stores (final e p up) ≡ true
    → Stored e p up d
        (record w { dialed = w.dialed ++ (p.host, p.port) ∷ [] })
        (world_of (contact_origin e p (with_sockets (taking d shut) (taking sd sshut) w)))
unfolding contact_origin contacted exchange send
contact_origin-Stored e p up d sd shut sshut w c h = rw c (
    let k =
      relay_response-Stored e p up d shut
        (record w {
          dialed = w.dialed ++ (p.host, p.port) ∷ [];
          upstream_open = true;
          server = taking (sd ++ build_outbound_request p) sshut;
        })
        h in
    record { delivered = k.delivered; cache = k.cache; dialed = k.dialed })

pub forward_http-Stored :
    (e : Env) (p : Parsed) (up : Socket) (d sd : Bytes) (shut sshut : Bool) (w : World)
    → same p.method (codes "GET") ≡ true
    → (Lru.get key_dec e.cache_cfg e.read_at (cache_key p) w.cache).1 ≡ none
    → e.connect p.host p.port ≡ connected up
    → stores (final e p up) ≡ true
    → Stored e p up d
        (record w {
          cache = (Lru.get key_dec e.cache_cfg e.read_at (cache_key p) w.cache).0;
          dialed = w.dialed ++ (p.host, p.port) ∷ [];
        })
        (world_of (forward_http e p (with_sockets (taking d shut) (taking sd sshut) w)))
unfolding forward_http forward_get looked_up log
forward_http-Stored e p up d sd shut sshut w m miss c h =
    rw (m, miss)
      (let k =
          contact_origin-Stored e p up d sd shut sshut
            (log e _ _ (cache_extra p) (record w {
              cache = (Lru.get key_dec e.cache_cfg e.read_at (cache_key p) w.cache).0;
            }))
            c h in
        record { delivered = k.delivered; cache = k.cache; dialed = k.dialed })

-- A GET whose response is in the cache is answered from it, and no host is dialed.
pub forward_http-hit :
    (e : Env) (p : Parsed) (v : Value) (d : Bytes) (shut : Bool) (server : Writer) (w : World)
    → same p.method (codes "GET") ≡ true
    → (Lru.get key_dec e.cache_cfg e.read_at (cache_key p) w.cache).1 ≡ some v
    → ((world_of (forward_http e p (with_sockets (taking d shut) server w))).client.delivered
        ≡ d ++ v.response)
      × ((world_of (forward_http e p (with_sockets (taking d shut) server w))).dialed ≡ w.dialed)
unfolding forward_http forward_get looked_up serve_cached send_client send log count
forward_http-hit e p v d shut server w m hit = rw (m, hit) (refl, refl)
