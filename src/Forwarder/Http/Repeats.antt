-- ===== src/Forwarder/Http/Repeats.antt =====
-- A request of src/forwarder.py that is repeated while its response is in the cache.
use custom_network_proxy_ser.Base.{
  ℕ, ◌-◌, ◌≤◌, ◌<◌, ◌≡◌, ◌∙◌, ap, arith, Bool, true, false, none, some, List, [], ◌∷◌,
}
use custom_network_proxy_ser.Text.{codes, same}
use custom_network_proxy_ser.Text.Laws.{same_iff}
use custom_network_proxy_ser.Text.Codec.{Bytes}
use custom_network_proxy_ser.Cache.Lru.{Value, LruCache, get_present}
use custom_network_proxy_ser.Cache.Lru
use custom_network_proxy_ser.Cache.Lru.Invariant.{IsValid, get-IsValid}
use custom_network_proxy_ser.Cache.Lru.Reads.{get-put, ttl-get, capacity-get}
use custom_network_proxy_ser.Parser.Receive.{Socket}
use custom_network_proxy_ser.Parser.Request.{Parsed}
use custom_network_proxy_ser.World.{Key, key_dec, World, Env, connected, Writer, world_of}
use custom_network_proxy_ser.Forwarder.Relay.{Relay, start}
use custom_network_proxy_ser.Forwarder.Relay.Faithful.{
  taking, bytes_of, collected-Keeps, start-Keeps, Keeps,
}
use custom_network_proxy_ser.Forwarder.Http.{cache_key, entry_for, stores, forward_http}
use custom_network_proxy_ser.Forwarder.Http.Caching.{
  final, with_sockets, forward_http-Stored, forward_http-hit,
}

stores-cacheable : (r : Relay) → stores r ≡ true → r.cacheable ≡ true
stores-cacheable r h = from r.response_chunks r.cacheable h
  where
    from : (bs : List Bytes) (c : Bool) → elim bs [ [] ↦ false | b ∷ bs ↦ c ] ≡ true → c ≡ true
    from [] c h = ground (arith, h)
    from (b ∷ bs) c h = h

final-Keeps :
    (e : Env) (p : Parsed) (up : Socket)
    → Keeps e.cache_cfg.max_object_size (bytes_of up) (final e p up)
final-Keeps e p up =
    collected-Keeps e.cache_cfg.max_object_size up [] (start (same p.method (codes "GET")))
      (start-Keeps e.cache_cfg.max_object_size (same p.method (codes "GET")))

-- A GET that misses the cache, is answered by the origin, and whose response is stored, is relayed
-- in full; a later request with the same method, host, port and path, whatever its headers, gets the
-- same bytes from the cache within the time to live, and no host is dialed for it. The bytes are all
-- that the origin's socket gave, also where an error of the socket ended them early. The cache is
-- valid, switched on and not of capacity 0, and both clients and the origin take all data.
pub forward_http-forward_http :
    (e : Env) (p q : Parsed) (up : Socket) (later : ℕ) (server : Writer) (w : World)
    → IsValid key_dec w.cache
    → e.cache_cfg.enabled ≡ true
    → 0 < w.cache.capacity
    → p.method ≡ codes "GET"
    → cache_key q ≡ cache_key p
    → (Lru.get key_dec e.cache_cfg e.read_at (cache_key p) w.cache).1 ≡ none
    → e.connect p.host p.port ≡ connected up
    → stores (final e p up) ≡ true
    → later - e.stored_at ≤ w.cache.ttl
    → let v = world_of (forward_http e p (with_sockets (taking [] false) (taking [] false) w)) in
      let u =
        world_of (
          forward_http
            (record e { read_at = later })
            q
            (with_sockets (taking [] false) server v)) in
      (v.client.delivered ≡ bytes_of up)
      × (u.client.delivered ≡ bytes_of up)
      × (u.dialed ≡ v.dialed)
forward_http-forward_http e p q up later server w valid on room get key miss c h fresh =
    let v = world_of (forward_http e p (with_sockets (taking [] false) (taking [] false) w)) in
    let k = forward_http-Stored e p up [] [] false false w is_get miss c h in
    let keeps = final-Keeps e p up in
    let kept = stores-cacheable (final e p up) h in
    let cached = (Lru.get key_dec e.cache_cfg e.read_at (cache_key p) w.cache).0 in
    let found : (Lru.get key_dec e.cache_cfg later (cache_key q) v.cache).1
        ≡ some (entry_for e (final e p up)) =
      rw (key, k.cache)
        (get-put key_dec e.cache_cfg e.stored_at later (cache_key p) (entry_for e (final e p up))
          cached (get-IsValid key_dec e.cache_cfg e.read_at (cache_key p) w.cache valid) on
          (rw (capacity-get key_dec e.cache_cfg e.read_at (cache_key p) w.cache) room)
          (keeps.bounded kept)
          (rw (ttl-get key_dec e.cache_cfg e.read_at (cache_key p) w.cache) fresh)) in
    let (again, quiet) =
      forward_http-hit (record e { read_at = later }) q (entry_for e (final e p up)) [] false server
        v is_get' found in
    (k.delivered, again ∙ keeps.bytes kept, quiet)
  where
    is_get : same p.method (codes "GET") ≡ true
    is_get = (same_iff p.method (codes "GET")).1 get

    is_get' : same q.method (codes "GET") ≡ true
    is_get' = (same_iff q.method (codes "GET")).1 (ap (λ (k : Key). k.0) key ∙ get)
