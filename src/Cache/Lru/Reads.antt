-- ===== src/Cache/Lru/Reads.antt =====
-- What can be read from the cache after a `put`.
use custom_network_proxy_ser.Base.{
  ℕ, zero, suc, ◌-◌, ◌≤◌, ◌<◌, ◌≡◌, ◌∙◌, ◌≢◌, true, false, none, some, List, [], ◌∷◌, ◌++◌, arith,
  length, drop, take_last, length-append, drop-append, ltb, Bool-cases, inl, inr,
}
use custom_network_proxy_ser.Config.{CacheConfig}
use custom_network_proxy_ser.Dict.{lookup, erase}
use custom_network_proxy_ser.Dict.Laws.{Distinct, lookup-append_none, lookup_one, lookup-erase_self}
use custom_network_proxy_ser.Cache.Lru.{
  Value, LruCache, size_of, timestamp_of, stamp, get, get_present, put,
}
use custom_network_proxy_ser.Cache.Lru.Items.{touch, put-items, get_hit, capacity-store}
use custom_network_proxy_ser.Cache.Lru.History.{lookup-touch_ne}
use custom_network_proxy_ser.Cache.Lru.Invariant.{IsValid}

module _ {K : Type 0} (dec : Discrete K) where
  lookup-drop-none :
      (k : K) (n : ℕ) (d : List (K × Value))
      → lookup dec k d ≡ none
      → lookup dec k (drop n d) ≡ none
  unfolding lookup
  lookup-drop-none k zero d h = h
  lookup-drop-none k (suc n) [] h = h
  lookup-drop-none k (suc n) ((j, w) ∷ d) h = lookup-drop-none k n d (ground arith)

  length-erase-le : (k : K) (d : List (K × Value)) → length (erase dec k d) ≤ length d
  unfolding erase
  length-erase-le k [] = omega arith
  length-erase-le k ((j, w) ∷ d) = ground (arith, length-erase-le k d)

  -- The newest entry is kept by any capacity above 0.
  lookup_newest :
      (k : K) (v : Value) (n : ℕ) (d : List (K × Value))
      → Distinct dec d
      → 0 < n
      → lookup dec k (take_last n (touch dec k v d)) ≡ some v
  lookup_newest k v n d h pos =
      let rest = erase dec k d in
      let room : length (rest ++ (k, v) ∷ []) - n ≤ length rest =
        omega (arith, length-append rest ((k, v) ∷ [])) in
      rw (drop-append _ rest ((k, v) ∷ []) room) (
        lookup-append_none dec k (drop _ rest) _
          (lookup-drop-none k _ rest (lookup-erase_self dec k d h))
        ∙ lookup_one dec k v)

  module _ (cfg : CacheConfig) where
    ttl-put : (now : ℕ) (k : K) (v : Value) (c : LruCache K) → (put dec cfg now k v c).ttl ≡ c.ttl
    unfolding put
    ttl-put now k v c = ground (arith, capacity-store dec k (stamp now v) c)

    -- A response that fits is found by the next `get` of its key, if the capacity is not 0 and the
    -- time to live has not passed; it is the value as stored, stamped if it had no timestamp.
    pub get-put :
        (now later : ℕ) (k : K) (v : Value) (c : LruCache K)
        → IsValid dec c
        → cfg.enabled ≡ true
        → 0 < c.capacity
        → size_of v ≤ cfg.max_object_size
        → later - timestamp_of (stamp now v) ≤ c.ttl
        → (get dec cfg later k (put dec cfg now k v c)).1 ≡ some (stamp now v)
    get-put now later k v c h on pos small fresh =
        (get_hit dec cfg on later k (stamp now v) (put dec cfg now k v c) found
          (rw (ttl-put now k v c) fresh)).0
      where
        fits : ltb cfg.max_object_size (size_of v) ≡ false
        fits = ground arith

        found : lookup dec k (put dec cfg now k v c).items ≡ some (stamp now v)
        found =
            rw (put-items dec cfg on now k v c h.distinct, fits)
              (lookup_newest k (stamp now v) c.capacity c.items h.distinct pos)

    -- With room for one more entry, a `put` changes no other key.
    pub lookup-put_ne :
        (now : ℕ) (k q : K) (v : Value) (c : LruCache K)
        → IsValid dec c
        → cfg.enabled ≡ true
        → length c.items < c.capacity
        → q ≢ k
        → lookup dec q (put dec cfg now k v c).items ≡ lookup dec q c.items
    lookup-put_ne now k q v c h on room other =
        elim (Bool-cases (ltb cfg.max_object_size (size_of v))) [
          | inl big ↦ rw (put-items dec cfg on now k v c h.distinct, big)
          | inr small ↦
              let kept : length (touch dec k (stamp now v) c.items) - c.capacity ≡ 0 = omega (
                arith,
                length-append (erase dec k c.items) ((k, stamp now v) ∷ []),
                length-erase-le k c.items,
              ) in
              rw (put-items dec cfg on now k v c h.distinct, small, kept)
                (lookup-touch_ne dec q k (stamp now v) c.items other)
        ]

    pub ttl-get : (now : ℕ) (k : K) (c : LruCache K) → (get dec cfg now k c).0.ttl ≡ c.ttl
    unfolding get get_present
    ttl-get now k c = ground arith

    pub capacity-get :
        (now : ℕ) (k : K) (c : LruCache K) → (get dec cfg now k c).0.capacity ≡ c.capacity
    unfolding get get_present
    capacity-get now k c = ground arith
