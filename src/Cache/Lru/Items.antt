-- ===== src/Cache/Lru/Items.antt =====
-- What `get` and `put` leave in the cache, against the reference: an entry that is used moves to
-- the end, and the last `capacity` entries stay.

use custom_network_proxy_ser.Base.{
  ℕ, suc, ◌-◌, ◌≤◌, ◌<◌, ◌≡◌, refl, sym, ◌∙◌, ap, true, none, some, List, [], ◌∷◌, ◌++◌, arith,
  length, take_last, drop_all, ltb, if◌then◌else◌, Bool-cases, Option-cases, inl, inr,
}
use custom_network_proxy_ser.Config.{CacheConfig}
use custom_network_proxy_ser.Cache.Stats.{CacheStats, record_store}
use custom_network_proxy_ser.Dict.{lookup, erase, move_to_end, insert}
use custom_network_proxy_ser.Dict.Laws.{Distinct, insert_absent, insert-move_to_end, erase_absent}
use custom_network_proxy_ser.Cache.Lru.{
  Value, LruCache, size_of, timestamp_of, stamp, evict, get, make_way, store, put,
}

-- The entry of `k` made the most recent one.
abbrev pub touch : {K : Type 0} → Discrete K → K → Value → List (K × Value) → List (K × Value)
touch dec k v d = erase dec k d ++ (k, v) ∷ []

pub evict-items :
    {K : Type 0} (cap : ℕ) (d : List (K × Value)) (s : CacheStats)
    → (evict cap d s).0 ≡ take_last cap d
unfolding evict
evict-items cap [] s = sym (drop_all (0 - cap) [] (omega arith))
evict-items cap ((k, v) ∷ d) s = elim (Bool-cases (ltb cap (suc (length d)))) [
  | inl over ↦
      let e : suc (length d) - cap ≡ suc (length d - cap) = ground arith in
      rw (over, e) (evict-items cap d _)
  | inr fits ↦ let e : suc (length d) - cap ≡ 0 = ground arith in rw (fits, e)
]

module _ {K : Type 0} (dec : Discrete K) where
  pub insert-make_way :
      (key : K) (v : Value) (c : LruCache K)
      → Distinct dec c.items
      → insert dec key v (make_way dec key c).items ≡ touch dec key v c.items
  unfolding make_way
  insert-make_way key v c h = elim (Option-cases (lookup dec key c.items)) [
    | inl miss ↦
        rw (miss, make_way)
          (insert_absent dec key v c.items miss
            ∙ ap (λ d. d ++ (key, v) ∷ []) (sym (erase_absent dec key c.items miss)))
    | inr (old, hit) ↦ rw (hit, make_way) (insert-move_to_end dec key v old c.items hit h)
  ]

  pub capacity-make_way :
      (key : K) (c : LruCache K)
      → ((make_way dec key c).capacity ≡ c.capacity) × ((make_way dec key c).ttl ≡ c.ttl)
  unfolding make_way
  capacity-make_way key c = ground arith

  pub store-items :
      (key : K) (v : Value) (c : LruCache K)
      → Distinct dec c.items
      → (store dec key v c).items ≡ take_last c.capacity (touch dec key v c.items)
  unfolding store
  store-items key v c h =
      evict-items (make_way dec key c).capacity (insert dec key v (make_way dec key c).items)
        (record_store (size_of v) (make_way dec key c).stats)
      ∙ rw ((capacity-make_way key c).0, insert-make_way key v c h)

  pub capacity-store :
      (key : K) (v : Value) (c : LruCache K)
      → ((store dec key v c).capacity ≡ c.capacity) × ((store dec key v c).ttl ≡ c.ttl)
  unfolding store
  capacity-store key v c = capacity-make_way key c

  module _ (cfg : CacheConfig) (enabled : cfg.enabled ≡ true) where
    -- With the cache switched on, a `put` of a value that is too large changes no item; any other makes
    -- its key the newest, with the stamped value, and then keeps the newest entries up to the capacity.
    -- No key stands twice before.
    pub put-items :
        (now : ℕ) (key : K) (v : Value) (c : LruCache K)
        → Distinct dec c.items
        → (put dec cfg now key v c).items ≡ (
            if ltb cfg.max_object_size (size_of v)
            then c.items
            else take_last c.capacity (touch dec key (stamp now v) c.items))
    unfolding put
    put-items now key v c h = rw enabled (ground (arith, store-items key (stamp now v) c h))

    pub get_miss :
        (now : ℕ) (key : K) (c : LruCache K)
        → lookup dec key c.items ≡ none
        → ((get dec cfg now key c).1 ≡ none) × ((get dec cfg now key c).0.items ≡ c.items)
    unfolding get
    get_miss now key c miss = rw (enabled, miss) (refl, refl)

    pub get_expired :
        (now : ℕ) (key : K) (v : Value) (c : LruCache K)
        → lookup dec key c.items ≡ some v
        → c.ttl < now - timestamp_of v
        → ((get dec cfg now key c).1 ≡ none)
          × ((get dec cfg now key c).0.items ≡ erase dec key c.items)
    unfolding get
    get_expired now key v c hit old = ground arith

    pub get_hit :
        (now : ℕ) (key : K) (v : Value) (c : LruCache K)
        → lookup dec key c.items ≡ some v
        → now - timestamp_of v ≤ c.ttl
        → ((get dec cfg now key c).1 ≡ some v)
          × ((get dec cfg now key c).0.items ≡ touch dec key v c.items)
    unfolding get move_to_end
    get_hit now key v c hit fresh = ground arith
