-- ===== src/Cache/Lru/History.antt =====
-- Runs of the cache against an ideal dictionary that forgets nothing.
use mathlib.Core.Logic.{if_pos, if_neg}
use mathlib.Core.List.{foldl}
use custom_network_proxy_ser.Base.{
  ℕ, dec_lt, zero, suc, ◌-◌, ◌≤◌, ◌≡◌, refl, sym, ◌∙◌, ◌≢◌, ite, Option, none, some, List, [], ◌∷◌,
  arith, drop, ltb, if◌then◌else◌, Bool-cases, Option-cases, inl, inr,
}
use custom_network_proxy_ser.Config.{CacheConfig}
use custom_network_proxy_ser.Dict.{lookup, erase}
use custom_network_proxy_ser.Dict.Laws.{
  Distinct, lookup-append_none, lookup-append_some, lookup_one, lookup_one_ne, lookup-erase_ne,
  lookup-erase_self,
}
use custom_network_proxy_ser.Cache.Lru
use custom_network_proxy_ser.Cache.Lru.{Value, LruCache, size_of, timestamp_of, stamp, init}
use custom_network_proxy_ser.Cache.Lru.Items.{touch, put-items, get_miss, get_hit, get_expired}
use custom_network_proxy_ser.Cache.Lru.Invariant.{
  IsValid, init-IsValid, get-IsValid, put-IsValid, clear-IsValid, touch-Distinct,
}

pub data Call (K : Type 0) : Type 0 where
  get : ℕ → K → Call K
  put : ℕ → K → Value → Call K
  clear : Call K

module _ {K : Type 0} (dec : Discrete K) where
  pub lookup-touch_self :
      (k : K) (v : Value) (d : List (K × Value))
      → Distinct dec d
      → lookup dec k (touch dec k v d) ≡ some v
  lookup-touch_self k v d h =
      lookup-append_none dec k (erase dec k d) ((k, v) ∷ []) (lookup-erase_self dec k d h)
      ∙ lookup_one dec k v

  pub lookup-touch_ne :
      (q k : K) (v : Value) (d : List (K × Value))
      → q ≢ k
      → lookup dec q (touch dec k v d) ≡ lookup dec q d
  lookup-touch_ne q k v d p = elim (Option-cases (lookup dec q d)) [
    | inl miss ↦
        lookup-append_none dec q (erase dec k d) _ (lookup-erase_ne dec q k d p ∙ miss)
        ∙ lookup_one_ne dec q k v p
        ∙ sym miss
    | inr (w, hit) ↦
        lookup-append_some dec q w (erase dec k d) _ (lookup-erase_ne dec q k d p ∙ hit) ∙ sym hit
  ]

  lookup-touch :
      (q k : K) (v : Value) (d : List (K × Value))
      → Distinct dec d
      → lookup dec q (touch dec k v d) ≡ ite (dec q k) (some v) (lookup dec q d)
  lookup-touch q k v d h = elim (dec q k) [
    | yes p ↦ rw p (lookup-touch_self k v d h ∙ sym (if_pos (dec k k) refl _ _))
    | no p ↦ lookup-touch_ne q k v d p ∙ sym (if_neg (dec q k) p _ _)
  ]

  lookup-drop :
      (q : K) (v : Value) (n : ℕ) (d : List (K × Value))
      → Distinct dec d
      → lookup dec q (drop n d) ≡ some v
      → lookup dec q d ≡ some v
  unfolding lookup
  lookup-drop q v zero d h e = e
  lookup-drop q v (suc n) [] h e = e
  lookup-drop q v (suc n) ((j, w) ∷ d) (fresh, h) e = elim (dec q j) [
    | yes p ↦
        let found : lookup dec q d ≡ some v = lookup-drop q v n d h e in
        let missing : lookup dec q d ≡ none = rw p fresh in absurd (cc)
    | no p ↦ rw (if_neg (dec q j) p) (lookup-drop q v n d h e)
  ]

  lookup-erase-some :
      (q k : K) (v : Value) (d : List (K × Value))
      → Distinct dec d
      → lookup dec q (erase dec k d) ≡ some v
      → lookup dec q d ≡ some v
  lookup-erase-some q k v d h e = elim (dec q k) [
    | yes p ↦
        let gone : lookup dec q (erase dec k d) ≡ none = rw p (lookup-erase_self dec k d h) in
        absurd (cc)
    | no p ↦ sym (lookup-erase_ne dec q k d p) ∙ e
  ]

  lookup-touch-some :
      (q k : K) (v w : Value) (d : List (K × Value))
      → Distinct dec d
      → lookup dec k d ≡ some w
      → lookup dec q (touch dec k w d) ≡ some v
      → lookup dec q d ≡ some v
  lookup-touch-some q k v w d h hit e = elim (dec q k) [
    | yes p ↦ rw p (hit ∙ sym (lookup-touch_self k w d h) ∙ (rw p at e))
    | no p ↦ sym (lookup-touch_ne q k w d p) ∙ e
  ]

  module _ (cfg : CacheConfig) where
    unfoldable pub step : LruCache K → Call K → LruCache K
    step c (get now k) = (Lru.get dec cfg now k c).0
    step c (put now k v) = Lru.put dec cfg now k v c
    step c clear = Lru.clear c

    unfoldable pub run : List (Call K) → LruCache K
    unfolding step
    run = foldl step (init cfg)

    -- What was put last, with the time of its `put`; too large a value is not stored.
    unfoldable pub note : (K → Option Value) → Call K → K → Option Value
    note m (get now k) q = m q
    note m (put now k v) q =
        if cfg.enabled
        then if ltb cfg.max_object_size (size_of v)
          then m q
          else ite (dec q k) (some (stamp now v)) (m q)
        else m q
    note m clear q = none

    unfoldable pub latest : List (Call K) → K → Option Value
    unfolding note
    latest = foldl note (λ q. none)

    get-some :
        (now : ℕ) (k : K) (v : Value) (c : LruCache K)
        → (Lru.get dec cfg now k c).1 ≡ some v
        → (lookup dec k c.items ≡ some v) × (now - timestamp_of v ≤ c.ttl)
    unfolding Lru.get
    get-some now k v c e = ground arith

    -- What the cache holds is what was put last.
    record Tracks (m : K → Option Value) (c : LruCache K) : Type 0 where
      valid : IsValid dec c
      latest : (q : K) (v : Value) → lookup dec q c.items ≡ some v → m q ≡ some v

    put_some :
        (q k : K) (v w : Value) (m : K → Option Value) (c : LruCache K)
        → Tracks m c
        → lookup dec q (touch dec k w c.items) ≡ some v
        → ite (dec q k) (some w) (m q) ≡ some v
    put_some q k v w m c t e = elim (dec q k) [
      | yes p ↦
          if_pos (dec q k) p _ _
          ∙ sym (if_pos (dec q k) p _ _)
          ∙ sym (lookup-touch q k w c.items t.valid.distinct)
          ∙ e
      | no p ↦ if_neg (dec q k) p _ _ ∙ t.latest q v (sym (lookup-touch_ne q k w c.items p) ∙ e)
    ]

    step-IsValid : (c : LruCache K) (a : Call K) → IsValid dec c → IsValid dec (step c a)
    unfolding step
    step-IsValid c (get now k) h = get-IsValid dec cfg now k c h
    step-IsValid c (put now k v) h = put-IsValid dec cfg now k v c h
    step-IsValid c clear h = clear-IsValid dec c

    -- A `get` adds nothing that could be read.
    get-adds_nothing :
        (now : ℕ) (k : K) (c : LruCache K)
        → Distinct dec c.items
        → (q : K) (v : Value) → lookup dec q (Lru.get dec cfg now k c).0.items ≡ some v
        → lookup dec q c.items ≡ some v
    get-adds_nothing now k c h q v e = elim (Bool-cases cfg.enabled) [
      | inr off ↦ unfold Lru.get in rw off at e
      | inl on ↦ elim (Option-cases (lookup dec k c.items)) [
        | inl miss ↦ rw (get_miss dec cfg on now k c miss).1 at e
        | inr (w, hit) ↦ elim (dec_lt c.ttl (now - timestamp_of w)) [
          | yes old ↦
              lookup-erase-some q k v c.items h
                (rw (get_expired dec cfg on now k w c hit old).1 at e)
          | no fresh ↦
              lookup-touch-some q k v w c.items h hit
                (rw (get_hit dec cfg on now k w c hit (omega arith)).1 at e)
        ]
      ]
    ]

    put-latest :
        (now : ℕ) (k : K) (w : Value) (m : K → Option Value) (c : LruCache K)
        → Tracks m c
        → (q : K) (v : Value) → lookup dec q (Lru.put dec cfg now k w c).items ≡ some v
        → note m (put now k w) q ≡ some v
    unfolding note
    put-latest now k w m c t q v e = elim (Bool-cases cfg.enabled) [
      | inr off ↦ rw off (t.latest q v (unfold Lru.put in rw off at e))
      | inl on ↦
          let e' = rw (put-items dec cfg on now k w c t.valid.distinct) at e in
          elim (Bool-cases (ltb cfg.max_object_size (size_of w))) [
            | inl big ↦ rw (on, big) (t.latest q v (rw big at e'))
            | inr small ↦
                rw (on, small)
                  (put_some q k v (stamp now w) m c t (
                    lookup-drop q v _ _
                      (touch-Distinct dec k (stamp now w) c.items t.valid.distinct)
                      (rw small at e')))
          ]
    ]

    step-Tracks :
        (m : K → Option Value) (c : LruCache K) (a : Call K)
        → Tracks m c
        → Tracks (note m a) (step c a)
    unfolding step note lookup Lru.clear
    step-Tracks m c (get now k) t = record {
      valid = step-IsValid c (get now k) t.valid;
      latest = λ q v e. t.latest q v (get-adds_nothing now k c t.valid.distinct q v e);
    }
    step-Tracks m c (put now k w) t = record {
      valid = step-IsValid c (put now k w) t.valid;
      latest = put-latest now k w m c t;
    }
    step-Tracks m c clear t = record {
      valid = step-IsValid c clear t.valid;
      latest = λ q v e. absurd (cc);
    }

    foldl-Tracks :
        (calls : List (Call K)) (m : K → Option Value) (c : LruCache K)
        → Tracks m c
        → Tracks (foldl note m calls) (foldl step c calls)
    foldl-Tracks [] m c t = t
    foldl-Tracks (a ∷ calls) m c t = foldl-Tracks calls (note m a) (step c a) (step-Tracks m c a t)

    run-Tracks : (calls : List (Call K)) → Tracks (latest calls) (run calls)
    unfolding run latest lookup init
    run-Tracks calls =
        foldl-Tracks calls (λ q. none) (init cfg)
          (record { valid = init-IsValid dec cfg; latest = λ q v e. absurd (cc) })

    -- Whatever the calls so far, the cache is within its capacity, holds no key twice, and its
    -- counters say exactly how many entries and bytes it holds.
    pub run-IsValid : (calls : List (Call K)) → IsValid dec (run calls)
    run-IsValid calls = (run-Tracks calls).valid

    -- A `get` that returns a response after any calls returns the one that was put last under that
    -- very key and not flushed since, and it is not older than the time to live.
    pub get_sound :
        (calls : List (Call K)) (now : ℕ) (k : K) (v : Value)
        → (Lru.get dec cfg now k (run calls)).1 ≡ some v
        → (latest calls k ≡ some v) × (now - timestamp_of v ≤ (run calls).ttl)
    get_sound calls now k v e =
        let (held, fresh) = get-some now k v (run calls) e in
        ((run-Tracks calls).latest k v held, fresh)
