-- ===== src/RateLimiter/Registry/Consume.antt =====
-- What a call of `is_allowed` decides, and what it leaves to every client, in terms of the tokens
-- that each client has.
use custom_network_proxy_ser.Base.{
  ℕ, ◌+◌, ◌-◌, ◌*◌, ◌≤◌, ◌≡◌, refl, sym, ◌∙◌, ap, ◌≢◌, inl, inr, Option, none, some, arith, leb,
  if◌then◌else◌, min, Bool-cases, Option-cases,
}
use custom_network_proxy_ser.Dict.{lookup}
use custom_network_proxy_ser.Dict.Laws.{
  Distinct, lookup-insert_self, lookup-insert_ne, insert-Distinct,
}
use custom_network_proxy_ser.RateLimiter.Bucket.{
  TokenBucket, one_token, new_bucket, consume, refilled,
}
use custom_network_proxy_ser.RateLimiter.Registry.{RateLimiter, consume_from, get_or_create_bucket}
use custom_network_proxy_ser.RateLimiter.Registry.Pruning.{Fits, IsValid, tokens_at}

-- The tokens that a call leaves of the `n` that it finds.
abbrev pub spend : ℕ → ℕ
spend n = if leb one_token n then n - one_token else n

consume-decision : (b : TokenBucket) (now : ℕ) → (consume b now).1 ≡ leb one_token (refilled b now)
unfolding consume
consume-decision b now = ground arith

refilled-consume :
    (b : TokenBucket) (now t : ℕ)
    → refilled (consume b now).0 t
      ≡ min (b.capacity * one_token) (spend (refilled b now) + (t - now) * b.refill_rate)
refilled-consume b now t = elim (Bool-cases (leb one_token (refilled b now))) [
  | inl rich ↦ unfold consume in rw rich (unfold refilled in refl)
  | inr poor ↦ unfold consume in rw poor (unfold refilled in refl)
]

consumed-tokens :
    (b : TokenBucket) (now t : ℕ) {cap rate n : ℕ}
    → b.capacity ≡ cap
    → b.refill_rate ≡ rate
    → refilled b now ≡ n
    → refilled (consume b now).0 t ≡ min (cap * one_token) (spend n + (t - now) * rate)
consumed-tokens b now t ec er en = cc (refilled-consume b now t)

consumed-Fits :
    {Ip : Type 0} (b : TokenBucket) (now : ℕ) (r r' : RateLimiter Ip) (b' : TokenBucket)
    → Fits r now b
    → r'.capacity ≡ r.capacity
    → r'.refill_rate ≡ r.refill_rate
    → some (consume b now).0 ≡ some b'
    → Fits r' now b'
unfolding consume refilled
consumed-Fits b now r r' b' f ec er e = ground (arith, f.capacity, f.refill_rate)

abbrev pub bucket_or_new : {Ip : Type 0} → RateLimiter Ip → ℕ → Option TokenBucket → TokenBucket
bucket_or_new r created none = new_bucket r.capacity r.refill_rate created
bucket_or_new r created (some b) = b

module _ {Ip : Type 0} (dec : Discrete Ip) where
  -- The bucket that a call works on.
  unfoldable pub bucket_of : ℕ → Ip → RateLimiter Ip → TokenBucket
  bucket_of created ip r = bucket_or_new r created (lookup dec ip r.buckets)

  pub consume_from-bucket :
      (created now : ℕ) (ip : Ip) (r : RateLimiter Ip)
      → (lookup dec ip (consume_from dec created now ip r).0.buckets
          ≡ some (consume (bucket_of created ip r) now).0)
        × ((consume_from dec created now ip r).1 ≡ (consume (bucket_of created ip r) now).1)
        × ((consume_from dec created now ip r).0.capacity ≡ r.capacity)
        × ((consume_from dec created now ip r).0.refill_rate ≡ r.refill_rate)
  unfolding consume_from bucket_of
  consume_from-bucket created now ip r = elim (Option-cases (lookup dec ip r.buckets)) [
    | inl miss ↦ rw (miss, get_or_create_bucket) (lookup-insert_self dec ip _ _, refl, refl, refl)
    | inr (b, held) ↦
        rw (held, get_or_create_bucket) (lookup-insert_self dec ip _ _, refl, refl, refl)
  ]

  pub settings-consume_from :
      (created now : ℕ) (ip : Ip) (r : RateLimiter Ip)
      → ((consume_from dec created now ip r).0.capacity ≡ r.capacity)
        × ((consume_from dec created now ip r).0.refill_rate ≡ r.refill_rate)
  settings-consume_from created now ip r =
      ((consume_from-bucket created now ip r).2, (consume_from-bucket created now ip r).3)

  pub lookup-consume_from_ne :
      (created now : ℕ) (q ip : Ip) (r : RateLimiter Ip)
      → q ≢ ip
      → lookup dec q (consume_from dec created now ip r).0.buckets ≡ lookup dec q r.buckets
  unfolding consume_from
  lookup-consume_from_ne created now q ip r h = elim (Option-cases (lookup dec ip r.buckets)) [
    | inl miss ↦
        rw (miss, get_or_create_bucket)
          (lookup-insert_ne dec q ip _ _ h ∙ lookup-insert_ne dec q ip _ _ h)
    | inr (b, held) ↦ rw (held, get_or_create_bucket) (lookup-insert_ne dec q ip _ _ h)
  ]

  consume_from-Distinct :
      (created now : ℕ) (ip : Ip) (r : RateLimiter Ip)
      → Distinct dec r.buckets
      → Distinct dec (consume_from dec created now ip r).0.buckets
  unfolding consume_from
  consume_from-Distinct created now ip r h = elim (Option-cases (lookup dec ip r.buckets)) [
    | inl miss ↦
        rw (miss, get_or_create_bucket) (insert-Distinct dec ip _ _ (insert-Distinct dec ip _ _ h))
    | inr (b, held) ↦ rw (held, get_or_create_bucket) (insert-Distinct dec ip _ _ h)
  ]

  refilled-bucket_of :
      (created now : ℕ) (ip : Ip) (r : RateLimiter Ip)
      → refilled (bucket_of created ip r) now ≡ tokens_at dec r ip now
  unfolding bucket_of tokens_at refilled new_bucket
  refilled-bucket_of created now ip r = elim (Option-cases (lookup dec ip r.buckets)) [
    | inl miss ↦ rw (miss, get_or_create_bucket) (omega arith)
    | inr (b, held) ↦ rw (held, get_or_create_bucket)
  ]

  -- A call lets the client through exactly if the client has a token at that time.
  pub consume_from-decision :
      (created now : ℕ) (ip : Ip) (r : RateLimiter Ip)
      → (consume_from dec created now ip r).1 ≡ leb one_token (tokens_at dec r ip now)
  consume_from-decision created now ip r =
      (consume_from-bucket created now ip r).1
      ∙ consume-decision (bucket_of created ip r) now
      ∙ ap (leb one_token) (refilled-bucket_of created now ip r)

  -- A call changes the tokens of no other client.
  pub tokens_at-consume_from_ne :
      (created now : ℕ) (q ip : Ip) (r : RateLimiter Ip) (t : ℕ)
      → q ≢ ip
      → tokens_at dec (consume_from dec created now ip r).0 q t ≡ tokens_at dec r q t
  unfolding tokens_at
  tokens_at-consume_from_ne created now q ip r t h =
      rw (lookup-consume_from_ne created now q ip r h, (consume_from-bucket created now ip r).2)

  bucket_of-Fits :
      (created now : ℕ) (ip : Ip) (r : RateLimiter Ip)
      → IsValid dec now r
      → created ≤ now
      → Fits r now (bucket_of created ip r)
  unfolding bucket_of new_bucket
  bucket_of-Fits created now ip r v early = elim (Option-cases (lookup dec ip r.buckets)) [
    | inl miss ↦
        rw miss (record { capacity = refl; refill_rate = refl; within = omega arith; past = early })
    | inr (b, held) ↦ rw held (v.fits ip b held)
  ]

  -- The client itself has what it had, less the token that it spent, and what is refilled later.
  pub tokens_at-consume_from_self :
      (created now : ℕ) (ip : Ip) (r : RateLimiter Ip) (t : ℕ)
      → IsValid dec now r
      → created ≤ now
      → tokens_at dec (consume_from dec created now ip r).0 ip t
        ≡ min (r.capacity * one_token) (spend (tokens_at dec r ip now) + (t - now) * r.refill_rate)
  unfolding tokens_at
  tokens_at-consume_from_self created now ip r t v early =
      let f = bucket_of-Fits created now ip r v early in
      rw (consume_from-bucket created now ip r).0 (
        consumed-tokens (bucket_of created ip r) now t f.capacity f.refill_rate
          (refilled-bucket_of created now ip r))

  pub consume_from-IsValid :
      (created now : ℕ) (ip : Ip) (r : RateLimiter Ip)
      → IsValid dec now r
      → created ≤ now
      → IsValid dec now (consume_from dec created now ip r).0
  consume_from-IsValid created now ip r v early = record {
    distinct = consume_from-Distinct created now ip r v.distinct;
    fits = λ q b e. elim (dec q ip) [
      | yes p ↦
          consumed-Fits (bucket_of created ip r) now r (consume_from dec created now ip r).0 b
            (bucket_of-Fits created now ip r v early) (consume_from-bucket created now ip r).2
            (consume_from-bucket created now ip r).3
            (sym (consume_from-bucket created now ip r).0 ∙ (rw p at e))
      | no p ↦
          let f = v.fits q b (sym (lookup-consume_from_ne created now q ip r p) ∙ e) in
          let (_, _, capacity, rate) = consume_from-bucket created now ip r in
          record {
            capacity = f.capacity ∙ sym capacity;
            refill_rate = f.refill_rate ∙ sym rate;
            within = rw capacity f.within;
            past = f.past;
          }
    ];
  }
