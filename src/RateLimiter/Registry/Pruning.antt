-- ===== src/RateLimiter/Registry/Pruning.antt =====
-- Pruning against a registry that keeps every bucket: where a bucket refills within the stale
-- threshold, no client can tell that its bucket was thrown away.
use custom_network_proxy_ser.Base.{
  ℕ, lt→ltb, ◌+◌, ◌-◌, ◌*◌, ◌≤◌, ◌<◌, ◌≡◌, refl, sym, ◌∙◌, ap, inl, inr, true, false, Option, none,
  some, List, [], ◌∷◌, arith, ltb, if◌then◌else◌, Bool-cases, Option-cases,
}
use custom_network_proxy_ser.Config.{RateLimitConfig}
use custom_network_proxy_ser.Dict.{lookup}
use custom_network_proxy_ser.Dict.Laws.{Distinct}
use custom_network_proxy_ser.RateLimiter.Bucket.{TokenBucket, one_token, refilled}
use custom_network_proxy_ser.RateLimiter.Registry.{
  RateLimiter, init, prune_interval, stale_threshold, without_stale, maybe_prune,
}

-- What every bucket of a registry has in common at time `t`.
pub record Fits {Ip : Type 0} (r : RateLimiter Ip) (t : ℕ) (b : TokenBucket) : Type 0 where
  pub capacity : b.capacity ≡ r.capacity
  pub refill_rate : b.refill_rate ≡ r.refill_rate
  pub within : b.tokens ≤ r.capacity * one_token
  pub past : b.last_refill ≤ t

pub record IsValid {Ip : Type 0} (dec : Discrete Ip) (t : ℕ) (r : RateLimiter Ip) : Type 0 where
  pub distinct : Distinct dec r.buckets
  pub fits : (q : Ip) (b : TokenBucket) → lookup dec q r.buckets ≡ some b → Fits r t b

-- The bucket, unless it is stale.
abbrev young : ℕ → Option TokenBucket → Option TokenBucket
young now none = none
young now (some b) = if ltb stale_threshold (now - b.last_refill) then none else some b

young-some :
    (now : ℕ) (o : Option TokenBucket) (b : TokenBucket) → young now o ≡ some b → o ≡ some b
young-some now none b e = e
young-some now (some c) b e = ground arith

abbrev pub tokens_of : ℕ → ℕ → Option TokenBucket → ℕ
tokens_of capacity now none = capacity * one_token
tokens_of capacity now (some b) = refilled b now

module _ {Ip : Type 0} (dec : Discrete Ip) where
  -- The tokens of a client at a time; a client with no bucket has a full one.
  unfoldable pub tokens_at : RateLimiter Ip → Ip → ℕ → ℕ
  tokens_at r ip now = tokens_of r.capacity now (lookup dec ip r.buckets)

  pub lookup-without_stale :
      (now : ℕ) (q : Ip) (d : List (Ip × TokenBucket))
      → Distinct dec d
      → lookup dec q (without_stale now d) ≡ young now (lookup dec q d)
  unfolding lookup without_stale
  lookup-without_stale now q [] h = refl
  lookup-without_stale now q ((j, b) ∷ d) (fresh, h) = elim (dec q j) [
    | yes p ↦
        let missing : lookup dec q d ≡ none = rw p fresh in
        ground (arith, lookup-without_stale now q d h)
    | no p ↦ ground (arith, lookup-without_stale now q d h)
  ]

  without_stale-Distinct :
      (now : ℕ) (d : List (Ip × TokenBucket)) → Distinct dec d → Distinct dec (without_stale now d)
  unfolding without_stale
  without_stale-Distinct now [] h = tt
  without_stale-Distinct now ((j, b) ∷ d) (fresh, h) =
      elim (Bool-cases (ltb stale_threshold (now - b.last_refill))) [
        | inl old ↦ rw old (without_stale-Distinct now d h)
        | inr young ↦
            rw young ((rw (lookup-without_stale now j d h, fresh)), without_stale-Distinct now d h)
      ]

  -- A bucket as old as the threshold is full again, if the rate is not too slow.
  full_again :
      (r : RateLimiter Ip) (t now : ℕ) (b : TokenBucket)
      → Fits r t b
      → r.capacity * one_token ≤ stale_threshold * r.refill_rate
      → stale_threshold ≤ now - b.last_refill
      → refilled b now ≡ r.capacity * one_token
  unfolding refilled
  full_again r t now b f slow old =
      let e : now - b.last_refill ≡ stale_threshold + (now - b.last_refill - stale_threshold) =
        omega arith in
      rw (f.capacity, f.refill_rate) (omega (arith, ap (λ (t : ℕ). t * r.refill_rate) e))

  pub settings-maybe_prune :
      (now : ℕ) (r : RateLimiter Ip)
      → ((maybe_prune now r).capacity ≡ r.capacity)
        × ((maybe_prune now r).refill_rate ≡ r.refill_rate)
  unfolding maybe_prune
  settings-maybe_prune now r = ground arith

  -- Pruning is invisible to every client, from then on.
  pub tokens_at-maybe_prune :
      (r : RateLimiter Ip) (pruned : ℕ)
      → IsValid dec pruned r
      → r.capacity * one_token ≤ stale_threshold * r.refill_rate
      → (q : Ip) (t : ℕ) → pruned ≤ t
      → tokens_at (maybe_prune pruned r) q t ≡ tokens_at r q t
  unfolding tokens_at maybe_prune
  tokens_at-maybe_prune r pruned v slow q t later =
      elim (Bool-cases (ltb (pruned - r.last_prune) prune_interval)) [
        | inl soon ↦ rw soon
        | inr due ↦ elim (Option-cases (lookup dec q r.buckets)) [
          | inl miss ↦ rw (due, lookup-without_stale pruned q r.buckets v.distinct, miss)
          | inr (b, held) ↦ elim (Bool-cases (ltb stale_threshold (pruned - b.last_refill))) [
            | inr new ↦ rw (due, lookup-without_stale pruned q r.buckets v.distinct, held, new)
            | inl old ↦
                let f = v.fits q b held in
                rw (due, lookup-without_stale pruned q r.buckets v.distinct, held, old)
                  (sym (full_again r pruned t b f slow (ground arith)))
          ]
        ]
      ]

  pub maybe_prune-IsValid :
      (r : RateLimiter Ip) (t pruned : ℕ) → IsValid dec t r → IsValid dec t (maybe_prune pruned r)
  unfolding maybe_prune
  maybe_prune-IsValid r t pruned v =
      elim (Bool-cases (ltb (pruned - r.last_prune) prune_interval)) [
        | inl soon ↦ rw soon v
        | inr due ↦ rw due (record {
          distinct = without_stale-Distinct pruned r.buckets v.distinct;
          fits = λ q b e.
              let f = v.fits q b (
                young-some pruned (lookup dec q r.buckets) b
                  (sym (lookup-without_stale pruned q r.buckets v.distinct) ∙ e)) in
              record {
                capacity = f.capacity;
                refill_rate = f.refill_rate;
                within = f.within;
                past = f.past;
              };
        })
      ]

  pub tokens_at_held :
      (r : RateLimiter Ip) (ip : Ip) (b : TokenBucket) (t : ℕ)
      → lookup dec ip r.buckets ≡ some b
      → tokens_at r ip t ≡ refilled b t
  unfolding tokens_at
  tokens_at_held r ip b t held = rw held

  -- A stale bucket that is pruned becomes a full one.
  pub tokens_at_pruned :
      (r : RateLimiter Ip) (ip : Ip) (b : TokenBucket) (now : ℕ)
      → IsValid dec now r
      → lookup dec ip r.buckets ≡ some b
      → stale_threshold < now - b.last_refill
      → prune_interval ≤ now - r.last_prune
      → tokens_at (maybe_prune now r) ip now ≡ r.capacity * one_token
  unfolding tokens_at maybe_prune
  tokens_at_pruned r ip b now v held stale due =
      let overdue : ltb (now - r.last_prune) prune_interval ≡ false = ground arith in
      let old : ltb stale_threshold (now - b.last_refill) ≡ true = lt→ltb _ _ stale in
      rw (overdue, lookup-without_stale now ip r.buckets v.distinct, held, old)

pub init-IsValid :
    {Ip : Type 0} (dec : Discrete Ip) (cfg : RateLimitConfig) (start : ℕ)
    → IsValid dec start (init cfg start)
unfolding init lookup
init-IsValid dec cfg start = record { distinct = tt; fits = λ q b e. absurd (cc) }
