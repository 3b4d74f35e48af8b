-- ===== src/RateLimiter/Registry/Runs.antt =====
-- Runs of the limiter, with pruning and without.
use custom_network_proxy_ser.Base.{
  ℕ, ◌-◌, ◌*◌, ◌≤◌, ◌<◌, ◌≡◌, refl, sym, ◌∙◌, ap, inl, inr, Bool, true, false, some, List, [], ◌∷◌,
  arith, leb, if◌then◌else◌, Bool-cases,
}
use custom_network_proxy_ser.Config.{RateLimitConfig}
use custom_network_proxy_ser.Dict.{lookup}
use custom_network_proxy_ser.RateLimiter.Bucket.{TokenBucket, one_token, refilled}
use custom_network_proxy_ser.RateLimiter.Registry.{
  prune_interval, RateLimiter, init, is_allowed, consume_from, maybe_prune, stale_threshold,
}
use custom_network_proxy_ser.RateLimiter.Registry.Pruning.{
  init-IsValid, tokens_at_held, tokens_at_pruned, IsValid, tokens_at, tokens_at-maybe_prune,
  maybe_prune-IsValid, settings-maybe_prune,
}
use custom_network_proxy_ser.RateLimiter.Registry.Consume.{
  settings-consume_from, consume_from-decision, tokens_at-consume_from_ne,
  tokens_at-consume_from_self, consume_from-IsValid,
}

-- A call of `is_allowed`, with the three times at which it reads the clock.
pub record Call (Ip : Type 0) : Type 0 where
  pub ip : Ip
  pub created : ℕ
  pub now : ℕ
  pub pruned : ℕ

-- The clock never goes back, within a call and from one call to the next.
abbrev pub Ordered : {Ip : Type 0} → ℕ → List (Call Ip) → Type 0
Ordered t [] = Unit
Ordered t (c ∷ cs) =
    (t ≤ c.created) × (c.created ≤ c.now) × (c.now ≤ c.pruned) × Ordered c.pruned cs

module _ {Ip : Type 0} (dec : Discrete Ip) where
  module _ (cfg : RateLimitConfig) where
    -- The decisions of the limiter.
    unfoldable pub decisions : List (Call Ip) → RateLimiter Ip → List Bool
    decisions [] r = []
    decisions (c ∷ cs) r =
        let (r', ok) = is_allowed dec cfg c.created c.now c.pruned c.ip r in ok ∷ decisions cs r'

    -- The decisions of a limiter that never throws a bucket away.
    unfoldable pub decisions_kept : List (Call Ip) → RateLimiter Ip → List Bool
    decisions_kept [] r = []
    decisions_kept (c ∷ cs) r =
        let (r', ok) = if cfg.enabled then consume_from dec c.created c.now c.ip r else (r, true) in
        ok ∷ decisions_kept cs r'

  -- Two registries that no client can tell apart from time `t` on.
  record Same (t : ℕ) (r s : RateLimiter Ip) : Type 0 where
    valid : IsValid dec t r
    valid_kept : IsValid dec t s
    capacity : r.capacity ≡ s.capacity
    refill_rate : r.refill_rate ≡ s.refill_rate
    tokens : (q : Ip) (u : ℕ) → t ≤ u → tokens_at dec r q u ≡ tokens_at dec s q u

  pub later-IsValid : (t u : ℕ) (r : RateLimiter Ip) → t ≤ u → IsValid dec t r → IsValid dec u r
  later-IsValid t u r h v = record {
    distinct = v.distinct;
    fits = λ q b e.
        let f = v.fits q b e in
        record {
          capacity = f.capacity;
          refill_rate = f.refill_rate;
          within = f.within;
          past = omega arith;
        };
  }

  later-Same : (t u : ℕ) (r s : RateLimiter Ip) → t ≤ u → Same t r s → Same u r s
  later-Same t u r s h m = record {
    valid = later-IsValid t u r h m.valid;
    valid_kept = later-IsValid t u s h m.valid_kept;
    capacity = m.capacity;
    refill_rate = m.refill_rate;
    tokens = λ q w k. m.tokens q w (omega arith);
  }

  -- A call leaves registries that cannot be told apart, and decides alike.
  consume_from-Same :
      (created now : ℕ) (ip : Ip) (r s : RateLimiter Ip)
      → Same now r s
      → created ≤ now
      → Same now (consume_from dec created now ip r).0 (consume_from dec created now ip s).0
  consume_from-Same created now ip r s m early = record {
    valid = consume_from-IsValid dec created now ip r m.valid early;
    valid_kept = consume_from-IsValid dec created now ip s m.valid_kept early;
    capacity =
        (settings-consume_from dec created now ip r).0
        ∙ m.capacity
        ∙ sym (settings-consume_from dec created now ip s).0;
    refill_rate =
        (settings-consume_from dec created now ip r).1
        ∙ m.refill_rate
        ∙ sym (settings-consume_from dec created now ip s).1;
    tokens = λ q u k. elim (dec q ip) [
      | yes p ↦ rw p (
          tokens_at-consume_from_self dec created now ip r u m.valid early
          ∙ cc (m.tokens ip now (omega arith), m.capacity, m.refill_rate)
          ∙ sym (tokens_at-consume_from_self dec created now ip s u m.valid_kept early))
      | no p ↦
          tokens_at-consume_from_ne dec created now q ip r u p
          ∙ m.tokens q u k
          ∙ sym (tokens_at-consume_from_ne dec created now q ip s u p)
    ];
  }

  maybe_prune-Same :
      (pruned : ℕ) (r s : RateLimiter Ip)
      → Same pruned r s
      → r.capacity * one_token ≤ stale_threshold * r.refill_rate
      → Same pruned (maybe_prune pruned r) s
  maybe_prune-Same pruned r s m fast = record {
    valid = maybe_prune-IsValid dec r pruned pruned m.valid;
    valid_kept = m.valid_kept;
    capacity = (settings-maybe_prune dec pruned r).0 ∙ m.capacity;
    refill_rate = (settings-maybe_prune dec pruned r).1 ∙ m.refill_rate;
    tokens = λ q u k. tokens_at-maybe_prune dec r pruned m.valid fast q u k ∙ m.tokens q u k;
  }

  -- What holds after a call: the decisions agree, and so does what every client finds later.
  step-Same :
      (c : Call Ip) (r s : RateLimiter Ip) (t : ℕ)
      → Same t r s
      → t ≤ c.created
      → c.created ≤ c.now
      → c.now ≤ c.pruned
      → r.capacity * one_token ≤ stale_threshold * r.refill_rate
      → ((consume_from dec c.created c.now c.ip r).1 ≡ (consume_from dec c.created c.now c.ip s).1)
        × Same c.pruned
            (maybe_prune c.pruned (consume_from dec c.created c.now c.ip r).0)
            (consume_from dec c.created c.now c.ip s).0
  step-Same c r s t m h1 h2 h3 fast =
      let m' = later-Same t c.now r s (omega arith) m in
      (
        consume_from-decision dec c.created c.now c.ip r
            ∙ ap (leb one_token) (m'.tokens c.ip c.now (omega arith))
            ∙ sym (consume_from-decision dec c.created c.now c.ip s),
        maybe_prune-Same c.pruned _ _
            (later-Same c.now c.pruned _ _ h3 (consume_from-Same c.created c.now c.ip r s m' h2))
            (let (capacity, rate) = settings-consume_from dec c.created c.now c.ip r in
              rw (capacity, rate) fast),
      )

  module _ (cfg : RateLimitConfig) where
    decisions-Same :
        (calls : List (Call Ip)) (r s : RateLimiter Ip) (t : ℕ)
        → Same t r s
        → Ordered t calls
        → r.capacity * one_token ≤ stale_threshold * r.refill_rate
        → decisions cfg calls r ≡ decisions_kept cfg calls s
    unfolding decisions decisions_kept is_allowed
    decisions-Same [] r s t m o fast = refl
    decisions-Same (c ∷ cs) r s t m (h1, h2, h3, o) fast = elim (Bool-cases cfg.enabled) [
      | inr off ↦ rw off (
          ap (◌∷◌ true)
            (decisions-Same cs r s c.pruned (later-Same t c.pruned r s (omega arith) m) o fast))
      | inl on ↦
          let (alike, after) = step-Same c r s t m h1 h2 h3 fast in
          let (capacity, rate) = settings-consume_from dec c.created c.now c.ip r in
          let (capacity', rate') =
            settings-maybe_prune dec c.pruned (consume_from dec c.created c.now c.ip r).0 in
          rw (on, alike)
            (ap (◌∷◌ (consume_from dec c.created c.now c.ip s).1)
              (decisions-Same cs _ _ c.pruned after o (rw (capacity', rate', capacity, rate) fast)))
    ]

    -- Where an empty bucket refills within the stale threshold (`capacity <= 600 * refill_rate`),
    -- a limiter that prunes makes, on every run in which the clock never goes back, the same
    -- decisions as one that keeps every bucket.
    pub decisions-init :
        (calls : List (Call Ip)) (start : ℕ)
        → Ordered start calls
        → cfg.capacity * one_token ≤ stale_threshold * cfg.refill_rate
        → decisions cfg calls (init cfg start) ≡ decisions_kept cfg calls (init cfg start)
    decisions-init calls start o fast =
        decisions-Same calls (init cfg start) (init cfg start) start
          (record {
            valid = init-IsValid dec cfg start;
            valid_kept = init-IsValid dec cfg start;
            capacity = refl;
            refill_rate = refl;
            tokens = λ q u k. refl;
          })
          o (unfold init in fast)

  -- Otherwise pruning can forget a debt: a client with less than one token, whose bucket is stale
  -- when a check is due, is refused without the pruning and let through after it.
  pub pruning_forgets :
      (r : RateLimiter Ip) (ip : Ip) (b : TokenBucket) (now : ℕ)
      → IsValid dec now r
      → lookup dec ip r.buckets ≡ some b
      → refilled b now < one_token
      → stale_threshold < now - b.last_refill
      → prune_interval ≤ now - r.last_prune
      → 0 < r.capacity
      → ((consume_from dec now now ip r).1 ≡ false)
        × ((consume_from dec now now ip (maybe_prune now r)).1 ≡ true)
  pruning_forgets r ip b now v held poor stale due pos = (
    rw (consume_from-decision, tokens_at_held dec r ip b now held) (ground arith),
    rw (consume_from-decision, tokens_at_pruned dec r ip b now v held stale due) (ground arith),
  )
