-- ===== src/RateLimiter/Registry.antt =====
-- `RateLimiter` of src/rate_limiter.py: the registry of buckets by client address. The methods are
-- modelled as one step each; `now` is the clock at the call, and the three readings of the clock
-- in `is_allowed` are its three arguments.
pub mod Pruning
pub mod Consume
pub mod Runs
use custom_network_proxy_ser.Base.{
  ℕ, ◌+◌, ◌-◌, ◌*◌, Bool, true, false, Option, none, some, List, [], ◌∷◌, arith, ltb, if◌then◌else◌,
  ite, length,
}
use custom_network_proxy_ser.Config.{RateLimitConfig}
use custom_network_proxy_ser.Dict.{lookup, insert}
use custom_network_proxy_ser.RateLimiter.Bucket.{
  TokenBucket, new_bucket, consume, remaining, retry_after,
}

-- `_STALE_THRESHOLD` and the interval of the checks, in nanoseconds.
abbrev pub stale_threshold : ℕ
stale_threshold = 600 * 1_000_000_000

abbrev pub prune_interval : ℕ
prune_interval = 60 * 1_000_000_000

pub record RateLimiter (Ip : Type 0) : Type 0 where
  pub capacity : ℕ
  pub refill_rate : ℕ
  pub buckets : List (Ip × TokenBucket)
  pub last_prune : ℕ

unfoldable pub init : {Ip : Type 0} → RateLimitConfig → ℕ → RateLimiter Ip
init cfg now = record {
  capacity = cfg.capacity;
  refill_rate = cfg.refill_rate;
  buckets = [];
  last_prune = now;
}

-- the buckets that are not stale, for `for ip in stale_ips: del self._buckets[ip]`
unfoldable pub without_stale : {Ip : Type 0} → ℕ → List (Ip × TokenBucket) → List (Ip × TokenBucket)
without_stale now [] = []
without_stale now ((ip, b) ∷ d) =
    let rest = without_stale now d in
    if ltb stale_threshold (now - b.last_refill) then rest else (ip, b) ∷ rest

unfoldable pub maybe_prune : {Ip : Type 0} → ℕ → RateLimiter Ip → RateLimiter Ip
maybe_prune now r =
    if ltb (now - r.last_prune) prune_interval
    then r
    else record r { buckets = without_stale now r.buckets; last_prune = now }

module _ {Ip : Type 0} (dec : Discrete Ip) where
  unfoldable pub get_or_create_bucket : ℕ → Ip → RateLimiter Ip → RateLimiter Ip × TokenBucket
  get_or_create_bucket now ip r = elim (lookup dec ip r.buckets) [
    | some b ↦ (r, b)
    | none ↦
        let b = new_bucket r.capacity r.refill_rate now in
        (record r { buckets = insert dec ip b r.buckets }, b)
  ]

  -- `bucket.consume()` writes to the bucket that the registry holds
  unfoldable pub consume_from : ℕ → ℕ → Ip → RateLimiter Ip → RateLimiter Ip × Bool
  unfolding get_or_create_bucket
  consume_from created now ip r =
      let (r', b) = get_or_create_bucket created ip r in
      let (b', allowed) = consume b now in
      (record r' { buckets = insert dec ip b' r'.buckets }, allowed)

  unfoldable pub is_allowed :
      RateLimitConfig → ℕ → ℕ → ℕ → Ip → RateLimiter Ip → RateLimiter Ip × Bool
  is_allowed cfg created now pruned ip r =
      if cfg.enabled
      then (let (r', allowed) = consume_from created now ip r in (maybe_prune pruned r', allowed))
      else (r, true)

  unfoldable pub get_retry_after : Ip → RateLimiter Ip → Option ℕ
  get_retry_after ip r = elim (lookup dec ip r.buckets) [ some b ↦ retry_after b | none ↦ some 1 ]

  unfoldable pub get_remaining : ℕ → Ip → RateLimiter Ip → ℕ
  get_remaining now ip r = elim (lookup dec ip r.buckets) [
    | some b ↦ remaining b now
    | none ↦ r.capacity
  ]
