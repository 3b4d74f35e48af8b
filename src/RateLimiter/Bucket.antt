-- ===== src/RateLimiter/Bucket.antt =====
-- `TokenBucket` of src/rate_limiter.py. Time is in nanoseconds and rates are in thousandths of a
-- token a second, so that tokens, counted in units of 10^-12, are whole numbers; the rounding of
-- floats is not modelled. A bucket's lock makes each method one step.
pub mod Window
use custom_network_proxy_ser.Base.{
  ℕ, zero, ◌+◌, ◌-◌, ◌*◌, ◌/◌, ◌^◌, Bool, true, false, Option, none, some, min, ltb, leb, ◌==◌,
  if◌then◌else◌,
}

-- One token.
abbrev pub one_token : ℕ
one_token = 10 ^ 12

pub record TokenBucket : Type 0 where
  pub capacity : ℕ
  pub refill_rate : ℕ
  pub tokens : ℕ
  pub last_refill : ℕ

-- `__init__`: a bucket starts full
unfoldable pub new_bucket : ℕ → ℕ → ℕ → TokenBucket
new_bucket capacity refill_rate now = record {
  capacity = capacity;
  refill_rate = refill_rate;
  tokens = capacity * one_token;
  last_refill = now;
}

-- `min(capacity, tokens + elapsed * refill_rate)`
unfoldable pub refilled : TokenBucket → ℕ → ℕ
refilled b now = min (b.capacity * one_token) (b.tokens + (now - b.last_refill) * b.refill_rate)

unfoldable pub consume : TokenBucket → ℕ → TokenBucket × Bool
consume b now =
    let t = refilled b now in
    if leb one_token t
    then (record b { tokens = t - one_token; last_refill = now }, true)
    else (record b { tokens = t; last_refill = now }, false)

-- `int(current)`
unfoldable pub remaining : TokenBucket → ℕ → ℕ
remaining b now = refilled b now / one_token

-- `math.ceil(d / y)`
unfoldable pub ceil_div : ℕ → ℕ → ℕ
ceil_div d y = (d + (y - 1)) / y

-- `math.ceil(deficit / refill_rate)` in seconds; `none` is the division by zero, which raises
unfoldable pub retry_after : TokenBucket → Option ℕ
retry_after b =
    if leb one_token b.tokens
    then some 0
    else if b.refill_rate == 0
    then none
    else some (ceil_div (one_token - b.tokens) (b.refill_rate * 10 ^ 9))
