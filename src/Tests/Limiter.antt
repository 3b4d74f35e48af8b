-- ===== src/Tests/Limiter.antt =====
-- The rate limiter of src/rate_limiter.py on concrete calls, at one token a second.
use custom_network_proxy_ser.Base.{
  ℕ, ◌*◌, ◌^◌, ◌≡◌, refl, arith, true, false, some, List, [], ◌∷◌, ℕ_discrete,
}
use custom_network_proxy_ser.Config.{RateLimitConfig}
use custom_network_proxy_ser.Dict.{lookup, insert}
use custom_network_proxy_ser.RateLimiter.Bucket.{
  TokenBucket, new_bucket, one_token, refilled, consume, retry_after, ceil_div,
}
use custom_network_proxy_ser.RateLimiter.Bucket.Window.{serve, consume-retry_after}
use custom_network_proxy_ser.RateLimiter.Registry.{
  RateLimiter, init, maybe_prune, consume_from, get_or_create_bucket,
}
use custom_network_proxy_ser.RateLimiter.Registry.Pruning.{
  tokens_at, tokens_at-maybe_prune, init-IsValid,
}
use custom_network_proxy_ser.RateLimiter.Registry.Pruning
use custom_network_proxy_ser.RateLimiter.Registry.Consume.{consume_from-IsValid}
use custom_network_proxy_ser.RateLimiter.Registry.Runs.{
  Call, decisions, decisions_kept, decisions-init, later-IsValid, pruning_forgets,
}

abbrev second : ℕ
second = 10 ^ 9

-- Two tokens, one a second, last refilled at second 5.
abbrev bucket : TokenBucket
bucket = record {
  capacity = 2;
  refill_rate = 1000;
  tokens = 2 * one_token;
  last_refill = 5 * second;
}

abbrev drained : TokenBucket
drained = record bucket { tokens = 0 }

-- Three of the four requests pass: two at once and one after a second.
allowed_three : (serve bucket (5 * second ∷ 5 * second ∷ 5 * second ∷ 6 * second ∷ [])).1 ≡ 3
unfolding serve consume refilled
allowed_three = refl

wait_one : retry_after drained ≡ some 1
unfolding retry_after ceil_div
wait_one = refl

consume-retry_after_example : (consume drained (6 * second)).1 ≡ true
consume-retry_after_example =
    consume-retry_after drained 1 (6 * second) (omega arith) wait_one (omega arith)

abbrev cfg : RateLimitConfig
cfg = record { enabled = true; capacity = 2; refill_rate = 1000 }

abbrev calls : List (Call ℕ)
calls =
    record { ip = 1; created = 1 * second; now = 1 * second; pruned = 1 * second }
    ∷ record { ip = 1; created = 700 * second; now = 700 * second; pruned = 700 * second }
    ∷ []

decisions-init_example :
    decisions ℕ_discrete cfg calls (init cfg 0) ≡ decisions_kept ℕ_discrete cfg calls (init cfg 0)
decisions-init_example =
    decisions-init ℕ_discrete cfg calls 0
      (omega arith, omega arith, omega arith, (omega arith, omega arith, omega arith, tt))
      (omega arith)

-- A token in 1000 seconds: after 700 seconds an empty bucket is stale but not full.
abbrev slow : RateLimiter ℕ
slow = (consume_from ℕ_discrete 0 0 1 (init (record cfg { capacity = 1; refill_rate = 1 }) 0)).0

slow-IsValid : Pruning.IsValid ℕ_discrete (700 * second) slow
slow-IsValid = later-IsValid ℕ_discrete 0 (700 * second) slow (omega arith) (
    consume_from-IsValid ℕ_discrete 0 0 1 (init (record cfg { capacity = 1; refill_rate = 1 }) 0)
      (init-IsValid ℕ_discrete (record cfg { capacity = 1; refill_rate = 1 }) 0) (omega arith))

pruning_forgets_example :
    ((consume_from ℕ_discrete (700 * second) (700 * second) 1 slow).1 ≡ false)
    × ((consume_from ℕ_discrete (700 * second) (700 * second) 1 (maybe_prune (700 * second) slow)).1
        ≡ true)
unfolding lookup refilled consume_from get_or_create_bucket init insert consume ℕ_discrete
    new_bucket
pruning_forgets_example =
    pruning_forgets ℕ_discrete slow 1
      (record { capacity = 1; refill_rate = 1; tokens = 0; last_refill = 0 }) (700 * second)
      slow-IsValid refl (omega arith) (omega arith) (omega arith) (omega arith)
