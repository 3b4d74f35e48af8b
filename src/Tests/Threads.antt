-- ===== src/Tests/Threads.antt =====
-- Two threads of src/rate_limiter.py on one client.
use custom_network_proxy_ser.Base.{
  ℕ, ◌*◌, ◌≡◌, refl, true, false, List, [], ◌∷◌, map, ℕ_discrete, Bool,
}
use custom_network_proxy_ser.Dict.{lookup, insert, erase}
use custom_network_proxy_ser.RateLimiter.Bucket.{new_bucket, refilled, consume}
use custom_network_proxy_ser.RateLimiter.Registry.{consume_from, get_or_create_bucket}
use custom_network_proxy_ser.RateLimiter.Threads.{Event, looks, consumes, prunes, decided, Decision}
use custom_network_proxy_ser.RateLimiter.Threads.Serial.{
  serial, begun, empty_limiter, decided-serial,
}

abbrev second : ℕ
second = 1_000_000_000

-- Both look the bucket up before one of them consumes.
abbrev crossed : List (Event ℕ)
crossed = looks 1 9 0 ∷ looks 2 9 0 ∷ consumes 2 (1 * second) ∷ consumes 1 (1 * second) ∷ []

abbrev allowed_of : List (Decision ℕ) → List Bool
allowed_of ds = map (λ (d : Decision ℕ). d.1) ds

decided-serial_example :
    map (λ (d : Decision ℕ). d.1) (decided ℕ_discrete crossed (begun ℕ_discrete 1 1 0))
    ≡ serial ℕ_discrete
        (map (λ (d : Decision ℕ). d.0) (decided ℕ_discrete crossed (begun ℕ_discrete 1 1 0)))
        (empty_limiter ℕ_discrete 1 1 0)
decided-serial_example = decided-serial ℕ_discrete crossed 1 1 0 (tt, (tt, (tt, (tt, tt))))

crossed-decided :
    allowed_of (decided ℕ_discrete crossed (begun ℕ_discrete 1 1 0)) ≡ true ∷ false ∷ []
unfolding decided consume refilled new_bucket lookup insert erase ℕ_discrete
crossed-decided = refl

-- A bucket that is pruned between a lookup and a consume lets one more request through: the token
-- is taken from an object that the registry has forgotten.
abbrev raced : List (Event ℕ)
raced =
    looks 1 9 0
    ∷ consumes 1 0
    ∷ looks 1 9 (700 * second)
    ∷ prunes (700 * second)
    ∷ consumes 1 (700 * second)
    ∷ looks 2 9 (700 * second)
    ∷ consumes 2 (700 * second)
    ∷ []

raced-decided :
    allowed_of (decided ℕ_discrete raced (begun ℕ_discrete 1 1000 0)) ≡ true ∷ true ∷ true ∷ []
unfolding decided consume refilled new_bucket lookup insert erase ℕ_discrete
raced-decided = refl

raced_serial :
    serial ℕ_discrete
      ((9, 0) ∷ (9, 700 * second) ∷ (9, 700 * second) ∷ [])
      (empty_limiter ℕ_discrete 1 1000 0)
    ≡ true ∷ true ∷ false ∷ []
unfolding serial consume_from get_or_create_bucket consume refilled new_bucket lookup insert
    ℕ_discrete
raced_serial = refl
