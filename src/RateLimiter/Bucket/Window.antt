-- ===== src/RateLimiter/Bucket/Window.antt =====
-- The guarantee of a token bucket: in any window of time, no more requests pass than the capacity
-- and what was refilled meanwhile.
use native.Mathlib.Nat.{mod-lt, div-add-mod}
use custom_network_proxy_ser.Base.{
  ℕ, ◌↔◌, ap, ◌+◌, ◌-◌, ◌*◌, ◌^◌, ◌≤◌, ◌<◌, ◌≡◌, Bool, true, some, List, [], ◌∷◌, arith, leb, ◌==◌,
  if◌then◌else◌, Bool-cases, inl, inr,
}
use custom_network_proxy_ser.RateLimiter.Bucket.{
  TokenBucket, one_token, refilled, consume, new_bucket, retry_after, ceil_div,
}

-- The bucket after requests at the given times, and how many of them were allowed.
unfoldable pub serve : TokenBucket → List ℕ → TokenBucket × ℕ
serve b [] = (b, 0)
serve b (t ∷ ts) =
    let (b', ok) = consume b t in let (b'', n) = serve b' ts in (b'', if ok then n + 1 else n)

-- The times of a run, which never go back, from `start` to `end`.
abbrev pub Ordered : ℕ → List ℕ → ℕ → Type 0
Ordered start [] end = start ≤ end
Ordered start (t ∷ ts) end = (start ≤ t) × Ordered t ts end

pub record IsValid (b : TokenBucket) : Type 0 where
  pub within : b.tokens ≤ b.capacity * one_token

pub new_bucket-IsValid : (capacity rate now : ℕ) → IsValid (new_bucket capacity rate now)
unfolding new_bucket
new_bucket-IsValid capacity rate now = omega arith

pub consume-IsValid : (b : TokenBucket) (now : ℕ) → IsValid (consume b now).0
unfolding consume refilled
consume-IsValid b now = ground arith

abbrev pub paid : Bool → ℕ
paid b = if b then one_token else 0

count :
    (ok : Bool) (n rest left own : ℕ)
    → n * one_token ≤ rest + left
    → paid ok + rest + left ≤ own
    → (if ok then n + 1 else n) * one_token ≤ own
count ok n rest left own p q = ground arith

-- A call that takes a token takes exactly one, and a refused one none; nothing else changes but
-- the refill that both record.
pub consume_iff :
    (b : TokenBucket) (now : ℕ)
    → (((consume b now).1 ≡ true) ↔ (one_token ≤ refilled b now))
      × (paid (consume b now).1 + (consume b now).0.tokens ≡ refilled b now)
unfolding consume
consume_iff b now = (((λ h. ground arith), (λ h. ground arith)), ground arith)

eq_of_some : (a b : ℕ) → some a ≡ some b → a ≡ b
eq_of_some a b h = ground arith

ceil-ge : (d y : ℕ) → 0 < y → d ≤ ceil_div d y * y
unfolding ceil_div
ceil-ge d y h = grind (arith, div-add-mod, mod-lt)

ceil_enough :
    (b : TokenBucket) (s : ℕ)
    → retry_after b ≡ some s
    → one_token ≤ b.tokens + (s * 10 ^ 9) * b.refill_rate
unfolding retry_after
ceil_enough b s h = elim (Bool-cases (leb one_token b.tokens)) [
  | inl full ↦ ground arith
  | inr short ↦ elim (Bool-cases (b.refill_rate == 0)) [
    | inl still ↦ absurd (cc (rw (short, still) at h))
    | inr moving ↦
        rw (← eq_of_some _ s (rw (short, moving) at h))
          (omega (arith, ceil-ge (one_token - b.tokens) (b.refill_rate * 10 ^ 9) (ground arith)))
  ]
]

refilled_enough :
    (b : TokenBucket) (s now : ℕ)
    → 0 < b.capacity
    → one_token ≤ b.tokens + (s * 10 ^ 9) * b.refill_rate
    → b.last_refill + s * 10 ^ 9 ≤ now
    → one_token ≤ refilled b now
unfolding refilled
refilled_enough b s now pos h waited =
    let e : (now - b.last_refill) ≡ s * 10 ^ 9 + (now - b.last_refill - s * 10 ^ 9) = omega arith in
    omega (arith, ap (λ (t : ℕ). t * b.refill_rate) e)

-- A client that waits the announced number of seconds is allowed, whatever the rate, if the
-- capacity is at least one token.
pub consume-retry_after :
    (b : TokenBucket) (s now : ℕ)
    → 0 < b.capacity
    → retry_after b ≡ some s
    → b.last_refill + s * 10 ^ 9 ≤ now
    → (consume b now).1 ≡ true
consume-retry_after b s now pos h waited =
    (consume_iff b now).0.1 (refilled_enough b s now pos (ceil_enough b s h) waited)
