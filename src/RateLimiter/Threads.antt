-- ===== src/RateLimiter/Threads.antt =====
-- `is_allowed` of src/rate_limiter.py by several threads: the lookup of the bucket runs under the
-- lock of the registry, the consume under that of the bucket, and the pruning under that of the
-- registry again, so other threads can come between them. Buckets are objects with an identity.
pub mod Matching
pub mod Serial
use custom_network_proxy_ser.Base.{
  ℕ, ◌+◌, ◌-◌, Bool, true, false, Option, none, some, List, [], ◌∷◌, ◌++◌, ltb, if◌then◌else◌,
  ℕ_discrete,
}
use custom_network_proxy_ser.Dict.{lookup, erase, insert}
use custom_network_proxy_ser.RateLimiter.Bucket.{TokenBucket, new_bucket, consume}
use custom_network_proxy_ser.RateLimiter.Registry.{prune_interval, stale_threshold}

-- `held` is `_buckets`, by the identities of the objects; `waiting` has, for each thread between
-- its lookup and its consume, the client and the object that it has in hand.
pub record Threads (Ip : Type 0) : Type 0 where
  pub capacity : ℕ
  pub refill_rate : ℕ
  pub held : List (Ip × ℕ)
  pub objects : List (ℕ × TokenBucket)
  pub fresh : ℕ
  pub waiting : List (ℕ × (Ip × ℕ))
  pub last_prune : ℕ

-- A thread and, where the step reads it, the clock.
pub data Event (Ip : Type 0) : Type 0 where
  looks : ℕ → Ip → ℕ → Event Ip
  consumes : ℕ → ℕ → Event Ip
  prunes : ℕ → Event Ip

abbrev pub object_of : {Ip : Type 0} → Threads Ip → ℕ → Option TokenBucket
object_of s id = lookup ℕ_discrete id s.objects

-- A decision: the client, the clock of its consume, and whether it is allowed.
abbrev pub Decision : Type 0 → Type 0
Decision Ip = (Ip × ℕ) × Bool

-- The consume on the object in hand, whether the registry still has it or not.
abbrev pub consume_object :
    {Ip : Type 0}
    → ℕ
    → ℕ
    → Ip
    → ℕ
    → Option TokenBucket
    → Threads Ip
    → Threads Ip × List (Decision Ip)
consume_object thread now ip id none s = (s, [])
consume_object thread now ip id (some b) s =
    let (b', allowed) = consume b now in
    (
      record s {
        objects = insert ℕ_discrete id b' s.objects;
        waiting = erase ℕ_discrete thread s.waiting;
      },
      ((ip, now), allowed) ∷ [],
    )

abbrev pub consume_step :
    {Ip : Type 0} → ℕ → ℕ → Option (Ip × ℕ) → Threads Ip → Threads Ip × List (Decision Ip)
consume_step thread now none s = (s, [])
consume_step thread now (some (ip, id)) s = consume_object thread now ip id (object_of s id) s

abbrev is_stale : ℕ → Option TokenBucket → Bool
is_stale now none = false
is_stale now (some b) = ltb stale_threshold (now - b.last_refill)

-- `_maybe_prune`: the registry forgets the objects that are stale.
abbrev kept : {Ip : Type 0} → ℕ → List (ℕ × TokenBucket) → List (Ip × ℕ) → List (Ip × ℕ)
kept now objects [] = []
kept now objects ((ip, id) ∷ held) =
    let rest = kept now objects held in
    if is_stale now (lookup ℕ_discrete id objects) then rest else (ip, id) ∷ rest

unfoldable pub prune_step : {Ip : Type 0} → ℕ → Threads Ip → Threads Ip
prune_step now s =
    if ltb (now - s.last_prune) prune_interval
    then s
    else record s { held = kept now s.objects s.held; last_prune = now }

module _ {Ip : Type 0} (dec : Discrete Ip) where
  -- `_get_or_create_bucket`, on what the registry has for the client
  abbrev pub look_step : ℕ → Ip → ℕ → Option ℕ → Threads Ip → Threads Ip
  look_step thread ip now (some id) s = record s {
    waiting = insert ℕ_discrete thread (ip, id) s.waiting;
  }
  look_step thread ip now none s = record s {
    held = insert dec ip s.fresh s.held;
    objects = insert ℕ_discrete s.fresh (new_bucket s.capacity s.refill_rate now) s.objects;
    fresh = s.fresh + 1;
    waiting = insert ℕ_discrete thread (ip, s.fresh) s.waiting;
  }

  unfoldable pub step : Event Ip → Threads Ip → Threads Ip × List (Decision Ip)
  unfolding prune_step
  step (looks thread ip now) s = (look_step thread ip now (lookup dec ip s.held) s, [])
  step (consumes thread now) s = consume_step thread now (lookup ℕ_discrete thread s.waiting) s
  step (prunes now) s = (prune_step now s, [])

  -- The decisions of a run, in the order of the consumes.
  unfoldable pub decided : List (Event Ip) → Threads Ip → List (Decision Ip)
  unfolding step
  decided [] s = []
  decided (e ∷ es) s = let (t, now_decided) = step e s in now_decided ++ decided es t
