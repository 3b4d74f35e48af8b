-- ===== src/RateLimiter/Threads/Matching.antt =====
-- The buckets of the threads against those of a registry of serial calls; lookups keep them alike.
use custom_network_proxy_ser.Base.{
  ℕ, ◌+◌, ◌-◌, ◌*◌, ◌^◌, ◌<◌, ◌≡◌, ◌≢◌, refl, sym, ap, ◌∙◌, arith, Option, none, some, ℕ_discrete,
  min, inl, inr,
}
use custom_network_proxy_ser.Dict.{lookup, insert}
use custom_network_proxy_ser.Dict.Laws.{
  Distinct, lookup-insert_self, lookup-insert_ne, lookup-insert_inv, lookup-insert-none,
  insert-Distinct,
}
use custom_network_proxy_ser.RateLimiter.Bucket.{TokenBucket, new_bucket, refilled, consume}
use custom_network_proxy_ser.RateLimiter.Registry.{RateLimiter}
use custom_network_proxy_ser.RateLimiter.Registry.Consume.{bucket_of, bucket_or_new}
use custom_network_proxy_ser.RateLimiter.Threads.{Threads, object_of, look_step}

-- A full bucket is spent in the same way whenever it was made.
consume-new_bucket :
    (capacity rate s t now : ℕ)
    → consume (new_bucket capacity rate s) now ≡ consume (new_bucket capacity rate t) now
unfolding consume new_bucket refilled
consume-new_bucket capacity rate s t now =
    let e : min (capacity * 10 ^ 12) (capacity * 10 ^ 12 + (now - s) * rate) ≡ capacity * 10 ^ 12 =
      omega arith in
    let f : min (capacity * 10 ^ 12) (capacity * 10 ^ 12 + (now - t) * rate) ≡ capacity * 10 ^ 12 =
      omega arith in
    rw (e, f) refl

-- The bucket of a client in a registry of serial calls, or a full one that was made at some time.
abbrev pub Matches : ℕ → ℕ → Option TokenBucket → TokenBucket → Type 0
Matches capacity rate none b = (made : ℕ) × (b ≡ new_bucket capacity rate made)
Matches capacity rate (some c) b = b ≡ c

module _ {Ip : Type 0} (dec : Discrete Ip) where
  -- The objects of the threads are the buckets of a registry of serial calls.
  pub record IsSerial (s : Threads Ip) (r : RateLimiter Ip) : Type 0 where
    pub capacity : r.capacity ≡ s.capacity
    pub refill_rate : r.refill_rate ≡ s.refill_rate
    pub owned :
        (ip : Ip) (id : ℕ)
        → lookup dec ip s.held ≡ some id
        → (id < s.fresh)
          × (b : TokenBucket) × (object_of s id ≡ some b)
          × Matches r.capacity r.refill_rate (lookup dec ip r.buckets) b
    pub unknown : (ip : Ip) → lookup dec ip s.held ≡ none → lookup dec ip r.buckets ≡ none
    pub apart :
        (ip jp : Ip) (id : ℕ)
        → lookup dec ip s.held ≡ some id
        → lookup dec jp s.held ≡ some id
        → ip ≡ jp
    pub in_hand :
        (thread : ℕ) (ip : Ip) (id : ℕ)
        → lookup ℕ_discrete thread s.waiting ≡ some (ip, id)
        → lookup dec ip s.held ≡ some id
    pub distinct : Distinct ℕ_discrete s.waiting

  -- Spending a bucket that matches is a serial call.
  pub Matches-consume :
      (r : RateLimiter Ip) (ip : Ip) (b : TokenBucket) (now : ℕ)
      → Matches r.capacity r.refill_rate (lookup dec ip r.buckets) b
      → consume (bucket_of dec now ip r) now ≡ consume b now
  unfolding bucket_of
  Matches-consume r ip b now m = go (lookup dec ip r.buckets) m
    where
      go :
          (o : Option TokenBucket)
          → Matches r.capacity r.refill_rate o b
          → consume (bucket_or_new r now o) now ≡ consume b now
      go none (made, e) =
          consume-new_bucket r.capacity r.refill_rate now made now
          ∙ ap (λ (c : TokenBucket). consume c now) (sym e)
      go (some c) e = ap (λ (c : TokenBucket). consume c now) (sym e)

  pub look_new :
      (thread now : ℕ) (ip : Ip) (s : Threads Ip) (r : RateLimiter Ip)
      → lookup dec ip s.held ≡ none
      → IsSerial s r
      → IsSerial (look_step dec thread ip now none s) r
  look_new thread now ip s r e i =
      let held = insert dec ip s.fresh s.held in
      let made = new_bucket s.capacity s.refill_rate now in
      let objects = insert ℕ_discrete s.fresh made s.objects in
      let new_owned : (ip' : Ip) (id : ℕ)
          → lookup dec ip' held ≡ some id
          → (id < s.fresh + 1)
            × (b : TokenBucket) × (lookup ℕ_discrete id objects ≡ some b)
            × Matches r.capacity r.refill_rate (lookup dec ip' r.buckets) b =
        λ q id h. elim (lookup-insert_inv dec q ip s.fresh id s.held h) [
          | inl (p, same) ↦
              rw (p, same)
                (
                  omega arith,
                  made,
                  lookup-insert_self ℕ_discrete s.fresh made s.objects,
                  (rw (i.unknown ip e) (now, rw (i.capacity, i.refill_rate) refl)),
                )
          | inr (p, there) ↦
              let (small, b, object, m) = i.owned q id there in
              let other : id ≢ s.fresh = λ k. absurd (omega (arith, k)) in
              (
                omega arith,
                b,
                lookup-insert_ne ℕ_discrete id s.fresh made s.objects other ∙ object,
                m,
              )
        ] in
      record {
        capacity = i.capacity;
        refill_rate = i.refill_rate;
        owned = new_owned;
        unknown = λ q h. i.unknown q (lookup-insert-none dec q ip s.fresh s.held h);
        apart = λ p q id h k. elim (lookup-insert_inv dec p ip s.fresh id s.held h) [
          | inl (a, new) ↦ elim (lookup-insert_inv dec q ip s.fresh id s.held k) [
            | inl (b, same) ↦ a ∙ sym b
            | inr (b, old) ↦ absurd (omega (arith, new, (i.owned q id old).0))
          ]
          | inr (a, old) ↦ elim (lookup-insert_inv dec q ip s.fresh id s.held k) [
            | inl (b, new) ↦ absurd (omega (arith, new, (i.owned p id old).0))
            | inr (b, also) ↦ i.apart p q id old also
          ]
        ];
        in_hand = λ t q id h.
            elim (lookup-insert_inv ℕ_discrete t thread (ip, s.fresh) (q, id) s.waiting h) [
              | inl (a, same) ↦
                  let client : q ≡ ip = ap (λ (x : Ip × ℕ). x.0) same in
                  let object : id ≡ s.fresh = ap (λ (x : Ip × ℕ). x.1) same in
                  rw (client, object) (lookup-insert_self dec ip s.fresh s.held)
              | inr (a, old) ↦
                  let there = i.in_hand t q id old in
                  let other : q ≢ ip =
                    λ k. absurd (cc (sym there, ap (λ (j : Ip). lookup dec j s.held) k, e)) in
                  lookup-insert_ne dec q ip s.fresh s.held other ∙ there
            ];
        distinct = insert-Distinct ℕ_discrete thread (ip, s.fresh) s.waiting i.distinct;
      }

  pub look_old :
      (thread now : ℕ) (ip : Ip) (id : ℕ) (s : Threads Ip) (r : RateLimiter Ip)
      → lookup dec ip s.held ≡ some id
      → IsSerial s r
      → IsSerial (look_step dec thread ip now (some id) s) r
  look_old thread now ip id s r e i = record {
    capacity = i.capacity;
    refill_rate = i.refill_rate;
    owned = i.owned;
    unknown = i.unknown;
    apart = i.apart;
    in_hand = λ t q jd h.
        elim (lookup-insert_inv ℕ_discrete t thread (ip, id) (q, jd) s.waiting h) [
          | inl (a, same) ↦
              let client : q ≡ ip = ap (λ (x : Ip × ℕ). x.0) same in
              let object : jd ≡ id = ap (λ (x : Ip × ℕ). x.1) same in rw (client, object) e
          | inr (a, old) ↦ i.in_hand t q jd old
        ];
    distinct = insert-Distinct ℕ_discrete thread (ip, id) s.waiting i.distinct;
  }
