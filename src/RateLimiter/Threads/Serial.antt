-- ===== src/RateLimiter/Threads/Serial.antt =====
-- As long as nothing is pruned, the threads decide what calls made one after the other decide, in
-- the order of their consumes.
use custom_network_proxy_ser.Base.{
  ℕ, ◌<◌, ◌≡◌, ◌≢◌, refl, sym, ap, ◌∙◌, Bool, some, List, [], ◌∷◌, map, All, ℕ_discrete,
  Option-cases, inl, inr,
}
use custom_network_proxy_ser.Dict.{lookup, erase, insert}
use custom_network_proxy_ser.Dict.Laws.{
  lookup-insert_self, lookup-insert_ne, lookup-erase_ne, lookup-erase_self, erase-Distinct,
}
use custom_network_proxy_ser.RateLimiter.Bucket.{TokenBucket, consume}
use custom_network_proxy_ser.RateLimiter.Registry.{RateLimiter, consume_from}
use custom_network_proxy_ser.RateLimiter.Registry.Consume.{
  consume_from-bucket, lookup-consume_from_ne,
}
use custom_network_proxy_ser.RateLimiter.Threads.{
  Threads, Event, looks, consumes, prunes, object_of, Decision, consume_object, step, decided,
}
use custom_network_proxy_ser.RateLimiter.Threads.Matching.{
  Matches, IsSerial, Matches-consume, look_new, look_old,
}

module _ {Ip : Type 0} (dec : Discrete Ip) where
  spent :
      (thread now : ℕ) (ip : Ip) (id : ℕ) (b : TokenBucket) (s : Threads Ip) (r : RateLimiter Ip)
      → lookup ℕ_discrete thread s.waiting ≡ some (ip, id)
      → object_of s id ≡ some b
      → Matches r.capacity r.refill_rate (lookup dec ip r.buckets) b
      → IsSerial dec s r
      → IsSerial dec
          (consume_object thread now ip id (some b) s).0
          (consume_from dec now now ip r).0
  spent thread now ip id b s r w object m i =
      let r' = (consume_from dec now now ip r).0 in
      let b' = (consume b now).0 in
      let (here, decision, capacity, rate) = consume_from-bucket dec now now ip r in
      let there = i.in_hand thread ip id w in
      let now_there : lookup dec ip r'.buckets ≡ some b' =
        here ∙ ap (λ (x : TokenBucket × Bool). some x.0) (Matches-consume dec r ip b now m) in
      let new_owned : (q : Ip) (jd : ℕ)
          → lookup dec q s.held ≡ some jd
          → (jd < s.fresh)
            × (c : TokenBucket) × (lookup ℕ_discrete jd (insert ℕ_discrete id b' s.objects)
                ≡ some c)
            × Matches r'.capacity r'.refill_rate (lookup dec q r'.buckets) c =
        λ q jd h. elim (dec q ip) [
          | yes p ↦
              let held_same : lookup dec q s.held ≡ some id =
                ap (λ (j : Ip). lookup dec j s.held) p ∙ there in
              let same : jd ≡ id = cc (h, held_same) in
              let (small, _, _, _) = i.owned ip id there in
              rw (p, same)
                (small, b', lookup-insert_self ℕ_discrete id b' s.objects, rw now_there refl)
          | no p ↦
              let (small, c, held_object, n) = i.owned q jd h in
              let kept = lookup-consume_from_ne dec now now q ip r p in
              let other : jd ≢ id = λ k. p (i.apart q ip id (h ∙ ap some k) there) in
              (
                small,
                c,
                lookup-insert_ne ℕ_discrete jd id b' s.objects other ∙ held_object,
                rw (kept, capacity, rate) n,
              )
        ] in
      record {
        capacity = capacity ∙ i.capacity;
        refill_rate = rate ∙ i.refill_rate;
        owned = new_owned;
        unknown = λ q h.
            let other : q ≢ ip =
              λ k. absurd (cc (sym there, ap (λ (j : Ip). lookup dec j s.held) (sym k), h)) in
            lookup-consume_from_ne dec now now q ip r other ∙ i.unknown q h;
        apart = i.apart;
        in_hand = λ t q jd h.
            let gone = lookup-erase_self ℕ_discrete thread s.waiting i.distinct in
            let other : t ≢ thread = λ k. absurd (
              cc (
                sym gone,
                ap (λ (u : ℕ). lookup ℕ_discrete u (erase ℕ_discrete thread s.waiting)) (sym k),
                h,
              )) in
            i.in_hand t q jd (sym (lookup-erase_ne ℕ_discrete t thread s.waiting other) ∙ h);
        distinct = erase-Distinct ℕ_discrete thread s.waiting i.distinct;
      }

  -- The decision is that of the serial call.
  decision_serial :
      (now : ℕ) (ip : Ip) (b : TokenBucket) (r : RateLimiter Ip)
      → Matches r.capacity r.refill_rate (lookup dec ip r.buckets) b
      → (consume b now).1 ≡ (consume_from dec now now ip r).1
  decision_serial now ip b r m =
      ap (λ (x : TokenBucket × Bool). x.1) (sym (Matches-consume dec r ip b now m))
      ∙ sym (consume_from-bucket dec now now ip r).1

  -- Calls made one after the other: each creates the bucket if it must, and consumes.
  unfoldable pub serial : List (Ip × ℕ) → RateLimiter Ip → List Bool
  serial [] r = []
  serial ((ip, now) ∷ calls) r =
      let (r', allowed) = consume_from dec now now ip r in allowed ∷ serial calls r'

  abbrev pub IsKeeping : Event Ip → Type 0
  IsKeeping (prunes now) = ⊥
  IsKeeping _ = Unit

  abbrev calls_of : List (Decision Ip) → List (Ip × ℕ)
  calls_of ds = map (λ (d : Decision Ip). d.0) ds

  abbrev allowed_of : List (Decision Ip) → List Bool
  allowed_of ds = map (λ (d : Decision Ip). d.1) ds

  decided-serial_from :
      (es : List (Event Ip)) (s : Threads Ip) (r : RateLimiter Ip)
      → All IsKeeping es
      → IsSerial dec s r
      → allowed_of (decided dec es s) ≡ serial (calls_of (decided dec es s)) r
  unfolding decided serial step
  decided-serial_from [] s r k i = refl
  decided-serial_from (looks thread ip now ∷ es) s r (_, k) i =
      elim (Option-cases (lookup dec ip s.held)) [
        | inl e ↦ rw e (decided-serial_from es _ r k (look_new dec thread now ip s r e i))
        | inr (id, e) ↦ rw e (decided-serial_from es _ r k (look_old dec thread now ip id s r e i))
      ]
  decided-serial_from (prunes now ∷ es) s r (never, k) i = absurd never
  decided-serial_from (consumes thread now ∷ es) s r (_, k) i =
      elim (Option-cases (lookup ℕ_discrete thread s.waiting)) [
        | inl e ↦ rw e (decided-serial_from es s r k i)
        | inr ((ip, id), e) ↦
            let (small, b, object, m) = i.owned ip id (i.in_hand thread ip id e) in
            let next = consume_object thread now ip id (some b) s in
            let r' = (consume_from dec now now ip r).0 in
            rw (e, object)
              (rw (decision_serial now ip b r m) (
                ap (◌∷◌ (consume_from dec now now ip r).1)
                  (decided-serial_from es next.0 r' k (spent thread now ip id b s r e object m i))))
      ]

  abbrev pub begun : ℕ → ℕ → ℕ → Threads Ip
  begun capacity refill_rate now = record {
    capacity = capacity;
    refill_rate = refill_rate;
    held = [];
    objects = [];
    fresh = 0;
    waiting = [];
    last_prune = now;
  }

  abbrev pub empty_limiter : ℕ → ℕ → ℕ → RateLimiter Ip
  empty_limiter capacity refill_rate now = record {
    capacity = capacity;
    refill_rate = refill_rate;
    buckets = [];
    last_prune = now;
  }

  begun-IsSerial :
      (capacity rate now : ℕ)
      → IsSerial dec (begun capacity rate now) (empty_limiter capacity rate now)
  unfolding lookup
  begun-IsSerial capacity rate now = record {
    capacity = refl;
    refill_rate = refl;
    owned = λ ip id h. absurd (cc);
    unknown = λ ip h. refl;
    apart = λ ip jp id h k. absurd (cc);
    in_hand = λ thread ip id h. absurd (cc);
    distinct = tt;
  }

  -- However the lookups and consumes of threads interleave from a new limiter on, as long as none
  -- of them prunes: each consume is decided as in calls made one after the other in the order of
  -- the consumes, at their times.
  pub decided-serial :
      (es : List (Event Ip)) (capacity rate now : ℕ)
      → All IsKeeping es
      → map (λ (d : Decision Ip). d.1) (decided dec es (begun capacity rate now))
        ≡ serial
            (map (λ (d : Decision Ip). d.0) (decided dec es (begun capacity rate now)))
            (empty_limiter capacity rate now)
  decided-serial es capacity rate now k =
      decided-serial_from es (begun capacity rate now) (empty_limiter capacity rate now) k
        (begun-IsSerial capacity rate now)
