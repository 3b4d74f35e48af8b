-- ===== src/Server/Order.antt =====
-- Connections are served in the order in which they were accepted, each at most once, and never
-- more at a time than the pool has workers.
use mathlib.Core.Path.{subst}
use custom_network_proxy_ser.Base.{
  ℕ, ◌+◌, ◌≡◌, refl, sym, ap, ◌∙◌, arith, some, List, [], ◌∷◌, ◌++◌, append_assoc, append-nil, ltb,
  ltb→lt, length, length-append, if_elim, Option-cases, inl, inr,
}
use custom_network_proxy_ser.Server.{
  Phase, accepting, submitting, locked, stuck, broken, waiting, exited, Server, listening, Event,
  accepts, locks, submits, returns, accept_fails, signals, starts, finishes, exits, accept_step,
  lock_step, submit_step, return_step, fail_step, graceful_shutdown, start_step, take_out,
  finish_step, exit_step, step, run,
}
use custom_network_proxy_ser.Server.Serving.{
  occurs, occurs-append, occurs-take_out, length-take_out, pending, IsServing, Holds,
}

-- One more at the end.
snoc :
    (a b c : List ℕ) (x : ℕ) (all : List ℕ)
    → a ++ (b ++ (c ++ [])) ≡ all
    → a ++ (b ++ (c ++ x ∷ [])) ≡ all ++ x ∷ []
snoc a b c x all h = rw (sym h) (simp (append_assoc, append-nil))

regroup : (a b : List ℕ) (x : ℕ) → a ++ ((b ++ x ∷ []) ++ []) ≡ a ++ (b ++ x ∷ [])
regroup a b x = ap (λ (l : List ℕ). a ++ l) (append-nil (b ++ x ∷ []))

moved :
    (d : ℕ) (xs : List ℕ) (c : ℕ) (ys zs : List ℕ)
    → occurs d xs ≡ occurs d (c ∷ ys)
    → occurs d xs + occurs d zs ≡ occurs d ys + occurs d (c ∷ zs)
unfolding occurs
moved d xs c ys zs e = ground (arith, e)

module _ (pool_size : ℕ) where
  accept-IsServing :
      (c : ℕ) (p : Phase) (s : Server)
      → s.phase ≡ p
      → IsServing pool_size s
      → Holds (IsServing pool_size) (accept_step c p s)
  accept-IsServing c accepting s e i = record {
    ordered = snoc s.started s.queue s.dropped c s.accepted (rw e at i.ordered);
    kept = rw e at i.kept;
    once = i.once;
    bounded = i.bounded;
  }
  accept-IsServing c (submitting d) s e i = tt
  accept-IsServing c (locked cs) s e i = tt
  accept-IsServing c (stuck cs) s e i = tt
  accept-IsServing c broken s e i = tt
  accept-IsServing c waiting s e i = tt
  accept-IsServing c exited s e i = tt

  lock-IsServing :
      (p : Phase) (s : Server)
      → s.phase ≡ p
      → IsServing pool_size s
      → Holds (IsServing pool_size) (lock_step p s)
  lock-IsServing (submitting c) s e i = record {
    ordered = rw e at i.ordered;
    kept = rw e at i.kept;
    once = i.once;
    bounded = i.bounded;
  }
  lock-IsServing accepting s e i = tt
  lock-IsServing (locked cs) s e i = tt
  lock-IsServing (stuck cs) s e i = tt
  lock-IsServing broken s e i = tt
  lock-IsServing waiting s e i = tt
  lock-IsServing exited s e i = tt

  submit-IsServing :
      (p : Phase) (s : Server)
      → s.phase ≡ p
      → IsServing pool_size s
      → Holds (IsServing pool_size) (submit_step p s)
  submit-IsServing (locked (c ∷ cs)) s e i =
      let none_dropped : s.dropped ≡ [] = rw e at i.kept in
      let order : s.started ++ (s.queue ++ c ∷ cs) ≡ s.accepted =
        rw (e, none_dropped) at i.ordered in
      record {
        ordered = rw none_dropped (ap (◌++◌ s.started) (append_assoc s.queue (c ∷ []) cs) ∙ order);
        kept = none_dropped;
        once = i.once;
        bounded = i.bounded;
      }
  submit-IsServing (locked []) s e i = tt
  submit-IsServing accepting s e i = tt
  submit-IsServing (submitting c) s e i = tt
  submit-IsServing (stuck cs) s e i = tt
  submit-IsServing broken s e i = tt
  submit-IsServing waiting s e i = tt
  submit-IsServing exited s e i = tt

  return-IsServing :
      (p : Phase) (s : Server)
      → s.phase ≡ p
      → IsServing pool_size s
      → Holds (IsServing pool_size) (return_step p s)
  return-IsServing (locked []) s e i = record {
    ordered = rw e at i.ordered;
    kept = rw e at i.kept;
    once = i.once;
    bounded = i.bounded;
  }
  return-IsServing (locked (c ∷ cs)) s e i = tt
  return-IsServing accepting s e i = tt
  return-IsServing (submitting c) s e i = tt
  return-IsServing (stuck cs) s e i = tt
  return-IsServing broken s e i = tt
  return-IsServing waiting s e i = tt
  return-IsServing exited s e i = tt

  fail-IsServing :
      (p : Phase) (s : Server)
      → s.phase ≡ p
      → IsServing pool_size s
      → Holds (IsServing pool_size) (fail_step p s)
  fail-IsServing accepting s e i = record {
    ordered = rw e at i.ordered;
    kept = rw e at i.kept;
    once = i.once;
    bounded = i.bounded;
  }
  fail-IsServing (submitting c) s e i = tt
  fail-IsServing (locked cs) s e i = tt
  fail-IsServing (stuck cs) s e i = tt
  fail-IsServing broken s e i = tt
  fail-IsServing waiting s e i = tt
  fail-IsServing exited s e i = tt

  shutdown-IsServing :
      (p : Phase) (s : Server)
      → s.phase ≡ p
      → IsServing pool_size s
      → Holds (IsServing pool_size) (graceful_shutdown p s)
  shutdown-IsServing accepting s e i =
      let none_dropped : s.dropped ≡ [] = rw e at i.kept in
      let order = rw (e, none_dropped) at i.ordered in
      record { ordered = rw none_dropped order; kept = tt; once = i.once; bounded = i.bounded }
  shutdown-IsServing (submitting c) s e i =
      let none_dropped : s.dropped ≡ [] = rw e at i.kept in
      let order : s.started ++ (s.queue ++ c ∷ []) ≡ s.accepted =
        rw (e, none_dropped) at i.ordered in
      record {
        ordered = rw none_dropped (regroup s.started s.queue c ∙ order);
        kept = tt;
        once = i.once;
        bounded = i.bounded;
      }
  shutdown-IsServing broken s e i =
      let none_dropped : s.dropped ≡ [] = rw e at i.kept in
      let order = rw (e, none_dropped) at i.ordered in
      record { ordered = rw none_dropped order; kept = tt; once = i.once; bounded = i.bounded }
  shutdown-IsServing (locked cs) s e i = record {
    ordered = rw e at i.ordered;
    kept = rw e at i.kept;
    once = i.once;
    bounded = i.bounded;
  }
  shutdown-IsServing (stuck cs) s e i = i
  shutdown-IsServing waiting s e i = i
  shutdown-IsServing exited s e i = tt

  start-IsServing :
      (q : List ℕ) (s : Server)
      → s.queue ≡ q
      → IsServing pool_size s
      → Holds (IsServing pool_size) (start_step pool_size q s)
  start-IsServing [] s e i = tt
  start-IsServing (c ∷ q) s e i =
      let order : s.started ++ c ∷ (q ++ (s.dropped ++ pending s.phase)) ≡ s.accepted =
        rw e at i.ordered in
      let same : (s.started ++ c ∷ []) ++ (q ++ (s.dropped ++ pending s.phase))
          ≡ s.started ++ c ∷ (q ++ (s.dropped ++ pending s.phase)) =
        append_assoc s.started (c ∷ []) (q ++ (s.dropped ++ pending s.phase)) in
      if_elim (Holds (IsServing pool_size)) (ltb (length s.running) pool_size)
        (λ h. record {
          ordered = same ∙ order;
          kept = i.kept;
          once = λ d. omega (
            arith,
            i.once d,
            occurs-append d s.started (c ∷ []),
            occurs-append d s.running (c ∷ []),
          );
          bounded =
              omega
                (arith, ltb→lt (length s.running) pool_size h, length-append s.running (c ∷ []));
        })
        (λ h. tt)

  finish-IsServing :
      (i : ℕ) (s : Server)
      → IsServing pool_size s
      → Holds (IsServing pool_size) (finish_step (take_out i s.running) s)
  finish-IsServing i s h = elim (Option-cases (take_out i s.running)) [
    | inl e ↦ rw e tt
    | inr ((c, running), e) ↦ rw e (record {
      ordered = h.ordered;
      kept = h.kept;
      once = λ d.
          h.once d
          ∙ moved d s.running c running s.finished (occurs-take_out d i s.running c running e);
      bounded = omega (arith, h.bounded, length-take_out i s.running c running e);
    })
  ]

  exit-IsServing :
      (p : Phase) (q r : List ℕ) (s : Server)
      → s.phase ≡ p
      → IsServing pool_size s
      → Holds (IsServing pool_size) (exit_step p q r s)
  exit-IsServing broken [] [] s e i = record {
    ordered = rw e at i.ordered;
    kept = tt;
    once = i.once;
    bounded = i.bounded;
  }
  exit-IsServing broken [] (x ∷ r) s e i = tt
  exit-IsServing broken (x ∷ q) r s e i = tt
  exit-IsServing waiting [] [] s e i = record {
    ordered = rw e at i.ordered;
    kept = tt;
    once = i.once;
    bounded = i.bounded;
  }
  exit-IsServing waiting [] (x ∷ r) s e i = tt
  exit-IsServing waiting (x ∷ q) r s e i = tt
  exit-IsServing accepting q r s e i = tt
  exit-IsServing (submitting c) q r s e i = tt
  exit-IsServing (locked cs) q r s e i = tt
  exit-IsServing (stuck cs) q r s e i = tt
  exit-IsServing exited q r s e i = tt

  step-IsServing :
      (e : Event) (s : Server)
      → IsServing pool_size s
      → Holds (IsServing pool_size) (step pool_size e s)
  unfolding step
  step-IsServing (accepts c) s i = accept-IsServing c s.phase s refl i
  step-IsServing locks s i = lock-IsServing s.phase s refl i
  step-IsServing submits s i = submit-IsServing s.phase s refl i
  step-IsServing returns s i = return-IsServing s.phase s refl i
  step-IsServing accept_fails s i = fail-IsServing s.phase s refl i
  step-IsServing signals s i = shutdown-IsServing s.phase s refl i
  step-IsServing starts s i = start-IsServing s.queue s refl i
  step-IsServing (finishes n) s i = finish-IsServing n s i
  step-IsServing exits s i = exit-IsServing s.phase s.queue s.running s refl i

  run-IsServing_from :
      (es : List Event) (s t : Server)
      → IsServing pool_size s
      → run pool_size es s ≡ some t
      → IsServing pool_size t
  unfolding run
  run-IsServing_from [] s t i h = let same : s ≡ t = cc in subst (IsServing pool_size) same i
  run-IsServing_from (e ∷ es) s t i h = elim (Option-cases (step pool_size e s)) [
    | inl n ↦ absurd (cc (rw (n, run) at h))
    | inr (u, n) ↦
        run-IsServing_from es u t (subst (Holds (IsServing pool_size)) n (step-IsServing e s i))
          (rw (n, run) at h)
  ]

  -- After any events since the server began to listen: what started, what is queued, what was
  -- dropped and what is not yet queued are, in this order, the connections that were accepted,
  -- in theirs; nothing is dropped before a signal; each start is that of a connection that is
  -- running or finished; and no more run at a time than the pool has workers.
  pub run-IsServing :
      (es : List Event) (t : Server) → run pool_size es listening ≡ some t → IsServing pool_size t
  run-IsServing es t h = run-IsServing_from es listening t begun h
    where
      begun : IsServing pool_size listening
      begun = record {
        ordered = refl;
        kept = refl;
        once = λ c. unfold occurs in refl;
        bounded = omega arith;
      }
