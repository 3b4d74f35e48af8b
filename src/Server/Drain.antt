-- ===== src/Server/Drain.antt =====
-- After the accept loop has ended, by a signal or by an error, the server comes to its end.
use mathlib.Core.Path.{subst}
use custom_network_proxy_ser.Base.{
  ℕ, ◌+◌, ◌*◌, ◌≤◌, ◌<◌, ◌≡◌, ◌⊎◌, refl, sym, ap, ◌∙◌, arith, Bool, true, false, Option, none, some,
  List, [], ◌∷◌, ltb, lt→ltb, length, length-append, if_elim, Option-cases, inl, inr,
}
use custom_network_proxy_ser.Server.{
  Phase, accepting, submitting, locked, stuck, broken, waiting, exited, Server, Event, accepts,
  locks, submits, returns, accept_fails, signals, starts, finishes, exits, accept_step, lock_step,
  submit_step, return_step, fail_step, graceful_shutdown, start_step, take_out, finish_step,
  exit_step, step, run,
}
use custom_network_proxy_ser.Server.Serving.{Holds, length-take_out}

abbrev pub is_some : Option Server → Bool
is_some none = false
is_some (some s) = true

-- Out of the accept loop, and not in a handler that waits for the lock of its own thread.
abbrev pub IsClosed : Phase → Type 0
IsClosed accepting = ⊥
IsClosed (submitting c) = ⊥
IsClosed (locked cs) = ⊥
IsClosed (stuck cs) = ⊥
IsClosed _ = Unit

abbrev weight : Phase → ℕ
weight broken = 2
weight waiting = 1
weight _ = 0

-- A bound on the events that are left, but for signals.
abbrev pub events_left : Server → ℕ
events_left s = 2 * length s.queue + length s.running + weight s.phase

-- The server `t` is nearer to its end than `s` by n events at least, and has accepted nothing more.
record IsNearer (n : ℕ) (s t : Server) : Type 0 where
  closed : IsClosed t.phase
  no_more : t.accepted ≡ s.accepted
  nearer : n + events_left t ≤ events_left s

shutdown-IsNearer :
    (p : Phase) (s : Server)
    → s.phase ≡ p
    → IsClosed p
    → Holds (IsNearer 0 s) (graceful_shutdown p s)
shutdown-IsNearer broken s e c = record {
  closed = tt;
  no_more = refl;
  nearer = omega (arith, ap weight e);
}
shutdown-IsNearer waiting s e c = record { closed = rw e tt; no_more = refl; nearer = omega arith }
shutdown-IsNearer exited s e c = tt
shutdown-IsNearer accepting s e c = absurd c
shutdown-IsNearer (submitting d) s e c = absurd c
shutdown-IsNearer (locked cs) s e c = absurd c
shutdown-IsNearer (stuck cs) s e c = absurd c

exit-IsNearer :
    (p : Phase) (q r : List ℕ) (s : Server)
    → s.phase ≡ p
    → IsClosed p
    → Holds (IsNearer 1 s) (exit_step p q r s)
exit-IsNearer broken [] [] s e c = record {
  closed = tt;
  no_more = refl;
  nearer = omega (arith, ap weight e);
}
exit-IsNearer broken [] (x ∷ r) s e c = tt
exit-IsNearer broken (x ∷ q) r s e c = tt
exit-IsNearer waiting [] [] s e c = record {
  closed = tt;
  no_more = refl;
  nearer = omega (arith, ap weight e);
}
exit-IsNearer waiting [] (x ∷ r) s e c = tt
exit-IsNearer waiting (x ∷ q) r s e c = tt
exit-IsNearer exited q r s e c = tt
exit-IsNearer accepting q r s e c = absurd c
exit-IsNearer (submitting d) q r s e c = absurd c
exit-IsNearer (locked cs) q r s e c = absurd c
exit-IsNearer (stuck cs) q r s e c = absurd c

accept-IsNearer :
    (c : ℕ) (p : Phase) (s : Server) → IsClosed p → Holds (IsNearer 1 s) (accept_step c p s)
accept-IsNearer c broken s k = tt
accept-IsNearer c waiting s k = tt
accept-IsNearer c exited s k = tt
accept-IsNearer c accepting s k = absurd k
accept-IsNearer c (submitting d) s k = absurd k
accept-IsNearer c (locked cs) s k = absurd k
accept-IsNearer c (stuck cs) s k = absurd k

lock-IsNearer : (p : Phase) (s : Server) → IsClosed p → Holds (IsNearer 1 s) (lock_step p s)
lock-IsNearer broken s k = tt
lock-IsNearer waiting s k = tt
lock-IsNearer exited s k = tt
lock-IsNearer accepting s k = absurd k
lock-IsNearer (submitting d) s k = absurd k
lock-IsNearer (locked cs) s k = absurd k
lock-IsNearer (stuck cs) s k = absurd k

submit-IsNearer : (p : Phase) (s : Server) → IsClosed p → Holds (IsNearer 1 s) (submit_step p s)
submit-IsNearer broken s k = tt
submit-IsNearer waiting s k = tt
submit-IsNearer exited s k = tt
submit-IsNearer accepting s k = absurd k
submit-IsNearer (submitting d) s k = absurd k
submit-IsNearer (locked cs) s k = absurd k
submit-IsNearer (stuck cs) s k = absurd k

return-IsNearer : (p : Phase) (s : Server) → IsClosed p → Holds (IsNearer 1 s) (return_step p s)
return-IsNearer broken s k = tt
return-IsNearer waiting s k = tt
return-IsNearer exited s k = tt
return-IsNearer accepting s k = absurd k
return-IsNearer (submitting d) s k = absurd k
return-IsNearer (locked cs) s k = absurd k
return-IsNearer (stuck cs) s k = absurd k

fail-IsNearer : (p : Phase) (s : Server) → IsClosed p → Holds (IsNearer 1 s) (fail_step p s)
fail-IsNearer broken s k = tt
fail-IsNearer waiting s k = tt
fail-IsNearer exited s k = tt
fail-IsNearer accepting s k = absurd k
fail-IsNearer (submitting d) s k = absurd k
fail-IsNearer (locked cs) s k = absurd k
fail-IsNearer (stuck cs) s k = absurd k

-- A signal can come again and again; the other events are counted.
abbrev cost : Event → ℕ
cost signals = 0
cost _ = 1

abbrev pub other_events : List Event → ℕ
other_events [] = 0
other_events (e ∷ es) = cost e + other_events es

module _ (pool_size : ℕ) where
  start-IsNearer :
      (q : List ℕ) (s : Server)
      → s.queue ≡ q
      → IsClosed s.phase
      → Holds (IsNearer 1 s) (start_step pool_size q s)
  start-IsNearer [] s e k = tt
  start-IsNearer (c ∷ q) s e k =
      if_elim (Holds (IsNearer 1 s)) (ltb (length s.running) pool_size)
        (λ h. record {
          closed = k;
          no_more = refl;
          nearer = omega (arith, ap length e, length-append s.running (c ∷ []));
        })
        (λ h. tt)

  finish-IsNearer :
      (i : ℕ) (s : Server)
      → IsClosed s.phase
      → Holds (IsNearer 1 s) (finish_step (take_out i s.running) s)
  finish-IsNearer i s k = elim (Option-cases (take_out i s.running)) [
    | inl e ↦ rw e tt
    | inr ((c, running), e) ↦ rw e (record {
      closed = k;
      no_more = refl;
      nearer = omega (arith, length-take_out i s.running c running e);
    })
  ]

  step-IsNearer :
      (e : Event) (s : Server) → IsClosed s.phase → Holds (IsNearer (cost e) s) (step pool_size e s)
  unfolding step
  step-IsNearer (accepts c) s k = accept-IsNearer c s.phase s k
  step-IsNearer locks s k = lock-IsNearer s.phase s k
  step-IsNearer submits s k = submit-IsNearer s.phase s k
  step-IsNearer returns s k = return-IsNearer s.phase s k
  step-IsNearer accept_fails s k = fail-IsNearer s.phase s k
  step-IsNearer signals s k = shutdown-IsNearer s.phase s refl k
  step-IsNearer starts s k = start-IsNearer s.queue s refl k
  step-IsNearer (finishes i) s k = finish-IsNearer i s k
  step-IsNearer exits s k = exit-IsNearer s.phase s.queue s.running s refl k

  -- Some event can happen that is no signal.
  abbrev pub CanStep : Server → Type 0
  CanStep s = (e : Event) × (cost e ≡ 1) × (is_some (step pool_size e s) ≡ true)

  goes_on :
      (p : Phase) (q r : List ℕ) (s : Server)
      → 0 < pool_size
      → s.phase ≡ p
      → s.queue ≡ q
      → s.running ≡ r
      → IsClosed p
      → (p ≡ exited) ⊎ CanStep s
  unfolding step take_out
  goes_on p q (x ∷ r) s big ep eq er k = inr (finishes 0, refl, rw er refl)
  goes_on p (c ∷ q) [] s big ep eq er k =
      let free : ltb 0 pool_size ≡ true = lt→ltb 0 pool_size big in
      inr (starts, refl, rw (eq, er, free) refl)
  goes_on broken [] [] s big ep eq er k = inr (exits, refl, rw (ep, eq, er) refl)
  goes_on waiting [] [] s big ep eq er k = inr (exits, refl, rw (ep, eq, er) refl)
  goes_on exited [] [] s big ep eq er k = inl refl
  goes_on accepting [] [] s big ep eq er k = absurd k
  goes_on (submitting c) [] [] s big ep eq er k = absurd k
  goes_on (locked cs) [] [] s big ep eq er k = absurd k
  goes_on (stuck cs) [] [] s big ep eq er k = absurd k

  run-IsNearer :
      (es : List Event) (s t : Server)
      → IsClosed s.phase
      → run pool_size es s ≡ some t
      → IsClosed t.phase
        × (t.accepted ≡ s.accepted)
        × (other_events es + events_left t ≤ events_left s)
  unfolding run
  run-IsNearer [] s t k h = let same : s ≡ t = cc in rw (sym same) (k, refl, omega arith)
  run-IsNearer (e ∷ es) s t k h = elim (Option-cases (step pool_size e s)) [
    | inl n ↦ absurd (cc (rw (n, run) at h))
    | inr (u, n) ↦
        let near : IsNearer (cost e) s u =
          subst (Holds (IsNearer (cost e) s)) n (step-IsNearer e s k) in
        let (closed, no_more, left) = run-IsNearer es u t near.closed (rw (n, run) at h) in
        (closed, no_more ∙ near.no_more, omega (arith, left, near.nearer))
  ]

  -- Out of the accept loop, and unless its handler of signals is stuck, the server accepts nothing
  -- more; besides signals, only so many events can follow as its queue, its workers and its phase
  -- allow; and as long as it has not exited, one of them can. The pool has a worker.
  pub run-Terminates :
      (es : List Event) (s t : Server)
      → 0 < pool_size
      → IsClosed s.phase
      → run pool_size es s ≡ some t
      → (t.accepted ≡ s.accepted)
        × (other_events es ≤ events_left s)
        × ((t.phase ≡ exited) ⊎ CanStep t)
  run-Terminates es s t big k h =
      let (closed, no_more, left) = run-IsNearer es s t k h in
      (no_more, omega (arith, left), goes_on t.phase t.queue t.running t big refl refl refl closed)
