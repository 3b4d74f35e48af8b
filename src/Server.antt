-- ===== src/Server.antt =====
-- src/server.py: the accept loop, the thread pool and the shutdown, as events of the main thread
-- and of the workers. A connection is a number. `ThreadPoolExecutor` keeps a queue of what was
-- submitted; a worker takes the oldest, runs `handle_client` on it and is free when that returns
-- or raises. The handler of a signal runs in the main thread and ends by `sys.exit`.
pub mod Serving
pub mod Order
pub mod Drain
use custom_network_proxy_ser.Base.{
  ℕ, zero, suc, Bool, true, false, Option, none, some, List, [], ◌∷◌, ◌++◌, ltb, if◌then◌else◌,
  length,
}

-- Where the main thread is: at `accept`, between `accept` and `submit`, in `submit` with the lock
-- of the pool and what is not yet queued, in a signal's handler that waits for this lock, which its
-- own thread holds, out of the loop by its `break`, in `shutdown(wait=True)`, or gone.
pub data Phase : Type 0 where
  accepting : Phase
  submitting : ℕ → Phase
  locked : List ℕ → Phase
  stuck : List ℕ → Phase
  broken : Phase
  waiting : Phase
  exited : Phase

-- `accepted` and `started` record the order of these events.
pub record Server : Type 0 where
  pub phase : Phase
  pub queue : List ℕ
  pub running : List ℕ
  pub finished : List ℕ
  pub dropped : List ℕ
  pub accepted : List ℕ
  pub started : List ℕ

abbrev pub listening : Server
listening = record {
  phase = accepting;
  queue = [];
  running = [];
  finished = [];
  dropped = [];
  accepted = [];
  started = [];
}

pub data Event : Type 0 where
  accepts : ℕ → Event
  locks : Event
  submits : Event
  returns : Event
  accept_fails : Event
  signals : Event
  starts : Event
  finishes : ℕ → Event
  exits : Event

abbrev pub accept_step : ℕ → Phase → Server → Option Server
accept_step c accepting s =
    some (record s { phase = submitting c; accepted = s.accepted ++ c ∷ [] })
accept_step c _ s = none

-- `submit`: it takes the lock, puts the connection into the queue, and returns.
abbrev pub lock_step : Phase → Server → Option Server
lock_step (submitting c) s = some (record s { phase = locked (c ∷ []) })
lock_step _ s = none

abbrev pub submit_step : Phase → Server → Option Server
submit_step (locked (c ∷ cs)) s = some (record s { phase = locked cs; queue = s.queue ++ c ∷ [] })
submit_step _ s = none

abbrev pub return_step : Phase → Server → Option Server
return_step (locked []) s = some (record s { phase = accepting })
return_step _ s = none

-- Every `OSError` of `accept` ends the loop.
abbrev pub fail_step : Phase → Server → Option Server
fail_step accepting s = some (record s { phase = broken })
fail_step _ s = none

-- `_graceful_shutdown`: what is queued is cancelled, and so is what was not yet submitted. Where the
-- main thread holds the lock of the pool, `shutdown` waits for it forever. A second signal waits
-- again, for the workers or for the lock. What `shutdown` does under the lock is one step.
abbrev pub graceful_shutdown : Phase → Server → Option Server
graceful_shutdown accepting s =
    some (record s { phase = waiting; queue = []; dropped = s.dropped ++ s.queue })
graceful_shutdown (submitting c) s =
    some (record s { phase = waiting; queue = []; dropped = s.dropped ++ s.queue ++ c ∷ [] })
graceful_shutdown broken s =
    some (record s { phase = waiting; queue = []; dropped = s.dropped ++ s.queue })
graceful_shutdown (locked cs) s = some (record s { phase = stuck cs })
graceful_shutdown (stuck cs) s = some s
graceful_shutdown waiting s = some s
graceful_shutdown exited s = none

-- A worker that is free takes the oldest of the queue.
abbrev pub start_step : ℕ → List ℕ → Server → Option Server
start_step pool_size [] s = none
start_step pool_size (c ∷ queue) s =
    if ltb (length s.running) pool_size
    then some
        (record s { queue = queue; running = s.running ++ c ∷ []; started = s.started ++ c ∷ [] })
    else none

-- The i-th of a list, and the others.
unfoldable pub take_out : ℕ → List ℕ → Option (ℕ × List ℕ)
take_out i [] = none
take_out zero (x ∷ xs) = some (x, xs)
take_out (suc i) (x ∷ xs) = elim (take_out i xs) [ none ↦ none | some (y, ys) ↦ some (y, x ∷ ys) ]

abbrev pub finish_step : Option (ℕ × List ℕ) → Server → Option Server
finish_step none s = none
finish_step (some (c, running)) s = some (record s { running = running; finished = c ∷ s.finished })

-- The workers are joined, after `shutdown` or at the end of the program.
abbrev pub exit_step : Phase → List ℕ → List ℕ → Server → Option Server
exit_step broken [] [] s = some (record s { phase = exited })
exit_step waiting [] [] s = some (record s { phase = exited })
exit_step _ _ _ s = none

unfoldable pub step : ℕ → Event → Server → Option Server
unfolding take_out
step pool_size (accepts c) s = accept_step c s.phase s
step pool_size locks s = lock_step s.phase s
step pool_size submits s = submit_step s.phase s
step pool_size returns s = return_step s.phase s
step pool_size accept_fails s = fail_step s.phase s
step pool_size signals s = graceful_shutdown s.phase s
step pool_size starts s = start_step pool_size s.queue s
step pool_size (finishes i) s = finish_step (take_out i s.running) s
step pool_size exits s = exit_step s.phase s.queue s.running s

-- A run of events; `none` if one of them cannot happen.
unfoldable pub run : ℕ → List Event → Server → Option Server
unfolding step
run pool_size [] s = some s
run pool_size (e ∷ es) s = elim (step pool_size e s) [ none ↦ none | some t ↦ run pool_size es t ]
