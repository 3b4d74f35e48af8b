-- ===== src/Tests/Workers.antt =====
-- src/server.py with a pool of one worker and two connections.
use custom_network_proxy_ser.Base.{◌≤◌, ◌≡◌, ◌⊎◌, refl, arith, some, List, [], ◌∷◌}
use custom_network_proxy_ser.Server.{
  Server, Event, accepting, accepts, locks, submits, returns, signals, starts, finishes, exits,
  waiting, exited, stuck, listening, run, take_out,
}
use custom_network_proxy_ser.Server.Serving.{IsServing}
use custom_network_proxy_ser.Server.Order.{run-IsServing}
use custom_network_proxy_ser.Server.Drain.{CanStep, events_left, other_events, run-Terminates}

abbrev busy : List Event
busy = accepts 4 ∷ locks ∷ submits ∷ returns ∷ starts ∷ accepts 7 ∷ locks ∷ submits ∷ returns ∷ []

-- The second connection waits for the worker.
abbrev busy_server : Server
busy_server = record {
  phase = accepting;
  queue = 7 ∷ [];
  running = 4 ∷ [];
  finished = [];
  dropped = [];
  accepted = 4 ∷ 7 ∷ [];
  started = 4 ∷ [];
}

run-IsServing_example : IsServing 1 busy_server
unfolding run
run-IsServing_example = run-IsServing 1 busy busy_server refl

abbrev stopping : Server
stopping = record busy_server { phase = waiting; queue = []; dropped = 7 ∷ [] }

signalled : run 1 (signals ∷ []) busy_server ≡ some stopping
unfolding run
signalled = refl

abbrev stopped : Server
stopped = record stopping { phase = exited; running = []; finished = 4 ∷ [] }

abbrev draining : List Event
draining = finishes 0 ∷ signals ∷ exits ∷ []

run-Terminates_example :
    (stopped.accepted ≡ stopping.accepted)
    × (other_events draining ≤ events_left stopping)
    × ((exited ≡ exited) ⊎ CanStep 1 stopped)
unfolding run take_out
run-Terminates_example = run-Terminates 1 draining stopping stopped (omega arith) tt refl

-- A signal in the middle of `submit`: the worker goes on, but the server never exits.
abbrev stuck_server : Server
stuck_server = record stopping {
  phase = stuck [];
  dropped = [];
  running = 7 ∷ [];
  finished = 4 ∷ [];
  started = 4 ∷ 7 ∷ [];
}

signalled_in_submit :
    run 1
      (accepts 4
        ∷ locks
        ∷ submits
        ∷ returns
        ∷ starts
        ∷ accepts 7
        ∷ locks
        ∷ submits
        ∷ signals
        ∷ finishes 0
        ∷ starts
        ∷ [])
      listening
    ≡ some stuck_server
unfolding run take_out
signalled_in_submit = refl
