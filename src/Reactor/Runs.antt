-- ===== src/Reactor/Runs.antt =====
-- Runs of the event loop and of the server of the reactor library.
use make_linux_server.Base.{
  ◌<◌, ◌≡◌, ◌≢◌, refl, inl, inr, true, false, some, List, [], ◌∷◌, ◌++◌, arith,
}
use make_linux_server.Reactor.Connection.{
  Connection, connected, closed, Read, Write, put, write_failed, write, read, close,
  write_non_blocking,
}
use make_linux_server.Reactor.Connection.Leak.{write-leaks}
use make_linux_server.Reactor.Loop
use make_linux_server.Reactor.Loop.{
  Loop, Move, Ready, woken, other, waiting, polls, goes_on, queues_here, queues_elsewhere, signals,
  run,
}
use make_linux_server.Reactor.Loop.Order
use make_linux_server.Reactor.Loop.Order.{run-wakes, taken}
use make_linux_server.Reactor.Loop.Turn.{turn, turn_lem}
use make_linux_server.Reactor.Server
use make_linux_server.Reactor.Server.{
  Server, accepts, closes, main_runs, sub_runs, step, accept_connection, handle_new_connection,
  assign, find, handle_close, handle_close_in_loop, erase, destroy, remove, take_for,
}
use make_linux_server.Reactor.Server.Inv
use make_linux_server.Reactor.Server.Owner.{run-owned}

-- A connection whose write fails.
abbrev talking : Connection
talking = record {
  state = connected;
  read_buffer = [];
  send_buffer = 1 ∷ 2 ∷ [];
  blocking = false;
  closed_calls = 0;
}

abbrev fails : List Write
fails = put 1 ∷ write_failed ∷ []

talking-fails : (write fails talking).1.state ≡ closed
unfolding write write_non_blocking
talking-fails = refl

write-leaks_example :
    let d = (write fails talking).1 in
    (d.closed_calls ≡ 0)
    × ((rs : List Read) → read rs d ≡ (true, d))
    × ((rs : List Write) → write rs d ≡ (true, d, []))
    × (close d ≡ d)
write-leaks_example = write-leaks fails talking talking-fails

create-IsValid : Order.IsValid Loop.create
create-IsValid = record {
  in_order = refl;
  flag = refl;
  wakened = λ h. inl refl;
  reported = omega arith;
}

-- Another thread queues 5 and wakes the loop; while 5 is called, the loop's thread queues 6.
abbrev moves : List Move
moves =
    queues_elsewhere 5
    ∷ signals
    ∷ polls (other 1 ∷ woken ∷ [])
    ∷ goes_on
    ∷ goes_on
    ∷ goes_on
    ∷ goes_on
    ∷ queues_here 6
    ∷ goes_on
    ∷ goes_on
    ∷ []

moves_end :
    run moves Loop.create
    ≡ some (record {
      to_do = 6 ∷ [];
      wakeup = 1;
      calling_functors = false;
      phase = waiting;
      signalling = 0;
      queued = 5 ∷ 6 ∷ [];
      done = 5 ∷ [];
    })
unfolding run Loop.step Loop.queue_one_func Loop.go_on Loop.handle_read
moves_end = refl

run-wakes_example :
    (last : Loop) × (run moves Loop.create ≡ some last)
    × (last.done ++ (taken last.phase ++ last.to_do) ≡ last.queued)
    × (last.phase ≡ waiting → last.signalling ≡ 0 → last.done ≢ last.queued → 0 < last.wakeup)
run-wakes_example = run-wakes moves Loop.create create-IsValid

-- The loop in front of the turn that calls 6.
abbrev woken_loop : Loop
woken_loop = record {
  to_do = 6 ∷ [];
  wakeup = 1;
  calling_functors = false;
  phase = waiting;
  signalling = 0;
  queued = 5 ∷ 6 ∷ [];
  done = 5 ∷ [];
}

woken_loop-IsValid : Order.IsValid woken_loop
woken_loop-IsValid = record {
  in_order = refl;
  flag = refl;
  wakened = λ h. inr (omega arith);
  reported = omega arith;
}

turn_lem_example :
    run (turn 1) woken_loop
    ≡ some
        (record woken_loop { wakeup = 0; calling_functors = false; to_do = []; done = 5 ∷ 6 ∷ [] })
turn_lem_example = turn_lem woken_loop woken_loop-IsValid refl (omega arith)

-- Two clients connect to a server of two threads, one is closed, and its descriptor is used again.
abbrev server_moves : List Server.Move
server_moves =
    accepts 7
    ∷ accepts 8
    ∷ closes 7
    ∷ closes 7
    ∷ main_runs
    ∷ accepts 7
    ∷ sub_runs 1
    ∷ accepts 7
    ∷ []

server-IsValid : Inv.IsValid (Server.create 2)
unfolding find
server-IsValid = record {
  owned = λ fd. refl;
  once = λ fd. omega arith;
  closing = λ fd. omega arith;
  waits = tt;
  entries = λ fd c found. absurd (ground arith);
  threads = omega arith;
}

run-owned_example :
    (last : Server) × (Server.run server_moves (Server.create 2) ≡ some last) × Inv.IsValid last
run-owned_example = run-owned server_moves (Server.create 2) server-IsValid
