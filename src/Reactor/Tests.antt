-- ===== src/Reactor/Tests.antt =====
-- Runs of the reactor library: a pool of one thread, a channel, and a connection.
use make_linux_server.Base.{
  ◌≡◌, ◌<◌, refl, Bool, true, false, none, some, List, [], ◌∷◌, ◌++◌, length, take, get_elem?,
  arith,
}
use make_linux_server.Http.CString.{codes, c_string}
use make_linux_server.Reactor.Tasks.{
  create, Move, adding, stopping, works, run, step, add, work_at, finished,
}
use make_linux_server.Reactor.Tasks.Drain.{IsValid, run-in_order, run-drains}
use make_linux_server.Reactor.Channel.{
  channel, Op, enabling_et, enabling_read, disabling_read, deleting, enabling_write, apply_all,
  apply_all-Agrees, Agrees, apply, enable_read, enable_write, update_channel,
}
use make_linux_server.Reactor.Connection.{
  Connection, connected, Read, got, read_interrupted, read_again, Write, put, write_again, send,
}
use make_linux_server.Reactor.Connection.Flow.{send_lem, Stalls}

-- Two tasks are added, and the pool is stopped while the first is worked on.
abbrev schedule : List Move
schedule = adding 5 ∷ adding 6 ∷ works 0 ∷ stopping ∷ works 0 ∷ works 0 ∷ works 0 ∷ works 0 ∷ []

create-IsValid : IsValid (create 1)
create-IsValid = record { in_order = refl; drained = λ h. absurd (omega arith) }

schedule-ends : get_elem? (run schedule (create 1)).workers 0 ≡ some finished
unfolding run step add work_at
schedule-ends = refl

run-drains_example :
    ((run schedule (create 1)).task_queue ≡ [])
    × ((run schedule (create 1)).taken ≡ (run schedule (create 1)).added)
run-drains_example = run-drains schedule (create 1) 0 create-IsValid schedule-ends

run-in_order_example :
    (run schedule (create 1)).taken ++ (run schedule (create 1)).task_queue
    ≡ (run schedule (create 1)).added
run-in_order_example = run-in_order schedule (create 1) create-IsValid

abbrev ops : List (Bool × Op)
ops =
    (true, enabling_et)
    ∷ (true, enabling_read)
    ∷ (true, disabling_read)
    ∷ (true, deleting)
    ∷ (true, enabling_write)
    ∷ []

apply_all-Agrees_example : Agrees (apply_all ops channel)
apply_all-Agrees_example =
    apply_all-Agrees ops channel (refl, (refl, (refl, (refl, (refl, tt))))) refl

-- A channel whose ADD failed is taken for registered, and no later MOD registers it.
never_registered :
    (apply_all ((false, enabling_read) ∷ (true, enabling_write) ∷ []) channel).registered ≡ none
unfolding apply_all apply enable_read enable_write update_channel
never_registered = refl

abbrev connection : Connection
connection = record {
  state = connected;
  read_buffer = codes "old";
  send_buffer = [];
  blocking = false;
  closed_calls = 0;
}

abbrev reads : List Read
reads = got (codes "ab") ∷ read_interrupted ∷ got (codes "c") ∷ read_again ∷ []

abbrev writes : List Write
writes = put 2 ∷ write_again ∷ []

hello : length (c_string (codes "hello")) ≡ 5
unfolding c_string
hello = refl

writes-Stalls : Stalls writes (length (c_string (codes "hello")))
unfolding c_string
writes-Stalls = omega arith

send_lem_example :
    ((send (codes "hello") writes connection).0 ≡ true)
    × ((send (codes "hello") writes connection).1.state ≡ connected)
    × ((send (codes "hello") writes connection).1.send_buffer ≡ [])
    × (length (send (codes "hello") writes connection).2 < length (c_string (codes "hello")))
    × ((send (codes "hello") writes connection).2
        ≡ take (length (send (codes "hello") writes connection).2) (c_string (codes "hello")))
send_lem_example = send_lem (codes "hello") writes connection refl refl writes-Stalls
