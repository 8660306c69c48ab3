-- ===== src/WebServer/Loop.antt =====
-- The event loop of TinyWebServer/webserver.cpp: signals, and the read and write events of the
-- connections, in both actor models.
use make_linux_server.Base.{
  ℕ, Bool, true, false, Option, none, some, List, [], ◌∷◌, ◌++◌, ◌||◌, ◌==◌, leb, ltb,
  if◌then◌else◌, length,
}
use make_linux_server.Http.{Conn}
use make_linux_server.Http.Read.{Recv, ReadOutcome, reading, read_returned, underflowed, read_once}
use make_linux_server.Http.Write.{Writev, Outcome, writing, returned, fault, write}
use make_linux_server.WebServer.{
  Server, Accept, max_fd, put, adjust_timer, deal_timer, timer_handler, dealclientdata,
}

abbrev pub sigalrm : ℕ
sigalrm = 14

abbrev pub sigterm : ℕ
sigterm = 15

-- The flags `timeout` and `stop_server`.
abbrev pub Flags : Type 0
Flags = Bool × Bool

unfoldable pub read_signals : List ℕ → Flags → Flags
read_signals [] flags = flags
read_signals (sig ∷ sigs) (timeout, stop_server) =
    read_signals sigs (timeout || sig == sigalrm, stop_server || sig == sigterm)

-- `dealwithsignal`; `none` is an error of `recv`, and no bytes are its end of file.
unfoldable pub dealwithsignal : Option (List ℕ) → Flags → Bool × Flags
unfolding read_signals
dealwithsignal none flags = (false, flags)
dealwithsignal (some []) flags = (false, flags)
dealwithsignal (some (sig ∷ sigs)) flags = (true, read_signals (sig ∷ sigs) flags)

-- How the handling of an event ends. `waits` is a call that never returns, or a loop that never ends.
pub data Handled : Type 0 where
  handled : Server → Handled
  waits : Handled
  crash : Handled

abbrev pub or_crash : Option Server → Handled
or_crash none = crash
or_crash (some s) = handled s

-- An access to the elements `fd` of the arrays.
abbrev pub in_users : ℕ → Handled → Handled
in_users fd h = if ltb fd max_fd then h else crash

abbrev pub then_handle : Handled → (Server → Handled) → Handled
then_handle (handled s) f = f s
then_handle waits f = waits
then_handle crash f = crash

-- `append_p`; the caller drops the result.
abbrev pub append_p : ℕ → Server → Server
append_p fd s =
    if leb s.max_requests (length s.queue) then s else record s { queue = s.queue ++ fd ∷ [] }

-- `append`, which also sets the request's state.
abbrev pub append : ℕ → ℕ → Server → Server
append fd state s = if leb s.max_requests (length s.queue) then s else record s {
  users = put s.users fd (record (s.users fd) { state = state });
  queue = s.queue ++ fd ∷ [];
}

-- `if (timer) { adjust_timer(timer); }`
abbrev pub adjust_if : ℕ → ℕ → ℕ → Server → Handled
adjust_if fuel cur p s = if p == 0 then handled s else or_crash (adjust_timer fuel cur p s)

-- The end of the loop that waits for `improv`: the flags are read and reset.
abbrev pub improved : ℕ → ℕ → Server → Handled
improved p fd s =
    if (s.users fd).timer_flag
    then then_handle (or_crash (deal_timer p fd s)) (λ t. handled (record t {
      users = put t.users fd (record (t.users fd) { timer_flag = false; improv = false });
    }))
    else handled (record s { users = put s.users fd (record (s.users fd) { improv = false }) })

abbrev pub after_wait : ℕ → ℕ → Option Server → Handled
after_wait p fd none = waits
after_wait p fd (some s) = improved p fd s

-- The loop that waits for `improv`. `work` is what the worker threads do until they set it, and none
-- if they never do.
abbrev pub await : (Server → Option Server) → ℕ → ℕ → Server → Handled
await work p fd s = if (s.users fd).improv then improved p fd s else after_wait p fd (work s)

-- The reactor model: the socket is handed to the workers with a state, 0 to read and 1 to write.
unfoldable pub react : ℕ → ℕ → (Server → Option Server) → ℕ → ℕ → Server → Handled
react fuel cur work state fd s =
    let p = s.timer_of fd in
    then_handle (adjust_if fuel cur p s) (λ t. await work p fd (append fd state t))

-- The proactor model's reading: the main thread has read, with this outcome.
abbrev pub after_read : ℕ → ℕ → ℕ → ReadOutcome × Conn → Server → Handled
after_read fuel cur fd (reading, c) s = waits
after_read fuel cur fd (read_returned true, c) s =
    adjust_if fuel cur (s.timer_of fd) (append_p fd (record s { users = put s.users fd c }))
after_read fuel cur fd (read_returned false, c) s =
    or_crash (deal_timer (s.timer_of fd) fd (record s { users = put s.users fd c }))
after_read fuel cur fd (underflowed, c) s =
    or_crash (deal_timer (s.timer_of fd) fd (record s { users = put s.users fd c }))

unfoldable pub dealwithread : ℕ → ℕ → List Recv → (Server → Option Server) → ℕ → Server → Handled
unfolding react
dealwithread fuel cur recvs work fd s = in_users fd (
    if s.actor_model == 1
    then react fuel cur work 0 fd s
    else after_read fuel cur fd (read_once recvs (s.users fd)) s)

abbrev pub after_write : ℕ → ℕ → ℕ → Outcome × Conn × List ℕ → Server → Handled
after_write fuel cur fd (writing, c, out) s = waits
after_write fuel cur fd (fault, c, out) s = crash
after_write fuel cur fd (returned true, c, out) s =
    adjust_if fuel cur (s.timer_of fd) (record s { users = put s.users fd c })
after_write fuel cur fd (returned false, c, out) s =
    or_crash (deal_timer (s.timer_of fd) fd (record s { users = put s.users fd c }))

unfoldable pub dealwithwrite : ℕ → ℕ → List Writev → (Server → Option Server) → ℕ → Server → Handled
unfolding react
dealwithwrite fuel cur writevs work fd s = in_users fd (
    if s.actor_model == 1
    then react fuel cur work 1 fd s
    else after_write fuel cur fd (write writevs (s.users fd)) s)

-- An event of `epoll_wait`, by the test that it meets first in the loop, with what the calls that its
-- handler makes return: the listening socket, a hang-up or an error, the signals' pipe, a socket to
-- read, and one to write.
pub data Event : Type 0 where
  connecting : List Accept → Event
  hung_up : ℕ → Event
  signalled : Option (List ℕ) → Event
  readable : ℕ → ℕ → List Recv → (Server → Option Server) → Event
  writable : ℕ → ℕ → List Writev → (Server → Option Server) → Event

abbrev pub or_crash_with : Flags → Option (Bool × Server) → Handled × Flags
or_crash_with flags none = (crash, flags)
or_crash_with flags (some (b, s)) = (handled s, flags)

unfoldable pub handle_event : ℕ → Event → Flags → Server → Handled × Flags
unfolding dealwithsignal dealwithread dealwithwrite
handle_event fuel (connecting results) flags s = or_crash_with flags (dealclientdata fuel results s)
handle_event fuel (hung_up fd) flags s =
    (in_users fd (or_crash (deal_timer (s.timer_of fd) fd s)), flags)
handle_event fuel (signalled sigs) flags s = (handled s, (dealwithsignal sigs flags).1)
handle_event fuel (readable cur fd recvs work) flags s =
    (dealwithread fuel cur recvs work fd s, flags)
handle_event fuel (writable cur fd writevs work) flags s =
    (dealwithwrite fuel cur writevs work fd s, flags)

abbrev pub and_next : Handled × Flags → (Flags → Server → Handled × Flags) → Handled × Flags
and_next (handled s, flags) next = next flags s
and_next (waits, flags) next = (waits, flags)
and_next (crash, flags) next = (crash, flags)

-- The events of one `epoll_wait`.
unfoldable pub handle_events : ℕ → List Event → Flags → Server → Handled × Flags
unfolding handle_event
handle_events fuel [] flags s = (handled s, flags)
handle_events fuel (e ∷ es) flags s = and_next (handle_event fuel e flags s) (handle_events fuel es)

-- The end of a round: `timer_handler` at the time `cur`, if the alarm came.
unfoldable pub end_round : ℕ → ℕ → Flags → Server → Handled × Flags
end_round fuel cur (false, stop_server) s = (handled s, (false, stop_server))
end_round fuel cur (true, stop_server) s =
    (or_crash (timer_handler fuel cur s), (false, stop_server))

-- What `epoll_wait` returns: events, with the time at the end of the round, or -1.
pub data Wait : Type 0 where
  events : ℕ → List Event → Wait
  interrupted : ℕ → Wait
  epoll_failed : Wait

-- `eventLoop`, for the results of its calls of `epoll_wait`.
unfoldable pub event_loop : ℕ → List Wait → Flags → Server → Handled × Flags
unfolding handle_events end_round
event_loop fuel [] (timeout, stop_server) s =
    (if stop_server then handled s else waits, (timeout, stop_server))
event_loop fuel (epoll_failed ∷ ws) (timeout, stop_server) s = (handled s, (timeout, stop_server))
event_loop fuel (interrupted cur ∷ ws) (timeout, stop_server) s =
    let rest = and_next (end_round fuel cur (timeout, stop_server) s) (event_loop fuel ws) in
    if stop_server then (handled s, (timeout, stop_server)) else rest
event_loop fuel (events cur es ∷ ws) (timeout, stop_server) s =
    let round = and_next (handle_events fuel es (timeout, stop_server) s) (end_round fuel cur) in
    let rest = and_next round (event_loop fuel ws) in
    if stop_server then (handled s, (timeout, stop_server)) else rest
