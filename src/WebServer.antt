-- ===== src/WebServer.antt =====
-- TinyWebServer/webserver.cpp and webserver.h, with the class Utils of timer/lst_timer.cpp: the main
-- thread, which accepts connections, keeps a timer for each, and hands sockets to the worker threads.
-- A socket is its number, which is also its index in `users` and `users_timer`. `new util_timer`
-- returns the address that the caller of the model gives. The log's calls are left out. `none` is
-- undefined behaviour, an access to a null or dangling timer or behind the end of an array, or fuel that does not reach the end of
-- the list of timers.
pub mod Owned
pub mod Accounts
pub mod Expiry
pub mod Loop
pub mod Limit
pub mod Rounds
mod Tests
use make_linux_server.Base.{
  ℕ, zero, suc, ◌+◌, ◌*◌, Bool, true, false, Option, none, some, List, [], ◌∷◌, ◌++◌, ◌&&◌, ◌==◌,
  leb, ltb, if◌then◌else◌, length,
}
use make_linux_server.Base.Int.{ℤ, pos, ◌-ℤ◌, ◌+ℤ◌, leb_ℤ}
use make_linux_server.Timer.{Timer, Store, update, set_expire, add_timer, del_timer, tick}
use make_linux_server.Timer as TimerList
use make_linux_server.Http.{Conn, init}

abbrev pub max_fd : ℕ
max_fd = 65536

abbrev pub timeslot : ℕ
timeslot = 5

-- The expiry of a timer that is started or put off.
abbrev pub new_expire : ℕ → ℕ
new_expire cur = cur + 3 * timeslot

-- What the main thread reads and writes. `closed` are the sockets that `cb_func` closed and `refused`
-- those that `show_error` closed, the latest first; `queue` is the work queue's content, of at most
-- `max_requests`. `users` and `timer_of`, the timers of `users_timer`, are arrays of `max_fd` elements:
-- `new_timer` and the event loop, where a socket's number comes in, test it.
pub record Server : Type 0 where
  pub timers : Store
  pub timer_of : ℕ → ℕ
  pub users : ℕ → Conn
  pub user_count : ℤ
  pub closed : List ℕ
  pub refused : List ℕ
  pub queue : List ℕ
  pub max_requests : ℕ
  pub root : List ℕ
  pub trigger : ℕ
  pub listen_trigger : ℕ
  pub conn_trigger : ℕ
  pub actor_model : ℕ

-- `trig_mode`
unfoldable pub trig_mode : Server → Server
trig_mode s =
    if s.trigger == 0
    then record s { listen_trigger = 0; conn_trigger = 0 }
    else if s.trigger == 1
    then record s { listen_trigger = 0; conn_trigger = 1 }
    else if s.trigger == 2
    then record s { listen_trigger = 1; conn_trigger = 0 }
    else if s.trigger == 3
    then record s { listen_trigger = 1; conn_trigger = 1 }
    else s

abbrev pub put : {A : Type 0} → (ℕ → A) → ℕ → A → ℕ → A
put f k v j = if k == j then v else f j

abbrev pub with_timers : Server → Option (Unit {0} × Store) → Option Server
with_timers s none = none
with_timers s (some (u, timers)) = some (record s { timers = timers })

-- The connection object and the timer at `p`, which is not yet in the list, and none
-- if `fd` is behind the end of the arrays.
abbrev pub new_timer : ℕ → ℕ → ℕ → Server → Option Server
new_timer cur p fd s =
    let opened = init fd s.root s.conn_trigger s.user_count (s.users fd) in
    let made : Timer = record { expire = new_expire cur; user_data = fd; prev = 0; next = 0 } in
    if ltb fd max_fd
    then some (record s {
      users = put s.users fd opened.1;
      user_count = opened.0;
      timer_of = put s.timer_of fd p;
      timers = record s.timers { cell = update s.timers.cell p (some made) };
    })
    else none

abbrev pub add_new : ℕ → ℕ → Option Server → Option Server
add_new fuel p none = none
add_new fuel p (some s) = with_timers s (add_timer fuel p s.timers)

-- `timer(connfd, …)` at the time `cur`, with the new timer at `p`.
unfoldable pub timer : ℕ → ℕ → ℕ → ℕ → Server → Option Server
timer fuel cur p fd s = add_new fuel p (new_timer cur p fd s)

abbrev pub move_timer : ℕ → ℕ → Server → Option (Unit {0} × Store) → Option Server
move_timer fuel p s none = none
move_timer fuel p s (some (u, timers)) = with_timers s (TimerList.adjust_timer fuel p timers)

-- `adjust_timer`
unfoldable pub adjust_timer : ℕ → ℕ → ℕ → Server → Option Server
adjust_timer fuel cur p s = move_timer fuel p s (set_expire p (new_expire cur) s.timers)

-- `cb_func`
abbrev pub cb_func : ℕ → Server → Server
cb_func fd s = record s { closed = fd ∷ s.closed; user_count = s.user_count -ℤ pos 1 }

abbrev pub deal_found : ℕ → ℕ → Server → Option Timer → Option Server
deal_found p fd s none = none
deal_found p fd s (some t) = let done = cb_func fd s in with_timers done (del_timer p done.timers)

-- `deal_timer`; `timer->cb_func` is read before the pointer is tested. The callers have accessed the
-- element `fd` of `users_timer` before, for the timer.
unfoldable pub deal_timer : ℕ → ℕ → Server → Option Server
deal_timer p fd s = deal_found p fd s (s.timers.cell p)

abbrev pub fire : List ℕ → Server → Server
fire [] s = s
fire (fd ∷ fds) s = fire fds (cb_func fd s)

abbrev pub after_tick : Server → Option (List ℕ × Store) → Option Server
after_tick s none = none
after_tick s (some (fired, timers)) = some (fire fired (record s { timers = timers }))

-- `Utils::timer_handler`, but for `alarm`.
unfoldable pub timer_handler : ℕ → ℕ → Server → Option Server
timer_handler fuel cur s = after_tick s (tick fuel cur s.timers)

-- A call of `accept`: a socket, with the address of its timer and the time, or an error.
pub data Accept : Type 0 where
  accepted : ℕ → ℕ → ℕ → Accept
  accept_failed : Accept

-- `show_error`: a message and `close`.
abbrev pub show_error : ℕ → Server → Server
show_error fd s = record s { refused = fd ∷ s.refused }

abbrev pub is_full : Server → Bool
is_full s = leb_ℤ (pos max_fd) s.user_count

abbrev pub return : Bool → Option Server → Option (Bool × Server)
return b none = none
return b (some s) = some (b, s)

unfoldable pub accept_one : ℕ → Accept → Server → Option (Bool × Server)
unfolding timer
accept_one fuel accept_failed s = some (false, s)
accept_one fuel (accepted fd p cur) s =
    if is_full s then some (false, show_error fd s) else return true (timer fuel cur p fd s)

abbrev pub and_on : Option Server → (Server → Option (Bool × Server)) → Option (Bool × Server)
and_on none f = none
and_on (some s) f = f s

-- The loop in edge-triggered mode; the end of the list is an `accept` that finds nothing.
unfoldable pub accept_all : ℕ → List Accept → Server → Option (Bool × Server)
unfolding timer
accept_all fuel [] s = some (false, s)
accept_all fuel (accept_failed ∷ rest) s = some (false, s)
accept_all fuel (accepted fd p cur ∷ rest) s =
    let more = and_on (timer fuel cur p fd s) (accept_all fuel rest) in
    if is_full s then some (false, show_error fd s) else more

abbrev pub accept_first : ℕ → List Accept → Server → Option (Bool × Server)
accept_first fuel [] s = some (false, s)
accept_first fuel (a ∷ rest) s = accept_one fuel a s

unfoldable pub dealclientdata : ℕ → List Accept → Server → Option (Bool × Server)
unfolding accept_one accept_all
dealclientdata fuel results s =
    if s.listen_trigger == 0 then accept_first fuel results s else accept_all fuel results s
