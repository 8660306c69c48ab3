-- ===== src/Reactor/Loop.antt =====
-- cpp_server/src/EventLoop.cpp: an event loop with its queue of deferred functions and the eventfd by
-- which other threads wake it, under every schedule. A function is a number, and what it does is the
-- moves that its thread makes; `queued` and `done` are histories. `none` is a failed assertion.
-- A thread other than the loop's appends a function and then writes to the eventfd, in two moves;
-- `signalling` counts the threads between the two. Reading of `calling_functors` by them decides nothing.
pub mod Order
pub mod Turn
use make_linux_server.Base.{
  ℕ, zero, suc, ◌+◌, ◌-◌, Bool, true, false, not, Option, none, some, List, [], ◌∷◌, ◌++◌, ◌||◌,
  leb, if◌then◌else◌, min,
}

-- A channel that `epoll_wait` reports: that of the eventfd, or another one.
pub data Ready : Type 0 where
  woken : Ready
  other : ℕ → Ready

-- Where the loop's thread stands: in `epoll_wait`, handling the channels that are left, behind
-- `calling_functors = true`, or calling the functions that are left in `tmp`.
pub data Phase : Type 0 where
  waiting : Phase
  handling : List Ready → Phase
  swapping : Phase
  running : List ℕ → Phase

pub record Loop : Type 0 where
  pub to_do : List ℕ
  pub wakeup : ℕ
  pub calling_functors : Bool
  pub phase : Phase
  pub signalling : ℕ
  pub queued : List ℕ
  pub done : List ℕ

-- `EventLoop()`, when `loop()` has been entered.
abbrev pub create : Loop
create = record {
  to_do = [];
  wakeup = 0;
  calling_functors = false;
  phase = waiting;
  signalling = 0;
  queued = [];
  done = [];
}

abbrev pub append : ℕ → Loop → Loop
append func l = record l { to_do = l.to_do ++ func ∷ []; queued = l.queued ++ func ∷ [] }

-- The test of `QueueOneFunc`: whether it writes to the eventfd.
abbrev pub wakes : Bool → Loop → Bool
wakes in_loop_thread l = not in_loop_thread || l.calling_functors

-- `QueueOneFunc` in the loop's own thread, and its first half in another thread.
unfoldable pub queue_one_func : Bool → ℕ → Loop → Loop
queue_one_func true func l =
    if wakes true l then record (append func l) { wakeup = l.wakeup + 1 } else append func l
queue_one_func false func l =
    if wakes false l
    then record (append func l) { signalling = l.signalling + 1 }
    else append func l

-- The second half: the write to the eventfd.
abbrev pub signal : ℕ → Loop → Loop
signal zero l = l
signal (suc n) l = record l { signalling = n; wakeup = l.wakeup + 1 }

-- `runOneFunc`: a function is called at once in the loop's own thread, and queued by another.
unfoldable pub run_one_func : Bool → ℕ → Loop → Loop
unfolding queue_one_func
run_one_func true func l = l
run_one_func false func l = queue_one_func false func l

-- `handleRead`: the eventfd is read, which fails if its counter is 0.
unfoldable pub handle_read : List Ready → ℕ → Loop → Option Loop
handle_read rest zero l = none
handle_read rest (suc n) l = some (record l { wakeup = 0; phase = handling rest })

-- `loop` and `DoToDoList`: the next move of the loop's thread outside of `epoll_wait`.
unfoldable pub go_on : Phase → Loop → Option Loop
unfolding handle_read
go_on waiting l = some l
go_on (handling []) l = some (record l { calling_functors = true; phase = swapping })
go_on (handling (woken ∷ rest)) l = handle_read rest l.wakeup l
go_on (handling (other channel ∷ rest)) l = some (record l { phase = handling rest })
go_on swapping l = some (record l { to_do = []; phase = running l.to_do })
go_on (running (func ∷ rest)) l =
    some (record l { phase = running rest; done = l.done ++ func ∷ [] })
go_on (running []) l = some (record l { calling_functors = false; phase = waiting })

abbrev pub count_woken : List Ready → ℕ
count_woken [] = 0
count_woken (woken ∷ rest) = suc (count_woken rest)
count_woken (other channel ∷ rest) = count_woken rest

-- `epoll_wait` returns: each channel is reported once, and that of the eventfd only if its counter
-- is not 0. Other reports are no moves.
abbrev pub poll : Phase → List Ready → Loop → Loop
poll waiting ready l =
    if leb (count_woken ready) (min 1 l.wakeup) then record l { phase = handling ready } else l
poll (handling rest) ready l = l
poll swapping ready l = l
poll (running rest) ready l = l

-- A function is queued by the loop's own thread, which is in a callback or in a deferred function.
abbrev pub queue_here : Phase → ℕ → Loop → Loop
queue_here waiting func l = l
queue_here (handling rest) func l = queue_one_func true func l
queue_here swapping func l = l
queue_here (running rest) func l = queue_one_func true func l

pub data Move : Type 0 where
  polls : List Ready → Move
  goes_on : Move
  queues_here queues_elsewhere runs_elsewhere : ℕ → Move
  signals : Move

unfoldable pub step : Move → Loop → Option Loop
unfolding queue_one_func run_one_func go_on
step (polls ready) l = some (poll l.phase ready l)
step goes_on l = go_on l.phase l
step (queues_here func) l = some (queue_here l.phase func l)
step (queues_elsewhere func) l = some (queue_one_func false func l)
step (runs_elsewhere func) l = some (run_one_func false func l)
step signals l = some (signal l.signalling l)

abbrev pub and_then : Option Loop → (Loop → Option Loop) → Option Loop
and_then none f = none
and_then (some l) f = f l

unfoldable pub run : List Move → Loop → Option Loop
unfolding step
run [] l = some l
run (m ∷ ms) l = and_then (step m l) (run ms)
