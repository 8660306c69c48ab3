-- ===== src/Reactor/Tasks.antt =====
-- cpp_server/src/ThreadPool.cpp and include/ThreadPool.hpp: the task queue and its threads, under every
-- schedule. A step is what a thread does under `queueMutex`, or the end of a task. A task is a number,
-- and the fields `added` and `taken` are histories.
pub mod Drain
use make_linux_server.Base.{
  ℕ, zero, suc, ◌+◌, Bool, true, false, Option, none, some, List, [], ◌∷◌, ◌++◌, get_elem?, set,
  replicate, if◌then◌else◌,
}

-- Where a thread stands: in front of the wait for a task, at work on one, or returned.
pub data Phase : Type 0 where
  waiting : Phase
  working : ℕ → Phase
  finished : Phase

pub record Pool : Type 0 where
  pub task_queue : List ℕ
  pub stop : Bool
  pub workers : List Phase
  pub added : List ℕ
  pub taken : List ℕ

-- `ThreadPool(numThreads)`
abbrev pub create : ℕ → Pool
create n = record {
  task_queue = [];
  stop = false;
  workers = replicate n waiting;
  added = [];
  taken = [];
}

abbrev pub add_unless : Bool → ℕ → Pool → Bool × Pool
add_unless true task p = (false, p)
add_unless false task p =
    (true, record p { task_queue = p.task_queue ++ task ∷ []; added = p.added ++ task ∷ [] })

-- `add`, and whether it does not throw.
unfoldable pub add : ℕ → Pool → Bool × Pool
add task p = add_unless p.stop task p

abbrev pub move : ℕ → Phase → Pool → Pool
move i ph p = record p { workers = set p.workers i ph }

-- Behind the wait, which lets a thread pass when the pool is stopped or there is a task.
abbrev pub take_task : ℕ → List ℕ → Bool → Pool → Pool
take_task i [] false p = p
take_task i [] true p = move i finished p
take_task i (t ∷ ts) stop p =
    move i (working t) (record p { task_queue = ts; taken = p.taken ++ t ∷ [] })

unfoldable pub work_at : Phase → ℕ → Pool → Pool
work_at waiting i p = take_task i p.task_queue p.stop p
work_at (working t) i p = move i waiting p
work_at finished i p = p

abbrev pub work_found : ℕ → Option Phase → Pool → Pool
work_found i none p = p
work_found i (some ph) p = work_at ph i p

-- A caller of `add`, the destructor's `stop = true`, or a worker.
pub data Move : Type 0 where
  adding : ℕ → Move
  stopping : Move
  works : ℕ → Move

unfoldable pub step : Move → Pool → Pool
unfolding add work_at
step (adding task) p = (add task p).1
step stopping p = record p { stop = true }
step (works i) p = work_found i (get_elem? p.workers i) p

unfoldable pub run : List Move → Pool → Pool
unfolding step
run [] p = p
run (m ∷ ms) p = run ms (step m p)
