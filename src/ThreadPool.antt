-- ===== src/ThreadPool.antt =====
-- TinyWebServer/threadpool/threadpool.h: the work queue and its threads, under every interleaving.
-- One step is what a thread does up to the next point where another may run: a critical section of
-- `m_queuelocker`, a wait on `m_queuestat`, or a post. A request is its address, and 0 is NULL.
-- The fields `accepted` and `taken` are histories: the requests for which `append` or `append_p`
-- returned true, and those that threads took from the queue, in order.
pub mod Safety
pub mod Progress
pub mod Serve
mod Tests
use make_linux_server.Base.{
  ℕ, zero, suc, ◌+◌, Bool, true, false, Option, none, some, List, [], ◌∷◌, ◌++◌, ◌==◌, leb,
  if◌then◌else◌, length, get_elem?, set, replicate,
}

-- Where a thread stands: in front of the wait, behind it, and with a request that it works on.
pub data Phase : Type 0 where
  sleeping : Phase
  woken : Phase
  serving : ℕ → Phase

-- `posting` counts the callers of `append` that are between the unlock and the post.
pub record Pool : Type 0 where
  pub queue : List ℕ
  pub stat : ℕ
  pub posting : ℕ
  pub max_requests : ℕ
  pub states : ℕ → ℕ
  pub threads : List Phase
  pub accepted : List ℕ
  pub taken : List ℕ

-- `threadpool(actor_model, connPool, thread_number, max_requests)`; none if it throws. The creation
-- of the threads is taken to succeed.
unfoldable pub create : ℕ → ℕ → (ℕ → ℕ) → Option Pool
create thread_number max_requests states =
    if thread_number == 0
    then none
    else if max_requests == 0
    then none
    else some (record {
      queue = [];
      stat = 0;
      posting = 0;
      max_requests = max_requests;
      states = states;
      threads = replicate thread_number sleeping;
      accepted = [];
      taken = [];
    })

abbrev pub push_back : ℕ → Pool → Pool
push_back r p = record p {
  queue = p.queue ++ r ∷ [];
  posting = p.posting + 1;
  accepted = p.accepted ++ r ∷ [];
}

abbrev pub set_state : ℕ → ℕ → Pool → Pool
set_state r state p = record p { states = λ q. if q == r then state else p.states q }

-- The critical section of `append`, with what it will return.
unfoldable pub append : ℕ → ℕ → Pool → Bool × Pool
append r state p =
    if leb p.max_requests (length p.queue)
    then (false, p)
    else (true, push_back r (set_state r state p))

-- The critical section of `append_p`.
unfoldable pub append_p : ℕ → Pool → Bool × Pool
append_p r p = if leb p.max_requests (length p.queue) then (false, p) else (true, push_back r p)

abbrev pub posted : ℕ → Pool → Pool
posted zero p = p
posted (suc n) p = record p { posting = n; stat = p.stat + 1 }

-- `m_queuestat.post()`, by one of the callers that have pushed.
unfoldable pub post : Pool → Pool
post p = posted p.posting p

abbrev pub move : ℕ → Phase → Pool → Pool
move i ph p = record p { threads = set p.threads i ph }

-- Behind the wait: `front` and `pop_front` under the lock, and the tests around them.
abbrev pub take_front : ℕ → List ℕ → Pool → Pool
take_front i [] p = move i sleeping p
take_front i (r ∷ rs) p =
    move i (if r == 0 then sleeping else serving r)
      (record p { queue = rs; taken = p.taken ++ r ∷ [] })

-- `m_queuestat.wait()`, which leaves a thread where it is while the semaphore is 0. A wait that a
-- signal interrupts fails with EINTR; the result is not looked at, and the thread goes on.
abbrev pub wait : Bool → ℕ → ℕ → Pool → Pool
wait true i stat p = move i woken p
wait false i zero p = p
wait false i (suc n) p = move i woken (record p { stat = n })

-- The loop of `run`, for the thread `i` in the given phase, with whether a signal comes.
unfoldable pub run_at : Bool → Phase → ℕ → Pool → Pool
run_at signal sleeping i p = wait signal i p.stat p
run_at signal woken i p = take_front i p.queue p
run_at signal (serving r) i p = move i sleeping p

abbrev pub run_found : Bool → ℕ → Option Phase → Pool → Pool
run_found signal i none p = p
run_found signal i (some ph) p = run_at signal ph i p

-- A step: a caller of `append` or `append_p`, a caller that posts, or a thread of the pool, which a
-- signal may interrupt.
pub data Move : Type 0 where
  appending : ℕ → ℕ → Move
  appending_p : ℕ → Move
  posts : Move
  works : ℕ → Move
  interrupted : ℕ → Move

unfoldable pub step : Move → Pool → Pool
unfolding append append_p post run_at
step (appending r state) p = (append r state p).1
step (appending_p r) p = (append_p r p).1
step posts p = post p
step (works i) p = run_found false i (get_elem? p.threads i) p
step (interrupted i) p = run_found true i (get_elem? p.threads i) p

unfoldable pub run : List Move → Pool → Pool
unfolding step
run [] p = p
run (m ∷ ms) p = run ms (step m p)
