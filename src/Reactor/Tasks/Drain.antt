-- ===== src/Reactor/Tasks/Drain.antt =====
-- That the threads of cpp_server/src/ThreadPool.cpp take every task once, in order, and that the
-- destructor's wait for them ends only when the queue is empty.
use make_linux_server.Base.{
  append-nil, ◌<◌, ℕ, ◌≡◌, refl, ap, sym, ◌∙◌, Bool, true, false, Option, none, some, List, [], ◌∷◌,
  ◌++◌, append_assoc, get_elem?, arith,
}
use make_linux_server.Base.Threads.{total, total-set}
use make_linux_server.Reactor.Tasks.{
  Phase, waiting, working, finished, Pool, add, add_unless, take_task, work_at, work_found, Move,
  adding, stopping, works, step, run,
}

abbrev pub is_finished : Phase → ℕ
is_finished waiting = 0
is_finished (working t) = 0
is_finished finished = 1

-- A thread has returned only when the pool is stopped and the queue empty; what was taken, followed
-- by the queue, is what was added.
pub record IsValid (p : Pool) : Type 0 where
  pub in_order : p.taken ++ p.task_queue ≡ p.added
  pub drained : 0 < total is_finished p.workers → (p.stop ≡ true) × (p.task_queue ≡ [])

add_unless-IsValid :
    (stop : Bool) (task : ℕ) (p : Pool)
    → p.stop ≡ stop
    → IsValid p
    → IsValid (add_unless stop task p).1
add_unless-IsValid true task p e v = v
add_unless-IsValid false task p e v = record {
  in_order =
      sym (append_assoc p.taken p.task_queue (task ∷ [])) ∙ ap (λ xs. xs ++ task ∷ []) v.in_order;
  drained = λ h. let d = v.drained h in absurd (ground (arith, d.0, e));
}

take_task-IsValid :
    (i : ℕ) (ts : List ℕ) (stop : Bool) (p : Pool)
    → p.task_queue ≡ ts
    → p.stop ≡ stop
    → get_elem? p.workers i ≡ some waiting
    → IsValid p
    → IsValid (take_task i ts stop p)
take_task-IsValid i [] false p n e g v = v
take_task-IsValid i [] true p n e g v = record { in_order = v.in_order; drained = λ h. (e, n) }
take_task-IsValid i (t ∷ ts) stop p n e g v =
    let h = total-set is_finished p.workers i waiting (working t) g in
    record {
      in_order = append_assoc p.taken (t ∷ []) ts ∙ ap (λ xs. p.taken ++ xs) (sym n) ∙ v.in_order;
      drained = λ k. let d = v.drained (omega (arith, h, k)) in absurd (ground (arith, d.1, n));
    }

work_at-IsValid :
    (ph : Phase) (i : ℕ) (p : Pool)
    → get_elem? p.workers i ≡ some ph
    → IsValid p
    → IsValid (work_at ph i p)
unfolding work_at
work_at-IsValid waiting i p g v = take_task-IsValid i p.task_queue p.stop p refl refl g v
work_at-IsValid (working t) i p g v =
    let h = total-set is_finished p.workers i (working t) waiting g in
    record { in_order = v.in_order; drained = λ k. v.drained (omega (arith, h, k)) }
work_at-IsValid finished i p g v = v

work_found-IsValid :
    (o : Option Phase) (i : ℕ) (p : Pool)
    → get_elem? p.workers i ≡ o
    → IsValid p
    → IsValid (work_found i o p)
work_found-IsValid none i p g v = v
work_found-IsValid (some ph) i p g v = work_at-IsValid ph i p g v

step-IsValid : (m : Move) (p : Pool) → IsValid p → IsValid (step m p)
unfolding step add
step-IsValid (adding task) p v = add_unless-IsValid p.stop task p refl v
step-IsValid stopping p v = record { in_order = v.in_order; drained = λ h. (refl, (v.drained h).1) }
step-IsValid (works i) p v = work_found-IsValid (get_elem? p.workers i) i p refl v

run-IsValid : (ms : List Move) (p : Pool) → IsValid p → IsValid (run ms p)
unfolding run
run-IsValid [] p v = v
run-IsValid (m ∷ ms) p v = run-IsValid ms (step m p) (step-IsValid m p v)

-- From a pool in order, as a new one is, under every schedule, what the threads have taken, followed by
-- what is in the queue, is what was added: the tasks are taken in the order in which they were added, none twice and none left out.
pub run-in_order :
    (ms : List Move) (p : Pool)
    → IsValid p
    → (run ms p).taken ++ (run ms p).task_queue ≡ (run ms p).added
run-in_order ms p v = (run-IsValid ms p v).in_order

-- Once a thread has returned, as the destructor waits for, under any schedule from a pool in order, the
-- queue is empty and
-- the tasks taken are exactly those that were added, in the same order.
pub run-drains :
    (ms : List Move) (p : Pool) (i : ℕ)
    → IsValid p
    → get_elem? (run ms p).workers i ≡ some finished
    → ((run ms p).task_queue ≡ []) × ((run ms p).taken ≡ (run ms p).added)
run-drains ms p i v g =
    let q = run ms p in
    let w = run-IsValid ms p v in
    let h = total-set is_finished q.workers i finished waiting g in
    let d = w.drained (omega (arith, h)) in
    (d.1, sym (append-nil q.taken) ∙ ap (λ xs. q.taken ++ xs) (sym d.1) ∙ w.in_order)
