-- ===== src/ThreadPool/Safety.antt =====
-- threadpool.h under every schedule, interrupted waits included: the queue is bounded, and each
-- accepted request is taken once at most, in order, and is in the queue until then.
use mathlib.Core.Path.{subst}
use make_linux_server.Base.{
  ℕ, zero, suc, ◌+◌, ◌≤◌, ◌<◌, ◌≡◌, refl, ap, sym, ◌∙◌, Bool, true, false, Option, none, some, List,
  [], ◌∷◌, ◌++◌, ◌==◌, leb, if◌then◌else◌, length, length-append, append_assoc, get_elem?,
  replicate, arith, Bool-cases, inl, inr,
}
use make_linux_server.Base.Threads.{total, total-set}
use make_linux_server.ThreadPool.{
  Phase, sleeping, woken, serving, Pool, create, append, append_p, post, posted, push_back,
  set_state, take_front, wait, run_at, run_found, Move, appending, appending_p, posts, works,
  interrupted, step, run,
}

abbrev pub is_woken : Phase → ℕ
is_woken sleeping = 0
is_woken woken = 1
is_woken (serving r) = 0

-- Each element of the queue has a unit of the semaphore, a post that is due, or a thread behind its
-- wait. There may be more of these than elements, after a wait that was interrupted.
pub record IsValid (p : Pool) : Type 0 where
  pub signalled : length p.queue ≤ p.stat + p.posting + total is_woken p.threads
  pub bounded : length p.queue ≤ p.max_requests
  pub in_order : p.taken ++ p.queue ≡ p.accepted

push_back-IsValid :
    (r : ℕ) (p : Pool) → length p.queue < p.max_requests → IsValid p → IsValid (push_back r p)
push_back-IsValid r p h v = record {
  signalled = omega (arith, v.signalled, length-append p.queue (r ∷ []));
  bounded = omega (arith, length-append p.queue (r ∷ []));
  in_order = sym (append_assoc p.taken p.queue (r ∷ [])) ∙ ap (λ xs. xs ++ r ∷ []) v.in_order;
}

set_state-IsValid : (r state : ℕ) (p : Pool) → IsValid p → IsValid (set_state r state p)
set_state-IsValid r state p v = record {
  signalled = v.signalled;
  bounded = v.bounded;
  in_order = v.in_order;
}

append-IsValid : (r state : ℕ) (p : Pool) → IsValid p → IsValid (append r state p).1
unfolding append
append-IsValid r state p v = elim (Bool-cases (leb p.max_requests (length p.queue))) [
  | inl e ↦ rw e v
  | inr e ↦
      rw e
        (push_back-IsValid r (set_state r state p) (ground arith) (set_state-IsValid r state p v))
]

append_p-IsValid : (r : ℕ) (p : Pool) → IsValid p → IsValid (append_p r p).1
unfolding append_p
append_p-IsValid r p v = elim (Bool-cases (leb p.max_requests (length p.queue))) [
  | inl e ↦ rw e v
  | inr e ↦ rw e (push_back-IsValid r p (ground arith) v)
]

posted-IsValid : (n : ℕ) (p : Pool) → p.posting ≡ n → IsValid p → IsValid (posted n p)
posted-IsValid zero p e v = v
posted-IsValid (suc n) p e v = record {
  signalled = omega (arith, v.signalled, e);
  bounded = v.bounded;
  in_order = v.in_order;
}

take_front-IsValid :
    (i : ℕ) (rs : List ℕ) (p : Pool)
    → p.queue ≡ rs
    → get_elem? p.threads i ≡ some woken
    → IsValid p
    → IsValid (take_front i rs p)
take_front-IsValid i [] p n e v = record {
  signalled = omega (arith, ap length n);
  bounded = v.bounded;
  in_order = v.in_order;
}
take_front-IsValid i (r ∷ rs) p n e v =
    let next : Phase = if r == 0 then sleeping else serving r in
    let h = total-set is_woken p.threads i woken next e in
    let z : is_woken next ≡ 0 = ground arith in
    record {
      signalled = omega (arith, h, z, v.signalled, ap length n);
      bounded = omega (arith, v.bounded, ap length n);
      in_order = append_assoc p.taken (r ∷ []) rs ∙ ap (λ xs. p.taken ++ xs) (sym n) ∙ v.in_order;
    }

wait-IsValid :
    (signal : Bool) (i n : ℕ) (p : Pool)
    → p.stat ≡ n
    → get_elem? p.threads i ≡ some sleeping
    → IsValid p
    → IsValid (wait signal i n p)
wait-IsValid true i n p e g v =
    let h = total-set is_woken p.threads i sleeping woken g in
    record { signalled = omega (arith, h, v.signalled); bounded = v.bounded; in_order = v.in_order }
wait-IsValid false i zero p e g v = v
wait-IsValid false i (suc n) p e g v =
    let h = total-set is_woken p.threads i sleeping woken g in
    record {
      signalled = omega (arith, h, v.signalled, e);
      bounded = v.bounded;
      in_order = v.in_order;
    }

run_at-IsValid :
    (signal : Bool) (ph : Phase) (i : ℕ) (p : Pool)
    → get_elem? p.threads i ≡ some ph
    → IsValid p
    → IsValid (run_at signal ph i p)
unfolding run_at
run_at-IsValid signal sleeping i p e v = wait-IsValid signal i p.stat p refl e v
run_at-IsValid signal woken i p e v = take_front-IsValid i p.queue p refl e v
run_at-IsValid signal (serving r) i p e v =
    let h = total-set is_woken p.threads i (serving r) sleeping e in
    record { signalled = omega (arith, h, v.signalled); bounded = v.bounded; in_order = v.in_order }

run_found-IsValid :
    (signal : Bool) (o : Option Phase) (i : ℕ) (p : Pool)
    → get_elem? p.threads i ≡ o
    → IsValid p
    → IsValid (run_found signal i o p)
run_found-IsValid signal none i p e v = v
run_found-IsValid signal (some ph) i p e v = run_at-IsValid signal ph i p e v

step-IsValid : (m : Move) (p : Pool) → IsValid p → IsValid (step m p)
unfolding step post
step-IsValid (appending r state) p v = append-IsValid r state p v
step-IsValid (appending_p r) p v = append_p-IsValid r p v
step-IsValid posts p v = posted-IsValid p.posting p refl v
step-IsValid (works i) p v = run_found-IsValid false (get_elem? p.threads i) i p refl v
step-IsValid (interrupted i) p v = run_found-IsValid true (get_elem? p.threads i) i p refl v

-- From a pool where this holds, as for a new one, under every schedule, waits that a signal interrupts
-- included, the queue holds at most the maximum, there are at least as many units of the semaphore, posts that are due and threads behind their wait
-- as requests in the queue, and what the threads have taken, followed by what is in the queue, is what
-- was accepted: each accepted request is taken at most once, in the order of acceptance, and none is
-- lost.
pub run-IsValid : (ms : List Move) (p : Pool) → IsValid p → IsValid (run ms p)
unfolding run
run-IsValid [] p v = v
run-IsValid (m ∷ ms) p v = run-IsValid ms (step m p) (step-IsValid m p v)

total-replicate : (n : ℕ) → total is_woken (replicate n sleeping) ≡ 0
total-replicate zero = refl
total-replicate (suc n) = omega (arith, total-replicate n)

-- A pool that was constructed is in order.
pub create-IsValid :
    (thread_number max_requests : ℕ) (states : ℕ → ℕ) (p : Pool)
    → create thread_number max_requests states ≡ some p
    → IsValid p
unfolding create
create-IsValid n m states p h = elim (Bool-cases (n == 0)) [
  | inl e ↦ absurd (ground (arith, h))
  | inr e ↦ elim (Bool-cases (m == 0)) [
    | inl f ↦ absurd (ground (arith, h))
    | inr f ↦
        let fresh : Pool = record {
          queue = [];
          stat = 0;
          posting = 0;
          max_requests = m;
          states = states;
          threads = replicate n sleeping;
          accepted = [];
          taken = [];
        } in
        let made : create n m states ≡ some fresh = rw (e, f) refl in
        let same : fresh ≡ p = ap (λ o. elim o [ none ↦ fresh | some q ↦ q ]) (sym made ∙ h) in
        subst IsValid same (record {
          signalled = omega (arith, total-replicate n);
          bounded = omega arith;
          in_order = refl;
        })
  ]
]
