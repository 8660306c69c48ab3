-- ===== src/ThreadPool/Progress.antt =====
-- That threadpool.h forgets no request: there is always a thread that takes the next one.
use make_linux_server.Base.{
  ℕ, zero, suc, ◌≤◌, ◌<◌, ◌≡◌, refl, ap, ◌∙◌, Bool, true, false, Option, none, some, List, [], ◌∷◌,
  ◌++◌, ◌==◌, if◌then◌else◌, length, length-set, get_elem?, get_elem?-set_self, arith,
}
use make_linux_server.Base.Threads.{total}
use make_linux_server.ThreadPool.{
  Phase, sleeping, woken, serving, Pool, move, take_front, wait, append, append_p, post, posted,
  run_at, run_found, Move, appending, appending_p, posts, works, interrupted, step, run,
}
use make_linux_server.ThreadPool.Safety.{IsValid, is_woken, run-IsValid}

-- A thread that is behind its wait, if there is one.
find_woken : (ps : List Phase) → 0 < total is_woken ps → (i : ℕ) × (get_elem? ps i ≡ some woken)
find_woken [] h = absurd (omega arith)
find_woken (sleeping ∷ ps) h = let (i, e) = find_woken ps (omega arith) in (suc i, e)
find_woken (woken ∷ ps) h = (0, refl)
find_woken (serving r ∷ ps) h = let (i, e) = find_woken ps (omega arith) in (suc i, e)

-- The thread `i` goes on `n` times.
abbrev pub turns : ℕ → ℕ → List Move
turns zero i = []
turns (suc n) i = works i ∷ turns n i

-- The request at the head has been taken, when the thread has gone on `n` times.
abbrev pub Takes : ℕ → List ℕ → Pool → ℕ → ℕ → Type 0
Takes r rs p i n =
    ((run (turns n i) p).taken ≡ p.taken ++ r ∷ []) × ((run (turns n i) p).queue ≡ rs)

step-works :
    (p : Pool) (i : ℕ) (ph : Phase)
    → get_elem? p.threads i ≡ some ph
    → step (works i) p ≡ run_at false ph i p
unfolding step
step-works p i ph e = ap (λ o. run_found false i o p) e

woken-Takes :
    (p : Pool) (i r : ℕ) (rs : List ℕ)
    → p.queue ≡ r ∷ rs
    → get_elem? p.threads i ≡ some woken
    → Takes r rs p i 1
unfolding run run_at
woken-Takes p i r rs q e =
    let next = take_front i (r ∷ rs) p in
    let s : step (works i) p ≡ next = step-works p i woken e ∙ ap (λ xs. take_front i xs p) q in
    (ap (λ (t : Pool). t.taken) s, ap (λ (t : Pool). t.queue) s)

lt-get_elem? : (ps : List Phase) (i : ℕ) (ph : Phase) → get_elem? ps i ≡ some ph → i < length ps
lt-get_elem? [] i ph h = absurd (ground (arith, h))
lt-get_elem? (x ∷ xs) zero ph h = omega arith
lt-get_elem? (x ∷ xs) (suc i) ph h = omega (arith, lt-get_elem? xs i ph h)

-- What a thread does from each phase: in front of the wait with a unit of the semaphore left, and
-- with a request that it works on.
sleeping-Takes :
    (p : Pool) (i r n : ℕ) (rs : List ℕ)
    → p.queue ≡ r ∷ rs
    → p.stat ≡ suc n
    → get_elem? p.threads i ≡ some sleeping
    → Takes r rs p i 2
unfolding run run_at
sleeping-Takes p i r n rs q e g =
    let next : Pool = move i woken (record p { stat = n }) in
    let s : step (works i) p ≡ next = step-works p i sleeping g ∙ ap (λ k. wait false i k p) e in
    let t =
      woken-Takes next i r rs q
        (get_elem?-set_self p.threads i woken (lt-get_elem? p.threads i sleeping g)) in
    (
      ap (λ (o : Pool). (run (turns 1 i) o).taken) s ∙ t.0,
      ap (λ (o : Pool). (run (turns 1 i) o).queue) s ∙ t.1,
    )

serving-Takes :
    (p : Pool) (i r c n : ℕ) (rs : List ℕ)
    → p.queue ≡ r ∷ rs
    → p.stat ≡ suc n
    → get_elem? p.threads i ≡ some (serving c)
    → Takes r rs p i 3
unfolding run run_at
serving-Takes p i r c n rs q e g =
    let next : Pool = move i sleeping p in
    let s : step (works i) p ≡ next = step-works p i (serving c) g in
    let t =
      sleeping-Takes next i r n rs q e
        (get_elem?-set_self p.threads i sleeping (lt-get_elem? p.threads i (serving c) g)) in
    (
      ap (λ (o : Pool). (run (turns 2 i) o).taken) s ∙ t.0,
      ap (λ (o : Pool). (run (turns 2 i) o).queue) s ∙ t.1,
    )

run_at-threads :
    (b : Bool) (ph : Phase) (i : ℕ) (p : Pool) → length (run_at b ph i p).threads ≡ length p.threads
unfolding run_at
run_at-threads true sleeping i p = length-set p.threads i woken
run_at-threads false sleeping i p =
    elim p.stat as (λ n. length (wait false i n p).threads ≡ length p.threads) [
      | zero ↦ refl
      | suc n ↦ length-set p.threads i woken
    ]
run_at-threads b woken i p =
    elim p.queue as (λ q. length (take_front i q p).threads ≡ length p.threads) [
      | [] ↦ length-set p.threads i sleeping
      | r ∷ rs ↦ length-set p.threads i (if r == 0 then sleeping else serving r)
    ]
run_at-threads b (serving r) i p = length-set p.threads i sleeping

run_found-threads :
    (b : Bool) (o : Option Phase) (i : ℕ) (p : Pool)
    → length (run_found b i o p).threads ≡ length p.threads
run_found-threads b none i p = refl
run_found-threads b (some ph) i p = run_at-threads b ph i p

step-threads : (m : Move) (p : Pool) → length (step m p).threads ≡ length p.threads
unfolding step append append_p post
step-threads (appending r state) p = ground arith
step-threads (appending_p r) p = ground arith
step-threads posts p = elim p.posting as (λ n. length (posted n p).threads ≡ length p.threads) [
  | zero ↦ refl
  | suc n ↦ refl
]
step-threads (works i) p = run_found-threads false (get_elem? p.threads i) i p
step-threads (interrupted i) p = run_found-threads true (get_elem? p.threads i) i p

run-threads : (ms : List Move) (p : Pool) → length (run ms p).threads ≡ length p.threads
unfolding run
run-threads [] p = refl
run-threads (m ∷ ms) p = run-threads ms (step m p) ∙ step-threads m p

-- There is a thread that takes the request at the head, by going on at most three times.
abbrev Taken : ℕ → List ℕ → Pool → Type 0
Taken r rs p = (i : ℕ) × (n : ℕ) × (n ≤ 3) × Takes r rs p i n

first-Taken :
    (p : Pool) (r n : ℕ) (rs : List ℕ) (ps : List Phase)
    → p.queue ≡ r ∷ rs
    → p.stat ≡ suc n
    → p.threads ≡ ps
    → 0 < length ps
    → Taken r rs p
first-Taken p r n rs [] q e g l = absurd (omega arith)
first-Taken p r n rs (sleeping ∷ ps) q e g l =
    (0, 2, omega arith, sleeping-Takes p 0 r n rs q e (ap (λ xs. get_elem? xs 0) g))
first-Taken p r n rs (woken ∷ ps) q e g l =
    (0, 1, omega arith, woken-Takes p 0 r rs q (ap (λ xs. get_elem? xs 0) g))
first-Taken p r n rs (serving c ∷ ps) q e g l =
    (0, 3, omega arith, serving-Takes p 0 r c n rs q e (ap (λ xs. get_elem? xs 0) g))

valid-Taken :
    (p : Pool) (r : ℕ) (rs : List ℕ)
    → IsValid p
    → 0 < length p.threads
    → p.queue ≡ r ∷ rs
    → p.posting ≡ 0
    → Taken r rs p
valid-Taken p r rs v l q z =
    elim p.stat as (λ n. p.stat ≡ n → Taken r rs p) [
      | zero ↦ λ e.
          let (i, g) = find_woken p.threads (omega (arith, v.signalled, ap length q, e, z)) in
          (i, 1, omega arith, woken-Takes p i r rs q g)
      | suc n ↦ λ e. first-Taken p r n rs p.threads q e refl l
    ]
      refl

-- No request is forgotten. After any schedule from a pool in order that has a thread, interrupted
-- waits included, if the queue is not empty and no post is due, there is a thread that takes the
-- request at the head, and no other, within three of its steps when it goes on undisturbed.
pub run-progress :
    (ms : List Move) (p : Pool) (r : ℕ) (rs : List ℕ)
    → IsValid p
    → 0 < length p.threads
    → (run ms p).queue ≡ r ∷ rs
    → (run ms p).posting ≡ 0
    → (i : ℕ) × (n : ℕ) × (n ≤ 3) × Takes r rs (run ms p) i n
run-progress ms p r rs v l q z =
    valid-Taken (run ms p) r rs (run-IsValid ms p v) (omega (arith, run-threads ms p)) q z
