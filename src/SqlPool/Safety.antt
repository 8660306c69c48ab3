-- ===== src/SqlPool/Safety.antt =====
-- sql_connection_pool.cpp under every schedule: whether a thread finds the list empty behind the wait, and
-- whether a connection is lost, made up or handed to two threads.
use make_linux_server.Base.{
  ℕ, ◌+◌, ◌≤◌, ◌≡◌, ◌≢◌, refl, ap, Bool, true, false, Option, none, some, List, [], ◌∷◌, ◌==◌,
  if◌then◌else◌, get_elem?, set, length, length-append, arith, Option-cases, inl, inr,
  get_elem?-set_ne, ◌∙◌,
}
use make_linux_server.Base.Int.{pos}
use make_linux_server.Base.Threads.{total, total-set, count, total-append, is_one}
use make_linux_server.SqlPool.{take_front, put_back}
use make_linux_server.SqlPool.System.{
  Phase, outside, tested, waited, holding, pushed, System, step_at, step_found, Move, works,
  interrupted, step, run,
}

abbrev pub in_transit : Phase → ℕ
in_transit waited = 1
in_transit pushed = 1
in_transit ph = 0

abbrev pub holds_any : Phase → ℕ
holds_any (holding con) = 1
holds_any ph = 0

abbrev pub holds : ℕ → Phase → ℕ
holds c (holding con) = if con == c then 1 else 0
holds c ph = 0

holds_self : (c : ℕ) → holds c (holding c) ≡ 1
holds_self c = ground arith

-- How often the connection `c` is in the list or with a thread.
abbrev pub occurs : ℕ → System → ℕ
occurs c s = count c s.pool.conn_list + total (holds c) s.phases

-- A thread behind the wait has an element of the list as its own, and so has every unit of the
-- semaphore; the counters say how many connections are in the list and how many are out.
pub record IsValid (s : System) : Type 0 where
  pub no_fault : s.fault ≡ false
  pub reserved : length s.pool.conn_list ≡ s.pool.reserve + total in_transit s.phases
  pub free_counted : s.pool.free_conn ≡ pos (length s.pool.conn_list)
  pub cur_counted : s.pool.cur_conn ≡ pos (total holds_any s.phases)
  pub no_null : occurs 0 s ≡ 0

module _ (s : System) (i : ℕ) (v : IsValid s) where
  -- The sums when thread `i` goes from one phase to another.
  abbrev Sums : Phase → Phase → Type 0
  Sums p q =
      (total in_transit (set s.phases i q) + in_transit p
        ≡ total in_transit s.phases + in_transit q)
      × (total holds_any (set s.phases i q) + holds_any p ≡ total holds_any s.phases + holds_any q)
      × ((c : ℕ)
          → total (holds c) (set s.phases i q) + holds c p ≡ total (holds c) s.phases + holds c q)

  sums : (p q : Phase) → get_elem? s.phases i ≡ some p → Sums p q
  sums p q e = (
    total-set in_transit s.phases i p q e,
    total-set holds_any s.phases i p q e,
    λ c. total-set (holds c) s.phases i p q e,
  )

  waited-IsValid :
      (xs : List ℕ)
      → s.pool.conn_list ≡ xs
      → get_elem? s.phases i ≡ some waited
      → IsValid (step_at false waited i s)
  unfolding step_at take_front
  waited-IsValid [] n e =
      let h = sums waited outside e in absurd (omega (arith, h.0, v.reserved, ap length n))
  waited-IsValid (c ∷ cs) n e =
      let h = sums waited (holding c) e in
      rw n (record {
        no_fault = v.no_fault;
        reserved = omega (arith, h.0, v.reserved, ap length n);
        free_counted = rw v.free_counted (rw n (ground arith));
        cur_counted = rw v.cur_counted (ground (arith, h.1));
        no_null = omega (arith, h.2 0, v.no_null, ap (count 0) n);
      })

  holding-IsValid :
      (con : ℕ)
      → get_elem? s.phases i ≡ some (holding con)
      → IsValid (step_at false (holding con) i s)
  unfolding step_at put_back
  holding-IsValid con e =
      let h = sums (holding con) pushed e in
      let real : (con == 0) ≡ false = ground (arith, h.2 0, v.no_null) in
      rw real (record {
        no_fault = v.no_fault;
        reserved = omega (arith, h.0, v.reserved, length-append s.pool.conn_list (con ∷ []));
        free_counted = rw (v.free_counted, length-append) (ground arith);
        cur_counted = rw v.cur_counted (ground (arith, h.1));
        no_null =
            ground (arith, h.2 0, v.no_null, total-append (is_one 0) s.pool.conn_list (con ∷ []));
      })

  step_at-IsValid : (ph : Phase) → get_elem? s.phases i ≡ some ph → IsValid (step_at false ph i s)
  unfolding step_at
  step_at-IsValid outside e = let h = sums outside tested e in ground (arith, h.0, h.1, h.2 0)
  step_at-IsValid tested e = let h = sums tested waited e in ground (arith, h.0, h.1, h.2 0)
  step_at-IsValid waited e = waited-IsValid s.pool.conn_list refl e
  step_at-IsValid (holding con) e = holding-IsValid con e
  step_at-IsValid pushed e = let h = sums pushed outside e in ground (arith, h.0, h.1, h.2 0)

  step-IsValid : IsValid (step (works i) s)
  unfolding step
  step-IsValid = elim (Option-cases (get_elem? s.phases i)) [
    | inl e ↦ rw e v
    | inr (ph, e) ↦ rw e (step_at-IsValid ph e)
  ]

-- A step, interrupted or not, moves no connection out of the system and none into it.
module _ (s : System) (i c : ℕ) (real : occurs 0 s ≡ 0) where
  sum :
      (a : ℕ) (p q : Phase)
      → get_elem? s.phases i ≡ some p
      → total (holds a) (set s.phases i q) + holds a p ≡ total (holds a) s.phases + holds a q
  sum a p q e = total-set (holds a) s.phases i p q e

  waited-occurs :
      (b : Bool) (xs : List ℕ)
      → s.pool.conn_list ≡ xs
      → get_elem? s.phases i ≡ some waited
      → occurs c (step_at b waited i s) ≡ occurs c s
  unfolding step_at take_front
  waited-occurs b [] n e = rw n (omega (arith, ap (count c) n))
  waited-occurs b (x ∷ xs) n e = rw n (omega (arith, sum c waited (holding x) e, ap (count c) n))

  step_at-occurs :
      (b : Bool) (ph : Phase)
      → get_elem? s.phases i ≡ some ph
      → occurs c (step_at b ph i s) ≡ occurs c s
  unfolding step_at put_back
  step_at-occurs b outside e = ground (arith, sum c outside tested e)
  step_at-occurs true tested e = ground (arith, sum c tested waited e)
  step_at-occurs false tested e = ground (arith, sum c tested waited e)
  step_at-occurs b waited e = waited-occurs b s.pool.conn_list refl e
  step_at-occurs b (holding con) e =
      let h = sum 0 (holding con) pushed e in
      let some_con : (con == 0) ≡ false = ground (arith, h, real) in
      rw some_con (
        omega (
          arith,
          sum c (holding con) pushed e,
          total-append (is_one c) s.pool.conn_list (con ∷ []),
        ))
  step_at-occurs b pushed e = ground (arith, sum c pushed outside e)

  step_found-occurs :
      (b : Bool) (o : Option Phase)
      → get_elem? s.phases i ≡ o
      → occurs c (step_found b i o s) ≡ occurs c s
  step_found-occurs b none e = refl
  step_found-occurs b (some ph) e = step_at-occurs b ph e

step-occurs : (m : Move) (s : System) (c : ℕ) → occurs 0 s ≡ 0 → occurs c (step m s) ≡ occurs c s
unfolding step
step-occurs (works i) s c z = step_found-occurs s i c z false (get_elem? s.phases i) refl
step-occurs (interrupted i) s c z = step_found-occurs s i c z true (get_elem? s.phases i) refl

run-occurs :
    (ms : List Move) (s : System) (c : ℕ) → occurs 0 s ≡ 0 → occurs c (run ms s) ≡ occurs c s
unfolding run
run-occurs [] s c z = refl
run-occurs (m ∷ ms) s c z =
    run-occurs ms (step m s) c (step-occurs m s 0 z ∙ z) ∙ step-occurs m s c z

-- No signal interrupts a wait.
abbrev pub Undisturbed : List Move → Type 0
Undisturbed [] = Unit
Undisturbed (works i ∷ ms) = Undisturbed ms
Undisturbed (interrupted i ∷ ms) = ⊥

-- From a consistent pool, under every schedule in which no signal interrupts a wait, the pool stays so: no thread calls
-- `front()` on an empty list, the counters agree with the list and the threads, and each connection is
-- in the list or with a thread as often as at the start.
pub run_safe :
    (ms : List Move) (s : System)
    → Undisturbed ms
    → IsValid s
    → IsValid (run ms s) × ((c : ℕ) → occurs c (run ms s) ≡ occurs c s)
unfolding run
run_safe [] s u v = (v, λ c. refl)
run_safe (works i ∷ ms) s u v =
    let r = run_safe ms (step (works i) s) u (step-IsValid s i v) in
    (r.0, λ c. r.1 c ∙ step-occurs (works i) s c v.no_null)
run_safe (interrupted i ∷ ms) s u v = elim u [ ]

total-one :
    (w : Phase → ℕ) (ps : List Phase) (i : ℕ) (p : Phase)
    → w outside ≡ 0
    → get_elem? ps i ≡ some p
    → w p ≤ total w ps
total-one w ps i p z e = omega (arith, total-set w ps i p outside e)

total-two :
    (w : Phase → ℕ) (ps : List Phase) (i j : ℕ) (p q : Phase)
    → i ≢ j
    → w outside ≡ 0
    → get_elem? ps i ≡ some p
    → get_elem? ps j ≡ some q
    → w p + w q ≤ total w ps
total-two w ps i j p q n z ei ej = omega (
  arith,
  total-set w ps i p outside ei,
  total-one w (set ps i outside) j q z (get_elem?-set_ne ps outside n ∙ ej),
)

-- No schedule makes two threads hold the same connection, if at the start no NULL is in the system and
-- the connection once at most. Signals may interrupt waits, as long as no thread has called `front()`
-- on an empty list, behind which the behaviour is undefined.
pub run_exclusive :
    (ms : List Move) (s : System) (i j c : ℕ)
    → occurs 0 s ≡ 0
    → occurs c s ≤ 1
    → i ≢ j
    → (run ms s).fault ≡ false
    → get_elem? (run ms s).phases i ≡ some (holding c)
    → get_elem? (run ms s).phases j ≢ some (holding c)
run_exclusive ms s i j c z o n defined ei ej = omega (
  arith,
  run-occurs ms s c z,
  total-two (holds c) (run ms s).phases i j (holding c) (holding c) n refl ei ej,
  holds_self c,
)
