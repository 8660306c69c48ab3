-- ===== src/SqlPool/Tests.antt =====
-- sql_connection_pool.cpp at a pool of two connections, 11 and 12, and three threads.
use make_linux_server.Base.{
  ℕ, ◌+◌, ◌≡◌, ◌≢◌, refl, true, false, Option, some, List, [], ◌∷◌, get_elem?, arith,
}
use make_linux_server.Base.Int.{pos}
use make_linux_server.SqlPool.{Pool, take_front, put_back}
use make_linux_server.SqlPool.System.{
  outside, tested, holding, System, Move, works, interrupted, step_at, step, run,
}
use make_linux_server.SqlPool.Safety.{IsValid, occurs, run_safe, run_exclusive}

abbrev pool_of_two : Pool
pool_of_two = record {
  conn_list = 11 ∷ 12 ∷ [];
  free_conn = pos 2;
  cur_conn = pos 0;
  max_conn = pos 2;
  reserve = 2;
}

abbrev idle : System
idle = record { pool = pool_of_two; phases = outside ∷ outside ∷ outside ∷ []; fault = false }

idle-IsValid : IsValid idle
idle-IsValid = record {
  no_fault = refl;
  reserved = refl;
  free_counted = refl;
  cur_counted = refl;
  no_null = refl;
}

-- Two threads take a connection each and one gives its own back, interleaved.
abbrev schedule : List Move
schedule =
    works 0 ∷ works 1 ∷ works 1 ∷ works 0 ∷ works 1 ∷ works 0 ∷ works 1 ∷ works 2 ∷ works 1 ∷ []

run_safe_example :
    IsValid (run schedule idle) × ((c : ℕ) → occurs c (run schedule idle) ≡ occurs c idle)
run_safe_example = run_safe schedule idle tt idle-IsValid

after_schedule : (run schedule idle).phases ≡ holding 12 ∷ outside ∷ tested ∷ []
unfolding run step step_at take_front put_back
after_schedule = refl

-- A thread takes a connection, by a wait that is interrupted.
abbrev first_taken : List Move
first_taken = works 0 ∷ interrupted 0 ∷ works 0 ∷ []

run_exclusive_example : get_elem? (run first_taken idle).phases 1 ≢ some (holding 11)
unfolding run step step_at take_front
run_exclusive_example =
    run_exclusive first_taken idle 0 1 11 refl (omega arith) (λ e. omega arith) refl refl

-- Three threads have passed the size test when the third one's wait is interrupted: it finds the list
-- empty.
abbrev disturbed : List Move
disturbed =
    works 0
    ∷ works 1
    ∷ works 2
    ∷ works 0
    ∷ works 1
    ∷ works 0
    ∷ works 1
    ∷ interrupted 2
    ∷ works 2
    ∷ []

empty_front : (run disturbed idle).fault ≡ true
unfolding run step step_at take_front
empty_front = refl

abbrev answers : ℕ → Option ℕ
answers i = some (i + 11)
