-- ===== src/ThreadPool/Tests.antt =====
-- A pool of two threads with a queue of at most two requests.
use make_linux_server.Base.{ℕ, ◌≤◌, ◌≡◌, refl, some, List, [], ◌∷◌, arith}
use make_linux_server.ThreadPool.{
  Pool, sleeping, create, Move, appending, appending_p, posts, works, interrupted, step, run,
  append, append_p, post, run_at,
}
use make_linux_server.ThreadPool.Safety.{IsValid, run-IsValid, create-IsValid}
use make_linux_server.ThreadPool.Progress.{Takes, run-progress}

abbrev fresh : Pool
fresh = record {
  queue = [];
  stat = 0;
  posting = 0;
  max_requests = 2;
  states = λ r. 0;
  threads = sleeping ∷ sleeping ∷ [];
  accepted = [];
  taken = [];
}

fresh-created : create 2 2 (λ r. 0) ≡ some fresh
unfolding create
fresh-created = refl

create-IsValid_example : IsValid fresh
create-IsValid_example = create-IsValid 2 2 (λ r. 0) fresh fresh-created

fresh-IsValid : IsValid fresh
fresh-IsValid = record { signalled = omega arith; bounded = omega arith; in_order = refl }

-- Two requests, a third that is refused, a thread that wakes up and takes the first, and one whose wait
-- is interrupted.
abbrev busy : List Move
busy =
    appending 11 0
    ∷ posts
    ∷ appending_p 12
    ∷ appending 13 1
    ∷ posts
    ∷ works 0
    ∷ works 0
    ∷ interrupted 1
    ∷ []

run-IsValid_example : IsValid (run busy fresh)
run-IsValid_example = run-IsValid busy fresh fresh-IsValid

still_waiting : (run busy fresh).queue ≡ 12 ∷ []
unfolding run step append append_p post run_at
still_waiting = refl

run-progress_example : (i : ℕ) × (n : ℕ) × (n ≤ 3) × Takes 12 [] (run busy fresh) i n
unfolding run step append append_p post run_at
run-progress_example = run-progress busy fresh 12 [] fresh-IsValid (omega arith) still_waiting refl
