-- ===== src/Reactor/Loop/Turn.antt =====
-- A turn of the event loop of cpp_server/src/EventLoop.cpp, from `epoll_wait` to `epoll_wait`.
use mathlib.Core.Path.{subst}
use make_linux_server.Base.{
  ℕ, zero, suc, ◌-◌, ◌<◌, ◌≡◌, ap, sym, ◌∙◌, true, false, some, List, [], ◌∷◌, ◌++◌, leb, min,
  length, append_assoc, append-nil, arith,
}
use make_linux_server.Reactor.Loop.{
  woken, waiting, running, Loop, handle_read, go_on, Move, polls, goes_on, step, run,
}
use make_linux_server.Reactor.Loop.Order.{IsValid, taken}

-- The moves of the loop's thread, for a queue of `n` functions.
abbrev pub calls : ℕ → List Move
calls zero = goes_on ∷ []
calls (suc n) = goes_on ∷ calls n

abbrev pub turn : ℕ → List Move
turn n = polls (woken ∷ []) ∷ goes_on ∷ goes_on ∷ goes_on ∷ calls n

calls_lem :
    (fs : List ℕ) (l : Loop)
    → run (calls (length fs)) (record l { phase = running fs })
      ≡ some (record l { phase = waiting; calling_functors = false; done = l.done ++ fs })
unfolding run step go_on
calls_lem [] l =
    ap (λ d. some (record l { phase = waiting; calling_functors = false; done = d }))
      (sym (append-nil l.done))
calls_lem (f ∷ fs) l =
    calls_lem fs (record l { done = l.done ++ f ∷ [] })
    ∙ ap (λ d. some (record l { phase = waiting; calling_functors = false; done = d }))
        (append_assoc l.done (f ∷ []) fs)

woken_turn :
    (n : ℕ) (l : Loop)
    → run (turn (length l.to_do)) (record l { phase = waiting; wakeup = suc n })
      ≡ some (record l {
        phase = waiting;
        wakeup = 0;
        calling_functors = false;
        to_do = [];
        done = l.done ++ l.to_do;
      })
unfolding run step go_on handle_read
woken_turn n l =
    let h : leb 1 (min 1 (suc n)) ≡ true = ground arith in
    rw h (calls_lem l.to_do (record l { wakeup = 0; calling_functors = true; to_do = [] }))

-- A woken loop calls everything. When the loop waits and the eventfd's counter is not 0, one turn of
-- its thread, as many moves as there are functions and five more, calls all functions that have been
-- queued, empties the queue, resets the counter and ends in `epoll_wait` again.
pub turn_lem :
    (l : Loop)
    → IsValid l
    → l.phase ≡ waiting
    → 0 < l.wakeup
    → run (turn (length l.to_do)) l
      ≡ some (record l { wakeup = 0; calling_functors = false; to_do = []; done = l.queued })
turn_lem l v p h =
    let more : l.wakeup ≡ suc (l.wakeup - 1) = omega arith in
    let all : l.done ++ l.to_do ≡ l.queued =
      subst (λ q. l.done ++ (taken q ++ l.to_do) ≡ l.queued) p v.in_order in
    (λ i. run (turn (length l.to_do)) (record l { phase = p i; wakeup = more i }))
    ∙ woken_turn (l.wakeup - 1) l
    ∙ (λ i. some (record l {
      phase = sym p i;
      wakeup = 0;
      calling_functors = false;
      to_do = [];
      done = all i;
    }))
