-- ===== src/Timer/Tests.antt =====
-- lst_timer.cpp at concrete lists: timers at the addresses 10, 20 and 30.
use make_linux_server.Base.{ℕ, ◌≡◌, ◌≢◌, refl, Option, none, some, List, [], ◌∷◌, ◌++◌, arith}
use make_linux_server.Timer.{
  Timer, Store, update, add_timer, adjust_timer, del_timer, tick, destroy,
}
use make_linux_server.Timer.Segment.{Entry, timer_at, Fresh}
use make_linux_server.Timer.Insert.{Repr, insert, add_timer_refines}
use make_linux_server.Timer.Adjust.{adjust_timer_refines}
use make_linux_server.Timer.Delete.{del_timer_refines}
use make_linux_server.Timer.Sorted.{IsSorted, NotBefore, Expired}
use make_linux_server.Timer.Tick.{tick_refines, destroy_lem, users, AllFreed}

abbrev early : Entry
early = record { key = 10; expire = 15; user = 1 }

abbrev middle : Entry
middle = record { key = 20; expire = 18; user = 2 }

abbrev late : Entry
late = record { key = 30; expire = 30; user = 3 }

abbrev two_cells : ℕ → Option Timer
two_cells =
    update
      (update (update (λ _. none) 10 (some (timer_at early 0 30))) 30 (some (timer_at late 10 0)))
      20 (some (timer_at middle 0 0))

-- `early` and `late` are in the list, `middle` has just been allocated.
abbrev two : Store
two = record { cell = two_cells; head = 10; tail = 30 }

two-Repr : Repr two (early ∷ late ∷ [])
two-Repr = record {
  seg = ((λ p. omega arith), refl, ((λ p. omega arith), refl, tt));
  distinct = (((λ p. omega arith), tt), (tt, tt));
  head_first = refl;
  tail_last = refl;
}

abbrev three : Store
three = record {
  cell =
      update
        (update (update (λ _. none) 10 (some (timer_at early 0 20))) 20
          (some (timer_at middle 10 30)))
        30 (some (timer_at late 20 0));
  head = 10;
  tail = 30;
}

three-Repr : Repr three (early ∷ middle ∷ late ∷ [])
three-Repr = record {
  seg = ((λ p. omega arith), refl, ((λ p. omega arith), refl, ((λ p. omega arith), refl, tt)));
  distinct = (((λ p. omega arith), ((λ p. omega arith), tt)), (((λ p. omega arith), tt), (tt, tt)));
  head_first = refl;
  tail_last = refl;
}

-- The timer at 10 now expires at 25.
abbrev bumped : Entry
bumped = record early { expire = 25 }

abbrev bumped_store : Store
bumped_store = record three { cell = update three.cell 10 (some (timer_at bumped 0 20)) }

bumped-Repr : Repr bumped_store (bumped ∷ middle ∷ late ∷ [])
bumped-Repr = record {
  seg = ((λ p. omega arith), refl, ((λ p. omega arith), refl, ((λ p. omega arith), refl, tt)));
  distinct = three-Repr.distinct;
  head_first = refl;
  tail_last = refl;
}

add_timer_refines_example :
    (s' : Store) × (add_timer 9 20 two ≡ some (tt, s'))
    × Repr s' (early ∷ middle ∷ late ∷ [])
    × ((k : ℕ) → 20 ≢ k → Fresh k (early ∷ late ∷ []) → s'.cell k ≡ two.cell k)
unfolding insert
add_timer_refines_example =
    add_timer_refines 9 two middle (early ∷ late ∷ []) (omega arith) refl (λ p. omega arith)
      ((λ p. omega arith), ((λ p. omega arith), tt)) two-Repr

adjust_timer_refines_example :
    (s' : Store) × (adjust_timer 9 10 bumped_store ≡ some (tt, s'))
    × Repr s' (middle ∷ bumped ∷ late ∷ [])
unfolding insert
adjust_timer_refines_example =
    adjust_timer_refines 9 bumped_store [] bumped (middle ∷ late ∷ []) (omega arith) bumped-Repr

del_timer_refines_example :
    (s' : Store) × (del_timer 20 three ≡ some (tt, s'))
    × Repr s' (early ∷ late ∷ [])
    × (s'.cell 20 ≡ none)
del_timer_refines_example = del_timer_refines three (early ∷ []) middle (late ∷ []) three-Repr

tick_refines_example :
    (s' : Store) × (gone : List Entry) × (left : List Entry) × (tick 9 20 three
      ≡ some (users gone, s'))
    × Repr s' left
    × (gone ++ left ≡ early ∷ middle ∷ late ∷ [])
    × Expired 20 gone
    × NotBefore 21 left
    × IsSorted left
tick_refines_example =
    tick_refines 9 20 three (early ∷ middle ∷ late ∷ []) (omega arith) (omega arith) three-Repr

destroy_lem_example :
    (s' : Store) × (destroy 9 three ≡ some (tt, s'))
    × AllFreed s'.cell (early ∷ middle ∷ late ∷ [])
    × ((k : ℕ) → Fresh k (early ∷ middle ∷ late ∷ []) → s'.cell k ≡ three.cell k)
destroy_lem_example = destroy_lem 9 three (early ∷ middle ∷ late ∷ []) (omega arith) three-Repr

-- A run of the code itself: `tick` at 20 calls back 1 and 2, in this order.
tick_runs : (s' : Store) × (tick 9 20 three ≡ some (1 ∷ 2 ∷ [], s')) × (s'.head ≡ 30)
unfolding tick
tick_runs = (record three { cell = _; head = 30 }, refl, refl)
