-- ===== src/BlockQueue/Tests.antt =====
-- block_queue.h at a concrete queue of three slots, whose contents go round the end of the array.
use make_linux_server.Base.{ℕ, ◌≡◌, refl, true, false, some, [], ◌∷◌, arith}
use make_linux_server.Base.Int.{pos, negsuc}
use make_linux_server.BlockQueue.{Queue, woken, refused, value, next_index, push, pop}
use make_linux_server.BlockQueue.Refine.{Holds, push_refines}
use make_linux_server.BlockQueue.Run.{
  put, get, wipe, count, ask_full, ask_empty, counted, answered, accepted, got, wiped, run,
  run_list, run_refines,
}
use make_linux_server.BlockQueue.Wait.{pop_waits}

-- 8 and 9, in the slots 2 and 0.
abbrev wrapped : Queue ℕ
wrapped = record {
  array = 9 ∷ 7 ∷ 8 ∷ [];
  size = 2;
  max_size = 3;
  front = pos 1;
  back = pos 0;
  broadcasts = 5;
}

abbrev drained : Queue ℕ
drained = record {
  array = 9 ∷ 7 ∷ 8 ∷ [];
  size = 0;
  max_size = 3;
  front = pos 0;
  back = pos 0;
  broadcasts = 5;
}

abbrev fresh_one : Queue ℕ
fresh_one = record {
  array = 4 ∷ 0 ∷ 0 ∷ [];
  size = 1;
  max_size = 3;
  front = negsuc 0;
  back = pos 0;
  broadcasts = 1;
}

wrapped-Holds : Holds wrapped (8 ∷ 9 ∷ [])
unfolding next_index
wrapped-Holds = record {
  valid = record {
    room = omega arith;
    storage = refl;
    fits = omega arith;
    front_low = omega arith;
    front_high = omega arith;
    back_low = omega arith;
    back_high = omega arith;
    linked = refl;
  };
  count = refl;
  items = (refl, (refl, tt));
}

drained-Holds : Holds drained []
unfolding next_index
drained-Holds = record {
  valid = record {
    room = omega arith;
    storage = refl;
    fits = omega arith;
    front_low = omega arith;
    front_high = omega arith;
    back_low = omega arith;
    back_high = omega arith;
    linked = refl;
  };
  count = refl;
  items = tt;
}

fresh_one-Holds : Holds fresh_one (4 ∷ [])
unfolding next_index
fresh_one-Holds = record {
  valid = record {
    room = omega arith;
    storage = refl;
    fits = omega arith;
    front_low = omega arith;
    front_high = omega arith;
    back_low = omega arith;
    back_high = omega arith;
    linked = refl;
  };
  count = refl;
  items = (refl, tt);
}

push_refines_example : ((push 5 wrapped).0 ≡ true) × Holds (push 5 wrapped).1 (8 ∷ 9 ∷ 5 ∷ [])
push_refines_example = push_refines 5 wrapped (8 ∷ 9 ∷ []) wrapped-Holds

run_refines_example :
    run wrapped (put 5 ∷ put 6 ∷ ask_full ∷ get ∷ count ∷ wipe ∷ ask_empty ∷ get ∷ [])
    ≡ accepted true
      ∷ accepted false
      ∷ answered true
      ∷ got (value 8)
      ∷ counted 2
      ∷ wiped
      ∷ answered true
      ∷ got refused
      ∷ []
unfolding run_list
run_refines_example =
    run_refines (put 5 ∷ put 6 ∷ ask_full ∷ get ∷ count ∷ wipe ∷ ask_empty ∷ get ∷ []) wrapped
      (8 ∷ 9 ∷ []) wrapped-Holds

pop_waits_example :
    (left : Queue ℕ) × (pop drained (woken drained ∷ woken wrapped ∷ []) ≡ some (value 8, left))
    × Holds left (9 ∷ [])
pop_waits_example =
    pop_waits (drained ∷ []) [] drained wrapped 8 (9 ∷ []) drained-Holds (drained-Holds, tt)
      wrapped-Holds
