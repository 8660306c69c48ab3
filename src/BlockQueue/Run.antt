-- ===== src/BlockQueue/Run.antt =====
-- Sequences of calls of block_queue.h, against a bounded FIFO list.
use mathlib.Core.Path.{ap₂}
use make_linux_server.Base.{
  ℕ, ◌≡◌, refl, ap, arith, length, List, [], ◌∷◌, ◌++◌, Bool, true, false, ltb, leb, sym, ◌==◌,
  if◌then◌else◌,
}
use make_linux_server.BlockQueue.{
  Queue, Read, refused, value, pop_timed, wait_failed, Wake, clear, push, take_item, full, empty,
}
use make_linux_server.BlockQueue.Refine.{
  Holds, clear-Holds, push_refines, max_size-push, take_item-Holds,
}

-- What a client asks of the queue; a `get` is the timed `pop` whose wait runs out, and the last three
-- are `size`, `full` and `empty`.
pub data Op {ℓ} (A : Type ℓ) : Type ℓ where
  put : A → Op A
  get : Op A
  wipe : Op A
  count : Op A
  ask_full : Op A
  ask_empty : Op A

pub data Reply {ℓ} (A : Type ℓ) : Type ℓ where
  accepted : Bool → Reply A
  got : Read A → Reply A
  wiped : Reply A
  counted : ℕ → Reply A
  answered : Bool → Reply A

module _ {ℓ} {A : Type ℓ} where
  -- The calls in order, with what each returns.
  pub run : Queue A → List (Op A) → List (Reply A)
  run q [] = []
  run q (put a ∷ ops) = let (b, q') = push a q in accepted b ∷ run q' ops
  run q (get ∷ ops) = let (r, q') = pop_timed q wait_failed in got r ∷ run q' ops
  run q (wipe ∷ ops) = wiped ∷ run (clear q) ops
  run q (count ∷ ops) = counted q.size ∷ run q ops
  run q (ask_full ∷ ops) = answered (full q) ∷ run q ops
  run q (ask_empty ∷ ops) = answered (empty q) ∷ run q ops

  -- The same calls on a list of at most `cap` elements, oldest first.
  unfoldable pub run_list : ℕ → List A → List (Op A) → List (Reply A)
  run_list cap xs [] = []
  run_list cap xs (put a ∷ ops) =
      accepted (ltb (length xs) cap)
      ∷ run_list cap (if ltb (length xs) cap then xs ++ a ∷ [] else xs) ops
  run_list cap [] (get ∷ ops) = got refused ∷ run_list cap [] ops
  run_list cap (x ∷ xs) (get ∷ ops) = got (value x) ∷ run_list cap xs ops
  run_list cap xs (wipe ∷ ops) = wiped ∷ run_list cap [] ops
  run_list cap xs (count ∷ ops) = counted (length xs) ∷ run_list cap xs ops
  run_list cap xs (ask_full ∷ ops) = answered (leb cap (length xs)) ∷ run_list cap xs ops
  run_list cap xs (ask_empty ∷ ops) = answered (length xs == 0) ∷ run_list cap xs ops

  pop_timed-nonempty :
      (q : Queue A) (x : A) (xs : List A) (w : Wake A)
      → Holds q (x ∷ xs)
      → pop_timed q w ≡ take_item q
  unfolding pop_timed
  pop_timed-nonempty q x xs w h = let e : leb q.size 0 ≡ false = ground (arith, h.count) in rw e

  pop_timed-empty : (q : Queue A) → Holds q [] → pop_timed q wait_failed ≡ (refused, q)
  unfolding pop_timed
  pop_timed-empty q h = let e : leb q.size 0 ≡ true = ground (arith, h.count) in rw e

  max_size-take_item : (q : Queue A) → (take_item q).1.max_size ≡ q.max_size
  unfolding take_item
  max_size-take_item q = refl

  -- Any sequence of calls of `push`, of the timed `pop` whose wait runs out, of `clear`, `size`, `full`
  -- and `empty` returns on the circular array what it returns on the list that the array holds. `front`
  -- and `back` are not among the calls.
  pub run_refines :
      (ops : List (Op A)) (q : Queue A) (xs : List A)
      → Holds q xs
      → run q ops ≡ run_list q.max_size xs ops
  unfolding run run_list clear full empty
  run_refines [] q xs h = refl
  run_refines (put a ∷ ops) q xs h =
      let p = push_refines a q xs h in
      ap₂ ◌∷◌ (ap accepted p.0) (rw (run_refines ops (push a q).1 _ p.1, max_size-push a q))
  run_refines (get ∷ ops) q [] h =
      rw (pop_timed-empty q h) (ap (λ r. got refused ∷ r) (run_refines ops q [] h))
  run_refines (get ∷ ops) q (x ∷ xs) h =
      let t = take_item-Holds q x xs h in
      rw (
        pop_timed-nonempty q x xs wait_failed h,
        t.0,
        run_refines ops (take_item q).1 xs t.1,
        max_size-take_item q,
      )
  run_refines (wipe ∷ ops) q [] h =
      ap (λ r. wiped ∷ r) (run_refines ops (clear q) [] (clear-Holds q [] h))
  run_refines (wipe ∷ ops) q (x ∷ xs) h =
      ap (λ r. wiped ∷ r) (run_refines ops (clear q) [] (clear-Holds q (x ∷ xs) h))
  run_refines (count ∷ ops) q xs h = ap₂ ◌∷◌ (ap counted (sym h.count)) (run_refines ops q xs h)
  run_refines (ask_full ∷ ops) q xs h =
      let same : (if leb q.max_size q.size then true else false) ≡ leb q.max_size (length xs) =
        ground (arith, h.count) in
      ap₂ ◌∷◌ (ap answered same) (run_refines ops q xs h)
  run_refines (ask_empty ∷ ops) q xs h =
      let same : (if q.size == 0 then true else false) ≡ (length xs == 0) =
        ground (arith, h.count) in
      ap₂ ◌∷◌ (ap answered same) (run_refines ops q xs h)
