-- ===== src/BlockQueue/Wait.antt =====
-- The waits of block_queue.h, and what `front` and `back` read.
use make_linux_server.Base.{
  ◌+◌, ◌-◌, ◌<◌, ◌≡◌, refl, none, some, arith, List, [], ◌∷◌, ◌++◌, map, get_elem?-set_self, true,
  false, leb, ◌==◌,
}
use make_linux_server.Base.Int.{negsuc}
use make_linux_server.BlockQueue
use make_linux_server.BlockQueue.{
  Queue, Read, Wake, wait_failed, woken, refused, value, out_of_bounds, create, clear, next_index,
  push, take_item, pop, pop_timed,
}
use make_linux_server.BlockQueue.Inv.{slot, IsValid, slot_lem, slot-lt}
use make_linux_server.BlockQueue.Refine.{Holds, take_item-Holds}

module _ {ℓ} {A : Type ℓ} where
  abbrev pub AllEmpty : List (Queue A) → Type ℓ
  AllEmpty [] = Unit
  AllEmpty (q ∷ qs) = Holds q [] × AllEmpty qs

  pop-ready :
      (q : Queue A) (x : A) (xs : List A) (ws : List (Wake A))
      → Holds q (x ∷ xs)
      → pop q ws ≡ some (take_item q)
  unfolding pop
  pop-ready q x xs [] h = let e : leb q.size 0 ≡ false = ground (arith, h.count) in rw e
  pop-ready q x xs (wait_failed ∷ ws) h =
      let e : leb q.size 0 ≡ false = ground (arith, h.count) in rw e
  pop-ready q x xs (woken q' ∷ ws) h =
      let e : leb q.size 0 ≡ false = ground (arith, h.count) in rw e

  pop-woken : (q q' : Queue A) (ws : List (Wake A)) → Holds q [] → pop q (woken q' ∷ ws) ≡ pop q' ws
  unfolding pop
  pop-woken q q' ws h = let e : leb q.size 0 ≡ true = ground (arith, h.count) in rw e

  -- However often a waiting `pop` is woken to an empty queue, it returns at the first wake that
  -- finds an element: the oldest one, which leaves the queue.
  pub pop_waits :
      (qs : List (Queue A)) (rest : List (Wake A)) (q q' : Queue A) (x : A) (xs : List A)
      → Holds q []
      → AllEmpty qs
      → Holds q' (x ∷ xs)
      → (left : Queue A) × (pop q (map woken qs ++ woken q' ∷ rest) ≡ some (value x, left))
        × Holds left xs
  pop_waits [] rest q q' x xs he ha h =
      let t = take_item-Holds q' x xs h in
      ((take_item q').1, rw (pop-woken q q' rest he, pop-ready q' x xs rest h, ← t.0) refl, t.1)
  pop_waits (q₂ ∷ qs) rest q q' x xs he ha h =
      let r = pop_waits qs rest q₂ q' x xs ha.0 ha.1 h in
      (r.0, rw (pop-woken q q₂ (map woken qs ++ woken q' ∷ rest) he) r.1, r.2)

  -- The queue hands out an element only after it has been pushed: a wait that fails, or that never
  -- ends, returns none and changes nothing.
  pub pop_blocked :
      (q : Queue A)
      → Holds q []
      → (pop q [] ≡ none) × ((ws : List (Wake A)) → pop q (wait_failed ∷ ws) ≡ some (refused, q))
  unfolding pop
  pop_blocked q h = let e : leb q.size 0 ≡ true = ground (arith, h.count) in (rw e, λ ws. rw e)

  -- `front` reads the slot that was emptied last: behind a removal it returns the element that
  -- was removed, not the oldest one that is left.
  pub front-take_item :
      (q : Queue A) (x y : A) (xs : List A)
      → Holds q (x ∷ y ∷ xs)
      → BlockQueue.front (take_item q).1 ≡ value x
  unfolding BlockQueue.front take_item
  front-take_item q x y xs h =
      let e : (q.size - 1 == 0) ≡ false = ground (arith, h.count) in
      rw e (take_item-Holds q x (y ∷ xs) h).0

  -- Before the first removal it reads `m_array[-1]`, though the queue holds something.
  pub front-fresh :
      (q : Queue A) (x : A) (xs : List A)
      → Holds q (x ∷ xs)
      → q.front ≡ negsuc 0
      → BlockQueue.front q ≡ out_of_bounds
  unfolding BlockQueue.front
  front-fresh q x xs h f = let e : (q.size == 0) ≡ false = ground (arith, h.count) in rw (e, f)

  -- `back` returns the element that was pushed last.
  pub back-push :
      (a : A) (q : Queue A)
      → IsValid q
      → q.size < q.max_size
      → BlockQueue.back (push a q).1 ≡ value a
  unfolding BlockQueue.back push
  back-push a q v lt =
      let e : leb q.max_size q.size ≡ false = ground arith in
      let e' : (q.size + 1 == 0) ≡ false = ground arith in
      let g =
        get_elem?-set_self q.array (slot q.back q.max_size) a
          (omega (arith, slot-lt q.back q.max_size v.back_low v.room)) in
      rw (e, e') (ground (arith, slot_lem q.back q.max_size v.back_low, g))
