-- ===== src/BlockQueue.antt =====
-- TinyWebServer/log/block_queue.h: the bounded queue over a circular array between the threads that
-- log and the thread that writes. Every method holds `m_mutex` from its first line to its return, so
-- a method is one step; only `pop` gives the mutex up, while it waits on the condition variable.
pub mod Inv
pub mod Refine
pub mod Run
pub mod Wait
mod Tests
use make_linux_server.Base.{
  ℕ, zero, suc, ◌+◌, ◌-◌, Bool, true, false, Option, none, some, List, [], ◌∷◌, leb, ◌==◌,
  if◌then◌else◌, get_elem?, set, replicate,
}
use make_linux_server.Base.Int.{ℤ, pos, negsuc, ◌+ℤ◌, rem, pos_part}

-- The fields of the class. `broadcasts` counts the calls of `m_cond.broadcast()`.
pub record Queue {ℓ} (A : Type ℓ) : Type ℓ where
  pub array : List A
  pub size : ℕ
  pub max_size : ℕ
  pub front : ℤ
  pub back : ℤ
  pub broadcasts : ℕ

-- What a read of `m_array` gives: the method returned false, the element at the index, or an access
-- outside of the array (undefined behaviour).
pub data Read {ℓ} (A : Type ℓ) : Type ℓ where
  refused : Read A
  value : A → Read A
  out_of_bounds : Read A

-- What other threads do while `pop` waits: the wait fails, or it returns with the mutex held again
-- and the queue as they have left it.
pub data Wake {ℓ} (A : Type ℓ) : Type ℓ where
  wait_failed : Wake A
  woken : Queue A → Wake A

-- `(i + 1) % m_max_size`
pub next_index : ℤ → ℕ → ℤ
next_index i m = rem (i +ℤ pos 1) m

module _ {ℓ} {A : Type ℓ} where
  -- `m_array[i]` for an int index.
  abbrev pub read_at : List A → ℤ → Read A
  read_at xs (pos i) = elim (get_elem? xs i) [ none ↦ out_of_bounds | some a ↦ value a ]
  read_at xs (negsuc i) = out_of_bounds

  -- `block_queue(max_size)`; `none` is the `exit(-1)` for a size that is not positive. `d` is what
  -- `new T[max_size]` fills the array with.
  pub create : A → ℤ → Option (Queue A)
  create d (negsuc n) = none
  create d (pos zero) = none
  create d (pos (suc n)) = some (record {
    array = replicate (suc n) d;
    size = 0;
    max_size = suc n;
    front = negsuc 0;
    back = negsuc 0;
    broadcasts = 0;
  })

  pub clear : Queue A → Queue A
  clear q = record q { size = 0; front = negsuc 0; back = negsuc 0 }

  pub full : Queue A → Bool
  full q = if leb q.max_size q.size then true else false

  pub empty : Queue A → Bool
  empty q = if q.size == 0 then true else false

  pub front : Queue A → Read A
  front q = if q.size == 0 then refused else read_at q.array q.front

  pub back : Queue A → Read A
  back q = if q.size == 0 then refused else read_at q.array q.back

  pub push : A → Queue A → Bool × Queue A
  push item q =
      if leb q.max_size q.size then (false, record q { broadcasts = q.broadcasts + 1 }) else (
        true,
        record q {
          array = set q.array (pos_part (next_index q.back q.max_size)) item;
          size = q.size + 1;
          back = next_index q.back q.max_size;
          broadcasts = q.broadcasts + 1;
        },
      )

  -- The lines of both `pop`s behind the wait.
  pub take_item : Queue A → Read A × Queue A
  take_item q = (
    read_at q.array (next_index q.front q.max_size),
    record q { front = next_index q.front q.max_size; size = q.size - 1 },
  )

  -- `pop(item)`. The list says how each wait ends, in order; `none` is a call that still waits
  -- when the list ends.
  pub pop : Queue A → List (Wake A) → Option (Read A × Queue A)
  unfolding take_item
  pop q [] = if leb q.size 0 then none else some (take_item q)
  pop q (wait_failed ∷ ws) = if leb q.size 0 then some (refused, q) else some (take_item q)
  pop q (woken q' ∷ ws) = let rest = pop q' ws in if leb q.size 0 then rest else some (take_item q)

  -- `pop(item, ms_timeout)`, which waits once at most.
  pub pop_timed : Queue A → Wake A → Read A × Queue A
  unfolding take_item
  pop_timed q w =
      if leb q.size 0
      then elim w [
        | wait_failed ↦ (refused, q)
        | woken q' ↦ if leb q'.size 0 then (refused, q') else take_item q'
      ]
      else take_item q
