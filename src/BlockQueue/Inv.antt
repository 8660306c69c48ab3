-- ===== src/BlockQueue/Inv.antt =====
-- The representation invariant of block_queue.h, and that each method keeps it.
use make_linux_server.Base.{
  ℕ, zero, suc, ◌+◌, ◌-◌, ◌%◌, ◌≤◌, ◌<◌, ◌≡◌, ap, ◌∙◌, some, arith, length, length-set,
  length-replicate,
}
use make_linux_server.Base.Int.{ℤ, pos, negsuc, pos_part, neg_part}
use native.Mathlib.Nat.{mod-lt, mod-add-mod, mod-eq_of_lt}
use make_linux_server.BlockQueue.{Queue, create, clear, next_index, push, take_item}

-- The index at which the next element is read (from `front`) or written (from `back`).
abbrev pub slot : ℤ → ℕ → ℕ
slot i m = pos_part (next_index i m)

-- `pos_part` and `neg_part` say that the indices lie between -1 and `max_size`.
pub record IsValid {ℓ} {A : Type ℓ} (q : Queue A) : Type ℓ where
  pub room : 0 < q.max_size
  pub storage : length q.array ≡ q.max_size
  pub fits : q.size ≤ q.max_size
  pub front_low : neg_part q.front ≤ 1
  pub front_high : pos_part q.front < q.max_size
  pub back_low : neg_part q.back ≤ 1
  pub back_high : pos_part q.back < q.max_size
  pub linked : slot q.back q.max_size ≡ (slot q.front q.max_size + q.size) % q.max_size

-- For an index from -1 on, C's remainder is that of the natural numbers.
pub slot_lem :
    (i : ℤ) (m : ℕ) → neg_part i ≤ 1 → next_index i m ≡ pos ((pos_part i + 1 - neg_part i) % m)
unfolding next_index
slot_lem (pos n) m h = ground arith
slot_lem (negsuc zero) m h = ground arith
slot_lem (negsuc (suc n)) m h = absurd (omega arith)

pub slot-lt : (i : ℤ) (m : ℕ) → neg_part i ≤ 1 → 0 < m → slot i m < m
slot-lt i m h p = rw (slot_lem i m h) (mod-lt _ p)

pub slot-next : (i : ℤ) (m : ℕ) → neg_part i ≤ 1 → slot (next_index i m) m ≡ (slot i m + 1) % m
slot-next i m h =
    rw (slot_lem i m h, slot_lem (pos ((pos_part i + 1 - neg_part i) % m)) m (omega arith))
      (ap (λ (k : ℕ). k % m) (omega arith))

slot-start : (m : ℕ) → 0 < m → next_index (negsuc 0) m ≡ pos 0
slot-start m h = slot_lem (negsuc 0) m (omega arith) ∙ ap pos (mod-eq_of_lt h)

-- What the constructor returns is valid and empty.
pub create-IsValid {ℓ} :
    {A : Type ℓ} (d : A) (max : ℤ) (q : Queue A)
    → create d max ≡ some q
    → IsValid q × (q.size ≡ 0) × (pos q.max_size ≡ max)
unfolding create
create-IsValid d (negsuc n) q e = ground arith
create-IsValid d (pos zero) q e = ground arith
create-IsValid d (pos (suc n)) q e =
    ground (arith, length-replicate n d, slot-start (suc n), mod-eq_of_lt {n = 0} {m = suc n})

pub clear-IsValid {ℓ} : {A : Type ℓ} (q : Queue A) → IsValid q → IsValid (clear q)
unfolding clear
clear-IsValid q v = ground (arith, slot-start q.max_size, mod-eq_of_lt {n = 0} {m = q.max_size})

-- A push keeps the invariant, whether it is accepted or refused.
pub push-IsValid {ℓ} : {A : Type ℓ} (a : A) (q : Queue A) → IsValid q → IsValid (push a q).1
unfolding push
push-IsValid a q v = ground (
  arith,
  length-set q.array (slot q.back q.max_size) a,
  slot_lem q.back q.max_size v.back_low,
  slot-next q.back q.max_size v.back_low,
  slot-lt q.back q.max_size v.back_low v.room,
  mod-add-mod (slot q.front q.max_size + q.size) q.max_size 1,
)

-- Taking an element out of a queue that has one keeps the invariant.
pub take_item-IsValid {ℓ} :
    {A : Type ℓ} (q : Queue A) → IsValid q → 0 < q.size → IsValid (take_item q).1
unfolding take_item
take_item-IsValid q v h = ground (
  arith,
  slot_lem q.front q.max_size v.front_low,
  slot-next q.front q.max_size v.front_low,
  slot-lt q.front q.max_size v.front_low v.room,
  mod-add-mod (slot q.front q.max_size + 1) q.max_size (q.size - 1),
)
