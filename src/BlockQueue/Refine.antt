-- ===== src/BlockQueue/Refine.antt =====
-- block_queue.h against a FIFO list: what the queue holds, oldest first.
use make_linux_server.Base.{
  ℕ, suc, ◌+◌, ◌-◌, ◌%◌, ◌≤◌, ◌<◌, ◌≡◌, ◌≢◌, refl, ap, some, arith, length, length-append, List, [],
  ◌∷◌, ◌++◌, get_elem?, set, get_elem?-set_self, get_elem?-set_ne, true, false, ltb, leb,
  Bool-cases, inl, inr, leb, ◌∙◌, if◌then◌else◌,
}
use make_linux_server.Base.Int.{ℤ}
use native.Mathlib.Nat.{mod-lt, mod-add-mod, mod-eq_of_lt, mod-eq-sub-mod}
use native.Mathlib.Decide.{dec_lt}
use make_linux_server.BlockQueue.{Queue, value, create, clear, push, take_item}
use make_linux_server.BlockQueue.Inv.{
  slot, IsValid, slot_lem, slot-lt, slot-next, create-IsValid, clear-IsValid, push-IsValid,
  take_item-IsValid,
}

-- Fewer than `m` steps round the array do not come back to the start.
add-mod-ne : (h k m : ℕ) → h < m → suc k < m → (h + suc k) % m ≢ h
add-mod-ne h k m hm km e = elim (dec_lt (h + suc k) m) [
  | yes p ↦ omega (arith, mod-eq_of_lt p)
  | no p ↦ omega (
    arith,
    mod-eq-sub-mod {n = h + suc k} {m = m} (omega arith),
    mod-eq_of_lt {n = h + suc k - m} {m = m} (omega arith),
  )
]

module _ {ℓ} {A : Type ℓ} where
  -- The elements `xs` stand in the array from index `h` on, going round at `m`.
  abbrev pub Items : List A → ℕ → ℕ → List A → Type ℓ
  Items array m h [] = Unit
  Items array m h (x ∷ xs) = (get_elem? array h ≡ some x) × Items array m ((h + 1) % m) xs

  Items-set :
      (array : List A) (m h i : ℕ) (a : A) (xs : List A)
      → m ≤ length array
      → h < m
      → length xs < m
      → i ≡ (h + length xs) % m
      → Items array m h xs
      → Items (set array i a) m h (xs ++ a ∷ [])
  Items-set array m h i a [] big hm lm e it =
      let same : i ≡ h =
        let z : h + 0 ≡ h = omega arith in e ∙ ap (λ (k : ℕ). k % m) z ∙ mod-eq_of_lt hm in
      rw same (get_elem?-set_self array h a (omega arith), tt)
  Items-set array m h i a (x ∷ xs) big hm lm e it = (
    rw (get_elem?-set_ne array {i = i} {j = h} a (rw e (add-mod-ne h (length xs) m hm lm))) it.0,
    Items-set array m ((h + 1) % m) i a xs big (mod-lt _ (omega arith)) (omega arith)
        (rw (e, mod-add-mod) (ap (λ (k : ℕ). k % m) (omega arith))) it.1,
  )

  -- The queue is valid and holds `xs`, the oldest element first.
  pub record Holds (q : Queue A) (xs : List A) : Type ℓ where
    pub valid : IsValid q
    pub count : length xs ≡ q.size
    pub items : Items q.array q.max_size (slot q.front q.max_size) xs

  -- What a constructor call returns holds nothing.
  pub create-Holds : (d : A) (max : ℤ) (q : Queue A) → create d max ≡ some q → Holds q []
  create-Holds d max q e =
      let c = create-IsValid d max q e in record { valid = c.0; count = omega arith; items = tt }

  pub clear-Holds : (q : Queue A) (xs : List A) → Holds q xs → Holds (clear q) []
  unfolding clear
  clear-Holds q xs h = record { valid = clear-IsValid q h.valid; count = refl; items = tt }

  push-ok :
      (a : A) (q : Queue A) (xs : List A)
      → Holds q xs
      → leb q.max_size q.size ≡ false
      → ((push a q).0 ≡ true) × Holds (push a q).1 (xs ++ a ∷ [])
  unfolding push
  push-ok a q xs h e = (
    rw e,
    record {
      valid = push-IsValid a q h.valid;
      count = rw e (omega (arith, length-append xs (a ∷ []), h.count));
      items = rw e (
          Items-set q.array q.max_size (slot q.front q.max_size) (slot q.back q.max_size) a xs
            (omega (arith, h.valid)) (slot-lt q.front q.max_size h.valid.front_low h.valid.room)
            (ground (arith, h.count)) (rw h.count h.valid.linked) h.items);
    },
  )

  push-full :
      (a : A) (q : Queue A) (xs : List A)
      → Holds q xs
      → leb q.max_size q.size ≡ true
      → ((push a q).0 ≡ false) × Holds (push a q).1 xs
  unfolding push
  push-full a q xs h e = (
    rw e,
    record { valid = push-IsValid a q h.valid; count = rw e h.count; items = rw e h.items },
  )

  pub take_item-Holds :
      (q : Queue A) (x : A) (xs : List A)
      → Holds q (x ∷ xs)
      → ((take_item q).0 ≡ value x) × Holds (take_item q).1 xs
  unfolding take_item
  take_item-Holds q x xs h = ground (
    arith,
    take_item-IsValid q h.valid,
    slot_lem q.front q.max_size h.valid.front_low,
    slot-next q.front q.max_size h.valid.front_low,
  )

  -- `push` accepts exactly when fewer than `max_size` elements are held, and then appends its
  -- argument; otherwise the queue holds what it held.
  pub push_refines :
      (a : A) (q : Queue A) (xs : List A)
      → Holds q xs
      → ((push a q).0 ≡ ltb (length xs) q.max_size)
        × Holds (push a q).1 (if ltb (length xs) q.max_size then xs ++ a ∷ [] else xs)
  push_refines a q xs h = elim (Bool-cases (leb q.max_size q.size)) [
    | inl e ↦
        let r : ltb (length xs) q.max_size ≡ false = ground (arith, h.count) in
        rw r (push-full a q xs h e)
    | inr e ↦
        let r : ltb (length xs) q.max_size ≡ true = ground (arith, h.count) in
        rw r (push-ok a q xs h e)
  ]

  pub max_size-push : (a : A) (q : Queue A) → (push a q).1.max_size ≡ q.max_size
  unfolding push
  max_size-push a q = ground arith
