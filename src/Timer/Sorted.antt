-- ===== src/Timer/Sorted.antt =====
-- The order of the list of lst_timer.cpp: the sooner a timer expires, the nearer to the head.
use make_linux_server.Base.{
  ℕ, ◌+◌, ◌≤◌, ◌≡◌, refl, List, [], ◌∷◌, ◌++◌, arith, inl, inr, ltb, Bool-cases, if◌then◌else◌,
}
use make_linux_server.Timer.Segment.{Entry}
use make_linux_server.Timer.Insert.{insert}

-- No entry expires before `b`.
abbrev pub NotBefore : ℕ → List Entry → Type 0
NotBefore b [] = Unit
NotBefore b (e ∷ es) = (b ≤ e.expire) × NotBefore b es

abbrev pub Expired : ℕ → List Entry → Type 0
Expired cur [] = Unit
Expired cur (e ∷ es) = (e.expire ≤ cur) × Expired cur es

abbrev pub IsSorted : List Entry → Type 0
IsSorted [] = Unit
IsSorted (e ∷ es) = NotBefore e.expire es × IsSorted es

pub NotBefore-le : (a b : ℕ) (es : List Entry) → a ≤ b → NotBefore b es → NotBefore a es
NotBefore-le a b [] h n = tt
NotBefore-le a b (e ∷ es) h n = (omega arith, NotBefore-le a b es h n.1)

NotBefore-insert :
    (b : ℕ) (e : Entry) (es : List Entry)
    → b ≤ e.expire
    → NotBefore b es
    → NotBefore b (insert e es)
unfolding insert
NotBefore-insert b e [] h n = (h, tt)
NotBefore-insert b e (y ∷ ys) h n = elim (Bool-cases (ltb e.expire y.expire)) [
  | inl lt ↦ rw lt (h, n)
  | inr ge ↦ rw ge (n.0, NotBefore-insert b e ys h n.1)
]

-- Inserting where `add_timer` does keeps the order.
pub insert-IsSorted : (e : Entry) (es : List Entry) → IsSorted es → IsSorted (insert e es)
unfolding insert
insert-IsSorted e [] s = (tt, tt)
insert-IsSorted e (y ∷ ys) s = elim (Bool-cases (ltb e.expire y.expire)) [
  | inl lt ↦
      let l : e.expire ≤ y.expire = ground arith in
      rw lt ((l, NotBefore-le e.expire y.expire ys l s.0), s)
  | inr ge ↦
      let l : y.expire ≤ e.expire = ground arith in
      rw ge (NotBefore-insert y.expire e ys l s.0, insert-IsSorted e ys s.1)
]

NotBefore-moved :
    (b : ℕ) (xs : List Entry) (e e' : Entry) (ys : List Entry)
    → e.expire ≤ e'.expire
    → NotBefore b (xs ++ e ∷ ys)
    → NotBefore b (xs ++ insert e' ys)
NotBefore-moved b [] e e' ys h n = NotBefore-insert b e' ys (omega arith) n.1
NotBefore-moved b (x ∷ xs) e e' ys h n = (n.0, NotBefore-moved b xs e e' ys h n.1)

-- Moving a timer whose expiry grew, as `adjust_timer` does, restores the order.
pub moved-IsSorted :
    (xs : List Entry) (e e' : Entry) (ys : List Entry)
    → e.expire ≤ e'.expire
    → IsSorted (xs ++ e ∷ ys)
    → IsSorted (xs ++ insert e' ys)
moved-IsSorted [] e e' ys h s = insert-IsSorted e' ys s.1
moved-IsSorted (x ∷ xs) e e' ys h s =
    (NotBefore-moved x.expire xs e e' ys h s.0, moved-IsSorted xs e e' ys h s.1)

NotBefore-without :
    (b : ℕ) (xs : List Entry) (e : Entry) (ys : List Entry)
    → NotBefore b (xs ++ e ∷ ys)
    → NotBefore b (xs ++ ys)
NotBefore-without b [] e ys n = n.1
NotBefore-without b (x ∷ xs) e ys n = (n.0, NotBefore-without b xs e ys n.1)

pub without-IsSorted :
    (xs : List Entry) (e : Entry) (ys : List Entry) → IsSorted (xs ++ e ∷ ys) → IsSorted (xs ++ ys)
without-IsSorted [] e ys s = s.1
without-IsSorted (x ∷ xs) e ys s =
    (NotBefore-without x.expire xs e ys s.0, without-IsSorted xs e ys s.1)

-- The timers that `tick` takes from the head, and those that it leaves.
unfoldable pub due : ℕ → List Entry → List Entry
due cur [] = []
due cur (e ∷ es) = if ltb cur e.expire then [] else e ∷ due cur es

unfoldable pub remaining : ℕ → List Entry → List Entry
remaining cur [] = []
remaining cur (e ∷ es) = if ltb cur e.expire then e ∷ es else remaining cur es

pub due-append-remaining : (cur : ℕ) (es : List Entry) → due cur es ++ remaining cur es ≡ es
unfolding due remaining
due-append-remaining cur [] = refl
due-append-remaining cur (e ∷ es) = ground (arith, due-append-remaining cur es)

pub due-Expired : (cur : ℕ) (es : List Entry) → Expired cur (due cur es)
unfolding due
due-Expired cur [] = tt
due-Expired cur (e ∷ es) = ground (arith, due-Expired cur es)

-- In a sorted list nothing that has expired stands behind something that has not.
pub remaining-NotBefore :
    (cur : ℕ) (es : List Entry) → IsSorted es → NotBefore (cur + 1) (remaining cur es)
unfolding remaining
remaining-NotBefore cur [] s = tt
remaining-NotBefore cur (e ∷ es) s = elim (Bool-cases (ltb cur e.expire)) [
  | inl lt ↦
      let l : cur + 1 ≤ e.expire = ground arith in
      rw lt (l, NotBefore-le (cur + 1) e.expire es l s.0)
  | inr ge ↦ rw ge (remaining-NotBefore cur es s.1)
]

pub remaining-IsSorted : (cur : ℕ) (es : List Entry) → IsSorted es → IsSorted (remaining cur es)
unfolding remaining
remaining-IsSorted cur [] s = tt
remaining-IsSorted cur (e ∷ es) s = ground (arith, remaining-IsSorted cur es s.1)
