-- ===== src/WebServer/Owned.antt =====
-- The relation between the sockets, their timers and the count of connections in webserver.cpp.
use make_linux_server.Base.{
  ℕ, suc, ◌≡◌, ◌≢◌, refl, ap, sym, inl, inr, Option, List, [], ◌∷◌, ◌++◌, ltb, ==-ne, length, arith,
  Bool-cases,
}
use make_linux_server.Base.Int.{pos}
use make_linux_server.Timer.{Timer, Store, update}
use make_linux_server.Timer.Segment.{Entry, Fresh, Seg-update}
use make_linux_server.Timer.Insert.{Repr, insert}
use make_linux_server.Timer.Sorted.{IsSorted}
use make_linux_server.WebServer.{Server, put}

-- Each entry's socket has its timer in `users_timer`.
abbrev pub Owned : (ℕ → ℕ) → List Entry → Type 0
Owned timer_of [] = Unit {0}
Owned timer_of (e ∷ es) = (timer_of e.user ≡ e.key) × Owned timer_of es

-- No entry is for the socket.
abbrev pub Unused : ℕ → List Entry → Type 0
Unused fd [] = Unit {0}
Unused fd (e ∷ es) = (e.user ≢ fd) × Unused fd es

-- The list of timers holds `ts`, sorted, each socket knows its timer, and `m_user_count` is the
-- number of timers.
pub record Accounts (s : Server) (ts : List Entry) : Type 0 where
  pub repr : Repr s.timers ts
  pub sorted : IsSorted ts
  pub owned : Owned s.timer_of ts
  pub counted : s.user_count ≡ pos (length ts)

pub length-insert : (e : Entry) (es : List Entry) → length (insert e es) ≡ suc (length es)
unfolding insert
length-insert e [] = refl
length-insert e (y ∷ ys) = elim (Bool-cases (ltb e.expire y.expire)) [
  | inl lt ↦ rw lt refl
  | inr ge ↦ rw ge (ap suc (length-insert e ys))
]

pub Owned-insert :
    (f : ℕ → ℕ) (e : Entry) (es : List Entry)
    → f e.user ≡ e.key
    → Owned f es
    → Owned f (insert e es)
unfolding insert
Owned-insert f e [] h o = (h, tt)
Owned-insert f e (y ∷ ys) h o = elim (Bool-cases (ltb e.expire y.expire)) [
  | inl lt ↦ rw lt (h, o)
  | inr ge ↦ rw ge (o.0, Owned-insert f e ys h o.1)
]

pub Owned-put :
    (f : ℕ → ℕ) (fd p : ℕ) (es : List Entry) → Unused fd es → Owned f es → Owned (put f fd p) es
Owned-put f fd p [] u o = tt
Owned-put f fd p (e ∷ es) u o =
    (rw (==-ne fd e.user (λ q. u.0 (sym q))) o.0, Owned-put f fd p es u.1 o.1)

pub Owned-without :
    (f : ℕ → ℕ) (xs : List Entry) (e : Entry) (ys : List Entry)
    → Owned f (xs ++ e ∷ ys)
    → Owned f (xs ++ ys)
Owned-without f [] e ys o = o.1
Owned-without f (x ∷ xs) e ys o = (o.0, Owned-without f xs e ys o.1)

pub Owned-drop : (f : ℕ → ℕ) (xs ys : List Entry) → Owned f (xs ++ ys) → Owned f ys
Owned-drop f [] ys o = o
Owned-drop f (x ∷ xs) ys o = Owned-drop f xs ys o.1

pub put_self : (f : ℕ → ℕ) (k v : ℕ) → put f k v k ≡ v
put_self f k v = ground arith

-- A new timer's place on the heap leaves the list alone.
pub Repr-update :
    (s : Store) (k : ℕ) (v : Option Timer) (ts : List Entry)
    → Fresh k ts
    → Repr s ts
    → Repr (record s { cell = update s.cell k v }) ts
Repr-update s k v ts f r = record {
  seg = Seg-update s.cell k v 0 0 ts f r.seg;
  distinct = r.distinct;
  head_first = r.head_first;
  tail_last = r.tail_last;
}
