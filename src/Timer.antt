-- ===== src/Timer.antt =====
-- TinyWebServer/timer/lst_timer.cpp and lst_timer.h: the list of timers, doubly linked through
-- pointers and sorted by expiry, and `tick`, which fires and frees what has expired.
-- A pointer is its address, NULL is 0, and the heap maps an address to the timer that is allocated
-- there. Every access to a pointer that is null or dangling is a fault, `none`.
-- `time_t` values are unbounded. `cb_func` is the one callback that the program installs, so a call
-- of it is recorded by the client whose data it gets.
pub mod Segment
pub mod Insert
pub mod Links
pub mod Adjust
pub mod Delete
pub mod Sorted
pub mod Tick
mod Tests
use make_linux_server.Base.{
  ℕ, zero, suc, Bool, Option, none, some, List, [], ◌∷◌, ltb, ◌==◌, ◌&&◌, if◌then◌else◌,
}

-- `util_timer`
pub record Timer : Type 0 where
  pub expire : ℕ
  pub user_data : ℕ
  pub prev : ℕ
  pub next : ℕ

-- `sort_timer_lst` and the heap that its pointers go to.
pub record Store : Type 0 where
  pub cell : ℕ → Option Timer
  pub head : ℕ
  pub tail : ℕ

abbrev pub M : Type 0 → Type 0
M A = Store → Option (A × Store)

infixl 5 ◌>>=◌ ◌>>◌
abbrev pub ◌>>=◌ : {A B : Type 0} → M A → (A → M B) → M B
◌>>=◌ m f s = elim (m s) [ none ↦ none | some (a, s') ↦ f a s' ]

abbrev pub ◌>>◌ : {B : Type 0} → M (Unit {0}) → M B → M B
m >> k = m >>= λ _. k

abbrev pub pure : {A : Type 0} → A → M A
pure a s = some (a, s)

abbrev pub get_head : M ℕ
get_head s = some (s.head, s)

abbrev pub get_tail : M ℕ
get_tail s = some (s.tail, s)

abbrev pub set_head : ℕ → M (Unit {0})
set_head p s = some (tt, record s { head = p })

abbrev pub set_tail : ℕ → M (Unit {0})
set_tail p s = some (tt, record s { tail = p })

abbrev pub update : (ℕ → Option Timer) → ℕ → Option Timer → ℕ → Option Timer
update f p v q = if p == q then v else f q

-- `*p`
abbrev pub load : ℕ → M Timer
load p s = elim (s.cell p) [ none ↦ none | some n ↦ some (n, s) ]

abbrev pub set_next : ℕ → ℕ → M (Unit {0})
set_next p v =
    load p >>= λ n s. some (tt, record s { cell = update s.cell p (some (record n { next = v })) })

abbrev pub set_prev : ℕ → ℕ → M (Unit {0})
set_prev p v =
    load p >>= λ n s. some (tt, record s { cell = update s.cell p (some (record n { prev = v })) })

abbrev pub set_expire : ℕ → ℕ → M (Unit {0})
set_expire p v = load p >>= λ n s.
    some (tt, record s { cell = update s.cell p (some (record n { expire = v })) })

-- `delete p`
abbrev pub free : ℕ → M (Unit {0})
free p = load p >>= λ _ s. some (tt, record s { cell = update s.cell p none })

-- `sort_timer_lst()`
pub create : (ℕ → Option Timer) → Store
create cell = record { cell = cell; head = 0; tail = 0 }

-- The loop of `add_timer(timer, lst_head)`, at its two pointers.
pub add_loop : ℕ → ℕ → ℕ → ℕ → M (Unit {0})
add_loop zero timer prev tmp = λ s. none
add_loop (suc fuel) timer prev tmp =
    if tmp == 0
    then (do set_next prev timer; set_prev timer prev; set_next timer 0; set_tail timer)
    else (do
      n ← load timer
      m ← load tmp
      if ltb n.expire m.expire
          then (do set_next prev timer; set_next timer tmp; set_prev tmp timer; set_prev timer prev)
          else (do m ← load tmp; add_loop fuel timer tmp m.next))

-- `add_timer(timer, lst_head)`
pub add_after : ℕ → ℕ → ℕ → M (Unit {0})
add_after fuel timer lst_head = do h ← load lst_head; add_loop fuel timer lst_head h.next

pub add_timer : ℕ → ℕ → M (Unit {0})
add_timer fuel timer = if timer == 0 then pure tt else (do
  head ← get_head
  if head == 0 then (do set_head timer; set_tail timer) else (do
    n ← load timer
    h ← load head
    if ltb n.expire h.expire
        then (do set_next timer head; set_prev head timer; set_head timer)
        else add_after fuel timer head))

unfoldable pub adjust_timer : ℕ → ℕ → M (Unit {0})
unfolding add_after
adjust_timer fuel timer = if timer == 0 then pure tt else (do
  n ← load timer
  if n.next == 0 then pure tt else (do
    m ← load n.next
    if ltb n.expire m.expire then pure tt else (do
      head ← get_head
      if timer == head
          then (do
            set_head n.next
            set_prev n.next 0
            set_next timer 0
            add_after fuel timer n.next)
          else (do set_next n.prev n.next; set_prev n.next n.prev; add_after fuel timer n.next))))

unfoldable pub del_timer : ℕ → M (Unit {0})
del_timer timer = if timer == 0 then pure tt else (do
  head ← get_head
  tail ← get_tail
  if timer == head && timer == tail
      then (do free timer; set_head 0; set_tail 0)
      else if timer == head
      then (do h ← load head; set_head h.next; set_prev h.next 0; free timer)
      else if timer == tail
      then (do t ← load tail; set_tail t.prev; set_next t.prev 0; free timer)
      else (do n ← load timer; set_next n.prev n.next; set_prev n.next n.prev; free timer))

-- The loop of `tick` at its pointer; the result is the clients whose callback ran, in order.
unfoldable pub tick_loop : ℕ → ℕ → ℕ → M (List ℕ)
tick_loop zero cur tmp = λ s. none
tick_loop (suc fuel) cur tmp = if tmp == 0 then pure [] else (do
  n ← load tmp
  if ltb cur n.expire then pure [] else (do
    set_head n.next
    (if n.next == 0 then pure tt else set_prev n.next 0)
    free tmp
    fired ← tick_loop fuel cur n.next
    pure (n.user_data ∷ fired)))

-- `tick()` at the time `cur`.
unfoldable pub tick : ℕ → ℕ → M (List ℕ)
unfolding tick_loop
tick fuel cur = do head ← get_head; if head == 0 then pure [] else tick_loop fuel cur head

-- The loop of `~sort_timer_lst`.
pub destroy_loop : ℕ → ℕ → M (Unit {0})
destroy_loop zero tmp = λ s. none
destroy_loop (suc fuel) tmp =
    if tmp == 0
    then pure tt
    else (do n ← load tmp; set_head n.next; free tmp; destroy_loop fuel n.next)

pub destroy : ℕ → M (Unit {0})
unfolding destroy_loop
destroy fuel = do head ← get_head; destroy_loop fuel head
