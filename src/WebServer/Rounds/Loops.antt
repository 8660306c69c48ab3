-- ===== src/WebServer/Rounds/Loops.antt =====
-- What the events of a run of the event loop of TinyWebServer/webserver.cpp have to be, and how many
-- timers they leave.
use make_linux_server.Base.{
  ℕ, ◌+◌, ◌≤◌, ◌≡◌, refl, true, false, List, [], ◌∷◌, ◌++◌, leb, ltb, if◌then◌else◌, length, arith,
  Bool-cases, inl, inr,
}
use make_linux_server.Http.Read.{ReadOutcome, reading, read_returned, underflowed, read_once}
use make_linux_server.Http.Write.{Outcome, writing, returned, fault, write}
use make_linux_server.Timer.Segment.{Entry}
use make_linux_server.Timer.Insert.{insert}
use make_linux_server.Timer.Sorted.{Expired, NotBefore, remaining}
use make_linux_server.WebServer.{Server, Accept, accepted, accept_failed, max_fd}
use make_linux_server.WebServer.Owned.{Accounts, length-insert}
use make_linux_server.WebServer.Expiry.{put_off}
use make_linux_server.WebServer.Loop.{
  Event, connecting, hung_up, signalled, readable, writable, Flags, Handled, handled, waits, crash,
  handle_event, end_round, Wait, events, interrupted, epoll_failed,
}
use make_linux_server.WebServer.Rounds.{
  without, delayed, accept_entries, arriving, after_reading, after_writing, entries_after, Possible,
}
use make_linux_server.WebServer.Rounds.Events.{arrivals}

length-without : (fd : ℕ) (ts : List Entry) → length (without fd ts) ≤ length ts
unfolding without
length-without fd [] = omega arith
length-without fd (e ∷ es) = ground (arith, length-without fd es)

length-delayed : (fd v : ℕ) (ts : List Entry) → length (delayed fd v ts) ≤ length ts
unfolding delayed
length-delayed fd v [] = omega arith
length-delayed fd v (e ∷ es) =
    ground (arith, length-delayed fd v es, length-insert (put_off v e) es)

length-accept_entries :
    (rs : List Accept) (ts : List Entry) → length (accept_entries rs ts) ≤ length ts + length rs
length-accept_entries [] ts = omega arith
length-accept_entries (accept_failed ∷ rest) ts = omega arith
length-accept_entries (accepted fd p cur ∷ rest) ts =
    let e : Entry = record { key = p; expire = cur + 15; user = fd } in
    let ih = length-accept_entries rest (insert e ts) in
    elim (Bool-cases (leb max_fd (length ts))) [
      | inl y ↦ rw y (omega arith)
      | inr n ↦ rw n (omega (arith, ih, length-insert e ts))
    ]

length-arriving : (rs : List Accept) (s : Server) → length (arriving rs s) ≤ length rs
length-arriving [] s = ground arith
length-arriving (r ∷ rs) s = ground arith

length-after_reading :
    (cur fd : ℕ) (o : ReadOutcome) (ts : List Entry)
    → length (after_reading cur fd o ts) ≤ length ts
length-after_reading cur fd reading ts = omega arith
length-after_reading cur fd (read_returned true) ts = length-delayed fd (cur + 15) ts
length-after_reading cur fd (read_returned false) ts = length-without fd ts
length-after_reading cur fd underflowed ts = length-without fd ts

length-after_writing :
    (cur fd : ℕ) (o : Outcome) (ts : List Entry) → length (after_writing cur fd o ts) ≤ length ts
length-after_writing cur fd writing ts = omega arith
length-after_writing cur fd fault ts = omega arith
length-after_writing cur fd (returned true) ts = length-delayed fd (cur + 15) ts
length-after_writing cur fd (returned false) ts = length-without fd ts

pub length-entries_after :
    (e : Event) (s : Server) (ts : List Entry)
    → length (entries_after e s ts) ≤ length ts + arrivals e
length-entries_after (connecting results) s ts =
    omega (arith, length-accept_entries (arriving results s) ts, length-arriving results s)
length-entries_after (hung_up fd) s ts = omega (arith, length-without fd ts)
length-entries_after (signalled sigs) s ts = omega arith
length-entries_after (readable cur fd recvs work) s ts =
    omega (arith, length-after_reading cur fd (read_once recvs (s.users fd)).0 ts)
length-entries_after (writable cur fd writevs work) s ts =
    omega (arith, length-after_writing cur fd (write writevs (s.users fd)).0 ts)

-- Timers that split into expired ones and others split as `tick` splits them.
pub remaining_lem :
    (cur : ℕ) (gone left : List Entry)
    → Expired cur gone
    → NotBefore (cur + 1) left
    → remaining cur (gone ++ left) ≡ left
unfolding remaining
remaining_lem cur [] [] x n = refl
remaining_lem cur [] (e ∷ es) x n =
    let later : ltb cur e.expire ≡ true = ground (arith, n.0) in rw later refl
remaining_lem cur (e ∷ es) left x n =
    let due : ltb cur e.expire ≡ false = ground (arith, x.0) in
    rw due (remaining_lem cur es left x.1 n)

pub length-remaining : (cur : ℕ) (ts : List Entry) → length (remaining cur ts) ≤ length ts
unfolding remaining
length-remaining cur [] = omega arith
length-remaining cur (e ∷ es) = ground (arith, length-remaining cur es)

-- What is asked of what follows: only if the loop goes on.
abbrev pub Next : Handled × Flags → (Flags → Server → Type 0) → Type 0
Next (handled s, flags) K = K flags s
Next (waits, flags) K = Unit
Next (crash, flags) K = Unit

-- Each event of a round is possible when it is handled, and then `K`.
abbrev pub EventsPossible :
    ℕ → List Event → Flags → Server → List Entry → (Flags → Server → List Entry → Type 0) → Type 0
EventsPossible fuel [] flags s ts K = K flags s ts
EventsPossible fuel (e ∷ es) flags s ts K =
    Possible e s ts
    × Next (handle_event fuel e flags s)
        (λ flags s'. EventsPossible fuel es flags s' (entries_after e s ts) K)

-- The end of a round, at the time `cur`.
abbrev pub EndPossible :
    ℕ → ℕ → Flags → Server → List Entry → (Flags → Server → List Entry → Type 0) → Type 0
EndPossible fuel cur (false, stop_server) s ts K = K (false, stop_server) s ts
EndPossible fuel cur (true, stop_server) s ts K =
    Next (end_round fuel cur (true, stop_server) s) (λ flags s'. K flags s' (remaining cur ts))

-- Every result of `epoll_wait` reports possible events.
abbrev pub LoopPossible : ℕ → List Wait → Flags → Server → List Entry → Type 0
LoopPossible fuel [] flags s ts = Unit
LoopPossible fuel (epoll_failed ∷ ws) flags s ts = Unit
LoopPossible fuel (interrupted cur ∷ ws) (timeout, stop_server) s ts =
    if stop_server
    then Unit
    else EndPossible fuel cur (timeout, stop_server) s ts
        (λ flags s ts. LoopPossible fuel ws flags s ts)
LoopPossible fuel (events cur es ∷ ws) (timeout, stop_server) s ts =
    if stop_server
    then Unit
    else EventsPossible fuel es (timeout, stop_server) s ts
        (λ flags s ts.
          EndPossible fuel cur flags s ts (λ flags s ts. LoopPossible fuel ws flags s ts))

-- How many connections may come.
abbrev pub all_arrivals : List Event → ℕ
all_arrivals [] = 0
all_arrivals (e ∷ es) = arrivals e + all_arrivals es

abbrev pub coming : List Wait → ℕ
coming [] = 0
coming (epoll_failed ∷ ws) = coming ws
coming (interrupted cur ∷ ws) = coming ws
coming (events cur es ∷ ws) = all_arrivals es + coming ws

-- The loop has ended, or a call does not return; it has not crashed.
abbrev pub KeepsSome : Handled → Type 0
KeepsSome (handled s) = (ts : List Entry) × Accounts s ts
KeepsSome waits = Unit
KeepsSome crash = ⊥
