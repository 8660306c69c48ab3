-- ===== src/WebServer/Rounds.antt =====
-- What the event loop of TinyWebServer/webserver.cpp makes of the list of timers, as the events alone
-- describe it, in the proactor model.
pub mod Events
pub mod Loops
pub mod Kept
use make_linux_server.Base.{
  ℕ, ◌+◌, ◌≤◌, ◌<◌, ◌≡◌, ◌≢◌, refl, ap, ◌∙◌, Bool, true, false, Option, List, [], ◌∷◌, ◌++◌, ◌==◌,
  leb, if◌then◌else◌, length, take, arith, Bool-cases, inl, inr,
}
use make_linux_server.Http.Read.{ReadOutcome, reading, read_returned, underflowed, read_once}
use make_linux_server.Http.Write.{Outcome, writing, returned, fault, write}
use make_linux_server.Timer.Segment.{Entry, Fresh}
use make_linux_server.Timer.Insert.{insert}
use make_linux_server.WebServer.{Server, Accept, accepted, accept_failed, max_fd}
use make_linux_server.WebServer.Owned.{Unused}
use make_linux_server.WebServer.Expiry.{put_off}
use make_linux_server.WebServer.Loop.{
  Event, connecting, hung_up, signalled, readable, writable, Flags, dealwithsignal,
}

-- A connection's timer is taken out.
unfoldable pub without : ℕ → List Entry → List Entry
without fd [] = []
without fd (e ∷ es) = if e.user == fd then es else e ∷ without fd es

-- A connection's timer is put off, behind those that do not expire later.
unfoldable pub delayed : ℕ → ℕ → List Entry → List Entry
delayed fd v [] = []
delayed fd v (e ∷ es) = if e.user == fd then insert (put_off v e) es else e ∷ delayed fd v es

-- Connections are accepted, up to the limit.
abbrev pub accept_entries : List Accept → List Entry → List Entry
accept_entries [] ts = ts
accept_entries (accept_failed ∷ rest) ts = ts
accept_entries (accepted fd p cur ∷ rest) ts =
    if leb max_fd (length ts)
    then ts
    else accept_entries rest (insert (record { key = p; expire = cur + 15; user = fd }) ts)

-- In level-triggered mode one connection is accepted for an event.
abbrev pub arriving : List Accept → Server → List Accept
arriving results s = if s.listen_trigger == 0 then take 1 results else results

abbrev pub after_reading : ℕ → ℕ → ReadOutcome → List Entry → List Entry
after_reading cur fd reading ts = ts
after_reading cur fd (read_returned true) ts = delayed fd (cur + 15) ts
after_reading cur fd (read_returned false) ts = without fd ts
after_reading cur fd underflowed ts = without fd ts

abbrev pub after_writing : ℕ → ℕ → Outcome → List Entry → List Entry
after_writing cur fd writing ts = ts
after_writing cur fd fault ts = ts
after_writing cur fd (returned true) ts = delayed fd (cur + 15) ts
after_writing cur fd (returned false) ts = without fd ts

-- The timers behind an event.
abbrev pub entries_after : Event → Server → List Entry → List Entry
entries_after (connecting results) s ts = accept_entries (arriving results s) ts
entries_after (hung_up fd) s ts = without fd ts
entries_after (signalled sigs) s ts = ts
entries_after (readable cur fd recvs work) s ts =
    after_reading cur fd (read_once recvs (s.users fd)).0 ts
entries_after (writable cur fd writevs work) s ts =
    after_writing cur fd (write writevs (s.users fd)).0 ts

-- The socket has a timer, which expires at `bound` at the latest.
abbrev pub HasTimer : ℕ → ℕ → List Entry → Type 0
HasTimer fd bound [] = ⊥
HasTimer fd bound (e ∷ es) = if e.user == fd then e.expire ≤ bound else HasTimer fd bound es

-- `new` and `accept` return what is not in use, and `accept` a number below MAX_FD.
abbrev pub AreNew : List Accept → List Entry → Type 0
AreNew [] ts = Unit
AreNew (accept_failed ∷ rest) ts = Unit
AreNew (accepted fd p cur ∷ rest) ts =
    (fd < max_fd)
    × (p ≢ 0)
    × Fresh p ts
    × Unused fd ts
    × AreNew rest (insert (record { key = p; expire = cur + 15; user = fd }) ts)

-- What `epoll_wait` may report in the proactor model: only sockets that are open and have an element of the arrays, the clock has not
-- run backwards over the timer, and `write` does not leave the bytes of its answer.
abbrev pub Possible : Event → Server → List Entry → Type 0
Possible (connecting results) s ts = AreNew (arriving results s) ts
Possible (hung_up fd) s ts = (fd < max_fd) × (bound : ℕ) × HasTimer fd bound ts
Possible (signalled sigs) s ts = Unit
Possible (readable cur fd recvs work) s ts =
    (fd < max_fd) × ((s.actor_model == 1) ≡ false) × HasTimer fd (cur + 15) ts
Possible (writable cur fd writevs work) s ts =
    (fd < max_fd)
    × ((s.actor_model == 1) ≡ false)
    × HasTimer fd (cur + 15) ts
    × ((write writevs (s.users fd)).0 ≢ fault)

-- Where a socket's timer stands.
pub record Found (fd bound : ℕ) (ts : List Entry) : Type 0 where
  pub before : List Entry
  pub entry : Entry
  pub behind : List Entry
  pub split : ts ≡ before ++ entry ∷ behind
  pub its : entry.user ≡ fd
  pub early : entry.expire ≤ bound
  pub taken : without fd ts ≡ before ++ behind
  pub moved : (v : ℕ) → delayed fd v ts ≡ before ++ insert (put_off v entry) behind

pub find_timer : (fd bound : ℕ) (ts : List Entry) → HasTimer fd bound ts → Found fd bound ts
unfolding without delayed
find_timer fd bound [] h = elim h [ ]
find_timer fd bound (e ∷ es) h = elim (Bool-cases (e.user == fd)) [
  | inl y ↦ record {
    before = [];
    entry = e;
    behind = es;
    split = refl;
    its = ground arith;
    early = rw y at h;
    taken = rw y refl;
    moved = λ v. rw y refl;
  }
  | inr n ↦
      let f = find_timer fd bound es (rw n at h) in
      record {
        before = e ∷ f.before;
        entry = f.entry;
        behind = f.behind;
        split = ap (λ (l : List Entry). e ∷ l) f.split;
        its = f.its;
        early = f.early;
        taken = rw n (ap (λ (l : List Entry). e ∷ l) f.taken);
        moved = λ v. rw n (ap (λ (l : List Entry). e ∷ l) (f.moved v));
      }
]
