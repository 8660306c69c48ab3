-- ===== src/WebServer/Accounts.antt =====
-- The accounts of TinyWebServer/webserver.cpp: a timer for each connection, and a count of them.
use make_linux_server.Base.{
  ℕ, suc, ◌+◌, ◌<◌, ◌≡◌, ◌≢◌, refl, ap, sym, ◌∙◌, Option, some, List, [], ◌∷◌, ◌++◌, length,
  length-append, arith, ltb, true,
}
use make_linux_server.Base.Int.{pos, ◌-ℤ◌, ◌+ℤ◌}
use mathlib.Core.Path.{subst}
use make_linux_server.Http.{init, reset}
use make_linux_server.Timer.{Timer, update}
use make_linux_server.Timer.Segment.{Entry, Seg, Fresh, timer_at, first_or, last_or, Seg-append_inv}
use make_linux_server.Timer.Insert.{Repr, insert, add_timer_refines}
use make_linux_server.Timer.Delete.{del_timer_refines}
use make_linux_server.Timer.Sorted.{NotBefore, Expired, insert-IsSorted, without-IsSorted}
use make_linux_server.Timer.Tick as Ticks
use make_linux_server.Timer.Tick.{tick_refines}
use make_linux_server.WebServer.{
  Server, max_fd, put, with_timers, deal_found, after_tick, timer, cb_func, deal_timer, fire,
  timer_handler,
}
use make_linux_server.WebServer.Owned.{
  Owned, Unused, Accounts, length-insert, Owned-insert, Owned-put, Owned-without, Owned-drop,
  put_self, Repr-update,
}

-- A connection that is accepted, with a number below MAX_FD, gets a timer of its own, which expires 15 seconds later; the accounts
-- stay right, and the connection object is set up.
pub timer-Accounts :
    (fuel cur p fd : ℕ) (s : Server) (ts : List Entry)
    → length ts < fuel
    → fd < max_fd
    → p ≢ 0
    → Fresh p ts
    → Unused fd ts
    → Accounts s ts
    → (s' : Server) × (timer fuel cur p fd s ≡ some s')
      × Accounts s' (insert (record { key = p; expire = cur + 15; user = fd }) ts)
      × ((s'.users fd).sockfd ≡ pos fd)
unfolding timer init reset
timer-Accounts fuel cur p fd s ts lf small p0 f u a =
    let there : ltb fd max_fd ≡ true = ground arith in
    let e : Entry = record { key = p; expire = cur + 15; user = fd } in
    let heap = record s.timers { cell = update s.timers.cell p (some (timer_at e 0 0)) } in
    let here : heap.cell p ≡ some (timer_at e 0 0) = ground arith in
    let r =
      add_timer_refines fuel heap e ts lf here p0 f
        (Repr-update s.timers p (some (timer_at e 0 0)) ts f a.repr) in
    let count : s.user_count +ℤ pos 1 ≡ pos (length (insert e ts)) =
      ground (arith, a.counted, length-insert e ts) in
    let ready = record s {
      users = put s.users fd (init fd s.root s.conn_trigger s.user_count (s.users fd)).1;
      user_count = s.user_count +ℤ pos 1;
      timer_of = put s.timer_of fd p;
      timers = heap;
    } in
    (
      record ready { timers = r.0 },
      rw there (ap (with_timers ready) r.1),
      record {
        repr = r.2;
        sorted = insert-IsSorted e ts a.sorted;
        owned =
            Owned-insert (put s.timer_of fd p) e ts (put_self s.timer_of fd p)
              (Owned-put s.timer_of fd p ts u a.owned);
        counted = count;
      },
      ground arith,
    )

pub Seg-cell :
    (cell : ℕ → Option Timer) (xs : List Entry) (e : Entry) (ys : List Entry)
    → Seg cell 0 0 (xs ++ e ∷ ys)
    → cell e.key ≡ some (timer_at e (last_or 0 xs) (first_or 0 ys))
Seg-cell cell xs e ys s = (Seg-append_inv cell 0 0 xs (e ∷ ys) s).1.1

-- Closing a connection by `deal_timer`, with its own timer: the socket is closed, the timer leaves the
-- list, and the accounts stay right.
pub deal_timer-Accounts :
    (s : Server) (xs : List Entry) (e : Entry) (ys : List Entry)
    → Accounts s (xs ++ e ∷ ys)
    → (s' : Server) × (deal_timer (s.timer_of e.user) e.user s ≡ some s')
      × Accounts s' (xs ++ ys)
      × (s'.closed ≡ e.user ∷ s.closed)
unfolding deal_timer
deal_timer-Accounts s xs e ys a =
    let own : s.timer_of e.user ≡ e.key = (Owned-drop s.timer_of xs (e ∷ ys) a.owned).0 in
    let r = del_timer_refines s.timers xs e ys a.repr in
    let done = cb_func e.user s in
    let count : s.user_count -ℤ pos 1 ≡ pos (length (xs ++ ys)) =
      ground (arith, a.counted, length-append xs (e ∷ ys), length-append xs ys) in
    (
      record done { timers = r.0 },
      ap (λ p. deal_timer p e.user s) own
          ∙ ap (deal_found e.key e.user s) (Seg-cell s.timers.cell xs e ys a.repr.seg)
          ∙ ap (with_timers done) r.1,
      record {
        repr = r.2;
        sorted = without-IsSorted xs e ys a.sorted;
        owned = Owned-without s.timer_of xs e ys a.owned;
        counted = count;
      },
      refl,
    )

-- The list with others pushed in front of it one by one.
abbrev pub pushed : List ℕ → List ℕ → List ℕ
pushed [] closed = closed
pushed (fd ∷ fds) closed = pushed fds (fd ∷ closed)

-- What calling the callbacks changes.
pub record Fired (fds : List ℕ) (s s' : Server) : Type 0 where
  pub timers : s'.timers ≡ s.timers
  pub timer_of : s'.timer_of ≡ s.timer_of
  pub closed : s'.closed ≡ pushed fds s.closed
  pub counted : (n : ℕ) → s.user_count ≡ pos (length fds + n) → s'.user_count ≡ pos n

fire-Fired : (fds : List ℕ) (s : Server) → Fired fds s (fire fds s)
fire-Fired [] s = record {
  timers = refl;
  timer_of = refl;
  closed = refl;
  counted = λ n h. h ∙ ap pos (omega arith);
}
fire-Fired (fd ∷ fds) s =
    let ih = fire-Fired fds (cb_func fd s) in
    record {
      timers = ih.timers;
      timer_of = ih.timer_of;
      closed = ih.closed;
      counted = λ n h.
          ih.counted n
            (let k : s.user_count -ℤ pos 1 ≡ pos (length fds + n) = ground (arith, h) in k);
    }

length-map_users : (es : List Entry) → length (Ticks.users es) ≡ length es
length-map_users [] = refl
length-map_users (e ∷ es) = ap suc (length-map_users es)

-- When the alarm's flag is set, `timer_handler` closes exactly the connections whose timers have
-- expired, the soonest first; the others keep their timers, and the accounts stay right.
pub timer_handler-Accounts :
    (fuel cur : ℕ) (s : Server) (ts : List Entry)
    → length ts < fuel
    → Accounts s ts
    → (s' : Server) × (gone : List Entry) × (left : List Entry) × (timer_handler fuel cur s
        ≡ some s')
      × (gone ++ left ≡ ts)
      × Expired cur gone
      × NotBefore (cur + 1) left
      × Accounts s' left
      × (s'.closed ≡ pushed (Ticks.users gone) s.closed)
unfolding timer_handler
timer_handler-Accounts fuel cur s ts lf a =
    let r = tick_refines fuel cur s.timers ts lf a.sorted a.repr in
    let ticked = record s { timers = r.0 } in
    let f = fire-Fired (Ticks.users r.1) ticked in
    let n : length (Ticks.users r.1) + length r.2 ≡ length ts =
      omega (arith, length-map_users r.1, ap length r.5, length-append r.1 r.2) in
    let count : s.user_count ≡ pos (length (Ticks.users r.1) + length r.2) =
      a.counted ∙ ap pos (sym n) in
    let own : Owned s.timer_of r.2 =
      Owned-drop s.timer_of r.1 r.2 (subst (Owned s.timer_of) (sym r.5) a.owned) in
    (
      fire (Ticks.users r.1) ticked,
      r.1,
      r.2,
      ap (after_tick s) r.3,
      r.5,
      r.6,
      r.7,
      record {
        repr = subst (λ t. Repr t r.2) (sym f.timers) r.4;
        sorted = r.8;
        owned = subst (λ t. Owned t r.2) (sym f.timer_of) own;
        counted = f.counted (length r.2) count;
      },
      f.closed,
    )
