-- ===== src/WebServer/Expiry.antt =====
-- How TinyWebServer/webserver.cpp puts off a timer, and two ways in which its accounts go wrong.
use make_linux_server.Base.{
  ℕ, ◌+◌, ◌≤◌, ◌<◌, ◌≡◌, ◌≢◌, refl, ap, ◌∙◌, true, Option, some, List, [], ◌∷◌, ◌++◌, ==-ne, length,
  length-append, arith,
}
use make_linux_server.Base.Int.{pos, ◌-ℤ◌}
use make_linux_server.Http.{close_conn, is_open}
use make_linux_server.Timer.{Timer, Store, update, set_expire}
use make_linux_server.Timer.Segment.{
  Entry, Seg, Fresh, Distinct, timer_at, first_or, last_or, Seg-update,
}
use make_linux_server.Timer.Insert.{Repr, insert, TailIs}
use make_linux_server.Timer.Adjust.{adjust_timer_refines}
use make_linux_server.Timer.Sorted.{moved-IsSorted}
use make_linux_server.Timer.Delete.{del_timer_refines}
use make_linux_server.WebServer.{
  Server, put, with_timers, move_timer, adjust_timer, deal_timer, deal_found, cb_func,
}
use make_linux_server.WebServer.Owned.{Accounts, Owned, Owned-drop, Owned-insert, length-insert}
use make_linux_server.WebServer.Accounts.{Seg-cell}

abbrev pub put_off : ℕ → Entry → Entry
put_off v e = record { key = e.key; expire = v; user = e.user }

Fresh-put_off :
    (k v : ℕ) (xs : List Entry) (e : Entry) (ys : List Entry)
    → Fresh k (xs ++ e ∷ ys)
    → Fresh k (xs ++ put_off v e ∷ ys)
Fresh-put_off k v [] e ys f = f
Fresh-put_off k v (x ∷ xs) e ys f = (f.0, Fresh-put_off k v xs e ys f.1)

Distinct-put_off :
    (v : ℕ) (xs : List Entry) (e : Entry) (ys : List Entry)
    → Distinct (xs ++ e ∷ ys)
    → Distinct (xs ++ put_off v e ∷ ys)
Distinct-put_off v [] e ys d = d
Distinct-put_off v (x ∷ xs) e ys d =
    (Fresh-put_off x.key v xs e ys d.0, Distinct-put_off v xs e ys d.1)

first_or-put_off :
    (d v : ℕ) (xs : List Entry) (e : Entry) (ys : List Entry)
    → first_or d (xs ++ e ∷ ys) ≡ first_or d (xs ++ put_off v e ∷ ys)
first_or-put_off d v [] e ys = refl
first_or-put_off d v (x ∷ xs) e ys = refl

last_or-put_off :
    (d v : ℕ) (xs : List Entry) (e : Entry) (ys : List Entry)
    → last_or d (xs ++ e ∷ ys) ≡ last_or d (xs ++ put_off v e ∷ ys)
last_or-put_off d v [] e ys = refl
last_or-put_off d v (x ∷ xs) e ys = last_or-put_off x.key v xs e ys

TailIs-put_off :
    (tail v : ℕ) (xs : List Entry) (e : Entry) (ys : List Entry)
    → TailIs tail (xs ++ e ∷ ys)
    → TailIs tail (xs ++ put_off v e ∷ ys)
TailIs-put_off tail v [] e ys t = t
TailIs-put_off tail v (x ∷ xs) e ys t = t ∙ last_or-put_off x.key v xs e ys

Fresh-middle :
    (k : ℕ) (xs : List Entry) (e : Entry) (ys : List Entry) → Fresh k (xs ++ e ∷ ys) → e.key ≢ k
Fresh-middle k [] e ys f = f.0
Fresh-middle k (x ∷ xs) e ys f = Fresh-middle k xs e ys f.1

-- The list after `timer->expire` was written.
Seg-put_off :
    (cell : ℕ → Option Timer) (v before : ℕ) (xs : List Entry) (e : Entry) (ys : List Entry)
    → Distinct (xs ++ e ∷ ys)
    → Seg cell before 0 (xs ++ e ∷ ys)
    → Seg
        (update cell e.key (some (timer_at (put_off v e) (last_or before xs) (first_or 0 ys))))
        before
        0
        (xs ++ put_off v e ∷ ys)
Seg-put_off cell v before [] e ys d s = (
  s.0,
  ground arith,
  Seg-update cell e.key (some (timer_at (put_off v e) before (first_or 0 ys))) e.key 0 ys d.0 s.2,
)
Seg-put_off cell v before (x ∷ xs) e ys d s = (
  s.0,
  rw (==-ne e.key x.key (Fresh-middle x.key xs e ys d.0))
      (s.1 ∙ ap (λ a. some (timer_at x before a)) (first_or-put_off 0 v xs e ys)),
  Seg-put_off cell v x.key xs e ys d.1 s.2,
)

Repr-put_off :
    (s : Store) (v : ℕ) (xs : List Entry) (e : Entry) (ys : List Entry)
    → Repr s (xs ++ e ∷ ys)
    → Repr
        (record s {
          cell = update s.cell e.key (some (timer_at (put_off v e) (last_or 0 xs) (first_or 0 ys)));
        })
        (xs ++ put_off v e ∷ ys)
Repr-put_off s v xs e ys r = record {
  seg = Seg-put_off s.cell v 0 xs e ys r.distinct r.seg;
  distinct = Distinct-put_off v xs e ys r.distinct;
  head_first = r.head_first ∙ first_or-put_off 0 v xs e ys;
  tail_last = TailIs-put_off s.tail v xs e ys r.tail_last;
}

Owned-adjusted :
    (f : ℕ → ℕ) (v : ℕ) (xs : List Entry) (e : Entry) (ys : List Entry)
    → Owned f (xs ++ e ∷ ys)
    → Owned f (xs ++ insert (put_off v e) ys)
Owned-adjusted f v [] e ys o = Owned-insert f (put_off v e) ys o.0 o.1
Owned-adjusted f v (x ∷ xs) e ys o = (o.0, Owned-adjusted f v xs e ys o.1)

set_expire_lem :
    (s : Store) (p v : ℕ) (t : Timer)
    → s.cell p ≡ some t
    → set_expire p v s
      ≡ some (tt, record s { cell = update s.cell p (some (record t { expire = v })) })
set_expire_lem s p v t h = ground arith

-- Putting off a connection's timer moves its expiry to 15 seconds from now, and the list stays sorted
-- and the accounts right. The clock has not run backwards over the timer's expiry.
pub adjust_timer-Accounts :
    (fuel cur : ℕ) (s : Server) (xs : List Entry) (e : Entry) (ys : List Entry)
    → length ys < fuel
    → e.expire ≤ cur + 15
    → Accounts s (xs ++ e ∷ ys)
    → (s' : Server) × (adjust_timer fuel cur (s.timer_of e.user) s ≡ some s')
      × Accounts s' (xs ++ insert (put_off (cur + 15) e) ys)
unfolding adjust_timer
adjust_timer-Accounts fuel cur s xs e ys lf le a =
    let v = cur + 15 in
    let own : s.timer_of e.user ≡ e.key = (Owned-drop s.timer_of xs (e ∷ ys) a.owned).0 in
    let cell = Seg-cell s.timers.cell xs e ys a.repr.seg in
    let written = record s.timers {
      cell =
          update s.timers.cell e.key (some (timer_at (put_off v e) (last_or 0 xs) (first_or 0 ys)));
    } in
    let w : set_expire e.key v s.timers ≡ some (tt, written) =
      set_expire_lem s.timers e.key v (timer_at e (last_or 0 xs) (first_or 0 ys)) cell in
    let r =
      adjust_timer_refines fuel written xs (put_off v e) ys lf
        (Repr-put_off s.timers v xs e ys a.repr) in
    let count : s.user_count ≡ pos (length (xs ++ insert (put_off v e) ys)) =
      a.counted
      ∙ ap pos (
          omega (
            arith,
            length-append xs (e ∷ ys),
            length-append xs (insert (put_off v e) ys),
            length-insert (put_off v e) ys,
          )) in
    (
      record s { timers = r.0 },
      ap (λ p. adjust_timer fuel cur p s) own
          ∙ ap (move_timer fuel e.key s) w
          ∙ ap (with_timers s) r.1,
      record {
        repr = r.2;
        sorted = moved-IsSorted xs e (put_off v e) ys le a.sorted;
        owned = Owned-adjusted s.timer_of v xs e ys a.owned;
        counted = count;
      },
    )

-- A worker that closes a connection itself, as `process` does when the response does not fit, leaves
-- its timer in the list. When the main thread then deals with that timer, the socket's number is
-- closed a second time, and the connection is subtracted from `m_user_count` twice.
pub close-deal :
    (s : Server) (xs : List Entry) (e : Entry) (ys : List Entry) (fd : ℕ)
    → (s.users e.user).sockfd ≡ pos fd
    → Accounts s (xs ++ e ∷ ys)
    → let closed = close_conn true s.user_count (s.users e.user) in
      let t = record s { user_count = closed.0; users = put s.users e.user closed.1 } in
      (s' : Server) × (deal_timer (s.timer_of e.user) e.user t ≡ some s')
      × (s'.user_count ≡ pos (length (xs ++ ys)) -ℤ pos 1)
      × (s'.closed ≡ e.user ∷ s.closed)
      × Repr s'.timers (xs ++ ys)
unfolding close_conn deal_timer
close-deal s xs e ys fd o a =
    let closed = close_conn true s.user_count (s.users e.user) in
    let t = record s { user_count = closed.0; users = put s.users e.user closed.1 } in
    let own : s.timer_of e.user ≡ e.key = (Owned-drop s.timer_of xs (e ∷ ys) a.owned).0 in
    let cell = Seg-cell s.timers.cell xs e ys a.repr.seg in
    let r = del_timer_refines s.timers xs e ys a.repr in
    let live : is_open (s.users e.user).sockfd ≡ true = ap is_open o in
    let once : closed.0 ≡ s.user_count -ℤ pos 1 = rw live refl in
    let first : s.user_count -ℤ pos 1 ≡ pos (length (xs ++ ys)) =
      ground (arith, a.counted, length-append xs (e ∷ ys), length-append xs ys) in
    (
      record (cb_func e.user t) { timers = r.0 },
      ap (λ p. deal_timer p e.user t) own
          ∙ ap (deal_found e.key e.user t) cell
          ∙ ap (with_timers (cb_func e.user t)) r.1,
      ap (λ c. c -ℤ pos 1) (once ∙ first),
      refl,
      r.2,
    )
