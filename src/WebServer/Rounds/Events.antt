-- ===== src/WebServer/Rounds/Events.antt =====
-- Every event of the loop of TinyWebServer/webserver.cpp keeps the accounts, in the proactor model.
use mathlib.Core.Path.{subst}
use make_linux_server.Base.{
  ℕ, ◌+◌, ◌<◌, ◌≡◌, ◌≢◌, refl, ap, sym, ◌∙◌, Bool, true, false, Option, none, some, List, [], ◌∷◌,
  ◌++◌, ◌==◌, leb, ltb, if◌then◌else◌, length, length-append, arith, Bool-cases, inl, inr,
}
use make_linux_server.Http.{Conn}
use make_linux_server.Http.Read.{ReadOutcome, reading, read_returned, underflowed, read_once}
use make_linux_server.Http.Write.{Outcome, writing, returned, fault, write}
use make_linux_server.Timer.Segment.{Entry, Seg-append_inv}
use make_linux_server.Timer.Insert.{insert}
use make_linux_server.WebServer.{
  Server, Accept, accepted, accept_failed, max_fd, adjust_timer, deal_timer, accept_one, accept_all,
  dealclientdata, is_full, put,
}
use make_linux_server.WebServer.Owned.{Accounts, Owned-drop, length-insert}
use make_linux_server.WebServer.Accounts.{timer-Accounts, deal_timer-Accounts}
use make_linux_server.WebServer.Expiry.{adjust_timer-Accounts}
use make_linux_server.WebServer.Loop.{
  Event, connecting, hung_up, signalled, readable, writable, Flags, Handled, handled, waits, crash,
  or_crash, adjust_if, append_p, after_read, after_write, dealwithread, dealwithwrite, handle_event,
  or_crash_with,
}
use make_linux_server.WebServer.Rounds.{
  without, delayed, accept_entries, arriving, after_reading, after_writing, entries_after, HasTimer,
  AreNew, Possible, find_timer,
}

-- The server goes on with these timers, or the thread waits; it does not crash.
abbrev pub Keeps : List Entry → Handled → Type 0
Keeps ts (handled s) = Accounts s ts
Keeps ts waits = Unit
Keeps ts crash = ⊥

-- Neither the connections nor the work queue belong to the accounts.
Accounts-users :
    (s : Server) (ts : List Entry) (users : ℕ → Conn) (queue : List ℕ)
    → Accounts s ts
    → Accounts (record s { users = users; queue = queue }) ts
Accounts-users s ts users queue a = record {
  repr = a.repr;
  sorted = a.sorted;
  owned = a.owned;
  counted = a.counted;
}

deal-Keeps :
    (s : Server) (ts : List Entry) (fd bound : ℕ)
    → Accounts s ts
    → HasTimer fd bound ts
    → Keeps (without fd ts) (or_crash (deal_timer (s.timer_of fd) fd s))
deal-Keeps s ts fd bound a h =
    let f = find_timer fd bound ts h in
    let (s', e, kept, closed) =
      deal_timer-Accounts s f.before f.entry f.behind (subst (Accounts s) f.split a) in
    let dealt : deal_timer (s.timer_of fd) fd s ≡ some s' =
      ap (λ u. deal_timer (s.timer_of u) u s) (sym f.its) ∙ e in
    subst (λ o. Keeps (without fd ts) (or_crash o)) (sym dealt)
      (subst (Accounts s') (sym f.taken) kept)

adjust-Keeps :
    (fuel cur : ℕ) (s : Server) (ts : List Entry) (fd : ℕ)
    → length ts < fuel
    → Accounts s ts
    → HasTimer fd (cur + 15) ts
    → Keeps (delayed fd (cur + 15) ts) (adjust_if fuel cur (s.timer_of fd) s)
adjust-Keeps fuel cur s ts fd lf a h =
    let f = find_timer fd (cur + 15) ts h in
    let b = subst (Accounts s) f.split a in
    let few : length f.behind < fuel =
      omega (arith, ap length f.split, length-append f.before (f.entry ∷ f.behind)) in
    let (s', e, kept) = adjust_timer-Accounts fuel cur s f.before f.entry f.behind few f.early b in
    let own : s.timer_of f.entry.user ≡ f.entry.key =
      (Owned-drop s.timer_of f.before (f.entry ∷ f.behind) b.owned).0 in
    let there = (Seg-append_inv s.timers.cell 0 0 f.before (f.entry ∷ f.behind) b.repr.seg).1.0 in
    let here : s.timer_of fd ≡ f.entry.key = ap s.timer_of (sym f.its) ∙ own in
    let live : (s.timer_of fd == 0) ≡ false = ground (arith, here, there) in
    let moved : adjust_timer fuel cur (s.timer_of fd) s ≡ some s' =
      ap (λ u. adjust_timer fuel cur (s.timer_of u) s) (sym f.its) ∙ e in
    let all : adjust_if fuel cur (s.timer_of fd) s ≡ handled s' =
      ap (λ b. if b then handled s else or_crash (adjust_timer fuel cur (s.timer_of fd) s)) live
      ∙ ap or_crash moved in
    subst (Keeps (delayed fd (cur + 15) ts)) (sym all)
      (subst (Accounts s') (sym (f.moved (cur + 15))) kept)

-- What `dealclientdata` returns, with these timers.
abbrev KeepsAll : List Entry → Option (Bool × Server) → Type 0
KeepsAll ts none = ⊥
KeepsAll ts (some (b, s)) = Accounts s ts

is_full_lem : (s : Server) (ts : List Entry) → Accounts s ts → is_full s ≡ leb max_fd (length ts)
is_full_lem s ts a = ground (arith, a.counted)

accept_all-KeepsAll :
    (fuel : ℕ) (rs : List Accept) (s : Server) (ts : List Entry)
    → length ts + length rs < fuel
    → AreNew rs ts
    → Accounts s ts
    → KeepsAll (accept_entries rs ts) (accept_all fuel rs s)
unfolding accept_all
accept_all-KeepsAll fuel [] s ts lf n a = a
accept_all-KeepsAll fuel (accept_failed ∷ rest) s ts lf n a = a
accept_all-KeepsAll fuel (accepted fd p cur ∷ rest) s ts lf n a =
    let full = is_full_lem s ts a in
    elim (Bool-cases (leb max_fd (length ts))) [
      | inl y ↦
          rw (full, y)
            (record { repr = a.repr; sorted = a.sorted; owned = a.owned; counted = a.counted })
      | inr y ↦
          let e : Entry = record { key = p; expire = cur + 15; user = fd } in
          let (s', made, kept, ready) =
            timer-Accounts fuel cur p fd s ts (omega arith) n.0 n.1 n.2 n.3 a in
          let more =
            accept_all-KeepsAll fuel rest s' (insert e ts) (omega (arith, length-insert e ts)) n.4
              kept in
          rw (full, y, made) more
    ]

accept_one-KeepsAll :
    (fuel : ℕ) (r : Accept) (s : Server) (ts : List Entry)
    → length ts < fuel
    → AreNew (r ∷ []) ts
    → Accounts s ts
    → KeepsAll (accept_entries (r ∷ []) ts) (accept_one fuel r s)
unfolding accept_one
accept_one-KeepsAll fuel accept_failed s ts lf n a = a
accept_one-KeepsAll fuel (accepted fd p cur) s ts lf n a =
    let full = is_full_lem s ts a in
    elim (Bool-cases (leb max_fd (length ts))) [
      | inl y ↦
          rw (full, y)
            (record { repr = a.repr; sorted = a.sorted; owned = a.owned; counted = a.counted })
      | inr y ↦
          let (s', made, kept, ready) = timer-Accounts fuel cur p fd s ts lf n.0 n.1 n.2 n.3 a in
          rw (full, y, made) kept
    ]

dealclientdata-KeepsAll :
    (fuel : ℕ) (rs : List Accept) (s : Server) (ts : List Entry)
    → length ts + length rs < fuel
    → AreNew (arriving rs s) ts
    → Accounts s ts
    → KeepsAll (accept_entries (arriving rs s) ts) (dealclientdata fuel rs s)
unfolding dealclientdata
dealclientdata-KeepsAll fuel rs s ts lf n a = elim (Bool-cases (s.listen_trigger == 0)) [
  | inl y ↦
      elim rs
          as (λ rs.
            length ts + length rs < fuel
            → AreNew (arriving rs s) ts
            → KeepsAll (accept_entries (arriving rs s) ts) (dealclientdata fuel rs s)) [
              | [] ↦ λ lf n. rw y a
              | r ∷ rest ↦
                  λ lf n. rw y (accept_one-KeepsAll fuel r s ts (omega arith) (rw y at n) a)
            ]
        lf n
  | inr y ↦ rw y (accept_all-KeepsAll fuel rs s ts lf (rw y at n) a)
]

or_crash_with-Keeps :
    (flags : Flags) (o : Option (Bool × Server)) (ts : List Entry)
    → KeepsAll ts o
    → Keeps ts (or_crash_with flags o).0
or_crash_with-Keeps flags none ts k = k
or_crash_with-Keeps flags (some (b, s)) ts k = k

read-Keeps :
    (fuel cur fd : ℕ) (r : ReadOutcome × Conn) (s : Server) (ts : List Entry)
    → length ts < fuel
    → HasTimer fd (cur + 15) ts
    → Accounts s ts
    → Keeps (after_reading cur fd r.0 ts) (after_read fuel cur fd r s)
read-Keeps fuel cur fd (reading, c) s ts lf h a = tt
read-Keeps fuel cur fd (read_returned true, c) s ts lf h a =
    let t = append_p fd (record s { users = put s.users fd c }) in
    let b : Accounts t ts = elim (Bool-cases (leb s.max_requests (length s.queue))) [
      | inl y ↦ rw y (Accounts-users s ts (put s.users fd c) s.queue a)
      | inr y ↦ rw y (Accounts-users s ts (put s.users fd c) (s.queue ++ fd ∷ []) a)
    ] in
    let same : t.timer_of ≡ s.timer_of = ground arith in
    subst (λ f. Keeps (delayed fd (cur + 15) ts) (adjust_if fuel cur (f fd) t)) same
      (adjust-Keeps fuel cur t ts fd lf b h)
read-Keeps fuel cur fd (read_returned false, c) s ts lf h a =
    deal-Keeps (record s { users = put s.users fd c }) ts fd (cur + 15)
      (Accounts-users s ts (put s.users fd c) s.queue a) h
read-Keeps fuel cur fd (underflowed, c) s ts lf h a =
    deal-Keeps (record s { users = put s.users fd c }) ts fd (cur + 15)
      (Accounts-users s ts (put s.users fd c) s.queue a) h

write-Keeps :
    (fuel cur fd : ℕ) (r : Outcome × Conn × List ℕ) (s : Server) (ts : List Entry)
    → length ts < fuel
    → HasTimer fd (cur + 15) ts
    → r.0 ≢ fault
    → Accounts s ts
    → Keeps (after_writing cur fd r.0 ts) (after_write fuel cur fd r s)
write-Keeps fuel cur fd (writing, c, out) s ts lf h n a = tt
write-Keeps fuel cur fd (fault, c, out) s ts lf h n a = n refl
write-Keeps fuel cur fd (returned true, c, out) s ts lf h n a =
    adjust-Keeps fuel cur (record s { users = put s.users fd c }) ts fd lf
      (Accounts-users s ts (put s.users fd c) s.queue a) h
write-Keeps fuel cur fd (returned false, c, out) s ts lf h n a =
    deal-Keeps (record s { users = put s.users fd c }) ts fd (cur + 15)
      (Accounts-users s ts (put s.users fd c) s.queue a) h

abbrev pub arrivals : Event → ℕ
arrivals (connecting results) = length results
arrivals (hung_up fd) = 0
arrivals (signalled sigs) = 0
arrivals (readable cur fd recvs work) = 0
arrivals (writable cur fd writevs work) = 0

pub handle_event-Keeps :
    (fuel : ℕ) (e : Event) (flags : Flags) (s : Server) (ts : List Entry)
    → length ts + arrivals e < fuel
    → Possible e s ts
    → Accounts s ts
    → Keeps (entries_after e s ts) (handle_event fuel e flags s).0
unfolding handle_event dealwithread dealwithwrite
handle_event-Keeps fuel (connecting results) flags s ts lf p a =
    or_crash_with-Keeps flags (dealclientdata fuel results s)
      (accept_entries (arriving results s) ts) (dealclientdata-KeepsAll fuel results s ts lf p a)
handle_event-Keeps fuel (hung_up fd) flags s ts lf p a =
    let there : ltb fd max_fd ≡ true = ground (arith, p.0) in
    rw there (deal-Keeps s ts fd p.1 a p.2)
handle_event-Keeps fuel (signalled sigs) flags s ts lf p a = a
handle_event-Keeps fuel (readable cur fd recvs work) flags s ts lf p a =
    let there : ltb fd max_fd ≡ true = ground (arith, p.0) in
    rw (there, p.1) (read-Keeps fuel cur fd (read_once recvs (s.users fd)) s ts (omega arith) p.2 a)
handle_event-Keeps fuel (writable cur fd writevs work) flags s ts lf p a =
    let there : ltb fd max_fd ≡ true = ground (arith, p.0) in
    rw (there, p.1)
      (write-Keeps fuel cur fd (write writevs (s.users fd)) s ts (omega arith) p.2 p.3 a)
