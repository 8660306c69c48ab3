-- ===== src/WebServer/Rounds/Kept.antt =====
-- The event loop of TinyWebServer/webserver.cpp keeps the accounts, in the proactor model.
use mathlib.Core.Path.{subst}
use make_linux_server.Base.{
  ℕ, ◌+◌, ◌<◌, ◌≡◌, refl, ap, sym, ◌∙◌, true, false, List, [], ◌∷◌, length, arith,
}
use make_linux_server.Timer.Segment.{Entry}
use make_linux_server.Timer.Sorted.{remaining}
use make_linux_server.WebServer.{Server, timer_handler}
use make_linux_server.WebServer.Owned.{Accounts}
use make_linux_server.WebServer.Accounts.{timer_handler-Accounts}
use make_linux_server.WebServer.Loop.{
  Event, Flags, Handled, handled, waits, crash, or_crash, handle_event, and_next, handle_events,
  end_round, Wait, events, interrupted, epoll_failed, event_loop,
}
use make_linux_server.WebServer.Rounds.{entries_after}
use make_linux_server.WebServer.Rounds.Events.{Keeps, handle_event-Keeps}
use make_linux_server.WebServer.Rounds.Loops.{
  length-entries_after, remaining_lem, length-remaining, Next, EventsPossible, EndPossible,
  LoopPossible, all_arrivals, coming, KeepsSome,
}

and_next_assoc :
    (a : Handled × Flags) (f g : Flags → Server → Handled × Flags)
    → and_next (and_next a f) g ≡ and_next a (λ flags s. and_next (f flags s) g)
and_next_assoc (handled s, flags) f g = refl
and_next_assoc (waits, flags) f g = refl
and_next_assoc (crash, flags) f g = refl

-- A part of the loop is done, and the rest goes on.
and_next-Keeps :
    (r : Handled × Flags) (ts : List Entry) (K : Flags → Server → Type 0)
    (next : Flags → Server → Handled × Flags)
    → Keeps ts r.0
    → Next r K
    → ((flags : Flags) (s : Server) → Accounts s ts → K flags s → KeepsSome (next flags s).0)
    → KeepsSome (and_next r next).0
and_next-Keeps (handled s, flags) ts K next a k h = h flags s a k
and_next-Keeps (waits, flags) ts K next a k h = tt
and_next-Keeps (crash, flags) ts K next a k h = elim a [ ]

handle_events-Keeps :
    (fuel : ℕ) (es : List Event) (flags : Flags) (s : Server) (ts : List Entry) (more : ℕ)
    (K : Flags → Server → List Entry → Type 0) (next : Flags → Server → Handled × Flags)
    → length ts + all_arrivals es + more < fuel
    → EventsPossible fuel es flags s ts K
    → Accounts s ts
    → ((flags : Flags) (s : Server) (ts : List Entry)
        → length ts + more < fuel
        → Accounts s ts
        → K flags s ts
        → KeepsSome (next flags s).0)
    → KeepsSome (and_next (handle_events fuel es flags s) next).0
unfolding handle_events
handle_events-Keeps fuel [] flags s ts more K next lf p a h = h flags s ts (omega arith) a p
handle_events-Keeps fuel (e ∷ es) flags s ts more K next lf p a h =
    let r = handle_event fuel e flags s in
    let ts' = entries_after e s ts in
    let kept = handle_event-Keeps fuel e flags s ts (omega arith) p.0 a in
    let few = length-entries_after e s ts in
    subst (λ r. KeepsSome r.0) (sym (and_next_assoc r (handle_events fuel es) next))
      (and_next-Keeps r ts' (λ flags s'. EventsPossible fuel es flags s' ts' K)
        (λ flags s. and_next (handle_events fuel es flags s) next) kept p.1
        (λ flags s b q.
          handle_events-Keeps fuel es flags s ts' more K next (omega (arith, few, lf)) q b h))

end_round-Keeps :
    (fuel cur : ℕ) (flags : Flags) (s : Server) (ts : List Entry) (more : ℕ)
    (K : Flags → Server → List Entry → Type 0) (next : Flags → Server → Handled × Flags)
    → length ts + more < fuel
    → EndPossible fuel cur flags s ts K
    → Accounts s ts
    → ((flags : Flags) (s : Server) (ts : List Entry)
        → length ts + more < fuel
        → Accounts s ts
        → K flags s ts
        → KeepsSome (next flags s).0)
    → KeepsSome (and_next (end_round fuel cur flags s) next).0
unfolding end_round
end_round-Keeps fuel cur (false, stop) s ts more K next lf p a h = h (false, stop) s ts lf a p
end_round-Keeps fuel cur (true, stop) s ts more K next lf p a h =
    let (s', gone, left, e, split, expired, later, kept, closed) =
      timer_handler-Accounts fuel cur s ts (omega arith) a in
    let same : left ≡ remaining cur ts =
      sym (remaining_lem cur gone left expired later) ∙ ap (remaining cur) split in
    let kept' : Keeps (remaining cur ts) (or_crash (timer_handler fuel cur s)) =
      subst (λ o. Keeps (remaining cur ts) (or_crash o)) (sym e) (subst (Accounts s') same kept) in
    and_next-Keeps (or_crash (timer_handler fuel cur s), (false, stop)) (remaining cur ts)
      (λ flags s. K flags s (remaining cur ts)) next kept' p
      (λ flags s b q. h flags s (remaining cur ts) (omega (arith, length-remaining cur ts, lf)) b q)

-- The event loop keeps the accounts. Run by the main thread in the proactor model, whatever
-- `epoll_wait` reports of the sockets that are open, new connections and signals, in any order and
-- over any number of rounds, the loop accesses no timer that is gone and nothing behind the end of an array, and when it ends the list of
-- timers is sorted, each socket in it has its own timer, and `m_user_count` is their number. Sockets
-- have numbers below MAX_FD, the length of `users` and `users_timer`, and fuel is given for the timers
-- that there are and that may come. The clock does not run backwards over a timer, no `write` leaves the bytes of its answer, `new` and
-- `accept` return what is not in use, and the worker threads, which are not in the run, close no
-- connection.
pub event_loop-Keeps :
    (fuel : ℕ) (ws : List Wait) (flags : Flags) (s : Server) (ts : List Entry)
    → length ts + coming ws < fuel
    → LoopPossible fuel ws flags s ts
    → Accounts s ts
    → KeepsSome (event_loop fuel ws flags s).0
unfolding event_loop
event_loop-Keeps fuel [] (timeout, true) s ts lf p a = (ts, a)
event_loop-Keeps fuel [] (timeout, false) s ts lf p a = tt
event_loop-Keeps fuel (epoll_failed ∷ ws) (timeout, stop) s ts lf p a = (ts, a)
event_loop-Keeps fuel (interrupted cur ∷ ws) (timeout, true) s ts lf p a = (ts, a)
event_loop-Keeps fuel (interrupted cur ∷ ws) (timeout, false) s ts lf p a =
    end_round-Keeps fuel cur (timeout, false) s ts (coming ws)
      (λ flags s ts. LoopPossible fuel ws flags s ts) (event_loop fuel ws) lf p a
      (λ flags s ts lf b q. event_loop-Keeps fuel ws flags s ts lf q b)
event_loop-Keeps fuel (events cur es ∷ ws) (timeout, true) s ts lf p a = (ts, a)
event_loop-Keeps fuel (events cur es ∷ ws) (timeout, false) s ts lf p a =
    subst (λ r. KeepsSome r.0)
      (sym (
        and_next_assoc (handle_events fuel es (timeout, false) s) (end_round fuel cur)
          (event_loop fuel ws)))
      (handle_events-Keeps fuel es (timeout, false) s ts (coming ws)
        (λ flags s ts.
          EndPossible fuel cur flags s ts (λ flags s ts. LoopPossible fuel ws flags s ts))
        (λ flags s. and_next (end_round fuel cur flags s) (event_loop fuel ws)) (omega (arith, lf))
        p a
        (λ flags s ts lf b q.
          end_round-Keeps fuel cur flags s ts (coming ws)
            (λ flags s ts. LoopPossible fuel ws flags s ts) (event_loop fuel ws) lf q b
            (λ flags s ts lf b q. event_loop-Keeps fuel ws flags s ts lf q b)))
