-- ===== src/Reactor/Server/Closing.antt =====
-- A connection of cpp_server/src/Server.cpp that is closed goes to the main loop's queue.
use mathlib.Core.Path.{subst}
use make_linux_server.Base.{
  ℕ, ◌<◌, ◌≤◌, ◌≡◌, ◌≢◌, refl, ap, sym, ◌∙◌, Option, none, some, List, [], ◌∷◌, ◌++◌, ◌==◌, arith,
  Bool-cases, ==-refl, inl, inr,
}
use make_linux_server.Base.Threads.{total-append, is_one}
use make_linux_server.Reactor.Connection.{State, invalid, connected, closed}
use make_linux_server.Reactor.Server.{
  Conn, Connections, Server, find, update, close_from, handle_close, close_found,
}
use make_linux_server.Reactor.Server.Table.{keys, queued, keys-find}
use make_linux_server.Reactor.Server.Inv.{Waits, AllWait, IsValid, some-injective}

-- A connection that is closed was not waiting.
pub not_waiting :
    (table : Connections) (state_of : ℕ → State) (next : ℕ) (c : Conn) (cs : List Conn)
    → find c.fd table ≡ some c
    → state_of c.conid ≢ closed
    → AllWait table state_of next cs
    → queued c.fd cs ≡ 0
not_waiting table st next c [] f h w = refl
not_waiting table st next c (d ∷ cs) f h w =
    let rest = not_waiting table st next c cs f h w.1 in
    elim (Bool-cases (d.fd == c.fd)) [
      | inl same ↦
          let e : d.fd ≡ c.fd = ground arith in
          let own : d ≡ c = some-injective d c (sym w.0.0 ∙ ap (λ x. find x table) e ∙ f) in
          absurd (h (ap (λ (x : Conn). st x.conid) (sym own) ∙ w.0.1))
      | inr other ↦ rw other (omega (arith, rest))
    ]

pub AllWait-close :
    (table : Connections) (state_of : ℕ → State) (next conid : ℕ) (cs : List Conn)
    → AllWait table state_of next cs
    → AllWait table (update state_of conid closed) next cs
AllWait-close table st next conid [] w = tt
AllWait-close table st next conid (c ∷ cs) w =
    ((w.0.0, ground (arith, w.0.1), w.0.2), AllWait-close table st next conid cs w.1)

pub AllWait-append :
    (table : Connections) (state_of : ℕ → State) (next : ℕ) (c : Conn) (cs : List Conn)
    → AllWait table state_of next cs
    → Waits table state_of next c
    → AllWait table state_of next (cs ++ c ∷ [])
AllWait-append table st next c [] w h = (h, tt)
AllWait-append table st next c (d ∷ cs) w h = (w.0, AllWait-append table st next c cs w.1 h)

pub update_self : (f : ℕ → State) (x : ℕ) (st : State) → update f x st x ≡ st
update_self f x st = rw (==-refl x) refl

pub closing-append :
    (x : ℕ) (c : Conn) (s : Server)
    → find c.fd s.connections ≡ some c
    → queued c.fd s.main_queue ≡ 0
    → IsValid s
    → queued x (s.main_queue ++ c ∷ []) ≤ keys x s.connections
closing-append x c s own alone v =
    let split = total-append (λ (d : Conn). is_one x d.fd) s.main_queue (c ∷ []) in
    let key = keys-find c.fd s.connections c own in
    elim (Bool-cases (c.fd == x)) [
      | inl same ↦
          let e : c.fd ≡ x = ground arith in
          let alone' : queued x s.main_queue ≡ 0 =
            ap (λ y. queued y s.main_queue) (sym e) ∙ alone in
          let key' : 0 < keys x s.connections = subst (λ y. 0 < keys y s.connections) e key in
          ground (arith, split)
      | inr other ↦ ground (arith, split, v.closing x)
    ]

-- The connection goes to the queue of the main loop.
pub closed-IsValid :
    (fd : ℕ) (c : Conn) (s : Server)
    → find fd s.connections ≡ some c
    → s.state_of c.conid ≢ closed
    → IsValid s
    → IsValid (record s {
      state_of = update s.state_of c.conid closed;
      main_queue = s.main_queue ++ c ∷ [];
    })
closed-IsValid fd c s f h v =
    let entry = v.entries fd c f in
    let own : find c.fd s.connections ≡ some c = ap (λ x. find x s.connections) entry.0 ∙ f in
    let alone = not_waiting s.connections s.state_of s.next_conn_id c s.main_queue own h v.waits in
    record {
      owned = v.owned;
      once = v.once;
      closing = λ x. closing-append x c s own alone v;
      waits =
          AllWait-append s.connections (update s.state_of c.conid closed) s.next_conn_id c
            s.main_queue
            (AllWait-close s.connections s.state_of s.next_conn_id c.conid s.main_queue v.waits)
            (own, update_self s.state_of c.conid closed, entry.1);
      entries = v.entries;
      threads = v.threads;
    }

pub close_from-IsValid :
    (st : State) (fd : ℕ) (c : Conn) (s : Server)
    → s.state_of c.conid ≡ st
    → find fd s.connections ≡ some c
    → IsValid s
    → IsValid (close_from st c s)
close_from-IsValid closed fd c s e f v = v
close_from-IsValid invalid fd c s e f v = closed-IsValid fd c s f (λ k. absurd (ground arith)) v
close_from-IsValid connected fd c s e f v = closed-IsValid fd c s f (λ k. absurd (ground arith)) v

pub close_found-IsValid :
    (fd : ℕ) (o : Option Conn) (s : Server)
    → find fd s.connections ≡ o
    → IsValid s
    → IsValid (close_found o s)
unfolding handle_close
close_found-IsValid fd none s f v = v
close_found-IsValid fd (some c) s f v = close_from-IsValid (s.state_of c.conid) fd c s refl f v
