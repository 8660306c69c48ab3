-- ===== src/Reactor/Server/Erasing.antt =====
-- The deferred functions of cpp_server/src/Server.cpp: a connection is erased from the table, and
-- destroyed in its loop.
use mathlib.Core.Path.{subst}
use make_linux_server.Base.{
  ℕ, ◌+◌, ◌<◌, ◌≤◌, ◌≡◌, ◌≢◌, ap, sym, ◌∙◌, Option, none, some, List, [], ◌∷◌, ◌==◌, arith,
  Bool-cases, inl, inr,
}
use make_linux_server.Base.Threads.{total-append, is_one, count}
use make_linux_server.Reactor.Connection.{State}
use make_linux_server.Reactor.Server.{
  Conn, Connections, Server, find, erase, handle_close_in_loop, destroy, run_main, run_sub,
}
use make_linux_server.Reactor.Server.Table.{
  keys, queued, keys-find, keys-erase, find-erase_ne, count-remove, Takes,
}
use make_linux_server.Reactor.Server.Inv.{AllWait, IsValid, is_one_self}

-- The other entries stay when one is erased.
pub AllWait-erase :
    (fd : ℕ) (table : Connections) (state_of : ℕ → State) (next : ℕ) (cs : List Conn)
    → queued fd cs ≡ 0
    → AllWait table state_of next cs
    → AllWait (erase fd table) state_of next cs
AllWait-erase fd table st next [] h w = tt
AllWait-erase fd table st next (c ∷ cs) h w =
    let ne : fd ≢ c.fd = λ e. absurd (omega (arith, is_one_self fd, ap (is_one fd) (sym e), h)) in
    (
      (find-erase_ne fd c.fd table ne ∙ w.0.0, w.0.1, w.0.2),
      AllWait-erase fd table st next cs (omega (arith, h)) w.1,
    )

pub entries-erase :
    (fd : ℕ) (s : Server) (x : ℕ) (c : Conn)
    → 0 < keys fd s.connections
    → IsValid s
    → find x (erase fd s.connections) ≡ some c
    → (c.fd ≡ x) × (c.conid < s.next_conn_id)
entries-erase fd s x c key v found = elim (Bool-cases (fd == x)) [
  | inl same ↦
      let e : fd ≡ x = ground arith in
      let gone = keys-erase fd x s.connections key in
      let here : is_one x fd ≡ 1 = ap (is_one x) e ∙ is_one_self x in
      absurd (
        omega
          (arith, keys-find x (erase fd s.connections) c found, gone, here, v.owned x, v.once x))
  | inr other ↦
      let ne : fd ≢ x = λ e. absurd (ground arith) in
      v.entries x c (sym (find-erase_ne fd x s.connections ne) ∙ found)
]

pub run_main-IsValid :
    (q : List Conn) (s : Server) → s.main_queue ≡ q → IsValid s → IsValid (run_main q s)
unfolding handle_close_in_loop
run_main-IsValid [] s e v = v
run_main-IsValid (c ∷ cs) s e v =
    let w = subst (AllWait s.connections s.state_of s.next_conn_id) e v.waits in
    let front : (x : ℕ) → is_one x c.fd + queued x cs ≤ keys x s.connections =
      λ x. subst (λ q. queued x q ≤ keys x s.connections) e (v.closing x) in
    let key = keys-find c.fd s.connections c w.0.0 in
    let gone = λ (x : ℕ). keys-erase c.fd x s.connections key in
    let alone : queued c.fd cs ≡ 0 =
      omega (arith, front c.fd, is_one_self c.fd, v.owned c.fd, v.once c.fd) in
    record {
      owned = λ x. omega (
        arith,
        v.owned x,
        gone x,
        total-append (λ (d : Conn). is_one x d.fd) s.sub_queue (c ∷ []),
      );
      once = v.once;
      closing = λ x. omega (arith, front x, gone x);
      waits = AllWait-erase c.fd s.connections s.state_of s.next_conn_id cs alone w.1;
      entries = λ x d found. entries-erase c.fd s x d key v found;
      threads = v.threads;
    }

pub run_sub-IsValid :
    (o : Option (Conn × List Conn)) (s : Server)
    → ((x : ℕ) → Takes x s.sub_queue o)
    → IsValid s
    → IsValid (run_sub o s)
unfolding destroy
run_sub-IsValid none s t v = v
run_sub-IsValid (some (c, rest)) s t v =
    let open_fd : 0 < count c.fd s.opened = omega (arith, t c.fd, is_one_self c.fd, v.owned c.fd) in
    record {
      owned = λ x. omega (arith, t x, v.owned x, count-remove c.fd x s.opened open_fd);
      once = λ x. omega (arith, v.once x, count-remove c.fd x s.opened open_fd);
      closing = v.closing;
      waits = v.waits;
      entries = v.entries;
      threads = v.threads;
    }
