-- ===== src/Reactor/Server/Opening.antt =====
-- A client that connects to cpp_server/src/Server.cpp: the invariant of its connections is kept.
use mathlib.Core.Path.{subst}
use make_linux_server.Base.{
  ℕ, zero, suc, ◌+◌, ◌%◌, ◌<◌, ◌≡◌, refl, ap, sym, ◌∙◌, false, some, List, [], ◌∷◌, ◌==◌,
  if◌then◌else◌, arith, Bool-cases, ==-ne, inl, inr,
}
use make_linux_server.Base.Threads.{count}
use make_linux_server.Reactor.Connection.{connected}
use make_linux_server.Reactor.Server.{
  Conn, Server, find, assign, update, establish, handle_new_connection, mem, accept_connection,
}
use make_linux_server.Reactor.Server.Table.{keys, keys-find, keys-assign, find-assign, count-mem}
use make_linux_server.Reactor.Server.Inv.{AllWait, IsValid, Keeps, some-injective}

-- A new connection takes an entry that is not there.
pub AllWait-assign :
    (fd : ℕ) (new : Conn) (s : Server) (cs : List Conn)
    → keys fd s.connections ≡ 0
    → AllWait s.connections s.state_of s.next_conn_id cs
    → AllWait
        (assign fd new s.connections)
        (update s.state_of s.next_conn_id connected)
        (s.next_conn_id + 1)
        cs
AllWait-assign fd new s [] h w = tt
AllWait-assign fd new s (c ∷ cs) h w =
    let other : (fd == c.fd) ≡ false = ==-ne fd c.fd (λ e. absurd (
      omega (
        arith,
        subst (λ x. keys x s.connections ≡ 0) e h,
        keys-find c.fd s.connections c w.0.0,
      ))) in
    let older : (s.next_conn_id == c.conid) ≡ false = ground (arith, w.0.2) in
    (
      (find-assign fd c.fd new s.connections ∙ rw other w.0.0, rw older w.0.1, omega arith),
      AllWait-assign fd new s cs h w.1,
    )

pub entries-assign :
    (fd : ℕ) (new : Conn) (s : Server) (x : ℕ) (c : Conn)
    → new.fd ≡ fd
    → new.conid ≡ s.next_conn_id
    → IsValid s
    → find x (assign fd new s.connections) ≡ some c
    → (c.fd ≡ x) × (c.conid < s.next_conn_id + 1)
entries-assign fd new s x c own latest v found =
    let f : (if fd == x then some new else find x s.connections) ≡ some c =
      sym (find-assign fd x new s.connections) ∙ found in
    elim (Bool-cases (fd == x)) [
      | inl same ↦
          let e : new ≡ c = some-injective new c (rw same at f) in
          (
            sym (ap (λ (d : Conn). d.fd) e) ∙ own ∙ ground arith,
            omega (arith, ap (λ (d : Conn). d.conid) e),
          )
      | inr ne ↦ let old = v.entries x c (rw ne at f) in (old.0, omega (arith, old.1))
    ]

pub establish-Keeps :
    (n fd : ℕ) (s : Server)
    → s.sub_reactors ≡ n
    → count fd s.opened ≡ 0
    → IsValid s
    → Keeps (establish n fd (record s { opened = fd ∷ s.opened }))
establish-Keeps zero fd s e h v = absurd (omega (arith, v.threads))
establish-Keeps (suc n) fd s e h v =
    let new : Conn = record { fd = fd; conid = s.next_conn_id; loop = fd % suc n } in
    let free : keys fd s.connections ≡ 0 = omega (arith, v.owned fd) in
    record {
      owned = λ x. omega (arith, v.owned x, keys-assign fd x new s.connections free);
      once = λ x. elim (Bool-cases (fd == x)) [
        | inl same ↦ ground (arith, v.once x)
        | inr ne ↦ ground (arith, v.once x)
      ];
      closing = λ x. omega (arith, v.closing x, keys-assign fd x new s.connections free);
      waits = AllWait-assign fd new s s.main_queue free v.waits;
      entries = λ x c found. entries-assign fd new s x c refl refl v found;
      threads = v.threads;
    }

pub accept-Keeps : (fd : ℕ) (s : Server) → IsValid s → Keeps (accept_connection fd s)
unfolding accept_connection handle_new_connection
accept-Keeps fd s v = elim (Bool-cases (mem fd s.opened)) [
  | inl h ↦ rw h v
  | inr h ↦ rw h (establish-Keeps s.sub_reactors fd s refl (count-mem fd s.opened h) v)
]
