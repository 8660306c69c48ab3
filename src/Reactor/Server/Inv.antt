-- ===== src/Reactor/Server/Inv.antt =====
-- The invariant of the connections of cpp_server/src/Server.cpp.
use make_linux_server.Base.{
  ℕ, ◌+◌, ◌<◌, ◌≤◌, ◌≡◌, refl, ap, Option, none, some, List, [], ◌∷◌, ==-refl,
}
use make_linux_server.Base.Threads.{is_one, count}
use make_linux_server.Reactor.Connection.{State, closed}
use make_linux_server.Reactor.Server.{Conn, Connections, Server, find}
use make_linux_server.Reactor.Server.Table.{keys, queued}

-- Connections of which one waits to be erased: each is its own entry of the table, and closed.
abbrev pub Waits : Connections → (ℕ → State) → ℕ → Conn → Type 0
Waits table state_of next c =
    (find c.fd table ≡ some c) × (state_of c.conid ≡ closed) × (c.conid < next)

abbrev pub AllWait : Connections → (ℕ → State) → ℕ → List Conn → Type 0
AllWait table state_of next [] = Unit {0}
AllWait table state_of next (c ∷ cs) = Waits table state_of next c × AllWait table state_of next cs

pub record IsValid (s : Server) : Type 0 where
  pub owned : (fd : ℕ) → keys fd s.connections + queued fd s.sub_queue ≡ count fd s.opened
  pub once : (fd : ℕ) → count fd s.opened ≤ 1
  pub closing : (fd : ℕ) → queued fd s.main_queue ≤ keys fd s.connections
  pub waits : AllWait s.connections s.state_of s.next_conn_id s.main_queue
  pub entries :
      (fd : ℕ) (c : Conn)
      → find fd s.connections ≡ some c
      → (c.fd ≡ fd) × (c.conid < s.next_conn_id)
  pub threads : 0 < s.sub_reactors

pub is_one_self : (x : ℕ) → is_one x x ≡ 1
is_one_self x = rw (==-refl x) refl

abbrev pub Keeps : Option Server → Type 0
Keeps none = ⊥
Keeps (some s) = IsValid s

pub some-injective : {A : Type 0} (x y : A) → ◌≡◌ {A = Option A} (some x) (some y) → x ≡ y
some-injective x y e = ap (λ o. elim o [ none ↦ x | some z ↦ z ]) e
