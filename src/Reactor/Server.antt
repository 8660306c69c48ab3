-- ===== src/Reactor/Server.antt =====
-- cpp_server/src/Server.cpp, with Acceptor::acceptConnection and Connection's closing and destructor:
-- the life of a connection between the main loop and the loops of the threads. The loops' queues are
-- in order, as EventLoop keeps them; a move is one callback or deferred function of a loop's thread.
-- `opened` are the client descriptors that the kernel has open, `destroyed` is a history.
pub mod Table
pub mod Inv
pub mod Opening
pub mod Closing
pub mod Erasing
pub mod Owner
use make_linux_server.Base.{
  ℕ, zero, suc, ◌+◌, ◌%◌, Bool, true, false, Option, none, some, List, [], ◌∷◌, ◌++◌, ◌==◌,
  if◌then◌else◌,
}
use make_linux_server.Reactor.Connection.{State, invalid, connected, closed}

pub record Conn : Type 0 where
  pub fd : ℕ
  pub conid : ℕ
  pub loop : ℕ

abbrev pub Connections : Type 0
Connections = List (ℕ × Conn)

-- `main_queue` are the arguments of the `HandleCloseInLoop` that wait in the main loop, `sub_queue`
-- those of the `ConnectionDestructor` that wait in the other loops. `state_of` is by `conid`.
pub record Server : Type 0 where
  pub sub_reactors : ℕ
  pub next_conn_id : ℕ
  pub connections : Connections
  pub main_queue : List Conn
  pub sub_queue : List Conn
  pub state_of : ℕ → State
  pub opened : List ℕ
  pub destroyed : List Conn

-- `Server(port, ip)`, with as many loops as the pool has threads.
abbrev pub create : ℕ → Server
create n = record {
  sub_reactors = n;
  next_conn_id = 1;
  connections = [];
  main_queue = [];
  sub_queue = [];
  state_of = λ conid. invalid;
  opened = [];
  destroyed = [];
}

unfoldable pub find : ℕ → Connections → Option Conn
find fd [] = none
find fd ((k, c) ∷ rest) = if k == fd then some c else find fd rest

-- `connections[fd] = conn`, which replaces an entry of the same descriptor.
unfoldable pub assign : ℕ → Conn → Connections → Connections
assign fd conn [] = (fd, conn) ∷ []
assign fd conn ((k, c) ∷ rest) = if k == fd then (fd, conn) ∷ rest else (k, c) ∷ assign fd conn rest

unfoldable pub erase : ℕ → Connections → Connections
erase fd [] = []
erase fd ((k, c) ∷ rest) = if k == fd then rest else (k, c) ∷ erase fd rest

abbrev pub update : (ℕ → State) → ℕ → State → ℕ → State
update f conid state j = if conid == j then state else f j

-- `HandleNewConnection`: the loop is chosen by `client_fd % subReactor.size()`, undefined for 0;
-- `ConnectionEstablished` sets the state.
abbrev pub establish : ℕ → ℕ → Server → Option Server
establish zero fd s = none
establish (suc n) fd s =
    let conn : Conn = record { fd = fd; conid = s.next_conn_id; loop = fd % suc n } in
    some (record s {
      next_conn_id = s.next_conn_id + 1;
      connections = assign fd conn s.connections;
      state_of = update s.state_of s.next_conn_id connected;
    })

unfoldable pub handle_new_connection : ℕ → Server → Option Server
unfolding assign
handle_new_connection fd s = establish s.sub_reactors fd s

abbrev pub mem : ℕ → List ℕ → Bool
mem x [] = false
mem x (y ∷ ys) = if y == x then true else mem x ys

-- `acceptConnection`, when `accept` returns `fd`: a descriptor that is not open. Others are no moves.
unfoldable pub accept_connection : ℕ → Server → Option Server
unfolding handle_new_connection
accept_connection fd s =
    if mem fd s.opened
    then some s
    else handle_new_connection fd (record s { opened = fd ∷ s.opened })

-- Connection's `HandleClose` and `Server::HandleClose`: the main loop is another thread's, so that
-- `runOneFunc` queues.
abbrev pub close_from : State → Conn → Server → Server
close_from closed conn s = s
close_from invalid conn s = record s {
  state_of = update s.state_of conn.conid closed;
  main_queue = s.main_queue ++ conn ∷ [];
}
close_from connected conn s = record s {
  state_of = update s.state_of conn.conid closed;
  main_queue = s.main_queue ++ conn ∷ [];
}

unfoldable pub handle_close : Conn → Server → Server
handle_close conn s = close_from (s.state_of conn.conid) conn s

-- `HandleCloseInLoop`
unfoldable pub handle_close_in_loop : Conn → Server → Server
unfolding erase
handle_close_in_loop conn s = record s {
  connections = erase conn.fd s.connections;
  sub_queue = s.sub_queue ++ conn ∷ [];
}

unfoldable pub remove : ℕ → List ℕ → List ℕ
remove x [] = []
remove x (y ∷ ys) = if y == x then ys else y ∷ remove x ys

-- `ConnectionDestructor`, and `~Connection`, when the function that holds the last pointer is gone.
unfoldable pub destroy : Conn → Server → Server
unfolding remove
destroy conn s = record s { opened = remove conn.fd s.opened; destroyed = s.destroyed ++ conn ∷ [] }

abbrev pub put_before : Conn → Option (Conn × List Conn) → Option (Conn × List Conn)
put_before c none = none
put_before c (some (first, rest)) = some (first, c ∷ rest)

-- The first function in the queue of a loop.
unfoldable pub take_for : ℕ → List Conn → Option (Conn × List Conn)
take_for loop [] = none
take_for loop (c ∷ cs) = if c.loop == loop then some (c, cs) else put_before c (take_for loop cs)

-- A client connects; the connection that the table has for a descriptor is closed from its loop (one
-- that is not in the table is closed already, and `HandleClose` does nothing); the main loop calls the
-- first function of its queue; a loop does.
pub data Move : Type 0 where
  accepts closes : ℕ → Move
  main_runs : Move
  sub_runs : ℕ → Move

abbrev pub close_found : Option Conn → Server → Server
close_found none s = s
close_found (some conn) s = handle_close conn s

abbrev pub run_main : List Conn → Server → Server
run_main [] s = s
run_main (conn ∷ rest) s = handle_close_in_loop conn (record s { main_queue = rest })

abbrev pub run_sub : Option (Conn × List Conn) → Server → Server
run_sub none s = s
run_sub (some (conn, rest)) s = destroy conn (record s { sub_queue = rest })

unfoldable pub step : Move → Server → Option Server
unfolding accept_connection handle_close handle_close_in_loop destroy find take_for
step (accepts fd) s = accept_connection fd s
step (closes fd) s = some (close_found (find fd s.connections) s)
step main_runs s = some (run_main s.main_queue s)
step (sub_runs loop) s = some (run_sub (take_for loop s.sub_queue) s)

abbrev pub and_then : Option Server → (Server → Option Server) → Option Server
and_then none f = none
and_then (some s) f = f s

unfoldable pub run : List Move → Server → Option Server
unfolding step
run [] s = some s
run (m ∷ ms) s = and_then (step m s) (run ms)
