-- ===== src/Reactor/Server/Owner.antt =====
-- Every connection of cpp_server/src/Server.cpp owns its descriptor until it is destroyed, and the table
-- entry that is erased for it is its own.
use make_linux_server.Base.{◌≡◌, refl, Option, none, some, List, [], ◌∷◌}
use make_linux_server.Reactor.Server.{
  Server, find, take_for, Move, accepts, closes, main_runs, sub_runs, step, and_then, run,
}
use make_linux_server.Reactor.Server.Table.{take_for-Takes}
use make_linux_server.Reactor.Server.Inv.{IsValid, Keeps}
use make_linux_server.Reactor.Server.Opening.{accept-Keeps}
use make_linux_server.Reactor.Server.Closing.{close_found-IsValid}
use make_linux_server.Reactor.Server.Erasing.{run_main-IsValid, run_sub-IsValid}

step-Keeps : (m : Move) (s : Server) → IsValid s → Keeps (step m s)
unfolding step
step-Keeps (accepts fd) s v = accept-Keeps fd s v
step-Keeps (closes fd) s v = close_found-IsValid fd (find fd s.connections) s refl v
step-Keeps main_runs s v = run_main-IsValid s.main_queue s refl v
step-Keeps (sub_runs loop) s v =
    run_sub-IsValid (take_for loop s.sub_queue) s (λ x. take_for-Takes loop x s.sub_queue) v

and_then-some :
    (o : Option Server) (f : Server → Option Server)
    → Keeps o
    → ((s : Server) → IsValid s → (last : Server) × (f s ≡ some last) × IsValid last)
    → (last : Server) × (and_then o f ≡ some last) × IsValid last
and_then-some none f k g = absurd k
and_then-some (some s) f k g = g s k

-- Under every schedule of the loops' threads and the clients the server of at least one thread stays
-- defined and keeps its table: each open client descriptor belongs to one connection, which is in the
-- table or waits to be destroyed, and no closed one does; each connection that waits to be erased is
-- closed, once, and the table's entry for its descriptor is its own, so that `HandleCloseInLoop` erases
-- no other connection and the destructor closes no other's descriptor.
pub run-owned :
    (ms : List Move) (s : Server)
    → IsValid s
    → (last : Server) × (run ms s ≡ some last) × IsValid last
unfolding run
run-owned [] s v = (s, refl, v)
run-owned (m ∷ ms) s v = and_then-some (step m s) (run ms) (step-Keeps m s v) (run-owned ms)
