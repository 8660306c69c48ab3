-- ===== src/SqlPool/System.antt =====
-- Threads that take connections from sql_connection_pool.cpp and give them back, in any order.
-- One step is what a thread does up to the next point where another may run: the test of the list's
-- size without the lock, the wait on `reserve`, each part under the lock, and `reserve.post()`. A signal
-- may interrupt the wait, which then fails with EINTR; `GetConnection` does not look at the result.
use make_linux_server.Base.{
  ℕ, zero, suc, ◌+◌, Bool, true, false, Option, none, some, List, [], ◌∷◌, ◌==◌, if◌then◌else◌,
  get_elem?, set,
}
use make_linux_server.SqlPool.{Pool, take_front, put_back}

-- Where a thread stands: outside, behind the size test, behind the wait, with a connection, and in
-- `ReleaseConnection` behind the unlock.
pub data Phase : Type 0 where
  outside : Phase
  tested : Phase
  waited : Phase
  holding : ℕ → Phase
  pushed : Phase

-- `fault` records a call of `front()` on an empty list.
pub record System : Type 0 where
  pub pool : Pool
  pub phases : List Phase
  pub fault : Bool

abbrev move : System → ℕ → Phase → Pool → System
move s i ph p = record s { pool = p; phases = set s.phases i ph }

-- A thread in the given phase runs, with whether a signal interrupts its wait; one whose wait would block stays where it is. A thread that
-- holds NULL does not push it: `ReleaseConnection(NULL)` returns at once.
unfoldable pub step_at : Bool → Phase → ℕ → System → System
step_at signal outside i s = elim s.pool.conn_list [ [] ↦ s | c ∷ cs ↦ move s i tested s.pool ]
step_at true tested i s = move s i waited s.pool
step_at false tested i s = elim s.pool.reserve [
  | zero ↦ s
  | suc n ↦ move s i waited (record s.pool { reserve = n })
]
step_at signal waited i s = elim (take_front s.pool) [
  | none ↦ record s { fault = true }
  | some (con, q) ↦ move s i (holding con) q
]
step_at signal (holding con) i s =
    if con == 0 then move s i outside s.pool else move s i pushed (put_back con s.pool)
step_at signal pushed i s = move s i outside (record s.pool { reserve = s.pool.reserve + 1 })

abbrev pub step_found : Bool → ℕ → Option Phase → System → System
step_found signal i none s = s
step_found signal i (some ph) s = step_at signal ph i s

-- A schedule says which thread runs next, and whether a signal comes when it waits.
pub data Move : Type 0 where
  works interrupted : ℕ → Move

unfoldable pub step : Move → System → System
unfolding step_at
step (works i) s = step_found false i (get_elem? s.phases i) s
step (interrupted i) s = step_found true i (get_elem? s.phases i) s

unfoldable pub run : List Move → System → System
run [] s = s
run (m ∷ ms) s = run ms (step m s)
