-- ===== src/SqlPool.antt =====
-- TinyWebServer/CGImysql/sql_connection_pool.cpp and .h: the pool of database connections.
-- A MYSQL* is a number, NULL is 0. What the client library answers to a connection attempt is a
-- parameter of `init`. `url`, `user` and the other strings are only handed on to that library.
pub mod System
pub mod Safety
pub mod Init
mod Tests
use make_linux_server.Base.{
  ℕ, zero, suc, ◌+◌, Bool, true, false, Option, none, some, List, [], ◌∷◌, ◌++◌, ◌==◌,
  if◌then◌else◌,
}
use make_linux_server.Base.Int.{ℤ, pos, ◌+ℤ◌, ◌-ℤ◌}

-- The fields of `connection_pool` that its methods change; `reserve` is the semaphore's value.
pub record Pool : Type 0 where
  pub conn_list : List ℕ
  pub free_conn : ℤ
  pub cur_conn : ℤ
  pub max_conn : ℤ
  pub reserve : ℕ

-- `connection_pool()`
pub create : Pool
create = record {
  conn_list = [];
  free_conn = pos 0;
  cur_conn = pos 0;
  max_conn = pos 0;
  reserve = 0;
}

-- The loop of `init`; `connect i` is what the i-th `mysql_init` and `mysql_real_connect` give, and
-- `none` here is the `exit(1)` at a connection that fails.
pub init_loop : (ℕ → Option ℕ) → ℕ → ℕ → Pool → Option Pool
init_loop connect zero i p = some p
init_loop connect (suc n) i p = elim (connect i) [
  | none ↦ none
  | some con ↦
      init_loop connect n (i + 1)
        (record p { conn_list = p.conn_list ++ con ∷ []; free_conn = p.free_conn +ℤ pos 1 })
]

-- `sem(m_FreeConn)`: the value of a semaphore is unsigned.
abbrev pub sem_of : ℤ → ℕ
sem_of (pos n) = n
sem_of z = 0

pub init : (ℕ → Option ℕ) → ℕ → Pool → Option Pool
unfolding init_loop
init connect max p = elim (init_loop connect max 0 p) [
  | none ↦ none
  | some q ↦ some (record q { reserve = sem_of q.free_conn; max_conn = q.free_conn })
]

-- The part of `GetConnection` under the lock. `none` is a call of `front()` on an empty list.
unfoldable pub take_front : Pool → Option (ℕ × Pool)
take_front p = elim p.conn_list [
  | [] ↦ none
  | con ∷ rest ↦ some (
    con,
    record p { conn_list = rest; free_conn = p.free_conn -ℤ pos 1; cur_conn = p.cur_conn +ℤ pos 1 },
  )
]

-- The part of `ReleaseConnection` under the lock.
unfoldable pub put_back : ℕ → Pool → Pool
put_back con p = record p {
  conn_list = p.conn_list ++ con ∷ [];
  free_conn = p.free_conn +ℤ pos 1;
  cur_conn = p.cur_conn -ℤ pos 1;
}

-- What a call of `GetConnection` comes to when no other thread runs: it returns a pointer, which may
-- be NULL, it sleeps on the semaphore for ever, or it reads an empty list.
pub data Got : Type 0 where
  returned : ℕ → Pool → Got
  blocked : Got
  broken : Got

unfoldable pub get_connection : Pool → Got
unfolding take_front
get_connection p = elim p.conn_list [
  | [] ↦ returned 0 p
  | c ∷ cs ↦ elim p.reserve [
    | zero ↦ blocked
    | suc n ↦ elim (take_front (record p { reserve = n })) [
      | none ↦ broken
      | some (con, q) ↦ returned con q
    ]
  ]
]

pub release_connection : ℕ → Pool → Bool × Pool
unfolding put_back
release_connection con p =
    if con == 0
    then (false, p)
    else (let q = put_back con p in (true, record q { reserve = q.reserve + 1 }))

-- `DestroyPoll`, with the connections that it closes.
pub destroy_poll : Pool → List ℕ × Pool
destroy_poll p = elim p.conn_list [
  | [] ↦ ([], p)
  | c ∷ cs ↦ (c ∷ cs, record p { cur_conn = pos 0; free_conn = pos 0; conn_list = [] })
]

pub get_free_conn : Pool → ℤ
get_free_conn p = p.free_conn
