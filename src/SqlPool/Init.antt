-- ===== src/SqlPool/Init.antt =====
-- sql_connection_pool.cpp with one thread: `init`, and `GetConnection` with `ReleaseConnection`.
use make_linux_server.Base.{
  ℕ, zero, suc, ◌+◌, ◌≡◌, ◌≢◌, refl, ap, sym, ◌∙◌, true, false, Option, none, some, List, [], ◌∷◌,
  ◌++◌, length, length-append, append_assoc, append-nil, replicate, arith,
}
use make_linux_server.Base.Int.{pos, ◌+ℤ◌, ◌-ℤ◌}
use make_linux_server.Base.Threads.{total, count}
use make_linux_server.SqlPool.{
  Pool, create, init, init_loop, take_front, put_back, returned, get_connection, release_connection,
}
use make_linux_server.SqlPool.System.{Phase, outside}
use make_linux_server.SqlPool.Safety.{IsValid, in_transit, holds_any, holds}

-- The connections that attempts `i`, `i + 1`, … give, all of which succeed.
abbrev pub Connects : (ℕ → Option ℕ) → ℕ → List ℕ → Type 0
Connects connect i [] = Unit
Connects connect i (c ∷ cs) = (connect i ≡ some c) × Connects connect (i + 1) cs

init_loop_lem :
    (connect : ℕ → Option ℕ) (cs : List ℕ) (i : ℕ) (p : Pool)
    → Connects connect i cs
    → p.free_conn ≡ pos (length p.conn_list)
    → init_loop connect (length cs) i p
      ≡ some
          (record p { conn_list = p.conn_list ++ cs; free_conn = pos (length (p.conn_list ++ cs)) })
unfolding init_loop
init_loop_lem connect [] i p k f = ground (arith, append-nil p.conn_list)
init_loop_lem connect (c ∷ cs) i p k f = rw k.0 (
    init_loop_lem connect cs (i + 1)
      (record p { conn_list = p.conn_list ++ c ∷ []; free_conn = p.free_conn +ℤ pos 1 }) k.1
      (rw (f, length-append) (ground arith))
    ∙ rw append_assoc)

total-outside : (w : Phase → ℕ) (n : ℕ) → w outside ≡ 0 → total w (replicate n outside) ≡ 0
total-outside w zero z = refl
total-outside w (suc n) z = omega (arith, total-outside w n z)

-- `init` on a new pool, with every connection attempt successful, gives a consistent pool that holds
-- the connections in order; a failed attempt ends the program.
pub init_lem :
    (connect : ℕ → Option ℕ) (cs : List ℕ) (threads : ℕ)
    → Connects connect 0 cs
    → count 0 cs ≡ 0
    → (p : Pool) × (init connect (length cs) create ≡ some p)
      × (p.conn_list ≡ cs)
      × IsValid (record { pool = p; phases = replicate threads outside; fault = false })
unfolding init create
init_lem connect cs threads k z = (
  record {
    conn_list = cs;
    free_conn = pos (length cs);
    cur_conn = pos 0;
    max_conn = pos (length cs);
    reserve = length cs;
  },
  rw (
    init_loop_lem connect cs 0
        (record {
          conn_list = [];
          free_conn = pos 0;
          cur_conn = pos 0;
          max_conn = pos 0;
          reserve = 0;
        })
        k refl,
    init,
  ),
  refl,
  record {
    no_fault = refl;
    reserved = omega (arith, total-outside in_transit threads refl);
    free_counted = refl;
    cur_counted = ap pos (sym (total-outside holds_any threads refl));
    no_null = omega (arith, total-outside (holds 0) threads refl);
  },
)

init_loop-fails :
    (connect : ℕ → Option ℕ) (cs : List ℕ) (rest i : ℕ) (p : Pool)
    → Connects connect i cs
    → connect (i + length cs) ≡ none
    → init_loop connect (suc (length cs + rest)) i p ≡ none
unfolding init_loop
init_loop-fails connect [] rest i p k f =
    let z : i + 0 ≡ i = omega arith in rw ((rw z at f), init_loop)
init_loop-fails connect (c ∷ cs) rest i p k f =
    let here : suc (length cs) + rest ≡ suc (length cs + rest) = omega arith in
    let next : i + suc (length cs) ≡ i + 1 + length cs = omega arith in
    rw here (rw (k.0, init_loop) (init_loop-fails connect cs rest (i + 1) _ k.1 (rw next at f)))

-- When the attempts before it succeed and one fails, `init` ends the program.
pub init-fails :
    (connect : ℕ → Option ℕ) (cs : List ℕ) (rest : ℕ) (p : Pool)
    → Connects connect 0 cs
    → connect (length cs) ≡ none
    → init connect (suc (length cs + rest)) p ≡ none
unfolding init
init-fails connect cs rest p k f =
    let z : 0 + length cs ≡ length cs = omega arith in
    rw (init_loop-fails connect cs rest 0 p k (rw z f), init)

-- With no other thread at work, `GetConnection` on a pool that holds a connection returns the oldest
-- one, and `ReleaseConnection` behind it puts it at the end and restores every counter.
pub release-get :
    (p : Pool) (c : ℕ) (cs : List ℕ)
    → p.conn_list ≡ c ∷ cs
    → p.reserve ≡ length (c ∷ cs)
    → c ≢ 0
    → (q : Pool) × (get_connection p ≡ returned c q)
      × (release_connection c q ≡ (true, record p { conn_list = cs ++ c ∷ [] }))
unfolding get_connection release_connection put_back take_front
release-get p c cs h r n = (
  record p {
    conn_list = cs;
    free_conn = p.free_conn -ℤ pos 1;
    cur_conn = p.cur_conn +ℤ pos 1;
    reserve = length cs;
  },
  ground (arith, h, r),
  ground (arith, r, n),
)
