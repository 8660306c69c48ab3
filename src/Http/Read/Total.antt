-- ===== src/Http/Read/Total.antt =====
-- That the loop of `process_read` of http_conn.cpp ends.
use mathlib.Core.Path.{subst}
use make_linux_server.Base.{
  ℕ, zero, suc, ◌+◌, ◌-◌, ◌*◌, ◌≤◌, ◌<◌, ◌≡◌, refl, sym, inl, inr, none, some, List, leb, arith,
  Bool-cases,
}
use make_linux_server.Http.{
  Conn, CheckState, requestline, header, content, no_request, get_request, bad_request, no_resource,
  forbidden_request, file_request, internal_error, closed_connection, LineStatus, line_ok, line_bad,
  line_open,
}
use make_linux_server.Http.Line.{parse_line, scan}
use make_linux_server.Http.Request.{Step, parse_content}
use make_linux_server.Http.Read.{
  Round, stop, next, after_content, dispatch, handle_line, handle_if_ok, choose_round, round,
  continue, read_loop, process_read,
}
use make_linux_server.Http.Read.Keeps.{Found, scan-Found, IsFinished, Goes, handle_line-Goes}

-- What a body leaves is never LINE_OK.
abbrev pub NotOk : Round → Type 0
NotOk (stop p) = Unit {0}
NotOk (next line_ok d) = ⊥
NotOk (next line_bad d) = Unit {0}
NotOk (next line_open d) = Unit {0}

after_content-NotOk : (s : Step) → NotOk (after_content s)
after_content-NotOk none = tt
after_content-NotOk (some (bad_request, d)) = tt
after_content-NotOk (some (no_request, d)) = tt
after_content-NotOk (some (get_request, d)) = tt
after_content-NotOk (some (no_resource, d)) = tt
after_content-NotOk (some (forbidden_request, d)) = tt
after_content-NotOk (some (file_request, d)) = tt
after_content-NotOk (some (internal_error, d)) = tt
after_content-NotOk (some (closed_connection, d)) = tt

-- The measure: two for each byte not yet checked, and one for a status of LINE_OK.
abbrev pub weight : LineStatus → Conn → ℕ
weight line_ok c = 2 * (c.read_idx - c.checked_idx) + 1
weight line_bad c = 2 * (c.read_idx - c.checked_idx)
weight line_open c = 2 * (c.read_idx - c.checked_idx)

-- A round that goes on has made the measure smaller.
abbrev pub Shrinks : ℕ → Round → Type 0
Shrinks w (stop p) = IsFinished p
Shrinks w (next status d) = weight status d < w

Goes-Shrinks :
    (w : ℕ) (c : Conn) (r : Round)
    → Goes c r
    → 2 * (c.read_idx - c.checked_idx) + 1 < w
    → Shrinks w r
Goes-Shrinks w c (stop p) g h = g
Goes-Shrinks w c (next line_ok d) g h = ground (arith, g.0, g.1)
Goes-Shrinks w c (next line_bad d) g h = ground (arith, g.0, g.1)
Goes-Shrinks w c (next line_open d) g h = ground (arith, g.0, g.1)

body-Shrinks :
    (w : ℕ) (c : Conn) (r : Round)
    → Goes c r
    → NotOk r
    → 2 * (c.read_idx - c.checked_idx) < w
    → Shrinks w r
body-Shrinks w c (stop p) g n h = g
body-Shrinks w c (next line_ok d) g n h = absurd n
body-Shrinks w c (next line_bad d) g n h = ground (arith, g.0, g.1)
body-Shrinks w c (next line_open d) g n h = ground (arith, g.0, g.1)

handle-Found :
    (w : ℕ) (c : Conn) (r : LineStatus × List ℕ × ℕ)
    → Found c.checked_idx c.read_idx r
    → 2 * (c.read_idx - c.checked_idx) ≤ w
    → Shrinks w (handle_if_ok (r.0, record c { read_buf = r.1; checked_idx = r.2 }))
handle-Found w c (line_ok, buf, k) f h =
    let d = record c { read_buf = buf; checked_idx = k } in
    Goes-Shrinks w d (handle_line d) (handle_line-Goes d) (omega (arith, f.0, f.1))
handle-Found w c (line_bad, buf, k) f h = tt
handle-Found w c (line_open, buf, k) f h = tt

line_round-Shrinks :
    (w : ℕ) (c : Conn)
    → 2 * (c.read_idx - c.checked_idx) ≤ w
    → Shrinks w (handle_if_ok (parse_line c))
unfolding parse_line scan
line_round-Shrinks w c h = elim (Bool-cases (leb c.checked_idx c.read_idx)) [
  | inl e ↦
      handle-Found w c (scan (c.read_idx - c.checked_idx) c.read_buf c.checked_idx c.read_idx)
        (scan-Found (c.read_idx - c.checked_idx) c.read_buf c.checked_idx c.read_idx (ground arith))
        h
  | inr e ↦ let z : c.read_idx - c.checked_idx ≡ 0 = ground arith in rw z tt
]

handle_content-NotOk : (c : Conn) → c.check_state ≡ content → NotOk (handle_line c)
unfolding handle_line
handle_content-NotOk c e =
    let d = record c { start_line = c.checked_idx } in
    subst (λ k. NotOk (dispatch k c.start_line d)) (sym e)
      (after_content-NotOk (parse_content c.start_line d))

choose_round-Shrinks :
    (k : CheckState) (status : LineStatus) (c : Conn)
    → c.check_state ≡ k
    → Shrinks (weight status c) (choose_round k status c)
choose_round-Shrinks content line_ok c e =
    body-Shrinks (weight line_ok c) c (handle_line c) (handle_line-Goes c)
      (handle_content-NotOk c e) (omega arith)
choose_round-Shrinks content line_bad c e = line_round-Shrinks (weight line_bad c) c (omega arith)
choose_round-Shrinks content line_open c e = line_round-Shrinks (weight line_open c) c (omega arith)
choose_round-Shrinks requestline line_ok c e = line_round-Shrinks (weight line_ok c) c (omega arith)
choose_round-Shrinks requestline line_bad c e =
    line_round-Shrinks (weight line_bad c) c (omega arith)
choose_round-Shrinks requestline line_open c e =
    line_round-Shrinks (weight line_open c) c (omega arith)
choose_round-Shrinks header line_ok c e = line_round-Shrinks (weight line_ok c) c (omega arith)
choose_round-Shrinks header line_bad c e = line_round-Shrinks (weight line_bad c) c (omega arith)
choose_round-Shrinks header line_open c e = line_round-Shrinks (weight line_open c) c (omega arith)

round-Shrinks : (status : LineStatus) (c : Conn) → Shrinks (weight status c) (round status c)
unfolding round
round-Shrinks status c = choose_round-Shrinks c.check_state status c refl

continue-IsFinished :
    (n : ℕ) (w : ℕ) (r : Round)
    → Shrinks w r
    → w ≤ n
    → ((status : LineStatus) (d : Conn) → weight status d < n → IsFinished (read_loop n status d))
    → IsFinished (continue r (read_loop n))
continue-IsFinished n w (stop p) s h ih = s
continue-IsFinished n w (next status d) s h ih = ih status d (omega arith)

read_loop-IsFinished :
    (n : ℕ) (status : LineStatus) (c : Conn)
    → weight status c < n
    → IsFinished (read_loop n status c)
unfolding read_loop
read_loop-IsFinished zero status c h = absurd (omega arith)
read_loop-IsFinished (suc n) status c h =
    continue-IsFinished n (weight status c) (round status c) (round-Shrinks status c) (omega arith)
      (λ s d b. read_loop-IsFinished n s d b)

-- `process_read` ends on every connection object, whatever its fields and the bytes in its buffer:
-- with a code, with a request to serve, or in undefined behaviour of a parser.
pub process_read-IsFinished : (c : Conn) → IsFinished (process_read c)
unfolding process_read
process_read-IsFinished c =
    read_loop-IsFinished (2 * (c.read_idx - c.checked_idx) + 2) line_ok c (omega arith)
