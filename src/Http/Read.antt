-- ===== src/Http/Read.antt =====
-- `read_once` and the state machine of `process_read` of http_conn.cpp. `read_once` is run against
-- the results of its calls of `recv`. The calls of the log are left out.
pub mod Keeps
pub mod Total
pub mod Incomplete
pub mod Body
pub mod Intake
pub mod Lines
pub mod Head
pub mod Whole
pub mod Posted
use make_linux_server.Base.{
  ℕ, zero, suc, ◌+◌, ◌-◌, ◌*◌, Bool, true, false, Option, none, some, List, [], ◌∷◌, ◌&&◌, leb,
  if◌then◌else◌, length,
}
use make_linux_server.Base.Int.{ℤ, pos, negsuc}
use make_linux_server.Http.{
  Conn, CheckState, requestline, header, content, HttpCode, no_request, get_request, bad_request,
  no_resource, forbidden_request, file_request, internal_error, closed_connection, LineStatus,
  line_ok, line_bad, line_open, read_buffer_size,
}
use make_linux_server.Http.Line.{parse_line}
use make_linux_server.Http.Request.{Step, parse_request_line, parse_headers, parse_content}
use make_linux_server.Http.Response.{overlay}

-- What `recv` returns: bytes (none at the end of the stream or with no room), -1 with EAGAIN, or -1
-- with another error.
pub data Recv : Type 0 where
  received : List ℕ → Recv
  nothing_yet recv_error : Recv

-- How a call of `read_once` ends. `underflowed` is a result false with `m_read_idx` at -1.
pub data ReadOutcome : Type 0 where
  reading : ReadOutcome
  read_returned : Bool → ReadOutcome
  underflowed : ReadOutcome

abbrev pub store : List ℕ → Conn → Conn
store bytes c = record c {
  read_buf = overlay c.read_buf c.read_idx bytes;
  read_idx = c.read_idx + length bytes;
}

-- `m_read_idx += -1`
unfoldable pub step_back : ℕ → Conn → ReadOutcome × Conn
step_back zero c = (underflowed, c)
step_back (suc n) c = (read_returned false, record c { read_idx = n })

unfoldable pub read_level : Recv → Conn → ReadOutcome × Conn
unfolding step_back
read_level (received []) c = (read_returned false, c)
read_level (received (b ∷ bs)) c = (read_returned true, store (b ∷ bs) c)
read_level nothing_yet c = step_back c.read_idx c
read_level recv_error c = step_back c.read_idx c

unfoldable pub read_edge : List Recv → Conn → ReadOutcome × Conn
read_edge [] c = (reading, c)
read_edge (nothing_yet ∷ rs) c = (read_returned true, c)
read_edge (recv_error ∷ rs) c = (read_returned false, c)
read_edge (received [] ∷ rs) c = (read_returned false, c)
read_edge (received (b ∷ bs) ∷ rs) c = read_edge rs (store (b ∷ bs) c)

unfoldable pub read_first : List Recv → Conn → ReadOutcome × Conn
unfolding read_level
read_first [] c = (reading, c)
read_first (r ∷ rs) c = read_level r c

-- `if (0 == m_TRIGMode)`
abbrev pub read_mode : ℕ → List Recv → Conn → ReadOutcome × Conn
read_mode zero results c = read_first results c
read_mode (suc mode) results c = read_edge results c

unfoldable pub read_once : List Recv → Conn → ReadOutcome × Conn
unfolding read_first read_edge
read_once results c =
    if leb read_buffer_size c.read_idx
    then (read_returned false, c)
    else read_mode c.trig_mode results c

-- How `process_read` ends: with a code, with `return do_request()`, or in undefined behaviour of the
-- parsers. `unfinished` is the model running out of fuel.
pub data Parsed : Type 0 where
  answer : HttpCode → Conn → Parsed
  route : Conn → Parsed
  broken : Parsed
  unfinished : Parsed

-- A round of the loop: the end of the function, or the next round with a line status.
pub data Round : Type 0 where
  stop : Parsed → Round
  next : LineStatus → Conn → Round

abbrev pub after_request_line : Step → Round
after_request_line none = stop broken
after_request_line (some (bad_request, c)) = stop (answer bad_request c)
after_request_line (some (no_request, c)) = next line_ok c
after_request_line (some (get_request, c)) = next line_ok c
after_request_line (some (no_resource, c)) = next line_ok c
after_request_line (some (forbidden_request, c)) = next line_ok c
after_request_line (some (file_request, c)) = next line_ok c
after_request_line (some (internal_error, c)) = next line_ok c
after_request_line (some (closed_connection, c)) = next line_ok c

abbrev pub after_headers : HttpCode × Conn → Round
after_headers (get_request, c) = stop (route c)
after_headers (no_request, c) = next line_ok c
after_headers (bad_request, c) = next line_ok c
after_headers (no_resource, c) = next line_ok c
after_headers (forbidden_request, c) = next line_ok c
after_headers (file_request, c) = next line_ok c
after_headers (internal_error, c) = next line_ok c
after_headers (closed_connection, c) = next line_ok c

abbrev pub after_content : Step → Round
after_content none = stop broken
after_content (some (get_request, c)) = stop (route c)
after_content (some (no_request, c)) = next line_open c
after_content (some (bad_request, c)) = next line_open c
after_content (some (no_resource, c)) = next line_open c
after_content (some (forbidden_request, c)) = next line_open c
after_content (some (file_request, c)) = next line_open c
after_content (some (internal_error, c)) = next line_open c
after_content (some (closed_connection, c)) = next line_open c

-- The `switch`, on the line that starts at `text`.
abbrev pub dispatch : CheckState → ℕ → Conn → Round
dispatch requestline text c = after_request_line (parse_request_line text c)
dispatch header text c = after_headers (parse_headers text c)
dispatch content text c = after_content (parse_content text c)

-- The loop's body.
unfoldable pub handle_line : Conn → Round
handle_line c = dispatch c.check_state c.start_line (record c { start_line = c.checked_idx })

abbrev pub handle_if_ok : LineStatus × Conn → Round
handle_if_ok (line_ok, c) = handle_line c
handle_if_ok (line_bad, c) = stop (answer no_request c)
handle_if_ok (line_open, c) = stop (answer no_request c)

abbrev pub choose_round : CheckState → LineStatus → Conn → Round
choose_round content line_ok c = handle_line c
choose_round content line_bad c = handle_if_ok (parse_line c)
choose_round content line_open c = handle_if_ok (parse_line c)
choose_round requestline status c = handle_if_ok (parse_line c)
choose_round header status c = handle_if_ok (parse_line c)

-- The loop's condition and body.
unfoldable pub round : LineStatus → Conn → Round
round status c = choose_round c.check_state status c

abbrev pub continue : Round → (LineStatus → Conn → Parsed) → Parsed
continue (stop p) loop = p
continue (next status c) loop = loop status c

unfoldable pub read_loop : ℕ → LineStatus → Conn → Parsed
unfolding round
read_loop zero status c = unfinished
read_loop (suc n) status c = continue (round status c) (read_loop n)

-- Each round reads a line, or is the first one on the body.
unfoldable pub process_read : Conn → Parsed
unfolding read_loop
process_read c = read_loop (2 * (c.read_idx - c.checked_idx) + 2) line_ok c
