-- ===== src/Http/Line.antt =====
-- `parse_line` of http_conn.cpp, which looks for the end of a line in the bytes read so far.
pub mod Laws
pub mod Text
use make_linux_server.Base.{
  ℕ, zero, suc, ◌+◌, ◌-◌, Bool, true, false, List, ◌&&◌, ltb, ◌==◌, if◌then◌else◌, get_or, set,
}
use make_linux_server.Http.{Conn, LineStatus, line_ok, line_bad, line_open}

abbrev pub cr : ℕ
cr = 13

abbrev pub lf : ℕ
lf = 10

-- The loop, for the rounds that `m_checked_idx < m_read_idx` allows: on the buffer and the two
-- indices, returning the status, the buffer and `m_checked_idx`.
unfoldable pub scan : ℕ → List ℕ → ℕ → ℕ → LineStatus × List ℕ × ℕ
scan zero buf checked read_idx = (line_open, buf, checked)
scan (suc n) buf checked read_idx =
    let rest = scan n buf (checked + 1) read_idx in
    let temp = get_or buf checked 0 in
    if temp == cr
    then (if checked + 1 == read_idx
        then (line_open, buf, checked)
        else if get_or buf (checked + 1) 0 == lf
        then (line_ok, set (set buf checked 0) (checked + 1) 0, checked + 2)
        else (line_bad, buf, checked))
    else if temp == lf
    then (if ltb 1 checked && get_or buf (checked - 1) 0 == cr
        then (line_ok, set (set buf (checked - 1) 0) checked 0, checked + 1)
        else (line_bad, buf, checked))
    else rest

unfoldable pub parse_line : Conn → LineStatus × Conn
unfolding scan
parse_line c =
    let (status, buf, checked) =
      scan (c.read_idx - c.checked_idx) c.read_buf c.checked_idx c.read_idx in
    (status, record c { read_buf = buf; checked_idx = checked })
