-- ===== src/Http/Read/Body.antt =====
-- How `process_read` of http_conn.cpp treats a request body that is not yet complete.
use make_linux_server.Base.{
  ℕ, suc, ◌+◌, ◌-◌, ◌*◌, ◌≤◌, ◌<◌, ◌≡◌, refl, ap, ◌∙◌, true, false, some, List, ltb, length, arith,
}
use make_linux_server.Base.Int.{pos, ◌+ℤ◌, leb_ℤ}
use make_linux_server.Http.{Conn, content, no_request, get_request, LineStatus, line_ok, line_open}
use make_linux_server.Http.Line.{parse_line, scan}
use make_linux_server.Http.Line.Laws.{Plain, scan-Plain}
use make_linux_server.Http.Request.{put, parse_content, terminate}
use make_linux_server.Http.Read.{
  answer, route, stop, next, after_content, dispatch, handle_line, handle_if_ok, choose_round,
  round, continue, read_loop, process_read, store,
}
use make_linux_server.Http.Read.Incomplete.{IsIncomplete, IsIncomplete-waits}

round-body :
    (n low read_idx : ℕ) (c : Conn)
    → IsIncomplete n low read_idx c
    → round line_ok c ≡ next line_open (record c { start_line = c.checked_idx })
unfolding round handle_line parse_content
round-body n low read_idx c i =
    let d = record c { start_line = c.checked_idx } in
    let e : leb_ℤ (c.content_length +ℤ pos c.checked_idx) (pos c.read_idx) ≡ false =
      ground (arith, i.promised, i.short, i.from, i.same) in
    let p : parse_content c.start_line d ≡ some (no_request, d) = rw e refl in
    ap (λ k. choose_round k line_ok c) i.state
    ∙ ap (λ k. dispatch k c.start_line d) i.state
    ∙ ap after_content p

-- Plain bytes up to the end: the scan finds no line and has checked them all.
round-Plain :
    (c : Conn)
    → c.check_state ≡ content
    → c.checked_idx ≤ c.read_idx
    → Plain c.read_buf c.checked_idx (c.read_idx - c.checked_idx)
    → round line_open c ≡ stop (answer no_request (record c { checked_idx = c.read_idx }))
unfolding round parse_line scan
round-Plain c e b p =
    let more : c.read_idx - c.checked_idx ≡ c.read_idx - c.checked_idx + 0 = omega arith in
    let there : c.checked_idx + (c.read_idx - c.checked_idx) ≡ c.read_idx = omega arith in
    let s : scan (c.read_idx - c.checked_idx) c.read_buf c.checked_idx c.read_idx
        ≡ (line_open, c.read_buf, c.read_idx) =
      ap (λ k. scan k c.read_buf c.checked_idx c.read_idx) more
      ∙ scan-Plain (c.read_idx - c.checked_idx) 0 c.read_buf c.checked_idx c.read_idx p
      ∙ ap (λ k. (line_open, c.read_buf, k)) there in
    ap (λ k. choose_round k line_open c) e
    ∙ ap
        (λ (r : LineStatus × List ℕ × ℕ).
          handle_if_ok (r.0, record c { read_buf = r.1; checked_idx = r.2 }))
        s

first_part :
    (n : ℕ) (c : Conn)
    → IsIncomplete n c.checked_idx c.read_idx c
    → c.checked_idx ≤ c.read_idx
    → Plain c.read_buf c.checked_idx (c.read_idx - c.checked_idx)
    → process_read c
      ≡ answer no_request (record c { start_line = c.checked_idx; checked_idx = c.read_idx })
unfolding process_read read_loop
first_part n c i b p =
    let fuel : 2 * (c.read_idx - c.checked_idx) + 2 ≡ suc (suc (2 * (c.read_idx - c.checked_idx))) =
      omega arith in
    let d = record c { start_line = c.checked_idx } in
    ap (λ k. read_loop k line_ok c) fuel
    ∙ ap (λ r. continue r (read_loop (suc (2 * (c.read_idx - c.checked_idx)))))
        (round-body n c.checked_idx c.read_idx c i)
    ∙ ap (λ r. continue r (read_loop (2 * (c.read_idx - c.checked_idx))))
        (round-Plain d i.state b p)

-- A body that comes in two pieces is never completed. The first piece, not empty and without CR and
-- LF, is marked as checked, so that when the second one completes the body, `process_read` still asks
-- for more.
pub split_body :
    (n : ℕ) (c : Conn) (bytes : List ℕ)
    → IsIncomplete n c.checked_idx c.read_idx c
    → c.checked_idx < c.read_idx
    → Plain c.read_buf c.checked_idx (c.read_idx - c.checked_idx)
    → c.read_idx + length bytes ≡ c.checked_idx + n
    → let d = record c { start_line = c.checked_idx; checked_idx = c.read_idx } in
      (process_read c ≡ answer no_request d)
      × ((e : Conn) × (process_read (store bytes d) ≡ answer no_request e)
          × IsIncomplete n c.read_idx (c.read_idx + length bytes) e)
split_body n c bytes i b p l =
    let d = record c { start_line = c.checked_idx; checked_idx = c.read_idx } in
    (
      first_part n c i (omega arith) p,
      IsIncomplete-waits n c.read_idx (c.read_idx + length bytes) (store bytes d) (record {
        state = i.state;
        promised = i.promised;
        short = omega arith;
        from = omega arith;
        same = refl;
      }),
    )

-- A body that is there as a whole is handed to `do_request`: `m_string` points to it, and it is
-- terminated.
pub whole_body :
    (n : ℕ) (c : Conn)
    → c.check_state ≡ content
    → c.content_length ≡ pos n
    → c.checked_idx + n ≤ c.read_idx
    → c.start_line + n < length c.read_buf
    → process_read c
      ≡ route (record (put (record c { start_line = c.checked_idx }) (c.start_line + n) 0) {
        string = some c.start_line;
      })
unfolding process_read read_loop round handle_line parse_content
whole_body n c s l b h =
    let fuel : 2 * (c.read_idx - c.checked_idx) + 2 ≡ suc (2 * (c.read_idx - c.checked_idx) + 1) =
      omega arith in
    let d = record c { start_line = c.checked_idx } in
    let e : leb_ℤ (c.content_length +ℤ pos c.checked_idx) (pos c.read_idx) ≡ true =
      ground (arith, l) in
    let f : ltb (c.start_line + n) (length c.read_buf) ≡ true = ground arith in
    let p : parse_content c.start_line d ≡ terminate c.start_line c.content_length d = rw e refl in
    let q : terminate c.start_line (pos n) d
        ≡ some (get_request, record (put d (c.start_line + n) 0) { string = some c.start_line }) =
      rw f refl in
    let loop = read_loop (2 * (c.read_idx - c.checked_idx) + 1) in
    ap (λ k. read_loop k line_ok c) fuel
    ∙ ap (λ k. continue (choose_round k line_ok c) loop) s
    ∙ ap (λ k. continue (dispatch k c.start_line d) loop) s
    ∙ ap (λ r. continue (after_content r) loop) (p ∙ ap (λ z. terminate c.start_line z d) l ∙ q)
