-- ===== src/Http/Read/Whole.antt =====
-- `process_read` of http_conn.cpp on a whole request without a body.
use make_linux_server.Base.{
  ℕ, suc, ◌+◌, ◌<◌, ◌≡◌, ap, ◌∙◌, true, Option, List, [], ◌∷◌, ◌++◌, ◌==◌, length, get_or, arith,
}
use make_linux_server.Base.Int.{pos}
use make_linux_server.Http.{Conn, header, get_request, Method, get, LineStatus, line_ok}
use make_linux_server.Http.CString.Laws.{get_or-append}
use make_linux_server.Http.Line.{cr, lf}
use make_linux_server.Http.Request.{parse_headers}
use make_linux_server.Http.Request.First.{accepted}
use make_linux_server.Http.Request.Headers.{all_announced}
use make_linux_server.Http.Read.{
  route, stop, after_headers, round, continue, read_loop, process_read,
}
use make_linux_server.Http.Read.Lines.{at_header, header_size, after_lines, round_found}
use make_linux_server.Http.Read.Head.{HoldsHead, head, length-head, request_size, read_head}

parse_headers-blank :
    (text : ℕ) (c : Conn)
    → (get_or c.read_buf text 0 == 0) ≡ true
    → c.content_length ≡ pos 0
    → parse_headers text c ≡ (get_request, c)
unfolding parse_headers
parse_headers-blank text c blank z = ground arith

-- The blank line ends a header without a body.
round_blank :
    (status : LineStatus) (before rest : List ℕ) (c : Conn)
    → c.content_length ≡ pos 0
    → length before + 1 < c.read_idx
    → round status (at_header before (cr ∷ lf ∷ rest) c)
      ≡ stop (
          route (record c {
            check_state = header;
            read_buf = before ++ (0 ∷ 0 ∷ rest);
            checked_idx = length before + 2;
            start_line = length before + 2;
          }))
round_blank status before rest c z h =
    let d = record c {
      check_state = header;
      read_buf = before ++ (0 ∷ 0 ∷ rest);
      checked_idx = length before + 0 + 2;
      start_line = length before + 0 + 2;
    } in
    let buf = before ++ (0 ∷ 0 ∷ rest) in
    let here : length before ≡ length before + 0 = omega arith in
    let more : length before + 0 + 2 ≡ length before + 2 = omega arith in
    let blank : (get_or buf (length before) 0 == 0) ≡ true =
      ap (λ i. get_or buf i 0 == 0) here
      ∙ ap (λ x. x == 0) (get_or-append before (0 ∷ 0 ∷ rest) 0 0) in
    round_found status before [] rest c tt (omega arith)
    ∙ ap after_headers (parse_headers-blank (length before) d blank z)
    ∙ ap (λ k. stop (route (record d { checked_idx = k; start_line = k }))) more

-- The object behind the header.
abbrev pub behind : Method → List ℕ → List (List ℕ) → List ℕ → Option ℕ → Conn → Conn
behind method path lines rest host c =
    let size = request_size method path + header_size lines in
    record (after_lines lines host (accepted method path [] c)) {
      read_buf = head method path lines ++ (0 ∷ 0 ∷ rest);
      checked_idx = size;
      start_line = size;
    }

-- A whole GET request is parsed and routed. When the buffer of an object that `init` has set up
-- holds a request line `GET /path HTTP/1.1`, any lines of a header that announce no body, and the
-- blank line, `process_read` ends with `do_request`: `m_url` points to `/path` (`/judge.html` for the
-- path '/'), the method is GET, `m_linger` is set exactly if it was or a line says `Connection:
-- keep-alive`, and the checked bytes are those of the request.
pub process_read-get :
    (path : List ℕ) (lines : List (List ℕ)) (rest : List ℕ) (c : Conn)
    → HoldsHead get path lines rest c
    → all_announced lines c.content_length ≡ pos 0
    → (host : Option ℕ) × (process_read c ≡ route (behind get path lines rest host c))
unfolding read_loop
process_read-get path lines rest c v z =
    let (host, n, read) = read_head get path lines rest c v in
    let before = head get path lines in
    let size = length-head get path lines in
    let d = after_lines lines host (accepted get path [] c) in
    (
      host,
      read
          ∙ ap (λ r. continue r (read_loop (suc n)))
              (round_blank line_ok before rest d z (omega (arith, size, v.read)))
          ∙ ap
              (λ k.
                route
                  (record (behind get path lines rest host c) { checked_idx = k; start_line = k }))
              size,
    )
