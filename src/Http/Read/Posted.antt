-- ===== src/Http/Read/Posted.antt =====
-- `process_read` of http_conn.cpp on a whole POST request: the header announces a body, which is in
-- the buffer as a whole.
use make_linux_server.Base.{
  ℕ, suc, ◌+◌, ◌≤◌, ◌<◌, ◌≡◌, ap, sym, ◌∙◌, true, Option, some, List, [], ◌∷◌, ◌++◌, ◌==◌, length,
  get_or, set, ltb, length-append, append_assoc, arith,
}
use make_linux_server.Base.Int.{pos, ◌+ℤ◌, leb_ℤ}
use make_linux_server.Http.{
  Conn, header, content, no_request, get_request, post, LineStatus, line_ok,
}
use make_linux_server.Http.CString.Laws.{get_or-append, set-append}
use make_linux_server.Http.Line.{cr, lf}
use make_linux_server.Http.Request.{parse_headers, parse_content, terminate}
use make_linux_server.Http.Request.First.{accepted}
use make_linux_server.Http.Request.Headers.{all_announced}
use make_linux_server.Http.Read.{
  route, stop, next, after_headers, after_content, handle_line, round, continue, read_loop,
  process_read,
}
use make_linux_server.Http.Read.Lines.{at_header, header_size, after_lines, round_found}
use make_linux_server.Http.Read.Head.{HoldsHead, head, length-head, request_size, read_head}

parse_headers-body :
    (text n : ℕ) (c : Conn)
    → (get_or c.read_buf text 0 == 0) ≡ true
    → c.content_length ≡ pos (suc n)
    → parse_headers text c ≡ (no_request, record c { check_state = content })
unfolding parse_headers
parse_headers-body text n c blank z = ground arith

-- The blank line ends a header, and a body comes.
round_blank :
    (status : LineStatus) (before rest : List ℕ) (n : ℕ) (c : Conn)
    → c.content_length ≡ pos (suc n)
    → length before + 1 < c.read_idx
    → round status (at_header before (cr ∷ lf ∷ rest) c)
      ≡ next line_ok (record c {
        check_state = content;
        read_buf = before ++ (0 ∷ 0 ∷ rest);
        checked_idx = length before + 2;
        start_line = length before + 2;
      })
round_blank status before rest n c z h =
    let d = record c {
      check_state = header;
      read_buf = before ++ (0 ∷ 0 ∷ rest);
      checked_idx = length before + 0 + 2;
      start_line = length before + 0 + 2;
    } in
    let here : length before ≡ length before + 0 = omega arith in
    let more : length before + 0 + 2 ≡ length before + 2 = omega arith in
    let blank : (get_or d.read_buf (length before) 0 == 0) ≡ true =
      ap (λ i. get_or d.read_buf i 0 == 0) here
      ∙ ap (λ x. x == 0) (get_or-append before (0 ∷ 0 ∷ rest) 0 0) in
    round_found status before [] rest c tt (omega arith)
    ∙ ap after_headers (parse_headers-body (length before) n d blank z)
    ∙ ap (λ k. next line_ok (record d { check_state = content; checked_idx = k; start_line = k }))
        more

-- The object in front of a body, at the end of what has been checked.
abbrev at_body : List ℕ → List ℕ → Conn → Conn
at_body before text c = record c {
  check_state = content;
  read_buf = before ++ text;
  checked_idx = length before;
  start_line = length before;
}

-- The body is there: it is ended with a 0, and `m_string` points to it.
round_body :
    (before body rest : List ℕ) (b : ℕ) (c : Conn)
    → c.content_length ≡ pos (length body)
    → length before + length body ≤ c.read_idx
    → round line_ok (at_body before (body ++ b ∷ rest) c)
      ≡ stop
          (route (record (at_body before (body ++ 0 ∷ rest) c) { string = some (length before) }))
unfolding round handle_line parse_content
round_body before body rest b c z h =
    let d = at_body before (body ++ b ∷ rest) c in
    let n = length body in
    let whole : leb_ℤ (c.content_length +ℤ pos (length before)) (pos c.read_idx) ≡ true =
      ground (arith, z) in
    let inside : ltb (length before + n) (length d.read_buf) ≡ true =
      ground (arith, length-append before (body ++ b ∷ rest), length-append body (b ∷ rest)) in
    let end : set d.read_buf (length before + n) 0 ≡ before ++ (body ++ 0 ∷ rest) =
      let e : n ≡ n + 0 = omega arith in
      set-append before (body ++ b ∷ rest) n 0
      ∙ ap (λ k. before ++ set (body ++ b ∷ rest) k 0) e
      ∙ ap (λ l. before ++ l) (set-append body (b ∷ rest) 0 0) in
    let parsed : parse_content (length before) d
        ≡ some (
          get_request,
          record (at_body before (body ++ 0 ∷ rest) c) { string = some (length before) },
        ) =
      rw whole (
        ap (λ k. terminate (length before) k d) z
        ∙ rw inside (
            ap
              (λ buf.
                some (get_request, record d { read_buf = buf; string = some (length before) }))
              end)) in
    ap after_content parsed

-- The object behind the body, which a 0 ends in place of the byte that followed it.
abbrev pub posted : List ℕ → List (List ℕ) → List ℕ → List ℕ → Option ℕ → Conn → Conn
posted path lines body rest host c =
    let size = request_size post path + header_size lines in
    record (after_lines lines host (accepted post path [] c)) {
      check_state = content;
      read_buf = head post path lines ++ (0 ∷ 0 ∷ (body ++ 0 ∷ rest));
      checked_idx = size;
      start_line = size;
      string = some size;
    }

-- A whole POST request is parsed and routed. When the buffer of an object that `init` has set up
-- holds a request line `POST /path HTTP/1.1`, any lines of a header of which the last `Content-Length`
-- is that of the body, the blank line and the body, which is not empty and does not end the buffer's
-- array, `process_read` ends with `do_request`: `m_url` points to `/path`, the method is POST, `cgi`
-- is set, and `m_string` points to the body, which a 0 ends.
pub process_read-post :
    (path : List ℕ) (lines : List (List ℕ)) (body rest : List ℕ) (n b : ℕ) (c : Conn)
    → HoldsHead post path lines (body ++ b ∷ rest) c
    → length body ≡ suc n
    → all_announced lines c.content_length ≡ pos (length body)
    → request_size post path + header_size lines + length body ≤ c.read_idx
    → (host : Option ℕ) × (process_read c ≡ route (posted path lines body rest host c))
unfolding read_loop
process_read-post path lines body rest n b c v m z fits =
    let (host, k, read) = read_head post path lines (body ++ b ∷ rest) c v in
    let before = head post path lines in
    let text = body ++ b ∷ rest in
    let size = length-head post path lines in
    let d = after_lines lines host (accepted post path [] c) in
    let lined = before ++ (0 ∷ 0 ∷ []) in
    let two : length lined ≡ length before + 2 = length-append before (0 ∷ 0 ∷ []) in
    let at_end : length lined ≡ request_size post path + header_size lines =
      omega (arith, size, two) in
    let there : record d {
      check_state = content;
      read_buf = before ++ (0 ∷ 0 ∷ text);
      checked_idx = length before + 2;
      start_line = length before + 2;
    }
        ≡ at_body lined text d =
      λ i. record d {
        check_state = content;
        read_buf = sym (append_assoc before (0 ∷ 0 ∷ []) text) i;
        checked_idx = sym two i;
        start_line = sym two i;
      } in
    let behind : record (at_body lined (body ++ 0 ∷ rest) d) { string = some (length lined) }
        ≡ posted path lines body rest host c =
      λ i. record d {
        check_state = content;
        read_buf = append_assoc before (0 ∷ 0 ∷ []) (body ++ 0 ∷ rest) i;
        checked_idx = at_end i;
        start_line = at_end i;
        string = some (at_end i);
      } in
    (
      host,
      read
          ∙ ap (λ r. continue r (read_loop (suc k)))
              (round_blank line_ok before text n d (z ∙ ap pos m) (omega (arith, size, v.read)))
          ∙ ap (read_loop (suc k) line_ok) there
          ∙ ap (λ r. continue r (read_loop k))
              (round_body lined body rest b d z (omega (arith, at_end, fits)))
          ∙ ap route behind,
    )
