-- ===== src/Http/Read/Lines.antt =====
-- The lines of a request's header as `process_read` of http_conn.cpp reads them, up to the blank line.
use make_linux_server.Base.{
  ℕ, suc, ◌+◌, ◌≤◌, ◌<◌, ◌≡◌, refl, ap, sym, ◌∙◌, Bool, true, false, ◌||◌, Option, List, [], ◌∷◌,
  ◌++◌, ◌==◌, length, get_or, length-append, append_assoc, append-nil, arith, ==-ne,
}
use make_linux_server.Http.{Conn, header, LineStatus, line_ok}
use make_linux_server.Http.CString.Laws.{IsText}
use make_linux_server.Http.Line.{cr, lf}
use make_linux_server.Http.Line.Text.{parse_line-IsText}
use make_linux_server.Http.Request.{parse_headers}
use make_linux_server.Http.Request.Headers.{
  is_keep_alive, any_keep_alive, all_announced, parse_headers-line, or_false, after_line,
}
use make_linux_server.Http.Read.{
  next, after_headers, handle_line, handle_if_ok, round, continue, read_loop,
}

-- The object in front of a line of the header: `before` has been read, `text` has not.
abbrev pub at_header : List ℕ → List ℕ → Conn → Conn
at_header before text c = record c {
  check_state = header;
  read_buf = before ++ text;
  checked_idx = length before;
  start_line = length before;
}

-- A line of a header: a text, and not empty.
abbrev pub IsHeaderLine : List ℕ → Type 0
IsHeaderLine line = IsText line × (0 < length line)

abbrev pub AreHeaderLines : List (List ℕ) → Type 0
AreHeaderLines [] = Unit
AreHeaderLines (line ∷ lines) = IsHeaderLine line × AreHeaderLines lines

-- The lines of a header and the blank line as they come, with what follows.
abbrev pub header_text : List (List ℕ) → List ℕ → List ℕ
header_text [] rest = cr ∷ lf ∷ rest
header_text (line ∷ lines) rest = line ++ cr ∷ lf ∷ header_text lines rest

abbrev pub header_size : List (List ℕ) → ℕ
header_size [] = 2
header_size (line ∷ lines) = length line + 2 + header_size lines

-- A line that `parse_line` has found is handled in the state `header`.
pub round_found :
    (status : LineStatus) (before line rest : List ℕ) (c : Conn)
    → IsText line
    → length before + length line + 1 < c.read_idx
    → round status (at_header before (line ++ cr ∷ lf ∷ rest) c)
      ≡ after_headers (
          parse_headers (length before) (record c {
            check_state = header;
            read_buf = before ++ (line ++ 0 ∷ 0 ∷ rest);
            checked_idx = length before + length line + 2;
            start_line = length before + length line + 2;
          }))
unfolding round handle_line
round_found status before line rest c t h = ap handle_if_ok (
    parse_line-IsText before line rest
      (record c { check_state = header; start_line = length before }) t h)

full_line :
    (line r : List ℕ) → IsText line → 0 < length line → (get_or (line ++ 0 ∷ r) 0 0 == 0) ≡ false
full_line [] r t h = absurd (omega arith)
full_line (b ∷ line) r t h = ==-ne b 0 t.0

round_line :
    (status : LineStatus) (before line rest : List ℕ) (c : Conn)
    → IsHeaderLine line
    → length before + length line + 1 < c.read_idx
    → (host : Option ℕ) × (round status (at_header before (line ++ cr ∷ lf ∷ rest) c)
        ≡ next line_ok (at_header (before ++ (line ++ 0 ∷ 0 ∷ [])) rest (after_line line host c)))
round_line status before line rest c t h =
    let d = record c {
      check_state = header;
      checked_idx = length before + length line + 2;
      start_line = length before + length line + 2;
    } in
    let (host, e) =
      parse_headers-line before line (0 ∷ rest) d t.0 (full_line line (0 ∷ rest) t.0 t.1) in
    let size : length (before ++ (line ++ 0 ∷ 0 ∷ [])) ≡ length before + length line + 2 =
      omega (arith, length-append before (line ++ 0 ∷ 0 ∷ []), length-append line (0 ∷ 0 ∷ [])) in
    let split : before ++ (line ++ 0 ∷ 0 ∷ rest) ≡ (before ++ (line ++ 0 ∷ 0 ∷ [])) ++ rest =
      ap (λ l. before ++ l) (sym (append_assoc line (0 ∷ 0 ∷ []) rest))
      ∙ sym (append_assoc before (line ++ 0 ∷ 0 ∷ []) rest) in
    (
      host,
      round_found status before line rest c t.0 h
          ∙ ap after_headers e
          ∙ ap
              (λ k. next line_ok (
                after_line line host (record c {
                  check_state = header;
                  read_buf = before ++ (line ++ 0 ∷ 0 ∷ rest);
                  checked_idx = k;
                  start_line = k;
                })))
              (sym size)
          ∙ ap
              (λ b.
                next line_ok
                  (record (at_header (before ++ (line ++ 0 ∷ 0 ∷ [])) rest
                    (after_line line host c)) { read_buf = b }))
              split,
    )

-- The lines with the zeros that `parse_line` leaves.
abbrev pub cut_lines : List (List ℕ) → List ℕ
cut_lines [] = []
cut_lines (line ∷ lines) = line ++ 0 ∷ 0 ∷ cut_lines lines

pub length-cut_lines : (lines : List (List ℕ)) → length (cut_lines lines) + 2 ≡ header_size lines
length-cut_lines [] = refl
length-cut_lines (line ∷ lines) =
    omega (arith, length-cut_lines lines, length-append line (0 ∷ 0 ∷ cut_lines lines))

pub length-le-header_size : (lines : List (List ℕ)) → length lines + 2 ≤ header_size lines
length-le-header_size [] = omega arith
length-le-header_size (line ∷ lines) = omega (arith, length-le-header_size lines)

-- What the lines of a header may change.
abbrev pub after_lines : List (List ℕ) → Option ℕ → Conn → Conn
after_lines lines host c = record c {
  linger = c.linger || any_keep_alive lines;
  host = host;
  content_length = all_announced lines c.content_length;
}

or_assoc : (a b c : Bool) → ((a || b) || c) ≡ (a || (b || c))
or_assoc true b c = refl
or_assoc false b c = refl

-- The rounds on the lines of a header, one for each.
pub read_lines :
    (lines : List (List ℕ)) (m : ℕ) (before rest : List ℕ) (c : Conn)
    → AreHeaderLines lines
    → length before + header_size lines ≤ c.read_idx
    → (host : Option ℕ) × (read_loop
          (length lines + m)
          line_ok
          (at_header before (header_text lines rest) c)
        ≡ read_loop m line_ok
            (at_header (before ++ cut_lines lines) (cr ∷ lf ∷ rest) (after_lines lines host c)))
unfolding read_loop
read_lines [] m before rest c t h =
    let none_left : 0 + m ≡ m = omega arith in
    (
      c.host,
      ap (λ n. read_loop n line_ok (at_header before (cr ∷ lf ∷ rest) c)) none_left
          ∙ ap (λ b. read_loop m line_ok (at_header b (cr ∷ lf ∷ rest) c)) (sym (append-nil before))
          ∙ ap
              (λ l.
                read_loop m line_ok
                  (at_header (before ++ []) (cr ∷ lf ∷ rest) (record c { linger = l })))
              (sym (or_false c.linger)),
    )
read_lines (line ∷ lines) m before rest c t h =
    let (host, e) = round_line line_ok before line (header_text lines rest) c t.0 (omega arith) in
    let before' = before ++ (line ++ 0 ∷ 0 ∷ []) in
    let size : length before' ≡ length before + length line + 2 =
      omega (arith, length-append before (line ++ 0 ∷ 0 ∷ []), length-append line (0 ∷ 0 ∷ [])) in
    let fuel : suc (length lines) + m ≡ suc (length lines + m) = omega arith in
    let (last, ih) = read_lines lines m before' rest (after_line line host c) t.1 (omega arith) in
    let joined : before' ++ cut_lines lines ≡ before ++ cut_lines (line ∷ lines) =
      append_assoc before (line ++ 0 ∷ 0 ∷ []) (cut_lines lines)
      ∙ ap (λ l. before ++ l) (append_assoc line (0 ∷ 0 ∷ []) (cut_lines lines)) in
    let text = header_text (line ∷ lines) rest in
    (
      last,
      ap (λ n. read_loop n line_ok (at_header before text c)) fuel
          ∙ ap (λ r. continue r (read_loop (length lines + m))) e
          ∙ ih
          ∙ ap
              (λ b.
                read_loop m line_ok
                  (at_header b (cr ∷ lf ∷ rest) (after_lines lines last (after_line line host c))))
              joined
          ∙ ap
              (λ l. read_loop m line_ok (
                at_header (before ++ cut_lines (line ∷ lines)) (cr ∷ lf ∷ rest)
                  (record (after_lines (line ∷ lines) last c) { linger = l })))
              (or_assoc c.linger (is_keep_alive line) (any_keep_alive lines)),
    )
