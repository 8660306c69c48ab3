-- ===== src/Http/Read/Head.antt =====
-- `process_read` of http_conn.cpp on the request line and the header of a request, up to the blank line.
use make_linux_server.Base.{
  ℕ, suc, ◌+◌, ◌-◌, ◌*◌, ◌≤◌, ◌≡◌, ap, sym, ◌∙◌, Option, List, [], ◌∷◌, ◌++◌, length, length-append,
  append_assoc, arith,
}
use make_linux_server.Http.{Conn, requestline, Method, get, post, line_ok}
use make_linux_server.Http.CString.{codes}
use make_linux_server.Http.CString.Laws.{IsText, IsWord}
use make_linux_server.Http.Line.{cr, lf}
use make_linux_server.Http.Line.Text.{parse_line-IsText}
use make_linux_server.Http.Request.{parse_request_line}
use make_linux_server.Http.Request.First.{
  method_text, request_line, cut_text, cut_line, http_1_1, version_line, accepted,
  parse_request_line_lem,
}
use make_linux_server.Http.Read.{
  next, after_request_line, handle_line, handle_if_ok, round, continue, read_loop, process_read,
}
use make_linux_server.Http.Read.Lines.{
  at_header, AreHeaderLines, header_text, header_size, cut_lines, after_lines, read_lines,
  length-cut_lines, length-le-header_size,
}

-- The bytes of a request line with its end.
abbrev pub request_size : Method → List ℕ → ℕ
request_size method path = length (method_text method) + length path + 13

cut_text-append : (m path r : List ℕ) → cut_text m path r ≡ cut_text m path [] ++ r
cut_text-append m [] r = sym (append_assoc m (0 ∷ codes "/judge.html" ++ 0 ∷ []) r)
cut_text-append m (b ∷ path) r =
    ap (λ l. m ++ (0 ∷ 47 ∷ b ∷ l)) (sym (append_assoc path (0 ∷ version_line []) r))
    ∙ sym (append_assoc m (0 ∷ 47 ∷ (b ∷ path ++ 0 ∷ version_line [])) r)

length-cut_text : (m path : List ℕ) → length (cut_text m path []) ≡ length m + length path + 13
length-cut_text m [] = omega (arith, length-append m (0 ∷ codes "/judge.html" ++ 0 ∷ []))
length-cut_text m (b ∷ path) = omega (
  arith,
  length-append m (0 ∷ 47 ∷ (b ∷ path ++ 0 ∷ version_line [])),
  length-append path (0 ∷ version_line []),
)

IsText-append : (a b : List ℕ) → IsText a → IsText b → IsText (a ++ b)
IsText-append [] b t u = u
IsText-append (x ∷ a) b t u = (t.0, t.1, t.2, IsText-append a b t.3 u)

method_text-IsText : (method : Method) → IsText (method_text method)
method_text-IsText get = omega arith
method_text-IsText post = omega arith

request_line-IsText :
    (method : Method) (path : List ℕ) → IsText path → IsText (request_line method path)
request_line-IsText method path t =
    IsText-append (method_text method) (32 ∷ 47 ∷ (path ++ 32 ∷ http_1_1))
      (method_text-IsText method)
      (
        omega arith,
        omega arith,
        omega arith,
        (omega arith, omega arith, omega arith, IsText-append path (32 ∷ http_1_1) t (omega arith)),
      )

length-request_line :
    (method : Method) (path : List ℕ)
    → length (request_line method path) + 2 ≡ request_size method path
length-request_line method path = omega (
  arith,
  length-append (method_text method) (32 ∷ 47 ∷ (path ++ 32 ∷ http_1_1)),
  length-append path (32 ∷ http_1_1),
)

-- The object that `init` has set up, when the bytes have been read.
abbrev pub at_request : Method → List ℕ → List ℕ → Conn → Conn
at_request method path text c = record c {
  check_state = requestline;
  checked_idx = 0;
  start_line = 0;
  read_buf = request_line method path ++ (cr ∷ lf ∷ text);
}

round_request :
    (method : Method) (path text : List ℕ) (c : Conn)
    → IsText path
    → IsWord path
    → request_size method path ≤ c.read_idx
    → round line_ok (at_request method path text c)
      ≡ next line_ok (at_header (cut_line method path []) text (accepted method path [] c))
unfolding round handle_line
round_request method path text c t w fits =
    let first = record c { checked_idx = 0; start_line = 0; check_state = requestline } in
    let line = request_line method path in
    let cut = cut_line method path [] in
    let after = λ (k : ℕ). record first {
      read_buf = line ++ (0 ∷ 0 ∷ text);
      checked_idx = k;
      start_line = k;
    } in
    let size = length-request_line method path in
    let read : 0 + length line + 2 ≡ length cut =
      omega (arith, size, length-cut_text (method_text method) path) in
    let found =
      parse_line-IsText [] line text first (request_line-IsText method path t)
        (omega (arith, size)) in
    ap handle_if_ok found
    ∙ ap (λ k. after_request_line (parse_request_line 0 (after k))) read
    ∙ ap after_request_line (parse_request_line_lem method path text (after (length cut)) t w)
    ∙ ap
        (λ b.
          next line_ok (record (at_header cut text (accepted method path [] c)) { read_buf = b }))
        (cut_text-append (method_text method) path text)

-- What the request line and the header leave in the buffer.
abbrev pub head : Method → List ℕ → List (List ℕ) → List ℕ
head method path lines = cut_line method path [] ++ cut_lines lines

pub length-head :
    (method : Method) (path : List ℕ) (lines : List (List ℕ))
    → length (head method path lines) + 2 ≡ request_size method path + header_size lines
length-head method path lines = omega (
  arith,
  length-append (cut_line method path []) (cut_lines lines),
  length-cut_text (method_text method) path,
  length-cut_lines lines,
)

-- The object in front of the blank line.
abbrev pub at_blank : Method → List ℕ → List (List ℕ) → List ℕ → Option ℕ → Conn → Conn
at_blank method path lines rest host c =
    at_header (head method path lines) (cr ∷ lf ∷ rest)
      (after_lines lines host (accepted method path [] c))

-- An object that `init` has set up holds a request line and a header as a whole.
pub record HoldsHead (method : Method) (path : List ℕ) (lines : List (List ℕ)) (rest : List ℕ)
    (c : Conn) : Type 0 where
  pub text : IsText path
  pub word : IsWord path
  pub header_lines : AreHeaderLines lines
  pub buffer : c.read_buf ≡ request_line method path ++ (cr ∷ lf ∷ header_text lines rest)
  pub read : request_size method path + header_size lines ≤ c.read_idx
  pub state : c.check_state ≡ requestline
  pub unchecked : c.checked_idx ≡ 0
  pub from : c.start_line ≡ 0

-- The rounds up to the blank line leave fuel for those on it and on the body.
pub read_head :
    (method : Method) (path : List ℕ) (lines : List (List ℕ)) (rest : List ℕ) (c : Conn)
    → HoldsHead method path lines rest c
    → (host : Option ℕ) × (n : ℕ) × (process_read c
        ≡ read_loop (suc (suc n)) line_ok (at_blank method path lines rest host c))
unfolding process_read read_loop
read_head method path lines rest c v =
    let n = 2 * c.read_idx - 1 - length lines in
    let cut = cut_line method path [] in
    let size = length-cut_text (method_text method) path in
    let few = length-le-header_size lines in
    let fuel : 2 * (c.read_idx - 0) + 2 ≡ suc (length lines + suc (suc n)) =
      omega (arith, few, v.read) in
    let (host, headers) =
      read_lines lines (suc (suc n)) cut rest (accepted method path [] c) v.header_lines
        (omega (arith, size, v.read)) in
    let d = at_request method path (header_text lines rest) c in
    let same : c ≡ d = λ k. record c {
      check_state = v.state k;
      checked_idx = v.unchecked k;
      start_line = v.from k;
      read_buf = v.buffer k;
    } in
    (
      host,
      n,
      ap process_read same
          ∙ ap (λ n. read_loop n line_ok d) fuel
          ∙ ap (λ r. continue r (read_loop (length lines + suc (suc n))))
              (round_request method path (header_text lines rest) c v.text v.word
                (omega (arith, v.read)))
          ∙ headers,
    )
