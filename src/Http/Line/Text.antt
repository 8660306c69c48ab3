-- ===== src/Http/Line/Text.antt =====
-- `parse_line` of http_conn.cpp on a buffer that is given as the text in front of a line, the line,
-- and the rest behind its CRLF.
use make_linux_server.Base.{
  ℕ, zero, suc, ◌+◌, ◌<◌, ◌≡◌, ap, ◌∙◌, List, [], ◌∷◌, ◌++◌, length, get_or, set, arith,
}
use make_linux_server.Http.{Conn, line_ok}
use make_linux_server.Http.Line.{parse_line, cr, lf}
use make_linux_server.Http.Line.Laws.{Plain, parse_line_ok}
use make_linux_server.Http.CString.Laws.{IsText, get_or-append, set-append}

Plain-cons : (x : ℕ) (buf : List ℕ) (i n : ℕ) → Plain buf i n → Plain (x ∷ buf) (suc i) n
Plain-cons x buf i zero p = tt
Plain-cons x buf i (suc n) p =
    let e : suc i + 1 ≡ suc (i + 1) = omega arith in
    (p.0, p.1, rw e (Plain-cons x buf (i + 1) n p.2))

Plain-IsText : (line r : List ℕ) → IsText line → Plain (line ++ r) 0 (length line)
Plain-IsText [] r t = tt
Plain-IsText (b ∷ line) r t =
    (t.1, t.2, Plain-cons b (line ++ r) 0 (length line) (Plain-IsText line r t.3))

Plain-append :
    (before line r : List ℕ)
    → IsText line
    → Plain (before ++ (line ++ r)) (length before) (length line)
Plain-append [] line r t = Plain-IsText line r t
Plain-append (x ∷ before) line r t =
    Plain-cons x (before ++ (line ++ r)) (length before) (length line)
      (Plain-append before line r t)

-- A text of a line that is followed by CRLF is found, and terminated.
pub parse_line-IsText :
    (before line rest : List ℕ) (c : Conn)
    → IsText line
    → length before + length line + 1 < c.read_idx
    → parse_line
        (record c { read_buf = before ++ (line ++ cr ∷ lf ∷ rest); checked_idx = length before })
      ≡ (
        line_ok,
        record c {
          read_buf = before ++ (line ++ 0 ∷ 0 ∷ rest);
          checked_idx = length before + length line + 2;
        },
      )
parse_line-IsText before line rest c t h =
    let buf = before ++ (line ++ cr ∷ lf ∷ rest) in
    let here : length before + length line ≡ length before + (length line + 0) = omega arith in
    let there : length before + length line + 1 ≡ length before + (length line + 1) = omega arith in
    let at : (k : ℕ)
        → get_or buf (length before + (length line + k)) 0 ≡ get_or (cr ∷ lf ∷ rest) k 0 =
      λ k.
        get_or-append before (line ++ cr ∷ lf ∷ rest) (length line + k) 0
        ∙ get_or-append line (cr ∷ lf ∷ rest) k 0 in
    let stored : (k v : ℕ) (r : List ℕ)
        → set (before ++ (line ++ r)) (length before + (length line + k)) v
          ≡ before ++ (line ++ set r k v) =
      λ k v r.
        set-append before (line ++ r) (length line + k) v
        ∙ ap (λ l. before ++ l) (set-append line r k v) in
    let both : set (set buf (length before + length line) 0) (length before + length line + 1) 0
        ≡ before ++ (line ++ 0 ∷ 0 ∷ rest) =
      ap (λ i. set (set buf i 0) (length before + length line + 1) 0) here
      ∙ ap (λ j. set (set buf (length before + (length line + 0)) 0) j 0) there
      ∙ ap (λ b. set b (length before + (length line + 1)) 0) (stored 0 0 (cr ∷ lf ∷ rest))
      ∙ stored 1 0 (0 ∷ lf ∷ rest) in
    parse_line_ok (record c { read_buf = buf; checked_idx = length before }) (length line)
      (Plain-append before line (cr ∷ lf ∷ rest) t) (ap (λ i. get_or buf i 0) here ∙ at 0)
      (ap (λ i. get_or buf i 0) there ∙ at 1) h
    ∙ ap (λ b. (line_ok, record c { read_buf = b; checked_idx = length before + length line + 2 }))
        both
