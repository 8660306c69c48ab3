-- ===== src/Http/Request/Headers.antt =====
-- What `parse_headers` of http_conn.cpp does with a line of the header.
use make_linux_server.Base.{
  ℕ, zero, suc, ◌+◌, ◌≤◌, ◌≡◌, refl, ap, sym, ◌∙◌, Bool, true, false, ◌&&◌, ◌||◌, Option, some,
  List, [], ◌∷◌, ◌++◌, ◌==◌, if◌then◌else◌, length, length-drop, get_or, drop, arith, Bool-cases,
  inl, inr,
}
use make_linux_server.Base.Int.{ℤ}
use make_linux_server.Http.{Conn, HttpCode, no_request}
use make_linux_server.Http.CString.{codes, strspn, strcasecmp, strncasecmp, to_lower, atol}
use make_linux_server.Http.CString.Laws.{
  IsText, is_literal, drop-append, get_or-append, strspn-IsText, strspn-le, strncasecmp-IsText,
  strncasecmp-length, strcasecmp-IsText, atol-append,
}
use make_linux_server.Http.Request.{blanks, text_at, value_at, parse_headers}

-- The value of a header line whose name has `n` bytes.
abbrev pub value_of : ℕ → List ℕ → List ℕ
value_of n line = drop (n + strspn (drop n line) blanks) line

-- `Connection: keep-alive`, in any case and with any blanks.
abbrev pub is_keep_alive : List ℕ → Bool
is_keep_alive line =
    strncasecmp line (codes "Connection:") && strcasecmp (value_of 11 line) (codes "keep-alive")

-- The length of the body behind a line, which a line `Content-Length: n` sets.
abbrev pub announced : List ℕ → ℤ → ℤ
announced line old =
    if strncasecmp line (codes "Connection:")
    then old
    else if strncasecmp line (codes "content-length:")
    then atol (value_of 15 line)
    else old

abbrev pub all_announced : List (List ℕ) → ℤ → ℤ
all_announced [] old = old
all_announced (line ∷ lines) old = all_announced lines (announced line old)

abbrev pub any_keep_alive : List (List ℕ) → Bool
any_keep_alive [] = false
any_keep_alive (line ∷ lines) = is_keep_alive line || any_keep_alive lines

drop-text : (k : ℕ) (line r : List ℕ) → k ≤ length line → drop k (line ++ r) ≡ drop k line ++ r
drop-text zero line r h = refl
drop-text (suc k) [] r h = absurd (omega arith)
drop-text (suc k) (b ∷ line) r h = drop-text k line r (omega arith)

IsText-drop : (k : ℕ) (line : List ℕ) → IsText line → IsText (drop k line)
IsText-drop zero line t = t
IsText-drop (suc k) [] t = tt
IsText-drop (suc k) (b ∷ line) t = IsText-drop k line t.3

-- The value that the parser finds is the line's.
value_text :
    (n : ℕ) (before line r : List ℕ)
    → IsText line
    → n ≤ length line
    → (let buf = before ++ (line ++ 0 ∷ r) in
        drop (length before + n + strspn (drop (length before + n) buf) blanks) buf
        ≡ value_of n line ++ 0 ∷ r)
value_text n before line r t h =
    let buf = before ++ (line ++ 0 ∷ r) in
    let k = strspn (drop n line) blanks in
    let named : drop (length before + n) buf ≡ drop n line ++ 0 ∷ r =
      drop-append before (line ++ 0 ∷ r) n ∙ drop-text n line (0 ∷ r) h in
    let skipped : strspn (drop (length before + n) buf) blanks ≡ k =
      ap (λ s. strspn s blanks) named ∙ strspn-IsText (drop n line) r (IsText-drop n line t) in
    let within : n + k ≤ length line =
      omega (arith, strspn-le (drop n line) blanks, length-drop n line) in
    let index : length before + n + k ≡ length before + (n + k) = omega arith in
    ap (λ j. drop (length before + n + j) buf) skipped
    ∙ ap (λ i. drop i buf) index
    ∙ drop-append before (line ++ 0 ∷ r) (n + k)
    ∙ drop-text (n + k) line (0 ∷ r) within

-- What a line of the header may change: `m_linger`, `m_host` and `m_content_length`.
abbrev pub after_line : List ℕ → Option ℕ → Conn → Conn
after_line line host c = record c {
  linger = c.linger || is_keep_alive line;
  host = host;
  content_length = announced line c.content_length;
}

pub or_false : (a : Bool) → (a || false) ≡ a
or_false true = refl
or_false false = refl

linger_if :
    (kept linger : Bool) (c : Conn)
    → ◌≡◌ {A = HttpCode × Conn}
        (if kept
          then (no_request, record c { linger = true })
          else (no_request, record c { linger = linger }))
        (no_request, record c { linger = linger || kept })
linger_if true true c = refl
linger_if true false c = refl
linger_if false true c = refl
linger_if false false c = refl

same_linger :
    (c : Conn)
    → ◌≡◌ {A = HttpCode × Conn}
        (no_request, c)
        (no_request, record c { linger = c.linger || false })
same_linger c = ap (λ l. (no_request, record c { linger = l })) (sym (or_false c.linger))

module _ (before : List ℕ) (line r : List ℕ) (c : Conn) (t : IsText line)
    (full : (get_or (line ++ 0 ∷ r) 0 0 == 0) ≡ false) where
  abbrev at_line : Conn
  at_line = record c { read_buf = before ++ (line ++ 0 ∷ r) }

  not_blank : (get_or at_line.read_buf (length before) 0 == 0) ≡ false
  not_blank =
      let e : length before ≡ length before + 0 = omega arith in
      ap (λ i. get_or at_line.read_buf i 0 == 0) e
      ∙ ap (λ x. x == 0) (get_or-append before (line ++ 0 ∷ r) 0 0)
      ∙ full

  named :
      (lit : List ℕ)
      → is_literal lit ≡ true
      → strncasecmp (text_at at_line (length before)) lit ≡ strncasecmp line lit
  named lit l =
      let e : length before ≡ length before + 0 = omega arith in
      ap (λ i. strncasecmp (drop i at_line.read_buf) lit) e
      ∙ ap (λ s. strncasecmp s lit) (drop-append before (line ++ 0 ∷ r) 0)
      ∙ strncasecmp-IsText line r lit l

  -- A line with the option that keeps the connection, or closes it.
  connection_line :
      strncasecmp line (codes "Connection:") ≡ true
      → parse_headers (length before) at_line ≡ (no_request, after_line line c.host at_line)
  unfolding parse_headers
  connection_line is =
      let kept = strcasecmp (value_of 11 line) (codes "keep-alive") in
      let value : strcasecmp (text_at at_line (value_at at_line (length before) 11))
            (codes "keep-alive")
          ≡ kept =
        ap (λ s. strcasecmp s (codes "keep-alive"))
          (value_text 11 before line r t (strncasecmp-length line (codes "Connection:") is))
        ∙ strcasecmp-IsText (value_of 11 line) r (codes "keep-alive")
            (IsText-drop (11 + strspn (drop 11 line) blanks) line t) (unfold to_lower in refl) in
      rw (not_blank, named (codes "Connection:") (unfold to_lower in refl) ∙ is, value, is)
        (linger_if kept c.linger at_line)

  -- A line with the length of the body.
  length_line :
      strncasecmp line (codes "Connection:") ≡ false
      → strncasecmp line (codes "content-length:") ≡ true
      → parse_headers (length before) at_line ≡ (no_request, after_line line c.host at_line)
  unfolding parse_headers
  length_line not_it is =
      let is_length = named (codes "content-length:") (unfold to_lower in refl) ∙ is in
      let is_connection = named (codes "Connection:") (unfold to_lower in refl) ∙ not_it in
      let value : atol (text_at at_line (value_at at_line (length before) 15))
          ≡ atol (value_of 15 line) =
        ap atol
          (value_text 15 before line r t (strncasecmp-length line (codes "content-length:") is))
        ∙ atol-append (value_of 15 line) r in
      rw (not_blank, is_connection, is_length, not_it, is, value)
        (same_linger (record at_line { content_length = atol (value_of 15 line) }))

  -- A line with another name.
  other_line :
      strncasecmp line (codes "Connection:") ≡ false
      → strncasecmp line (codes "content-length:") ≡ false
      → (host : Option ℕ) × (parse_headers (length before) at_line
          ≡ (no_request, after_line line host at_line))
  unfolding parse_headers
  other_line not_it no_length =
      let is_length = named (codes "content-length:") (unfold to_lower in refl) ∙ no_length in
      let is_host = named (codes "host:") (unfold to_lower in refl) in
      let is_connection = named (codes "Connection:") (unfold to_lower in refl) ∙ not_it in
      elim (Bool-cases (strncasecmp line (codes "host:"))) [
        | inl h ↦ (
          some (value_at at_line (length before) 5),
          rw (not_blank, is_connection, is_length, is_host ∙ h, not_it, no_length)
              (same_linger (record at_line { host = some (value_at at_line (length before) 5) })),
        )
        | inr h ↦ (
          c.host,
          rw (not_blank, is_connection, is_length, is_host ∙ h, not_it, no_length)
              (same_linger at_line),
        )
      ]

  -- A line of the header sets at most `m_linger`, `m_host` and `m_content_length`.
  pub parse_headers-line :
      (host : Option ℕ) × (parse_headers (length before) at_line
        ≡ (no_request, after_line line host at_line))
  parse_headers-line = elim (Bool-cases (strncasecmp line (codes "Connection:"))) [
    | inl h ↦ (c.host, connection_line h)
    | inr h ↦ elim (Bool-cases (strncasecmp line (codes "content-length:"))) [
      | inl k ↦ (c.host, length_line h k)
      | inr k ↦ other_line h k
    ]
  ]
