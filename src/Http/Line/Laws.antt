-- ===== src/Http/Line/Laws.antt =====
-- What `parse_line` of http_conn.cpp finds, and that it can be resumed when more bytes have come.
use make_linux_server.Base.{
  ℕ, zero, suc, ◌+◌, ◌-◌, ◌≤◌, ◌<◌, ◌≡◌, ◌≢◌, refl, ap, sym, ◌∙◌, false, List, ◌==◌, get_or, set,
  arith, Bool-cases, inl, inr, ==-ne,
}
use make_linux_server.Http.{Conn, LineStatus, line_ok, line_open}
use make_linux_server.Http.Line.{cr, lf, scan, parse_line}

-- Neither CR nor LF stands in the `n` bytes from `i` on.
abbrev pub Plain : List ℕ → ℕ → ℕ → Type 0
Plain buf i zero = Unit
Plain buf i (suc n) = (get_or buf i 0 ≢ cr) × (get_or buf i 0 ≢ lf) × Plain buf (i + 1) n

-- The scan passes over plain bytes.
pub scan-Plain :
    (n rounds : ℕ) (buf : List ℕ) (i read_idx : ℕ)
    → Plain buf i n
    → scan (n + rounds) buf i read_idx ≡ scan rounds buf (i + n) read_idx
unfolding scan
scan-Plain zero rounds buf i r p =
    let z : 0 + rounds ≡ rounds = omega arith in let y : i + 0 ≡ i = omega arith in rw (z, y)
scan-Plain (suc n) rounds buf i r p =
    let more : suc n + rounds ≡ suc (n + rounds) = omega arith in
    let there : i + 1 + n ≡ i + suc n = omega arith in
    rw more (
      rw (==-ne (get_or buf i 0) cr p.0, ==-ne (get_or buf i 0) lf p.1, scan)
        (rw (← there) (scan-Plain n rounds buf (i + 1) r p.2)))

scan-crlf :
    (rounds : ℕ) (buf : List ℕ) (i read_idx : ℕ)
    → get_or buf i 0 ≡ cr
    → get_or buf (i + 1) 0 ≡ lf
    → i + 1 < read_idx
    → scan (suc rounds) buf i read_idx ≡ (line_ok, set (set buf i 0) (i + 1) 0, i + 2)
unfolding scan
scan-crlf rounds buf i r c l h = rw (c, l, ==-ne (i + 1) r (λ e. omega arith), scan) refl

-- A line that ends in CRLF within the bytes read is found: `parse_line` returns LINE_OK, puts two
-- zeros in place of the CRLF, and goes on behind it.
pub parse_line_ok :
    (c : Conn) (n : ℕ)
    → Plain c.read_buf c.checked_idx n
    → get_or c.read_buf (c.checked_idx + n) 0 ≡ cr
    → get_or c.read_buf (c.checked_idx + n + 1) 0 ≡ lf
    → c.checked_idx + n + 1 < c.read_idx
    → parse_line c ≡ (
      line_ok,
      record c {
        read_buf = set (set c.read_buf (c.checked_idx + n) 0) (c.checked_idx + n + 1) 0;
        checked_idx = c.checked_idx + n + 2;
      },
    )
unfolding parse_line
parse_line_ok c n p e l h =
    let rounds : c.read_idx - c.checked_idx ≡ n + suc (c.read_idx - c.checked_idx - n - 1) =
      omega arith in
    ap (λ (r : LineStatus × List ℕ × ℕ). (r.0, record c { read_buf = r.1; checked_idx = r.2 }))
      (ap (λ k. scan k c.read_buf c.checked_idx c.read_idx) rounds
        ∙ scan-Plain n _ c.read_buf c.checked_idx c.read_idx p
        ∙ scan-crlf _ c.read_buf (c.checked_idx + n) c.read_idx e l h)

-- Two buffers hold the same bytes below `r`.
abbrev pub SameBelow : ℕ → List ℕ → List ℕ → Type 0
SameBelow r f g = (j : ℕ) → j < r → get_or f j 0 ≡ get_or g j 0

scan-pass :
    (buf : List ℕ) (i r : ℕ)
    → i < r
    → (get_or buf i 0 == cr) ≡ false
    → (get_or buf i 0 == lf) ≡ false
    → scan (r - i) buf i r ≡ scan (r - (i + 1)) buf (i + 1) r
unfolding scan
scan-pass buf i r h nc nl =
    let more : r - i ≡ suc (r - (i + 1)) = omega arith in rw more (rw (nc, nl, scan) refl)

scan_resume :
    (n : ℕ) (f g : List ℕ) (i r r₂ : ℕ)
    → n ≡ r - i
    → i ≤ r
    → r ≤ r₂
    → SameBelow r f g
    → (scan n f i r).0 ≡ line_open
    → ((scan n f i r).1 ≡ f)
      × (scan (r₂ - i) g i r₂ ≡ scan (r₂ - (scan n f i r).2) g (scan n f i r).2 r₂)
unfolding scan
scan_resume zero f g i r r₂ e le le₂ same o = (refl, refl)
scan_resume (suc n) f g i r r₂ e le le₂ same o = elim (Bool-cases (get_or f i 0 == cr)) [
  | inl c ↦ elim (Bool-cases (i + 1 == r)) [
    | inl last ↦ rw (c, last) (refl, refl)
    | inr more ↦ absurd (ground arith)
  ]
  | inr nc ↦ elim (Bool-cases (get_or f i 0 == lf)) [
    | inl l ↦ absurd (ground arith)
    | inr nl ↦
        let ih =
          scan_resume n f g (i + 1) r r₂ (omega arith) (omega arith) le₂ same (rw (nc, nl) at o) in
        let s : get_or f i 0 ≡ get_or g i 0 = same i (omega arith) in
        rw (nc, nl) (ih.0, scan-pass g i r₂ (omega arith) (rw s at nc) (rw s at nl) ∙ ih.1)
  ]
]

-- `parse_line` can be resumed: when it returned LINE_OPEN and more bytes are appended to the buffer,
-- the next call returns what a single call on all the bytes would have.
pub parse_line_resume :
    (c d : Conn)
    → c.checked_idx ≤ c.read_idx
    → c.read_idx ≤ d.read_idx
    → SameBelow c.read_idx c.read_buf d.read_buf
    → (parse_line c).0 ≡ line_open
    → ((parse_line c).1.read_buf ≡ c.read_buf)
      × (parse_line (record d { checked_idx = (parse_line c).1.checked_idx })
          ≡ parse_line (record d { checked_idx = c.checked_idx }))
unfolding parse_line
parse_line_resume c d le le₂ same o =
    let r =
      scan_resume (c.read_idx - c.checked_idx) c.read_buf d.read_buf c.checked_idx c.read_idx
        d.read_idx refl le le₂ same o in
    (
      r.0,
      ap (λ (t : LineStatus × List ℕ × ℕ). (t.0, record d { read_buf = t.1; checked_idx = t.2 }))
          (sym r.1),
    )
