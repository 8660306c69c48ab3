-- ===== src/Http/Read/Incomplete.antt =====
-- That `process_read` of http_conn.cpp waits while the body it awaits is short.
use mathlib.Core.Path.{subst}
use make_linux_server.Base.{
  ℕ, zero, suc, ◌+◌, ◌-◌, ◌*◌, ◌≤◌, ◌<◌, ◌≡◌, refl, ap, sym, inl, inr, false, some, List, leb,
  arith, Bool-cases,
}
use make_linux_server.Base.Int.{pos, ◌+ℤ◌, leb_ℤ}
use make_linux_server.Http.{Conn, content, no_request, LineStatus, line_ok, line_bad, line_open}
use make_linux_server.Http.Line.{parse_line, scan}
use make_linux_server.Http.Request.{parse_content}
use make_linux_server.Http.Read.{
  Parsed, answer, route, broken, unfinished, Round, stop, next, after_content, dispatch,
  handle_line, handle_if_ok, choose_round, round, continue, read_loop, process_read,
}
use make_linux_server.Http.Read.Keeps.{Found, scan-Found, IsFinished}
use make_linux_server.Http.Read.Total.{process_read-IsFinished}

-- A body of `n` bytes is awaited, and from `low` on fewer than `n` bytes have been read.
pub record IsIncomplete (n low read_idx : ℕ) (c : Conn) : Type 0 where
  pub state : c.check_state ≡ content
  pub promised : c.content_length ≡ pos n
  pub short : read_idx < low + n
  pub from : low ≤ c.checked_idx
  pub same : c.read_idx ≡ read_idx

abbrev pub Waits : ℕ → ℕ → ℕ → Parsed → Type 0
Waits n low read_idx (answer code d) = (code ≡ no_request) × IsIncomplete n low read_idx d
Waits n low read_idx (route d) = ⊥
Waits n low read_idx broken = ⊥
Waits n low read_idx unfinished = Unit {0}

abbrev pub RoundWaits : ℕ → ℕ → ℕ → Round → Type 0
RoundWaits n low read_idx (stop p) = Waits n low read_idx p
RoundWaits n low read_idx (next status d) = IsIncomplete n low read_idx d

pub handle_line-RoundWaits :
    (n low read_idx : ℕ) (c : Conn)
    → IsIncomplete n low read_idx c
    → RoundWaits n low read_idx (handle_line c)
unfolding handle_line parse_content
handle_line-RoundWaits n low read_idx c i =
    let d = record c { start_line = c.checked_idx } in
    let e : leb_ℤ (c.content_length +ℤ pos c.checked_idx) (pos c.read_idx) ≡ false =
      ground (arith, i.promised, i.short, i.from, i.same) in
    let p : parse_content c.start_line d ≡ some (no_request, d) = rw e refl in
    let w : RoundWaits n low read_idx (after_content (parse_content c.start_line d)) =
      subst (λ s. RoundWaits n low read_idx (after_content s)) (sym p)
        (record {
          state = i.state;
          promised = i.promised;
          short = i.short;
          from = i.from;
          same = i.same;
        }) in
    subst (λ k. RoundWaits n low read_idx (dispatch k c.start_line d)) (sym i.state) w

pub found-RoundWaits :
    (n low read_idx : ℕ) (c : Conn) (r : LineStatus × List ℕ × ℕ)
    → IsIncomplete n low read_idx c
    → c.checked_idx ≤ r.2
    → RoundWaits n low read_idx (handle_if_ok (r.0, record c { read_buf = r.1; checked_idx = r.2 }))
found-RoundWaits n low read_idx c (line_ok, buf, k) i h =
    handle_line-RoundWaits n low read_idx (record c { read_buf = buf; checked_idx = k })
      (record {
        state = i.state;
        promised = i.promised;
        short = i.short;
        from = omega (arith, i.from);
        same = i.same;
      })
found-RoundWaits n low read_idx c (line_bad, buf, k) i h = (
  refl,
  record {
    state = i.state;
    promised = i.promised;
    short = i.short;
    from = omega (arith, i.from);
    same = i.same;
  },
)
found-RoundWaits n low read_idx c (line_open, buf, k) i h = (
  refl,
  record {
    state = i.state;
    promised = i.promised;
    short = i.short;
    from = omega (arith, i.from);
    same = i.same;
  },
)

pub Found-le :
    (checked read_idx : ℕ) (r : LineStatus × List ℕ × ℕ) → Found checked read_idx r → checked ≤ r.2
Found-le checked read_idx (line_ok, buf, k) h = omega (arith, h.0)
Found-le checked read_idx (line_bad, buf, k) h = h
Found-le checked read_idx (line_open, buf, k) h = h

pub scan_grows :
    (c : Conn)
    → c.checked_idx ≤ (scan (c.read_idx - c.checked_idx) c.read_buf c.checked_idx c.read_idx).2
unfolding scan
scan_grows c = elim (Bool-cases (leb c.checked_idx c.read_idx)) [
  | inl e ↦
      Found-le c.checked_idx c.read_idx _
        (scan-Found (c.read_idx - c.checked_idx) c.read_buf c.checked_idx c.read_idx (ground arith))
  | inr e ↦ let z : c.read_idx - c.checked_idx ≡ 0 = ground arith in rw z (omega arith)
]

pub line-RoundWaits :
    (n low read_idx : ℕ) (c : Conn)
    → IsIncomplete n low read_idx c
    → RoundWaits n low read_idx (handle_if_ok (parse_line c))
unfolding parse_line
line-RoundWaits n low read_idx c i =
    found-RoundWaits n low read_idx c
      (scan (c.read_idx - c.checked_idx) c.read_buf c.checked_idx c.read_idx) i (scan_grows c)

pub choose_round-RoundWaits :
    (n low read_idx : ℕ) (status : LineStatus) (c : Conn)
    → IsIncomplete n low read_idx c
    → RoundWaits n low read_idx (choose_round content status c)
choose_round-RoundWaits n low read_idx line_ok c i = handle_line-RoundWaits n low read_idx c i
choose_round-RoundWaits n low read_idx line_bad c i = line-RoundWaits n low read_idx c i
choose_round-RoundWaits n low read_idx line_open c i = line-RoundWaits n low read_idx c i

pub round-RoundWaits :
    (n low read_idx : ℕ) (status : LineStatus) (c : Conn)
    → IsIncomplete n low read_idx c
    → RoundWaits n low read_idx (round status c)
unfolding round
round-RoundWaits n low read_idx status c i =
    subst (λ k. RoundWaits n low read_idx (choose_round k status c)) (sym i.state)
      (choose_round-RoundWaits n low read_idx status c i)

pub read_loop-Waits :
    (fuel n low read_idx : ℕ) (status : LineStatus) (c : Conn)
    → IsIncomplete n low read_idx c
    → Waits n low read_idx (read_loop fuel status c)
unfolding read_loop
read_loop-Waits zero n low read_idx status c i = tt
read_loop-Waits (suc fuel) n low read_idx status c i =
    go (round status c) (round-RoundWaits n low read_idx status c i)
      (λ s d j. read_loop-Waits fuel n low read_idx s d j)
  where
    go :
        (r : Round)
        → RoundWaits n low read_idx r
        → ((s : LineStatus) (d : Conn)
            → IsIncomplete n low read_idx d
            → Waits n low read_idx (read_loop fuel s d))
        → Waits n low read_idx (continue r (read_loop fuel))
    go (stop p) w ih = w
    go (next s d) w ih = ih s d w

pub Waits-answer :
    (n low read_idx : ℕ) (p : Parsed)
    → Waits n low read_idx p
    → IsFinished p
    → (d : Conn) × (p ≡ answer no_request d) × IsIncomplete n low read_idx d
Waits-answer n low read_idx (answer code d) w f = (d, ap (λ k. answer k d) w.0, w.1)
Waits-answer n low read_idx unfinished w f = elim f [ ]
Waits-answer n low read_idx (route d) w f = elim w [ ]
Waits-answer n low read_idx broken w f = elim w [ ]

-- While fewer than the promised bytes have been read behind a position that was already checked,
-- `process_read` asks for more.
pub IsIncomplete-waits :
    (n low read_idx : ℕ) (c : Conn)
    → IsIncomplete n low read_idx c
    → (d : Conn) × (process_read c ≡ answer no_request d) × IsIncomplete n low read_idx d
unfolding process_read
IsIncomplete-waits n low read_idx c i =
    Waits-answer n low read_idx (process_read c)
      (read_loop-Waits (2 * (c.read_idx - c.checked_idx) + 2) n low read_idx line_ok c i)
      (process_read-IsFinished c)
