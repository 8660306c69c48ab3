-- ===== src/Http/Read/Intake.antt =====
-- What `read_once` of http_conn.cpp puts into `m_read_buf`.
use mathlib.Core.Path.{subst}
use make_linux_server.Base.{
  ℕ, suc, ◌+◌, ◌≤◌, ◌<◌, ◌≡◌, refl, ap, sym, ◌∙◌, true, false, List, [], ◌∷◌, ◌++◌, leb, length,
  take, length-append, append-nil, append_assoc, arith,
}
use make_linux_server.Http.{Conn, read_buffer_size}
use make_linux_server.Http.Response.Overlay.{length-overlay, overlay-extends}
use make_linux_server.Http.Read.{
  Recv, received, nothing_yet, recv_error, ReadOutcome, reading, read_returned, store, read_edge,
  read_once, read_mode,
}

-- `recv` never returns more bytes than the room that is left.
abbrev pub Fits : List Recv → ℕ → Type 0
Fits [] read_idx = Unit {0}
Fits (nothing_yet ∷ rs) read_idx = Unit {0}
Fits (recv_error ∷ rs) read_idx = Unit {0}
Fits (received bytes ∷ rs) read_idx =
    (read_idx + length bytes ≤ read_buffer_size) × Fits rs (read_idx + length bytes)

-- The bytes of the stream that a call takes: until there is nothing, an error or the end.
abbrev pub stream : List Recv → List ℕ
stream [] = []
stream (nothing_yet ∷ rs) = []
stream (recv_error ∷ rs) = []
stream (received [] ∷ rs) = []
stream (received (b ∷ bs) ∷ rs) = (b ∷ bs) ++ stream rs

-- How the call ends.
abbrev pub verdict : List Recv → ReadOutcome
verdict [] = reading
verdict (nothing_yet ∷ rs) = read_returned true
verdict (recv_error ∷ rs) = read_returned false
verdict (received [] ∷ rs) = read_returned false
verdict (received (b ∷ bs) ∷ rs) = verdict rs

-- The bytes stand behind those that were read before, within the buffer.
pub record Took (bytes : List ℕ) (c d : Conn) : Type 0 where
  pub content : take d.read_idx d.read_buf ≡ take c.read_idx c.read_buf ++ bytes
  pub advanced : d.read_idx ≡ c.read_idx + length bytes
  pub whole : length d.read_buf ≡ read_buffer_size
  pub inside : d.read_idx ≤ read_buffer_size
  pub checked :
      (d.checked_idx ≡ c.checked_idx)
      × (d.start_line ≡ c.start_line)
      × (d.check_state ≡ c.check_state)

Took-none :
    (c : Conn) → length c.read_buf ≡ read_buffer_size → c.read_idx ≤ read_buffer_size → Took [] c c
Took-none c l i = record {
  content = sym (append-nil (take c.read_idx c.read_buf));
  advanced = omega arith;
  whole = l;
  inside = i;
  checked = (refl, refl, refl);
}

Took-store :
    (bytes : List ℕ) (c : Conn)
    → length c.read_buf ≡ read_buffer_size
    → c.read_idx + length bytes ≤ read_buffer_size
    → Took bytes c (store bytes c)
Took-store bytes c l h = record {
  content = overlay-extends bytes c.read_idx c.read_buf (omega (arith, l));
  advanced = refl;
  whole = length-overlay bytes c.read_buf c.read_idx ∙ l;
  inside = h;
  checked = (refl, refl, refl);
}

Took-trans : (xs ys : List ℕ) (a b c : Conn) → Took xs a b → Took ys b c → Took (xs ++ ys) a c
Took-trans xs ys a b c p q = record {
  content =
      q.content ∙ ap (λ w. w ++ ys) p.content ∙ append_assoc (take a.read_idx a.read_buf) xs ys;
  advanced = omega (arith, p.advanced, q.advanced, length-append xs ys);
  whole = q.whole;
  inside = q.inside;
  checked = (q.checked.0 ∙ p.checked.0, q.checked.1 ∙ p.checked.1, q.checked.2 ∙ p.checked.2);
}

read_edge_lem :
    (rs : List Recv) (c : Conn)
    → length c.read_buf ≡ read_buffer_size
    → c.read_idx ≤ read_buffer_size
    → Fits rs c.read_idx
    → let r = read_edge rs c in (r.0 ≡ verdict rs) × Took (stream rs) c r.1
unfolding read_edge
read_edge_lem [] c l i f = (refl, Took-none c l i)
read_edge_lem (nothing_yet ∷ rs) c l i f = (refl, Took-none c l i)
read_edge_lem (recv_error ∷ rs) c l i f = (refl, Took-none c l i)
read_edge_lem (received [] ∷ rs) c l i f = (refl, Took-none c l i)
read_edge_lem (received (b ∷ bs) ∷ rs) c l i f =
    let t = Took-store (b ∷ bs) c l f.0 in
    let ih = read_edge_lem rs (store (b ∷ bs) c) t.whole t.inside f.1 in
    (
      ih.0,
      Took-trans (b ∷ bs) (stream rs) c (store (b ∷ bs) c) (read_edge rs (store (b ∷ bs) c)).1 t
          ih.1,
    )

-- In edge-triggered mode a call of `read_once` with room in the buffer takes every byte that arrives
-- until the socket is empty, in order and behind those read before, within the buffer, and leaves the
-- parser's position alone. It returns true exactly when the socket ran empty, and false at the end of
-- the stream or at an error.
pub read_once-edge :
    (mode : ℕ) (rs : List Recv) (c : Conn)
    → c.trig_mode ≡ suc mode
    → length c.read_buf ≡ read_buffer_size
    → c.read_idx < read_buffer_size
    → Fits rs c.read_idx
    → let r = read_once rs c in (r.0 ≡ verdict rs) × Took (stream rs) c r.1
unfolding read_once
read_once-edge mode rs c m l i f =
    let e : leb read_buffer_size c.read_idx ≡ false = ground arith in
    let s : read_once rs c ≡ read_edge rs c = rw e (ap (λ k. read_mode k rs c) m) in
    subst (λ r. (r.0 ≡ verdict rs) × Took (stream rs) c r.1) (sym s)
      (read_edge_lem rs c l (omega arith) f)
