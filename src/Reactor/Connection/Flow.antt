-- ===== src/Reactor/Connection/Flow.antt =====
-- Which bytes cpp_server/src/Connection.cpp takes from a socket and gives to it.
use make_linux_server.Base.{
  ℕ, ◌+◌, ◌-◌, ◌<◌, ◌≡◌, refl, ap, sym, ◌∙◌, Bool, true, false, List, [], ◌∷◌, ◌++◌, length, take,
  drop, length-append, length-take, length-drop, append-nil, append_assoc, arith,
}
use make_linux_server.Http.CString.{c_string}
use make_linux_server.Reactor.Connection.{
  State, connected, closed, Connection, Read, got, read_interrupted, read_again, read_failed, Write,
  put, write_interrupted, write_again, write_failed, handle_close, append, read_non_blocking, read,
  read_from, write_non_blocking, write, write_from, cleared, send, close,
}
use mathlib.Core.Path.{subst}
use make_linux_server.Http.Write.Order.{take-append_drop}

-- The bytes of the stream up to the first result that ends the call.
abbrev pub stream : List Read → List ℕ
stream [] = []
stream (got [] ∷ rs) = []
stream (got (b ∷ bs) ∷ rs) = (b ∷ bs) ++ stream rs
stream (read_interrupted ∷ rs) = stream rs
stream (read_again ∷ rs) = []
stream (read_failed ∷ rs) = []

-- Whether the call returns, and whether it closes the connection.
abbrev pub verdict : List Read → Bool × State
verdict [] = (false, connected)
verdict (got [] ∷ rs) = (true, closed)
verdict (got (b ∷ bs) ∷ rs) = verdict rs
verdict (read_interrupted ∷ rs) = verdict rs
verdict (read_again ∷ rs) = (true, connected)
verdict (read_failed ∷ rs) = (true, closed)

close-connected :
    (c : Connection)
    → c.state ≡ connected
    → ((close c).state ≡ closed) × ((close c).read_buffer ≡ c.read_buffer)
unfolding handle_close
close-connected c e = ground arith

read_non_blocking_lem :
    (rs : List Read) (c : Connection)
    → c.state ≡ connected
    → let r = read_non_blocking rs c in
      (r.0 ≡ (verdict rs).0)
      × (r.1.state ≡ (verdict rs).1)
      × (r.1.read_buffer ≡ c.read_buffer ++ stream rs)
unfolding read_non_blocking
read_non_blocking_lem [] c e = (refl, e, sym (append-nil c.read_buffer))
read_non_blocking_lem (got [] ∷ rs) c e =
    let k = close-connected c e in (refl, k.0, k.1 ∙ sym (append-nil c.read_buffer))
read_non_blocking_lem (got (b ∷ bs) ∷ rs) c e =
    let ih = read_non_blocking_lem rs (append (b ∷ bs) c) e in
    (ih.0, ih.1, ih.2 ∙ append_assoc c.read_buffer (b ∷ bs) (stream rs))
read_non_blocking_lem (read_interrupted ∷ rs) c e = read_non_blocking_lem rs c e
read_non_blocking_lem (read_again ∷ rs) c e = (refl, e, sym (append-nil c.read_buffer))
read_non_blocking_lem (read_failed ∷ rs) c e =
    let k = close-connected c e in (refl, k.0, k.1 ∙ sym (append-nil c.read_buffer))

-- On a connected, non-blocking socket `Read` replaces the buffer by all that arrives until the socket
-- is empty, interrupted or not, and closes the connection exactly at the end of the stream or at an
-- error.
pub read_lem :
    (rs : List Read) (c : Connection)
    → c.state ≡ connected
    → c.blocking ≡ false
    → let r = read rs c in
      (r.0 ≡ (verdict rs).0) × (r.1.state ≡ (verdict rs).1) × (r.1.read_buffer ≡ stream rs)
unfolding read
read_lem rs c e b =
    let s : read rs c ≡ read_non_blocking rs (record c { read_buffer = [] }) =
      ap (λ k. read_from k c.blocking rs c) e ∙ ap (λ k. read_from connected k rs c) b in
    subst
      (λ r. (r.0 ≡ (verdict rs).0) × (r.1.state ≡ (verdict rs).1) × (r.1.read_buffer ≡ stream rs))
      (sym s) (read_non_blocking_lem rs (record c { read_buffer = [] }) e)

-- The results leave off with EAGAIN before everything was taken.
abbrev pub Stalls : List Write → ℕ → Type 0
Stalls [] n = ⊥
Stalls (write_again ∷ rs) n = 0 < n
Stalls (write_interrupted ∷ rs) n = Stalls rs n
Stalls (write_failed ∷ rs) n = ⊥
Stalls (put k ∷ rs) n = (k < n) × Stalls rs (n - k)

Stalls-zero : (rs : List Write) → Stalls rs 0 → ⊥
Stalls-zero [] h = elim h [ ]
Stalls-zero (write_failed ∷ rs) h = elim h [ ]
Stalls-zero (write_again ∷ rs) h = absurd (omega arith)
Stalls-zero (write_interrupted ∷ rs) h = Stalls-zero rs h
Stalls-zero (put k ∷ rs) h = absurd (omega arith)

cleared-true :
    (r : Bool × Connection × List ℕ)
    → r.0 ≡ true
    → cleared r ≡ (true, record r.1 { send_buffer = [] }, r.2)
cleared-true (true, c, out) e = refl
cleared-true (false, c, out) e = absurd (ground arith)

write_non_blocking_prefix :
    (rs : List Write) (bs : List ℕ) (c : Connection)
    → Stalls rs (length bs)
    → let r = write_non_blocking rs bs c in
      (r.0 ≡ true) × (r.1.state ≡ c.state) × (length r.2 < length bs) × (r.2 ≡ take (length r.2) bs)
unfolding write_non_blocking
write_non_blocking_prefix rs [] c h = elim (Stalls-zero rs h) [ ]
write_non_blocking_prefix [] (b ∷ bs) c h = elim h [ ]
write_non_blocking_prefix (write_failed ∷ rs) (b ∷ bs) c h = elim h [ ]
write_non_blocking_prefix (write_again ∷ rs) (b ∷ bs) c h = (refl, refl, omega arith, refl)
write_non_blocking_prefix (write_interrupted ∷ rs) (b ∷ bs) c h =
    write_non_blocking_prefix rs (b ∷ bs) c h
write_non_blocking_prefix (put k ∷ rs) (b ∷ bs) c h =
    let rest = drop k (b ∷ bs) in
    let l : length rest ≡ length (b ∷ bs) - k = length-drop k (b ∷ bs) in
    let ih = write_non_blocking_prefix rs rest c (subst (Stalls rs) (sym l) h.1) in
    let out = (write_non_blocking rs rest c).2 in
    let n : length (take k (b ∷ bs) ++ out) ≡ k + length out =
      omega (arith, length-append (take k (b ∷ bs)) out, length-take k (b ∷ bs), h.0) in
    (
      ih.0,
      ih.1,
      omega (arith, n, l, ih.2, h.0),
      ap (λ xs. take k (b ∷ bs) ++ xs) ih.3
          ∙ take-append_drop k (length out) (b ∷ bs)
          ∙ ap (λ i. take i (b ∷ bs)) (sym n),
    )

-- When the socket is full before the whole text was taken, `Send` on a non-blocking connection returns
-- as if it were done: the client has a proper beginning of the text, and the rest is cleared from the
-- buffer and never sent.
pub send_lem :
    (text : List ℕ) (rs : List Write) (c : Connection)
    → c.state ≡ connected
    → c.blocking ≡ false
    → Stalls rs (length (c_string text))
    → let r = send text rs c in
      (r.0 ≡ true)
      × (r.1.state ≡ connected)
      × (r.1.send_buffer ≡ [])
      × (length r.2 < length (c_string text))
      × (r.2 ≡ take (length r.2) (c_string text))
unfolding send write
send_lem text rs c e b h =
    let d = record c { send_buffer = c_string text } in
    let w = write_non_blocking_prefix rs (c_string text) d h in
    let s : send text rs c ≡ cleared (write_non_blocking rs (c_string text) d) =
      ap (λ k. write_from k c.blocking rs d) e ∙ ap (λ k. write_from connected k rs d) b in
    let t = cleared-true (write_non_blocking rs (c_string text) d) w.0 in
    subst
      (λ r.
        (r.0 ≡ true)
        × (r.1.state ≡ connected)
        × (r.1.send_buffer ≡ [])
        × (length r.2 < length (c_string text))
        × (r.2 ≡ take (length r.2) (c_string text)))
      (sym (s ∙ t)) (refl, w.1 ∙ e, refl, w.2, w.3)
