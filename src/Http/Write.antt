-- ===== src/Http/Write.antt =====
-- `write` of http_conn.cpp. A call is run against the results that its calls of `writev` have, in
-- order; the bytes that were accepted are returned beside the object.
pub mod Sending
pub mod Order
pub mod Ready
pub mod Respond
pub mod Torn
use make_linux_server.Base.{
  ℕ, zero, suc, ◌+◌, ◌-◌, Bool, true, false, Option, none, some, List, [], ◌∷◌, ◌++◌, ltb, leb,
  ◌==◌, if◌then◌else◌, length, take, drop,
}
use make_linux_server.Base.Int.{ℤ, pos, negsuc, ◌-ℤ◌, leb_ℤ, sub_ℕ, pos_part}
use make_linux_server.Http.{Conn, modfd_in, modfd_out, reset, unmap}

-- What `writev` returns: a number of bytes, -1 with EAGAIN, or -1 with another error.
pub data Writev : Type 0 where
  wrote : ℕ → Writev
  again failed : Writev

-- How a call ends: it still waits for `writev`, it returned, or it handed `writev` an address in
-- front of the file, whose bytes are unknown.
pub data Outcome : Type 0 where
  writing : Outcome
  returned : Bool → Outcome
  fault : Outcome

abbrev pub slice : ℕ → ℕ → List ℕ → List ℕ
slice base len xs = take len (drop base xs)

abbrev pub file_bytes : Option (List ℕ) → List ℕ
file_bytes none = []
file_bytes (some f) = f

abbrev pub second_part : ℤ → ℕ → List ℕ → Option (List ℕ)
second_part (pos base) len xs = some (slice base len xs)
second_part (negsuc n) len xs = if len == 0 then some [] else none

-- The bytes that `m_iv` and `m_iv_count` offer.
unfoldable pub offered : Conn → Option (List ℕ)
offered c =
    if c.iv_count == 2
    then elim (second_part c.iv1_base c.iv1_len (file_bytes c.file)) [
      | none ↦ none
      | some xs ↦ some (slice c.iv0_base c.iv0_len c.write_buf ++ xs)
    ]
    else some (slice c.iv0_base c.iv0_len c.write_buf)

-- The bookkeeping after `temp` bytes were written.
unfoldable pub advance : ℕ → Conn → Conn
advance temp c =
    let counted = record c {
      bytes_have_send = c.bytes_have_send + temp;
      bytes_to_send = c.bytes_to_send -ℤ pos temp;
    } in
    if leb c.iv0_len counted.bytes_have_send
    then record counted {
      iv0_len = 0;
      iv1_base = sub_ℕ counted.bytes_have_send c.write_idx;
      iv1_len = pos_part counted.bytes_to_send;
    }
    else record counted {
      iv0_len = c.iv0_len - counted.bytes_have_send;
      iv0_base = counted.bytes_have_send;
    }

-- `if (bytes_to_send <= 0)`: everything was written.
unfoldable pub finish : Conn → Outcome × Conn
finish c =
    let armed = modfd_in (unmap c) in
    if c.linger then (returned true, reset armed) else (returned false, armed)

-- A call of `writev` that is offered the bytes: what the rest of the loop does, or the end of it,
-- behind the bytes accepted.
abbrev pub after_writev :
    Option (List ℕ)
    → ℕ
    → Conn
    → Bool
    → Outcome × Conn
    → Outcome × Conn × List ℕ
    → Outcome × Conn × List ℕ
after_writev none temp c all_sent ended (outcome, last, out) = (fault, c, [])
after_writev (some bytes) temp c true (ended, closed) (outcome, last, out) =
    (ended, closed, take temp bytes)
after_writev (some bytes) temp c false (ended, closed) (outcome, last, out) =
    (outcome, last, take temp bytes ++ out)

unfoldable pub write_loop : List Writev → Conn → Outcome × Conn × List ℕ
unfolding advance finish
write_loop [] c = (writing, c, [])
write_loop (again ∷ rs) c = (returned true, modfd_out c, [])
write_loop (failed ∷ rs) c = (returned false, unmap c, [])
write_loop (wrote temp ∷ rs) c =
    let moved = advance temp c in
    after_writev (offered c) temp c (leb_ℤ moved.bytes_to_send (pos 0)) (finish moved)
      (write_loop rs moved)

abbrev pub is_zero : ℤ → Bool
is_zero (pos n) = n == 0
is_zero (negsuc n) = false

unfoldable pub write : List Writev → Conn → Outcome × Conn × List ℕ
unfolding write_loop
write results c =
    if is_zero c.bytes_to_send
    then (returned true, reset (modfd_in c), [])
    else write_loop results c
