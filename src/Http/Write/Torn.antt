-- ===== src/Http/Write/Torn.antt =====
-- What `write` of http_conn.cpp does when the header is sent in more than two pieces.
use mathlib.Core.Path.{subst}
use make_linux_server.Base.{
  ℕ, ◌+◌, ◌-◌, ◌≤◌, ◌<◌, ◌≡◌, ◌≢◌, refl, ap, sym, ◌∙◌, inl, inr, true, false, none, some, List,
  ◌++◌, leb, ◌==◌, length, take, drop, length-append, length-take, length-drop, arith, Bool-cases,
}
use make_linux_server.Base.Int.{ℤ, pos, negsuc, ◌-ℤ◌, sub_ℕ, pos_part}
use make_linux_server.Http.{Conn}
use make_linux_server.Http.Write.{slice, file_bytes, second_part, offered, advance}
use make_linux_server.Http.Write.Sending.{Sending, response}

-- One write inside the header, by fields: base and length are right, as `bytes_have_send` was 0.
advance-first :
    (n : ℕ) (c : Conn)
    → Sending 0 c
    → c.iv0_len ≡ c.write_idx
    → n < c.write_idx
    → advance n c ≡ record c {
      bytes_have_send = c.bytes_have_send + n;
      bytes_to_send = c.bytes_to_send -ℤ pos n;
      iv0_len = c.iv0_len - (c.bytes_have_send + n);
      iv0_base = c.bytes_have_send + n;
    }
unfolding advance
advance-first n c s e h =
    let f : leb c.iv0_len (c.bytes_have_send + n) ≡ false = ground (arith, s.counted) in rw f refl

-- `Sending` at 0, in the file's response.
pub record IsFresh (c : Conn) : Type 0 where
  pub sending : Sending 0 c
  pub header : c.iv0_len ≡ c.write_idx
  pub file :
      (c.iv_count ≡ 2)
      × (c.iv1_base ≡ pos 0)
      × (c.iv1_len ≡ length (file_bytes c.file))
      × (0 < length (file_bytes c.file))

second-negative :
    (a : ℕ) (z : ℤ) (len : ℕ) (xs : List ℕ) → z ≡ negsuc a → 0 < len → second_part z len xs ≡ none
second-negative a z len xs e h = ground arith

length-slice : (b l : ℕ) (xs : List ℕ) → length (slice b l xs) ≤ l
length-slice b l xs = omega (arith, length-take l (drop b xs))

offered-none :
    (d : Conn)
    → d.iv_count ≡ 2
    → second_part d.iv1_base d.iv1_len (file_bytes d.file) ≡ none
    → offered d ≡ none
unfolding offered
offered-none d e f = let two : d.iv_count == 2 ≡ true = ground arith in rw (two, f) refl

offered-some :
    (d : Conn)
    → d.iv_count ≡ 2
    → d.iv1_base ≡ pos 0
    → offered d
      ≡ some (slice d.iv0_base d.iv0_len d.write_buf ++ slice 0 d.iv1_len (file_bytes d.file))
unfolding offered
offered-some d e f = let two : d.iv_count == 2 ≡ true = ground arith in rw (two, f) refl

some-injective : (xs ys : List ℕ) → some xs ≡ some ys → xs ≡ ys
some-injective xs ys e = ap file_bytes e

-- The second write inside the header, with `n` bytes sent before it.
torn_second :
    (n m : ℕ) (d : Conn) (xs : List ℕ)
    → 0 < n
    → n + m < d.write_idx
    → d.bytes_have_send ≡ n
    → d.bytes_to_send ≡ pos (d.write_idx + length (file_bytes d.file) - n)
    → d.iv0_len ≡ d.write_idx - n
    → (d.iv_count ≡ 2)
      × (d.iv1_base ≡ pos 0)
      × (d.iv1_len ≡ length (file_bytes d.file))
      × (0 < length (file_bytes d.file))
    → length xs ≡ d.write_idx + length (file_bytes d.file) - (n + m)
    → offered (advance m d) ≢ some xs
unfolding advance
torn_second n m d xs h b have to len f lx =
    elim (Bool-cases (leb d.iv0_len (d.bytes_have_send + m))) [
      | inl e ↦
          let z : sub_ℕ (d.bytes_have_send + m) d.write_idx ≡ negsuc (d.write_idx - (n + m) - 1) =
            ground (arith, have) in
          let l : 0 < pos_part (d.bytes_to_send -ℤ pos m) = ground (arith, to) in
          rw e (λ o.
            let q : none ≡ some xs =
              sym (
                offered-none _ f.0 (
                  second-negative (d.write_idx - (n + m) - 1) _
                    (pos_part (d.bytes_to_send -ℤ pos m)) (file_bytes d.file) z l))
              ∙ o in
            cc)
      | inr e ↦ rw e (λ o.
          let q = some-injective _ xs (sym (offered-some _ f.0 f.1) ∙ o) in
          let lq = ap length q in
          let header =
            slice (d.bytes_have_send + m) (d.iv0_len - (d.bytes_have_send + m)) d.write_buf in
          let file = slice 0 d.iv1_len (file_bytes d.file) in
          omega (
            arith,
            lq,
            length-append header file,
            length-slice (d.bytes_have_send + m) (d.iv0_len - (d.bytes_have_send + m)) d.write_buf,
            length-slice 0 d.iv1_len (file_bytes d.file),
            f.2,
            have,
            len,
            lx,
            h,
            b,
          ))
    ]

-- After two writes that both end inside the header, what is offered to the next `writev` is not the
-- rest of the response: the length of the header's rest is reduced by the total sent so far, not by
-- the last write, so the end of the header is skipped, or an address in front of the file is used.
pub torn_header :
    (n m : ℕ) (c : Conn)
    → IsFresh c
    → 0 < n
    → n + m < c.write_idx
    → offered (advance m (advance n c)) ≢ some (drop (n + m) (response c))
torn_header n m c s h b =
    let two : c.iv_count == 2 ≡ true = ground (arith, s.file.0) in
    let all : length (response c) ≡ c.write_idx + length (file_bytes c.file) = rw two (
      omega (
        arith,
        length-append (take c.write_idx c.write_buf) (file_bytes c.file),
        length-take c.write_idx c.write_buf,
        s.sending.whole,
      )) in
    let to : c.bytes_to_send -ℤ pos n ≡ pos (c.write_idx + length (file_bytes c.file) - n) =
      ground (arith, s.sending.left, all) in
    subst (λ d. offered (advance m d) ≢ some (drop (n + m) (response c)))
      (sym (advance-first n c s.sending s.header (omega arith)))
      (torn_second n m _ (drop (n + m) (response c)) h b (omega (arith, s.sending.counted)) to
        (omega (arith, s.header, s.sending.counted)) s.file
        (omega (arith, all, length-drop (n + m) (response c))))
