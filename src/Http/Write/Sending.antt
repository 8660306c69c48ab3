-- ===== src/Http/Write/Sending.antt =====
-- What `write` of http_conn.cpp has to send, and that it sends it when the header is not torn.
use make_linux_server.Base.{
  ℕ, zero, suc, ◌+◌, ◌-◌, ◌≤◌, ◌≡◌, refl, ap, ◌∙◌, ◌⊎◌, inl, inr, some, List, [], ◌∷◌, ◌++◌, leb,
  ◌==◌, if◌then◌else◌, length, take, drop, length-append, length-take, length-drop, arith,
  Bool-cases,
}
use make_linux_server.Base.Int.{ℤ, pos, ◌-ℤ◌, sub_ℕ, pos_part}
use make_linux_server.Http.{Conn}
use make_linux_server.Http.Response.Overlay.{take-all}
use make_linux_server.Http.Write.{file_bytes, offered, advance}

drop-append : (k : ℕ) (xs ys : List ℕ) → length xs ≤ k → drop k (xs ++ ys) ≡ drop (k - length xs) ys
drop-append k [] ys h = let z : k ≡ k - 0 = omega arith in ap (λ i. drop i ys) z
drop-append zero (x ∷ xs) ys h = absurd (omega arith)
drop-append (suc k) (x ∷ xs) ys h =
    let z : k - length xs ≡ suc k - suc (length xs) = omega arith in
    drop-append k xs ys (omega arith) ∙ ap (λ i. drop i ys) z

pub drop-drop : (m n : ℕ) (xs : List ℕ) → drop n (drop m xs) ≡ drop (m + n) xs
drop-drop zero n xs = let z : n ≡ 0 + n = omega arith in ap (λ i. drop i xs) z
drop-drop (suc m) n (x ∷ xs) =
    let z : suc (m + n) ≡ suc m + n = omega arith in drop-drop m n xs ∙ ap (λ i. drop i (x ∷ xs)) z
drop-drop (suc m) zero [] = ground arith
drop-drop (suc m) (suc n) [] =
    let z : suc (m + suc n) ≡ suc m + suc n = omega arith in ap (λ i. drop {A = ℕ} i []) z

drop-all : (n : ℕ) (xs : List ℕ) → length xs ≤ n → drop n xs ≡ []
drop-all zero [] h = refl
drop-all zero (x ∷ xs) h = absurd (omega arith)
drop-all (suc n) [] h = refl
drop-all (suc n) (x ∷ xs) h = drop-all n xs (omega arith)

abbrev pub file_part : Conn → List ℕ
file_part c = if c.iv_count == 2 then file_bytes c.file else []

-- The header or page in the buffer, and the file behind it.
abbrev pub response : Conn → List ℕ
response c = take c.write_idx c.write_buf ++ file_part c

-- The first `k` bytes of the response were accepted, and all the others are offered.
pub record Sending (k : ℕ) (c : Conn) : Type 0 where
  pub counted : c.bytes_have_send ≡ k
  pub bound : k ≤ length (response c)
  pub left : c.bytes_to_send ≡ pos (length (response c) - k)
  pub phase :
      ((k ≡ 0) × (c.iv0_base ≡ 0) × (c.iv0_len ≡ c.write_idx))
      ⊎ ((c.write_idx ≤ k) × (c.iv0_len ≡ 0))
  pub shown : offered c ≡ some (drop k (response c))
  pub whole : c.write_idx ≤ length c.write_buf

-- Behind the header what is offered is the rest of the file.
offered-behind :
    (c : Conn) (k : ℕ)
    → c.write_idx ≤ length c.write_buf
    → c.write_idx ≤ k
    → k ≤ length (response c)
    → c.iv0_len ≡ 0
    → c.iv1_base ≡ pos (k - c.write_idx)
    → c.iv1_len ≡ length (response c) - k
    → offered c ≡ some (drop k (response c))
unfolding offered
offered-behind c k w h b e f g =
    let header = take c.write_idx c.write_buf in
    let lh : length header ≡ c.write_idx = omega (arith, length-take c.write_idx c.write_buf) in
    elim (Bool-cases (c.iv_count == 2)) [
      | inl two ↦
          let file = file_bytes c.file in
          let all : length (header ++ file) ≡ c.write_idx + length file =
            omega (arith, lh, length-append header file) in
          let d : drop k (header ++ file) ≡ drop (k - c.write_idx) file =
            drop-append k header file (omega (arith, lh)) ∙ ap (λ i. drop (k - i) file) lh in
          let len : length file - (k - c.write_idx) ≤ c.iv1_len = ground (arith, all) in
          rw (two, d, f, e)
            (ap some (
              take-all c.iv1_len (drop (k - c.write_idx) file)
                (omega (arith, len, length-drop (k - c.write_idx) file))))
      | inr one ↦
          let all : length (header ++ []) ≡ c.write_idx =
            omega (arith, lh, length-append header []) in
          rw (one, e, drop-all k (header ++ []) (omega (arith, all))) refl
    ]

-- The header is not torn: a write that starts in it takes nothing, or all that is left of it.
abbrev pub IsWhole : ℕ → ℕ → ℕ → Type 0
IsWhole header k n = (n ≡ 0) ⊎ (header ≤ k + n)

-- What is offered when only the first buffer changes, to the same bytes.
offered-same :
    (c : Conn) (base len have : ℕ) (to_send : ℤ)
    → base ≡ c.iv0_base
    → len ≡ c.iv0_len
    → offered (record c {
      bytes_have_send = have;
      bytes_to_send = to_send;
      iv0_len = len;
      iv0_base = base;
    })
      ≡ offered c
unfolding offered
offered-same c base len have to_send e f = λ i.
    offered
      (record c { bytes_have_send = have; bytes_to_send = to_send; iv0_len = f i; iv0_base = e i })

pub advance-Sending :
    (n k : ℕ) (c : Conn)
    → Sending k c
    → k + n ≤ length (response c)
    → IsWhole c.write_idx k n
    → Sending (k + n) (advance n c)
unfolding advance
advance-Sending n k c s b h = elim (Bool-cases (leb c.iv0_len (c.bytes_have_send + n))) [
  | inl e ↦
      let past : c.write_idx ≤ k + n = ground (arith, s.phase, s.counted) in
      let base : sub_ℕ (c.bytes_have_send + n) c.write_idx ≡ pos (k + n - c.write_idx) =
        ground (arith, s.counted) in
      let left : c.bytes_to_send -ℤ pos n ≡ pos (length (response c) - (k + n)) =
        ground (arith, s.left) in
      rw e (record {
        counted = ap (λ t. t + n) s.counted;
        bound = b;
        left = left;
        phase = inr (past, refl);
        shown = offered-behind _ (k + n) s.whole past b refl base (ap pos_part left);
        whole = s.whole;
      })
  | inr e ↦
      let kz : k ≡ 0 = ground (arith, s.phase, s.counted) in
      let nz : n ≡ 0 = ground (arith, s.phase, s.counted) in
      let left : c.bytes_to_send -ℤ pos n ≡ pos (length (response c) - (k + n)) =
        ground (arith, s.left) in
      let base : c.bytes_have_send + n ≡ c.iv0_base = ground (arith, s.phase, s.counted) in
      let len : c.iv0_len - (c.bytes_have_send + n) ≡ c.iv0_len = omega (arith, s.counted) in
      let same : k ≡ k + n = omega arith in
      rw e (record {
        counted = ap (λ t. t + n) s.counted;
        bound = b;
        left = left;
        phase = ground (arith, s.phase, base, len);
        shown =
            offered-same c (c.bytes_have_send + n) (c.iv0_len - (c.bytes_have_send + n))
              (c.bytes_have_send + n) (c.bytes_to_send -ℤ pos n) base len
            ∙ s.shown
            ∙ ap (λ i. some (drop i (response c))) same;
        whole = s.whole;
      })
]
