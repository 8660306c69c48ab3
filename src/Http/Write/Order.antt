-- ===== src/Http/Write/Order.antt =====
-- That `write` of http_conn.cpp sends the response in order, when the header is not torn.
use mathlib.Core.Path.{subst}
use make_linux_server.Base.{
  ℕ, zero, suc, ◌+◌, ◌-◌, ◌≤◌, ◌≡◌, refl, ap, sym, ◌∙◌, ◌⊎◌, inl, inr, true, false, none, List, [],
  ◌∷◌, ◌++◌, leb, length, take, drop, length-append, length-take, length-drop, arith, Bool-cases,
}
use make_linux_server.Base.Int.{pos, leb_ℤ}
use make_linux_server.Http.{Conn, modfd_out, reset, unmap, await_read, await_write}
use make_linux_server.Http.Write.{
  Writev, wrote, again, failed, Outcome, writing, returned, offered, advance, finish, write_loop,
}
use make_linux_server.Http.Response.Overlay.{take-all}
use make_linux_server.Http.Write.Sending.{Sending, response, advance-Sending, IsWhole, drop-drop}

-- What the results of `writev` may be, with `k` bytes accepted so far: no more than what is left,
-- and the header not torn.
abbrev pub Conforms : List Writev → ℕ → ℕ → ℕ → Type 0
Conforms [] header all k = Unit {0}
Conforms (again ∷ rs) header all k = Unit {0}
Conforms (failed ∷ rs) header all k = Unit {0}
Conforms (wrote n ∷ rs) header all k =
    (k + n ≤ all) × IsWhole header k n × Conforms rs header all (k + n)

-- How a call left the response: the bytes `out` were accepted, and the call is not done, is done, or
-- has failed.
pub record Progress (k : ℕ) (c : Conn) (outcome : Outcome) (last : Conn) (out : List ℕ)
    : Type 0 where
  pub prefix : out ≡ take (length out) (drop k (response c))
  pub fate :
      ((((outcome ≡ writing) × (last.events ≡ c.events))
          ⊎ ((outcome ≡ returned true) × (last.events ≡ await_write c.sockfd ∷ c.events)))
        × Sending (k + length out) last
        × (response last ≡ response c))
      ⊎ ((outcome ≡ returned c.linger)
          × (out ≡ drop k (response c))
          × (last.file ≡ none)
          × (last.bytes_to_send ≡ pos 0)
          × (last.events ≡ await_read c.sockfd ∷ c.events))
      ⊎ ((outcome ≡ returned false) × (last.file ≡ none))

-- What `advance` leaves alone.
advance-frame :
    (n : ℕ) (c : Conn)
    → let m = advance n c in
      (response m ≡ response c)
      × (m.linger ≡ c.linger)
      × (m.sockfd ≡ c.sockfd)
      × (m.events ≡ c.events)
      × (m.write_idx ≡ c.write_idx)
unfolding advance
advance-frame n c = elim (Bool-cases (leb c.iv0_len (c.bytes_have_send + n))) [
  | inl e ↦ rw e (refl, refl, refl, refl, refl)
  | inr e ↦ rw e (refl, refl, refl, refl, refl)
]

finish_lem :
    (m : Conn)
    → m.bytes_to_send ≡ pos 0
    → let r = finish m in
      (r.0 ≡ returned m.linger)
      × (r.1.file ≡ none)
      × (r.1.bytes_to_send ≡ pos 0)
      × (r.1.events ≡ await_read m.sockfd ∷ m.events)
unfolding finish unmap reset
finish_lem m e = ground arith

take-nil : (k : ℕ) → take {A = ℕ} k [] ≡ []
take-nil zero = refl
take-nil (suc k) = refl

pub take-append_drop : (n m : ℕ) (xs : List ℕ) → take n xs ++ take m (drop n xs) ≡ take (n + m) xs
take-append_drop zero m xs = ground arith
take-append_drop (suc n) zero [] = sym (take-nil (suc n + 0))
take-append_drop (suc n) (suc m) [] = sym (take-nil (suc n + suc m))
take-append_drop (suc n) m (x ∷ xs) =
    let z : suc (n + m) ≡ suc n + m = omega arith in
    ap (◌∷◌ x) (take-append_drop n m xs) ∙ ap (λ i. take i (x ∷ xs)) z

Progress-waiting : (k : ℕ) (c : Conn) → Sending k c → Progress k c writing c []
Progress-waiting k c s =
    let z : k ≡ k + 0 = omega arith in
    record { prefix = refl; fate = inl (inl (refl, refl), subst (λ i. Sending i c) z s, refl) }

Progress-again : (k : ℕ) (c : Conn) → Sending k c → Progress k c (returned true) (modfd_out c) []
unfolding offered
Progress-again k c s =
    let z : k ≡ k + 0 = omega arith in
    let t : Sending k (modfd_out c) = record {
      counted = s.counted;
      bound = s.bound;
      left = s.left;
      phase = s.phase;
      shown = s.shown;
      whole = s.whole;
    } in
    record {
      prefix = refl;
      fate = inl (inr (refl, refl), subst (λ i. Sending i (modfd_out c)) z t, refl);
    }

Progress-failed : (k : ℕ) (c : Conn) → Progress k c (returned false) (unmap c) []
unfolding unmap
Progress-failed k c = record { prefix = refl; fate = inr (inr (refl, refl)) }

take-drop_all : (n : ℕ) (xs : List ℕ) → take n xs ++ drop n xs ≡ xs
take-drop_all zero xs = refl
take-drop_all (suc n) [] = refl
take-drop_all (suc n) (x ∷ xs) = ap (◌∷◌ x) (take-drop_all n xs)

-- A write that does not finish the response, followed by the rest of the call.
Progress-then :
    (n k : ℕ) (c m : Conn) (outcome : Outcome) (last : Conn) (out : List ℕ)
    → (response m ≡ response c)
      × (m.linger ≡ c.linger)
      × (m.sockfd ≡ c.sockfd)
      × (m.events ≡ c.events)
      × (m.write_idx ≡ c.write_idx)
    → k + n ≤ length (response c)
    → Progress (k + n) m outcome last out
    → Progress k c outcome last (take n (drop k (response c)) ++ out)
Progress-then n k c m outcome last out f b p =
    let rest = drop k (response c) in
    let moved : drop (k + n) (response m) ≡ drop n rest =
      rw f.0 (sym (drop-drop k n (response c))) in
    let ln : length (take n rest) ≡ n =
      omega (arith, length-take n rest, length-drop k (response c)) in
    let len : length (take n rest ++ out) ≡ n + length out =
      omega (arith, length-append (take n rest) out, ln) in
    let sum : k + n + length out ≡ k + length (take n rest ++ out) = omega (arith, len) in
    record {
      prefix =
          ap (λ xs. take n rest ++ xs) (p.prefix ∙ ap (take (length out)) moved)
          ∙ take-append_drop n (length out) rest
          ∙ ap (λ i. take i rest) (sym len);
      fate = elim p.fate [
        | inl (w, s, r) ↦ inl (
          elim w [ inl (x, y) ↦ inl (x, y ∙ f.3) | inr (x, y) ↦ inr (x, cc) ],
          subst (λ i. Sending i last) sum s,
          r ∙ f.0,
        )
        | inr (inl (o, a, b1, d, e)) ↦ inr (
            inl (
              o ∙ ap returned f.1,
              ap (λ xs. take n rest ++ xs) (a ∙ moved) ∙ take-drop_all n rest,
              b1,
              d,
              cc,
            ))
        | inr (inr g) ↦ inr (inr g)
      ];
    }

-- The write that finishes the response.
Progress-done :
    (n k : ℕ) (c m : Conn)
    → (response m ≡ response c)
      × (m.linger ≡ c.linger)
      × (m.sockfd ≡ c.sockfd)
      × (m.events ≡ c.events)
      × (m.write_idx ≡ c.write_idx)
    → k + n ≡ length (response c)
    → m.bytes_to_send ≡ pos 0
    → Progress k c (finish m).0 (finish m).1 (take n (drop k (response c)))
Progress-done n k c m f b z =
    let rest = drop k (response c) in
    let e : take n rest ≡ rest = take-all n rest (omega (arith, length-drop k (response c))) in
    let g = finish_lem m z in
    let lr : length (take n rest) ≡ n =
      omega (arith, length-take n rest, length-drop k (response c)) in
    record {
      prefix = ap (λ i. take i rest) (sym lr);
      fate = inr (inl (g.0 ∙ ap returned f.1, e, g.1, g.2, cc));
    }

-- A call of the loop accepts the next bytes of the response, in order and none twice. When it does
-- not finish, all that is left is offered, and a full socket has the write awaited again; when it
-- finishes, every byte was accepted, the file is unmapped, the read is awaited, and the result is
-- whether the connection is kept.
pub write_loop_lem :
    (rs : List Writev) (k : ℕ) (c : Conn)
    → Sending k c
    → Conforms rs c.write_idx (length (response c)) k
    → let r = write_loop rs c in Progress k c r.0 r.1 r.2
unfolding write_loop
write_loop_lem [] k c s h = Progress-waiting k c s
write_loop_lem (again ∷ rs) k c s h = Progress-again k c s
write_loop_lem (failed ∷ rs) k c s h = Progress-failed k c
write_loop_lem (wrote n ∷ rs) k c s h =
    let m = advance n c in
    let f = advance-frame n c in
    let s2 = advance-Sending n k c s h.0 h.1 in
    let left : m.bytes_to_send ≡ pos (length (response c) - (k + n)) =
      s2.left ∙ ap (λ xs. pos (length xs - (k + n))) f.0 in
    elim (Bool-cases (leb_ℤ m.bytes_to_send (pos 0))) [
      | inl e ↦
          let all : k + n ≡ length (response c) = ground (arith, left, h.0) in
          let z : m.bytes_to_send ≡ pos 0 = ground (arith, left, all) in
          rw (s.shown, e) (Progress-done n k c m f all z)
      | inr e ↦
          let h2 : Conforms rs m.write_idx (length (response m)) (k + n) =
            subst (λ xs. Conforms rs m.write_idx (length xs) (k + n)) (sym f.0)
              (subst (λ w. Conforms rs w (length (response c)) (k + n)) (sym f.4) h.2) in
          rw (s.shown, e)
            (Progress-then n k c m (write_loop rs m).0 (write_loop rs m).1 (write_loop rs m).2 f h.0
              (write_loop_lem rs (k + n) m s2 h2))
    ]
