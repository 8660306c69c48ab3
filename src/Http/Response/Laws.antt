-- ===== src/Http/Response/Laws.antt =====
-- What the response functions of http_conn.cpp leave in `m_write_buf`, and that they stay inside it.
use make_linux_server.Base.{
  ℕ, zero, suc, ◌+◌, ◌-◌, ◌<◌, ◌≡◌, refl, ap, ◌∙◌, Bool, true, false, List, [], ◌∷◌, ◌++◌, leb,
  if◌then◌else◌, length, length-append, take, append_assoc, arith, Bool-cases, inl, inr,
}
use make_linux_server.Http.{Conn, write_buffer_size}
use make_linux_server.Http.CString.{codes}
use make_linux_server.Http.Response.{
  overlay, print_at, add_response, ◌and_then◌, add_content_length, add_linger, add_blank_line,
  add_headers, crlf,
}
use make_linux_server.Base.Int.{ℤ, pos}
use make_linux_server.Http.Response.Decimal.{decimal, decimal_int}
use make_linux_server.Http.Response.Overlay.{
  length-overlay, overlay-append, take-overlay, overlay-extends, take-all,
}

-- What has been written so far.
abbrev pub written : Conn → List ℕ
written c = take c.write_idx c.write_buf

-- The buffer has its size, and the write index leaves room for a terminator.
pub record IsBounded (c : Conn) : Type 0 where
  pub whole : length c.write_buf ≡ write_buffer_size
  pub inside : c.write_idx < write_buffer_size

length-print_at :
    (array : List ℕ) (i n : ℕ) (text : List ℕ) → length (print_at array i n text) ≡ length array
unfolding print_at
length-print_at array i zero text = refl
length-print_at array i (suc n) text = length-overlay (take n text ++ 0 ∷ []) array i

pub add_response-IsBounded :
    (text : List ℕ) (c : Conn) → IsBounded c → IsBounded (add_response text c).1
unfolding add_response
add_response-IsBounded text c v =
    ground
      (arith, length-print_at c.write_buf c.write_idx (write_buffer_size - 1 - c.write_idx) text)

print_at-extends :
    (array : List ℕ) (i n : ℕ) (text : List ℕ)
    → length text < n
    → i + n < length array
    → take (i + length text) (print_at array i n text) ≡ take i array ++ text
unfolding print_at
print_at-extends array i zero text h b = elim h [ ]
print_at-extends array i (suc n) text h b =
    rw (take-all n text (omega arith), overlay-append text (0 ∷ []) array i)
      (take-overlay (0 ∷ []) (i + length text) (i + length text) (overlay array i text)
          (omega arith)
        ∙ overlay-extends text i array (omega arith))

-- What a call appends when the text and its terminator fit.
pub record Appends (text : List ℕ) (c : Conn) (r : Bool × Conn) : Type 0 where
  pub succeeded : r.0 ≡ true
  pub content : written r.1 ≡ written c ++ text
  pub advanced : r.1.write_idx ≡ c.write_idx + length text
  pub bounded : IsBounded r.1
  pub same_linger : r.1.linger ≡ c.linger

-- `add_response` appends its text, if the text leaves two bytes of the buffer free.
pub add_response-Appends :
    (text : List ℕ) (c : Conn)
    → IsBounded c
    → c.write_idx + length text + 1 < write_buffer_size
    → Appends text c (add_response text c)
unfolding add_response
add_response-Appends text c v h =
    let e : leb write_buffer_size c.write_idx ≡ false = ground arith in
    let f : leb (write_buffer_size - 1 - c.write_idx) (length text) ≡ false = ground arith in
    rw (e, f)
      (record {
        succeeded = refl;
        content =
            print_at-extends c.write_buf c.write_idx (write_buffer_size - 1 - c.write_idx) text
              (omega arith) (omega (arith, v.whole));
        advanced = refl;
        bounded = record {
          whole =
              length-print_at c.write_buf c.write_idx (write_buffer_size - 1 - c.write_idx) text
              ∙ v.whole;
          inside = omega arith;
        };
        same_linger = refl;
      })

pub Appends-then :
    (t u : List ℕ) (c : Conn) (r s : Bool × Conn)
    → Appends t c r
    → Appends u r.1 s
    → Appends (t ++ u) c s
Appends-then t u c r s a b = record {
  succeeded = b.succeeded;
  content = b.content ∙ ap (λ w. w ++ u) a.content ∙ append_assoc (written c) t u;
  advanced = omega (arith, a.advanced, b.advanced, length-append t u);
  bounded = b.bounded;
  same_linger = b.same_linger ∙ a.same_linger;
}

abbrev pub status_text : ℕ → List ℕ → List ℕ
status_text status title = codes "HTTP/1.1" ++ 32 ∷ (decimal status ++ 32 ∷ (title ++ crlf))

abbrev pub length_text : ℤ → List ℕ
length_text n = codes "Content-Length:" ++ (decimal_int n ++ crlf)

abbrev pub linger_text : Bool → List ℕ
linger_text linger =
    codes "Connection:" ++ ((if linger then codes "keep-alive" else codes "close") ++ crlf)

-- The headers and the blank line.
abbrev pub headers_text : ℤ → Bool → List ℕ
headers_text n linger = (length_text n ++ linger_text linger) ++ crlf

abbrev pub page_text : ℕ → List ℕ → List ℕ → Bool → List ℕ
page_text status title form linger =
    (status_text status title ++ headers_text (pos (length form)) linger) ++ form

and_then-true : (r : Bool × Conn) (f : Conn → Bool × Conn) → r.0 ≡ true → ◌and_then◌ r f ≡ f r.1
and_then-true (true, c) f e = refl
and_then-true (false, c) f e = absurd (ground arith)

pub add_headers-Appends :
    (n : ℤ) (c : Conn)
    → IsBounded c
    → c.write_idx + length (headers_text n c.linger) + 1 < write_buffer_size
    → Appends (headers_text n c.linger) c (add_headers n c)
unfolding add_headers add_content_length add_linger add_blank_line
add_headers-Appends n c v h =
    let l1 = length-append (length_text n ++ linger_text c.linger) crlf in
    let l2 = length-append (length_text n) (linger_text c.linger) in
    let a = add_response-Appends (length_text n) c v (omega (arith, l1, l2)) in
    let c1 = (add_response (length_text n) c).1 in
    let b =
      add_response-Appends (linger_text c.linger) c1 a.bounded
        (omega (arith, l1, l2, a.advanced)) in
    let c2 = (add_response (linger_text c.linger) c1).1 in
    let d =
      add_response-Appends crlf c2 b.bounded (omega (arith, l1, l2, a.advanced, b.advanced)) in
    rw
      (
        and_then-true (add_response (length_text n) c) _ a.succeeded,
        a.same_linger,
        and_then-true (add_response (linger_text c.linger) c1) _ b.succeeded,
      )
      (Appends-then (length_text n ++ linger_text c.linger) crlf c
        (add_response (linger_text c.linger) c1) (add_response crlf c2)
        (Appends-then (length_text n) (linger_text c.linger) c (add_response (length_text n) c)
          (add_response (linger_text c.linger) c1) a b)
        d)

-- What the response functions leave alone: the mapped file and the count of bytes sent.
abbrev pub SameFile : Conn → Conn → Type 0
SameFile c d =
    (d.file ≡ c.file)
    × (d.bytes_have_send ≡ c.bytes_have_send)
    × (d.linger ≡ c.linger)
    × (d.sockfd ≡ c.sockfd)
    × (d.events ≡ c.events)

pub add_response-SameFile : (text : List ℕ) (c : Conn) → SameFile c (add_response text c).1
unfolding add_response
add_response-SameFile text c = elim (Bool-cases (leb write_buffer_size c.write_idx)) [
  | inl e ↦ rw e (refl, refl, refl, refl, refl)
  | inr e ↦ elim (Bool-cases (leb (write_buffer_size - 1 - c.write_idx) (length text))) [
    | inl f ↦ rw (e, f) (refl, refl, refl, refl, refl)
    | inr f ↦ rw (e, f) (refl, refl, refl, refl, refl)
  ]
]

pub SameFile-trans : (a b c : Conn) → SameFile a b → SameFile b c → SameFile a c
SameFile-trans a b c p q = (q.0 ∙ p.0, q.1 ∙ p.1, q.2 ∙ p.2, q.3 ∙ p.3, q.4 ∙ p.4)

and_then-SameFile :
    (c : Conn) (r : Bool × Conn) (f : Conn → Bool × Conn)
    → SameFile c r.1
    → ((d : Conn) → SameFile d (f d).1)
    → SameFile c (◌and_then◌ r f).1
and_then-SameFile c (true, d) f h g = SameFile-trans c d (f d).1 h (g d)
and_then-SameFile c (false, d) f h g = h

pub add_headers-SameFile : (n : ℤ) (c : Conn) → SameFile c (add_headers n c).1
unfolding add_headers add_content_length add_linger add_blank_line
add_headers-SameFile n c =
    let a = add_response-SameFile (length_text n) c in
    let b =
      and_then-SameFile c (add_response (length_text n) c) _ a
        (λ d. add_response-SameFile (linger_text d.linger) d) in
    and_then-SameFile c
      (◌and_then◌ (add_response (length_text n) c) (λ d. add_response (linger_text d.linger) d)) _ b
      (λ d. add_response-SameFile crlf d)
