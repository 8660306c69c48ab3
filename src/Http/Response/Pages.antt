-- ===== src/Http/Response/Pages.antt =====
-- What `process_write` of http_conn.cpp leaves to be sent, for each result of the request.
use make_linux_server.Base.{
  ℕ, ◌+◌, ◌<◌, ◌≡◌, refl, sym, Bool, true, false, List, [], ◌++◌, ◌==◌, if◌then◌else◌, length,
  length-append, arith, Bool-cases, inl, inr,
}
use make_linux_server.Base.Int.{ℤ, pos, int_of-small}
use make_linux_server.Http.{
  Conn, HttpCode, no_request, get_request, bad_request, no_resource, forbidden_request,
  file_request, internal_error, closed_connection, write_buffer_size,
}
use make_linux_server.Http.Response.{
  add_response, add_status_line, add_headers, add_content, page, file_page, process_write,
  ok_200_title, ok_string, error_403_title, error_403_form, error_404_title, error_404_form,
  error_500_title, error_500_form,
}
use make_linux_server.Http.Response.Decimal.{decimal, decimal_int}
use make_linux_server.Http.Response.Laws.{
  IsBounded, Appends, Appends-then, add_response-Appends, add_headers-Appends, written, status_text,
  headers_text, page_text,
}

-- A page that is ready to be sent: all of `text`, from the buffer alone.
pub record IsReady (text : List ℕ) (c : Conn) (r : Bool × Conn) : Type 0 where
  pub succeeded : r.0 ≡ true
  pub content : written r.1 ≡ written c ++ text
  pub whole : IsBounded r.1
  pub offered : (r.1.iv0_base ≡ 0) × (r.1.iv0_len ≡ r.1.write_idx) × (r.1.iv_count ≡ 1)
  pub counted : r.1.bytes_to_send ≡ pos r.1.write_idx

add_headers_at :
    (n : ℤ) (c : Conn) (linger : Bool)
    → c.linger ≡ linger
    → IsBounded c
    → c.write_idx + length (headers_text n linger) + 1 < write_buffer_size
    → Appends (headers_text n linger) c (add_headers n c)
add_headers_at n c linger e v h = rw (sym e) (add_headers-Appends n c v (rw e h))

-- A page that fits is written behind what the buffer holds, and the buffer is made ready.
page_lem :
    (status : ℕ) (title form : List ℕ) (c : Conn)
    → IsBounded c
    → c.write_idx + length (page_text status title form c.linger) + 1 < write_buffer_size
    → IsReady (page_text status title form c.linger) c (page status title form c)
unfolding page add_status_line add_content
page_lem status title form c v h =
    let st = status_text status title in
    let hd = headers_text (pos (length form)) c.linger in
    let l1 = length-append (st ++ hd) form in
    let l2 = length-append st hd in
    let a = add_response-Appends st c v (omega (arith, l1, l2)) in
    let c1 = (add_response st c).1 in
    let b =
      add_headers_at (pos (length form)) c1 c.linger a.same_linger a.bounded
        (omega (arith, l1, l2, a.advanced)) in
    let c2 = (add_headers (pos (length form)) c1).1 in
    let d =
      add_response-Appends form c2 b.bounded (omega (arith, l1, l2, a.advanced, b.advanced)) in
    let all =
      Appends-then (st ++ hd) form c (add_headers (pos (length form)) c1) (add_response form c2)
        (Appends-then st hd c (add_response st c) (add_headers (pos (length form)) c1) a b) d in
    rw d.succeeded (record {
      succeeded = refl;
      content = all.content;
      whole = record { whole = all.bounded.whole; inside = all.bounded.inside };
      offered = (refl, refl, refl);
      counted = refl;
    })

-- The status line and the headers that go before a file.
abbrev pub file_header : ℕ → Bool → List ℕ
file_header n linger = status_text 200 ok_200_title ++ headers_text (pos n) linger

-- A file's response: the header in the buffer, then the whole file.
pub record IsFileReady (header : List ℕ) (size : ℕ) (c : Conn) (r : Bool × Conn) : Type 0 where
  pub succeeded : r.0 ≡ true
  pub content : written r.1 ≡ written c ++ header
  pub bounded : IsBounded r.1
  pub header_offered : (r.1.iv0_base ≡ 0) × (r.1.iv0_len ≡ r.1.write_idx)
  pub file_offered : (r.1.iv1_base ≡ pos 0) × (r.1.iv1_len ≡ size) × (r.1.iv_count ≡ 2)
  pub counted : r.1.bytes_to_send ≡ pos (r.1.write_idx + size)

file_page_lem :
    (c : Conn)
    → IsBounded c
    → c.file_size + write_buffer_size < 2147483648
    → c.write_idx + length (file_header c.file_size c.linger) + 1 < write_buffer_size
    → IsFileReady (file_header c.file_size c.linger) c.file_size c (file_page c)
unfolding file_page add_status_line
file_page_lem c v small h =
    let st = status_text 200 ok_200_title in
    let hd = headers_text (pos c.file_size) c.linger in
    let l = length-append st hd in
    let a = add_response-Appends st c v (omega (arith, l)) in
    let c1 = (add_response st c).1 in
    let b =
      add_headers_at (pos c.file_size) c1 c.linger a.same_linger a.bounded
        (omega (arith, l, a.advanced)) in
    let all = Appends-then st hd c (add_response st c) (add_headers (pos c.file_size) c1) a b in
    let size = int_of-small c.file_size (omega arith) in
    let headed = (add_headers (pos c.file_size) c1).1 in
    let sum = int_of-small (headed.write_idx + c.file_size) (omega (arith, all.bounded.inside)) in
    rw (size, sum)
      (record {
        succeeded = refl;
        content = all.content;
        bounded = record { whole = all.bounded.whole; inside = all.bounded.inside };
        header_offered = (refl, refl);
        file_offered = (refl, refl, refl);
        counted = refl;
      })

-- The whole answer to a request that failed, or to one for an empty file.
abbrev pub answer_text : HttpCode → Bool → List ℕ
answer_text internal_error linger = page_text 500 error_500_title error_500_form linger
answer_text bad_request linger = page_text 404 error_404_title error_404_form linger
answer_text forbidden_request linger = page_text 403 error_403_title error_403_form linger
answer_text file_request linger = page_text 200 ok_200_title ok_string linger
answer_text no_request linger = []
answer_text get_request linger = []
answer_text no_resource linger = []
answer_text closed_connection linger = []

-- What a result asks for: a page, a file, or nothing at all.
abbrev pub Prepares : HttpCode → Conn → Bool × Conn → Type 0
Prepares internal_error c r = IsReady (answer_text internal_error c.linger) c r
Prepares bad_request c r = IsReady (answer_text bad_request c.linger) c r
Prepares forbidden_request c r = IsReady (answer_text forbidden_request c.linger) c r
Prepares file_request c r =
    if c.file_size == 0
    then IsReady (answer_text file_request c.linger) c r
    else IsFileReady (file_header c.file_size c.linger) c.file_size c r
Prepares no_request c r = r ≡ (true, c)
Prepares get_request c r = r ≡ (true, c)
Prepares no_resource c r = r ≡ (true, c)
Prepares closed_connection c r = r ≡ (true, c)

fits :
    (status : ℕ) (title form : List ℕ) (c : Conn)
    → IsBounded c
    → c.write_idx ≡ 0
    → length (page_text status title form c.linger) < 1000
    → IsReady (page_text status title form c.linger) c (page status title form c)
fits status title form c v z h = page_lem status title form c v (omega arith)

short_page :
    (linger : Bool)
    → (length (answer_text internal_error linger) < 1000)
      × (length (answer_text bad_request linger) < 1000)
      × (length (answer_text forbidden_request linger) < 1000)
      × (length (answer_text file_request linger) < 1000)
unfolding decimal decimal_int
short_page true = omega arith
short_page false = omega arith

-- On a connection whose write buffer is empty, `process_write` makes ready for each result exactly
-- the answer meant for it: the error page or the page of an empty file in the buffer, or the header
-- in the buffer and the file behind it, with the number of bytes to send. For the other results,
-- NO_RESOURCE among them, it changes nothing. The header of a file is assumed to fit,
-- and its size with the header's to be an int.
pub process_write_lem :
    (code : HttpCode) (c : Conn)
    → IsBounded c
    → c.write_idx ≡ 0
    → c.file_size + write_buffer_size < 2147483648
    → length (file_header c.file_size c.linger) < 1000
    → Prepares code c (process_write code c)
unfolding process_write
process_write_lem internal_error c v z small h =
    fits 500 error_500_title error_500_form c v z (short_page c.linger).0
process_write_lem bad_request c v z small h =
    fits 404 error_404_title error_404_form c v z (short_page c.linger).1
process_write_lem forbidden_request c v z small h =
    fits 403 error_403_title error_403_form c v z (short_page c.linger).2
process_write_lem file_request c v z small h = elim (Bool-cases (c.file_size == 0)) [
  | inl e ↦ rw e (fits 200 ok_200_title ok_string c v z (short_page c.linger).3)
  | inr e ↦ rw e (file_page_lem c v small (omega arith))
]
process_write_lem no_request c v z small h = refl
process_write_lem get_request c v z small h = refl
process_write_lem no_resource c v z small h = refl
process_write_lem closed_connection c v z small h = refl
