-- ===== src/Http/Response.antt =====
-- The response that http_conn.cpp writes into `m_write_buf`: `add_response` and the functions above
-- it, and `process_write`.
pub mod Decimal
pub mod Overlay
pub mod Laws
pub mod Pages
use make_linux_server.Base.{
  ℕ, zero, suc, ◌+◌, ◌-◌, ◌/◌, ◌%◌, Bool, true, false, List, [], ◌∷◌, ◌++◌, ◌&&◌, ltb, leb, ◌==◌,
  if◌then◌else◌, length, take, set,
}
use make_linux_server.Base.Int.{ℤ, pos, int_of}
use make_linux_server.Http.{
  Conn, HttpCode, no_request, get_request, bad_request, no_resource, forbidden_request,
  file_request, internal_error, closed_connection, write_buffer_size,
}
use make_linux_server.Http.CString.{codes}
use Decimal.{decimal, decimal_int}

-- Bytes copied into an array from an index on.
unfoldable pub overlay : List ℕ → ℕ → List ℕ → List ℕ
overlay array i [] = array
overlay array i (b ∷ bs) = overlay (set array i b) (i + 1) bs

-- `vsnprintf(m_write_buf + i, size, …)` of a text: at most `size - 1` of its bytes and a zero.
unfoldable pub print_at : List ℕ → ℕ → ℕ → List ℕ → List ℕ
unfolding overlay
print_at array i zero text = array
print_at array i (suc n) text = overlay array i (take n text ++ 0 ∷ [])

-- `text` is the formatted output, of length `len`.
unfoldable pub add_response : List ℕ → Conn → Bool × Conn
unfolding print_at
add_response text c =
    if leb write_buffer_size c.write_idx
    then (false, c)
    else (let room = write_buffer_size - 1 - c.write_idx in
        let printed = record c { write_buf = print_at c.write_buf c.write_idx room text } in
        if leb room (length text)
        then (false, printed)
        else (true, record printed { write_idx = c.write_idx + length text }))

-- `a(c) && b(c)` for calls that change the object.
abbrev pub ◌and_then◌ : Bool × Conn → (Conn → Bool × Conn) → Bool × Conn
◌and_then◌ (true, c) f = f c
◌and_then◌ (false, c) f = (false, c)

abbrev pub crlf : List ℕ
crlf = 13 ∷ 10 ∷ []

unfoldable pub add_status_line : ℕ → List ℕ → Conn → Bool × Conn
add_status_line status title =
    add_response (codes "HTTP/1.1" ++ 32 ∷ (decimal status ++ 32 ∷ (title ++ crlf)))

unfoldable pub add_content_length : ℤ → Conn → Bool × Conn
add_content_length content_len =
    add_response (codes "Content-Length:" ++ (decimal_int content_len ++ crlf))

unfoldable pub add_content_type : Conn → Bool × Conn
add_content_type = add_response (codes "Content-Type:text/html" ++ crlf)

unfoldable pub add_linger : Conn → Bool × Conn
add_linger c =
    add_response
      (codes "Connection:" ++ ((if c.linger then codes "keep-alive" else codes "close") ++ crlf)) c

unfoldable pub add_blank_line : Conn → Bool × Conn
add_blank_line = add_response crlf

unfoldable pub add_headers : ℤ → Conn → Bool × Conn
add_headers content_len c =
    ◌and_then◌ (◌and_then◌ (add_content_length content_len c) add_linger) add_blank_line

unfoldable pub add_content : List ℕ → Conn → Bool × Conn
add_content text = add_response text

abbrev pub ok_200_title : List ℕ
ok_200_title = codes "OK"

abbrev pub error_403_title : List ℕ
error_403_title = codes "Forbidden"

abbrev pub error_403_form : List ℕ
error_403_form = codes "You do not have permission to get file form this server." ++ 10 ∷ []

abbrev pub error_404_title : List ℕ
error_404_title = codes "Not Found"

abbrev pub error_404_form : List ℕ
error_404_form = codes "The requested file was not found on this server." ++ 10 ∷ []

abbrev pub error_500_title : List ℕ
error_500_title = codes "Internal Error"

abbrev pub error_500_form : List ℕ
error_500_form = codes "There was an unusual problem serving the request file." ++ 10 ∷ []

abbrev pub ok_string : List ℕ
ok_string = codes "<html><body></body></html>"

-- The end of `process_write`: what `m_write_buf` holds is to be sent.
abbrev pub send_buffer : Conn → Conn
send_buffer c = record c {
  iv0_base = 0;
  iv0_len = c.write_idx;
  iv_count = 1;
  bytes_to_send = pos c.write_idx;
}

-- A status line, the headers and a body; only the body's result is looked at.
unfoldable pub page : ℕ → List ℕ → List ℕ → Conn → Bool × Conn
page status title form c =
    let lined = (add_status_line status title c).1 in
    let headed = (add_headers (pos (length form)) lined).1 in
    let (fits, done) = add_content form headed in
    if fits then (true, send_buffer done) else (false, done)

-- `case FILE_REQUEST` for a file that is not empty. The size is converted to int for the header, and
-- the sum for `bytes_to_send`.
unfoldable pub file_page : Conn → Bool × Conn
file_page c =
    let lined = (add_status_line 200 ok_200_title c).1 in
    let headed = (add_headers (int_of c.file_size) lined).1 in
    (
      true,
      record headed {
        iv0_base = 0;
        iv0_len = headed.write_idx;
        iv1_base = pos 0;
        iv1_len = c.file_size;
        iv_count = 2;
        bytes_to_send = int_of (headed.write_idx + c.file_size);
      },
    )

unfoldable pub process_write : HttpCode → Conn → Bool × Conn
process_write internal_error c = page 500 error_500_title error_500_form c
process_write bad_request c = page 404 error_404_title error_404_form c
process_write forbidden_request c = page 403 error_403_title error_403_form c
process_write file_request c =
    if c.file_size == 0 then page 200 ok_200_title ok_string c else file_page c
process_write no_request c = (true, c)
process_write get_request c = (true, c)
process_write no_resource c = (true, c)
process_write closed_connection c = (true, c)
