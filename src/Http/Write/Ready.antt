-- ===== src/Http/Write/Ready.antt =====
-- That what `process_write` of http_conn.cpp prepares is ready to be sent from its first byte.
use make_linux_server.Base.{
  ℕ, ◌+◌, ◌≤◌, ◌≡◌, refl, ap, ◌∙◌, inl, inr, Bool, true, false, List, ◌==◌, length, take,
  length-append, length-take, append-nil, arith, Bool-cases,
}
use make_linux_server.Base.Int.{pos, int_of}
use make_linux_server.Http.{Conn}
use make_linux_server.Http.Write.{file_bytes, offered}
use make_linux_server.Http.{
  HttpCode, no_request, get_request, no_resource, closed_connection, file_request, internal_error,
  bad_request, forbidden_request,
}
use make_linux_server.Http.Response.{
  process_write, file_page, page, add_status_line, add_headers, add_content, add_response,
  ok_200_title, ok_string, error_403_title, error_403_form, error_404_title, error_404_form,
  error_500_title, error_500_form,
}
use make_linux_server.Http.Response.Laws.{
  SameFile, SameFile-trans, add_response-SameFile, add_headers-SameFile, status_text,
}
use make_linux_server.Http.Response.Pages.{IsReady, IsFileReady}
use make_linux_server.Http.Response.Overlay.{take-all}
use make_linux_server.Http.Write.Sending.{Sending, response}

-- A prepared file is ready to be sent from its first byte.
pub file-Sending :
    (header : List ℕ) (c : Conn) (r : Bool × Conn) (f : List ℕ)
    → IsFileReady header (length f) c r
    → file_bytes r.1.file ≡ f
    → r.1.bytes_have_send ≡ 0
    → Sending 0 r.1
unfolding offered
file-Sending header c (b, d) f y e z =
    let w : d.write_idx ≤ length d.write_buf = omega (arith, y.bounded.whole, y.bounded.inside) in
    let two : d.iv_count == 2 ≡ true = ground (arith, y.file_offered) in
    let ln : length (response d) ≡ d.write_idx + length f =
      rw (two, e)
        (omega (
          arith,
          length-append (take d.write_idx d.write_buf) f,
          length-take d.write_idx d.write_buf,
        )) in
    record {
      counted = z;
      bound = omega arith;
      left = y.counted ∙ ap pos (omega (arith, ln));
      phase = inl (refl, y.header_offered.0, y.header_offered.1);
      shown =
          rw
            (
              two,
              e,
              y.file_offered.0,
              y.file_offered.1,
              y.header_offered.0,
              y.header_offered.1,
              take-all (length f) f (omega arith),
            )
            refl;
      whole = w;
    }

pub page-Sending :
    (text : List ℕ) (c : Conn) (r : Bool × Conn)
    → IsReady text c r
    → r.1.bytes_have_send ≡ 0
    → Sending 0 r.1
unfolding offered
page-Sending text c (b, d) y z =
    let w : d.write_idx ≤ length d.write_buf = omega (arith, y.whole.whole, y.whole.inside) in
    let one : d.iv_count == 2 ≡ false = ground (arith, y.offered) in
    let ln : length (response d) ≡ d.write_idx =
      rw (one, append-nil) (omega (arith, length-take d.write_idx d.write_buf)) in
    record {
      counted = z;
      bound = omega arith;
      left = y.counted ∙ ap pos (omega (arith, ln));
      phase = inl (refl, y.offered.0, y.offered.1);
      shown = rw (one, y.offered.0, y.offered.1, append-nil) refl;
      whole = w;
    }

pub file_page-SameFile : (c : Conn) → SameFile c (file_page c).1
unfolding file_page add_status_line
file_page-SameFile c =
    let st = status_text 200 ok_200_title in
    let lined = (add_response st c).1 in
    let h =
      SameFile-trans c lined (add_headers (int_of c.file_size) lined).1 (add_response-SameFile st c)
        (add_headers-SameFile (int_of c.file_size) lined) in
    (h.0, h.1, h.2, h.3, h.4)

pub page-SameFile :
    (status : ℕ) (title form : List ℕ) (c : Conn) → SameFile c (page status title form c).1
unfolding page add_status_line add_content
page-SameFile status title form c =
    let st = status_text status title in
    let lined = (add_response st c).1 in
    let headed = (add_headers (pos (length form)) lined).1 in
    let h =
      SameFile-trans c lined headed (add_response-SameFile st c)
        (add_headers-SameFile (pos (length form)) lined) in
    let g =
      SameFile-trans c headed (add_response form headed).1 h (add_response-SameFile form headed) in
    elim (Bool-cases (add_response form headed).0) [
      | inl e ↦ rw e (g.0, g.1, g.2, g.3, g.4)
      | inr e ↦ rw e g
    ]

pub process_write-SameFile : (code : HttpCode) (c : Conn) → SameFile c (process_write code c).1
unfolding process_write
process_write-SameFile internal_error c = page-SameFile 500 error_500_title error_500_form c
process_write-SameFile bad_request c = page-SameFile 404 error_404_title error_404_form c
process_write-SameFile forbidden_request c = page-SameFile 403 error_403_title error_403_form c
process_write-SameFile file_request c = elim (Bool-cases (c.file_size == 0)) [
  | inl e ↦ rw e (page-SameFile 200 ok_200_title ok_string c)
  | inr e ↦ rw e (file_page-SameFile c)
]
process_write-SameFile no_request c = (refl, refl, refl, refl, refl)
process_write-SameFile get_request c = (refl, refl, refl, refl, refl)
process_write-SameFile no_resource c = (refl, refl, refl, refl, refl)
process_write-SameFile closed_connection c = (refl, refl, refl, refl, refl)
