-- ===== src/Http/Write/Respond.antt =====
-- process_write of http_conn.cpp followed by write: the client gets the whole response.
use mathlib.Core.Path.{subst}
use make_linux_server.Base.{
  not, ℕ, ◌+◌, ◌-◌, ◌<◌, ◌≡◌, refl, ap, sym, ◌∙◌, inl, inr, Bool, true, false, List, [], ◌++◌, ◌==◌,
  if◌then◌else◌, length, take, length-take, arith, Bool-cases,
}
use make_linux_server.Base.Int.{pos}
use make_linux_server.Http.{Conn}
use make_linux_server.Http.Write.{Writev, file_bytes, write_loop}
use make_linux_server.Http.{
  write_buffer_size, HttpCode, no_request, get_request, no_resource, closed_connection,
  file_request, internal_error, bad_request, forbidden_request,
}
use make_linux_server.Http.Response.{process_write}
use make_linux_server.Http.Response.Laws.{IsBounded}
use make_linux_server.Http.Response.Pages.{
  IsReady, IsFileReady, process_write_lem, file_header, answer_text,
}
use make_linux_server.Http.Write.{write, is_zero}
use make_linux_server.Http.Write.Sending.{Sending, response}
use make_linux_server.Http.Write.Ready.{file-Sending, page-Sending, process_write-SameFile}

-- The results that are answered.
abbrev pub answers : HttpCode → Bool
answers internal_error = true
answers bad_request = true
answers forbidden_request = true
answers file_request = true
answers no_request = false
answers get_request = false
answers no_resource = false
answers closed_connection = false

abbrev pub sends_file : HttpCode → Conn → Bool
sends_file file_request c = not (c.file_size == 0)
sends_file no_request c = false
sends_file get_request c = false
sends_file bad_request c = false
sends_file no_resource c = false
sends_file forbidden_request c = false
sends_file internal_error c = false
sends_file closed_connection c = false

-- The part of the response that the buffer holds, and the whole of it.
abbrev pub buffered : HttpCode → Conn → List ℕ
buffered code c =
    if sends_file code c then file_header c.file_size c.linger else answer_text code c.linger

abbrev pub expected : HttpCode → Conn → List ℕ
expected code c = buffered code c ++ (if sends_file code c then file_bytes c.file else [])

-- What the request's result has made ready.
pub record IsPrepared (header all : List ℕ) (r : Bool × Conn) : Type 0 where
  pub succeeded : r.0 ≡ true
  pub sending : Sending 0 r.1
  pub holds : response r.1 ≡ all
  pub index : r.1.write_idx ≡ length header

page-IsPrepared :
    (text : List ℕ) (c : Conn) (r : Bool × Conn)
    → IsReady text c r
    → c.write_idx ≡ 0
    → r.1.bytes_have_send ≡ 0
    → IsPrepared text (text ++ []) r
page-IsPrepared text c (b, d) y w z =
    let one : d.iv_count == 2 ≡ false = ground (arith, y.offered) in
    let content : take d.write_idx d.write_buf ≡ text =
      y.content ∙ ap (λ i. take i c.write_buf ++ text) w in
    record {
      succeeded = y.succeeded;
      sending = page-Sending text c (b, d) y z;
      holds = rw one (ap (λ xs. xs ++ []) content);
      index = omega (
        arith,
        ap length content,
        length-take d.write_idx d.write_buf,
        y.whole.whole,
        y.whole.inside,
      );
    }

file-IsPrepared :
    (header : List ℕ) (c : Conn) (r : Bool × Conn) (f : List ℕ)
    → IsFileReady header (length f) c r
    → c.write_idx ≡ 0
    → file_bytes r.1.file ≡ f
    → r.1.bytes_have_send ≡ 0
    → IsPrepared header (header ++ f) r
file-IsPrepared header c (b, d) f y w e z =
    let two : d.iv_count == 2 ≡ true = ground (arith, y.file_offered) in
    let content : take d.write_idx d.write_buf ≡ header =
      y.content ∙ ap (λ i. take i c.write_buf ++ header) w in
    record {
      succeeded = y.succeeded;
      sending = file-Sending header c (b, d) f y e z;
      holds = rw (two, e) (ap (λ xs. xs ++ f) content);
      index = omega (
        arith,
        ap length content,
        length-take d.write_idx d.write_buf,
        y.bounded.whole,
        y.bounded.inside,
      );
    }

prepared_file :
    (c : Conn)
    → IsBounded c
    → c.write_idx ≡ 0
    → c.bytes_have_send ≡ 0
    → length (file_bytes c.file) ≡ c.file_size
    → c.file_size + write_buffer_size < 2147483648
    → length (file_header c.file_size c.linger) < 1000
    → IsPrepared (buffered file_request c) (expected file_request c) (process_write file_request c)
prepared_file c v w z l small h =
    let p = process_write_lem file_request c v w small h in
    let s = process_write-SameFile file_request c in
    elim (Bool-cases (c.file_size == 0)) [
      | inl e ↦
          let q : IsReady (answer_text file_request c.linger) c (process_write file_request c) =
            subst
              (λ b.
                if b
                then IsReady (answer_text file_request c.linger) c (process_write file_request c)
                else IsFileReady (file_header c.file_size c.linger) c.file_size c
                    (process_write file_request c))
              e p in
          rw e (page-IsPrepared _ c (process_write file_request c) q w (s.1 ∙ z))
      | inr e ↦
          let q : IsFileReady (file_header c.file_size c.linger) c.file_size c
              (process_write file_request c) =
            subst
              (λ b.
                if b
                then IsReady (answer_text file_request c.linger) c (process_write file_request c)
                else IsFileReady (file_header c.file_size c.linger) c.file_size c
                    (process_write file_request c))
              e p in
          rw e (
            file-IsPrepared (file_header c.file_size c.linger) c (process_write file_request c)
              (file_bytes c.file)
              (subst
                (λ n.
                  IsFileReady (file_header c.file_size c.linger) n c (process_write file_request c))
                (sym l) q)
              w (ap file_bytes s.0) (s.1 ∙ z))
    ]

pub prepared :
    (code : HttpCode) (c : Conn)
    → answers code ≡ true
    → IsBounded c
    → c.write_idx ≡ 0
    → c.bytes_have_send ≡ 0
    → length (file_bytes c.file) ≡ c.file_size
    → c.file_size + write_buffer_size < 2147483648
    → length (file_header c.file_size c.linger) < 1000
    → IsPrepared (buffered code c) (expected code c) (process_write code c)
prepared internal_error c a v w z l small h =
    page-IsPrepared _ c (process_write internal_error c)
      (process_write_lem internal_error c v w small h) w
      ((process_write-SameFile internal_error c).1 ∙ z)
prepared bad_request c a v w z l small h =
    page-IsPrepared _ c (process_write bad_request c) (process_write_lem bad_request c v w small h)
      w ((process_write-SameFile bad_request c).1 ∙ z)
prepared forbidden_request c a v w z l small h =
    page-IsPrepared _ c (process_write forbidden_request c)
      (process_write_lem forbidden_request c v w small h) w
      ((process_write-SameFile forbidden_request c).1 ∙ z)
prepared file_request c a v w z l small h = prepared_file c v w z l small h
prepared no_request c a v w z l small h = absurd (ground arith)
prepared get_request c a v w z l small h = absurd (ground arith)
prepared no_resource c a v w z l small h = absurd (ground arith)
prepared closed_connection c a v w z l small h = absurd (ground arith)

pub write-starts :
    (rs : List Writev) (d : Conn)
    → Sending 0 d
    → 0 < length (response d)
    → write rs d ≡ write_loop rs d
unfolding write
write-starts rs d s h =
    let n : is_zero (pos (length (response d) - 0)) ≡ false = ground arith in
    let e : is_zero d.bytes_to_send ≡ false = ap is_zero s.left ∙ n in rw e refl
