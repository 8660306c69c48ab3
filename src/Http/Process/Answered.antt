-- ===== src/Http/Process/Answered.antt =====
-- How `process` and `write` of http_conn.cpp go on when `do_request` has opened a file.
use mathlib.Core.Path.{subst}
use make_linux_server.Base.{
  ℕ, ◌+◌, ◌<◌, ◌≡◌, refl, ap, sym, ◌∙◌, Bool, true, false, ◌||◌, Option, some, List, ◌++◌, ◌==◌,
  length, length-append, arith,
}
use make_linux_server.Base.Int.{ℤ}
use make_linux_server.Http.{write_buffer_size, Conn, file_request, modfd_out}
use make_linux_server.Http.Request.Headers.{any_keep_alive}
use make_linux_server.Http.Read.{route, process_read}
use make_linux_server.Http.Route.{FileStat, Users, do_request, open_found}
use make_linux_server.Http.Response.{process_write}
use make_linux_server.Http.Response.Laws.{IsBounded}
use make_linux_server.Http.Response.Pages.{file_header}
use make_linux_server.Http.Write.{Writev, write, offered}
use make_linux_server.Http.Write.Sending.{Sending, response}
use make_linux_server.Http.Write.Order.{Progress, Conforms, write_loop_lem}
use make_linux_server.Http.Write.Respond.{buffered, expected, prepared, write-starts}
use make_linux_server.Http.Process.{
  World, process, reply_parsed, reply_routed, reply, answer_request, close_if_failed,
}

-- A file that is served as a whole: its size, with the header's, is an int.
pub record IsReadable (f : FileStat) : Type 0 where
  pub readable : f.others_read ≡ true
  pub plain : f.directory ≡ false
  pub filled : 0 < length f.bytes
  pub small : length f.bytes + write_buffer_size < 2147483648
  pub can_be_mapped : f.can_map ≡ true

-- The object with the file mapped.
abbrev pub with_file : Conn → FileStat → Conn
with_file c f = record c { file_size = length f.bytes; file = some f.bytes }

pub open_found-IsReadable :
    (c : Conn) (f : FileStat) → IsReadable f → open_found c (some f) ≡ (file_request, with_file c f)
unfolding open_found
open_found-IsReadable c f v =
    let r = v.readable in let p = v.plain in let m = v.can_be_mapped in rw (r, p, m) refl

-- What the answer needs of the object: an empty buffer, of which nothing has been sent.
pub record IsUnanswered (c : Conn) : Type 0 where
  pub bounded : IsBounded c
  pub empty : c.write_idx ≡ 0
  pub unsent : c.bytes_have_send ≡ 0

kept_open :
    (users : Users) (count : ℤ) (r : Bool × Conn)
    → r.0 ≡ true
    → close_if_failed users count r ≡ record { users = users; user_count = count; conn = r.1 }
kept_open users count (true, c) e = refl
kept_open users count (false, c) e = absurd (ground arith)

-- What `process` makes of an answered request, when `process_write` succeeds.
reply-file :
    (w : World) (d : Conn)
    → (process_write file_request d).0 ≡ true
    → reply file_request (record w { conn = d })
      ≡ record w { conn = modfd_out (process_write file_request d).1 }
unfolding reply answer_request
reply-file w d e =
    ap (λ (done : World). record done { conn = modfd_out done.conn })
      (kept_open w.users w.user_count (process_write file_request d) e)

-- The events that the object has asked for do not matter to what is sent.
Sending-modfd_out : (d : Conn) → Sending 0 d → Sending 0 (modfd_out d)
unfolding offered
Sending-modfd_out d s = record {
  counted = s.counted;
  bound = s.bound;
  left = s.left;
  phase = s.phase;
  shown = s.shown;
  whole = s.whole;
}

-- The header of the answer with a file.
abbrev pub header_of : FileStat → Bool → List ℕ
header_of f linger = file_header (length f.bytes) linger

-- The header of the answer: it keeps the connection if a line of the request asks for it.
abbrev pub answer_header : List (List ℕ) → FileStat → Conn → List ℕ
answer_header lines f c = header_of f (c.linger || any_keep_alive lines)

-- What `writev` may return for the answer: its header is not accepted in part.
abbrev pub Accepts : List Writev → List ℕ → List ℕ → Type 0
Accepts rs header bytes = Conforms rs (length header) (length (header ++ bytes)) 0

-- The object is left with the answer, and `write` sends it.
abbrev pub IsAnswered : World → Option World → List Writev → List ℕ → Type 0
IsAnswered w result rs bytes =
    (d : Conn) × (result ≡ some (record w { conn = d }))
    × (response d ≡ bytes)
    × (let r = write rs d in Progress 0 d r.0 r.1 r.2)

pub answered :
    (mysql_query : List ℕ → Bool) (stat : List ℕ → Option FileStat) (rs : List Writev) (w : World)
    (parsed named : Conn) (later : Users) (f : FileStat)
    → process_read w.conn ≡ route parsed
    → do_request mysql_query stat w.users parsed ≡ some (file_request, later, with_file named f)
    → IsReadable f
    → IsUnanswered named
    → length (header_of f named.linger) < 1000
    → Accepts rs (header_of f named.linger) f.bytes
    → IsAnswered
        (record w { users = later })
        (process mysql_query stat w)
        rs
        (header_of f named.linger ++ f.bytes)
unfolding process
answered q stat rs w parsed named later f parse routed v u short conforms =
    let ready = with_file named f in
    let full = v.filled in
    let size : (length f.bytes == 0) ≡ false = ground arith in
    let p =
      prepared file_request ready refl
        (record { whole = u.bounded.whole; inside = u.bounded.inside }) u.empty u.unsent refl
        v.small short in
    let header = header_of f named.linger in
    let whole : expected file_request ready ≡ header ++ f.bytes = rw size refl in
    let held : buffered file_request ready ≡ header = rw size refl in
    let d = modfd_out (process_write file_request ready).1 in
    let all : response d ≡ header ++ f.bytes = p.holds ∙ whole in
    let some_bytes : 0 < length (response d) =
      omega (arith, ap (length {A = ℕ}) all, length-append header f.bytes) in
    let sending = Sending-modfd_out (process_write file_request ready).1 p.sending in
    let start = write-starts rs d sending some_bytes in
    let ordered : Conforms rs d.write_idx (length (response d)) 0 =
      subst (λ xs. Conforms rs d.write_idx (length xs) 0) (sym all)
        (subst (λ i. Conforms rs i (length (header ++ f.bytes)) 0)
          (sym (p.index ∙ ap (length {A = ℕ}) held)) conforms) in
    (
      d,
      ap (reply_parsed (do_request q stat w.users) w) parse
          ∙ ap (reply_routed w) routed
          ∙ ap some (reply-file (record w { users = later }) ready p.succeeded),
      all,
      subst (λ r. Progress 0 d r.0 r.1 r.2) (sym start) (write_loop_lem rs 0 d sending ordered),
    )
