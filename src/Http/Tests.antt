-- ===== src/Http/Tests.antt =====
-- Runs of the model of http_conn.cpp on concrete connections.
use make_linux_server.Base.{
  ℕ, zero, suc, ◌≡◌, ◌≢◌, refl, inl, true, false, none, some, List, [], ◌∷◌, ◌++◌, ◌<◌, drop,
  replicate, arith, get_or,
}
use make_linux_server.Base.Int.{pos}
use make_linux_server.Http.{
  Conn, header, content, no_request, no_resource, line_open, modfd_out, modfd_in, reset,
}
use make_linux_server.Http.Sample.{blank}
use make_linux_server.Http.CString.{codes, c_string, strlen, strrchr, write_bytes}
use make_linux_server.Http.Line.{parse_line, scan}
use make_linux_server.Http.Line.Laws.{parse_line_resume}
use make_linux_server.Http.Request.{text_at, parse_headers}
use make_linux_server.Http.Write.{Writev, returned, wrote, again, write, offered, advance}
use make_linux_server.Http.Write.Sending.{response}
use make_linux_server.Http.Write.Torn.{torn_header, IsFresh}
use make_linux_server.Http.Read.{
  Recv, received, nothing_yet, answer, route, process_read, store, read_loop, round, handle_line,
}
use make_linux_server.Http.Read.Keeps.{IsFinished}
use make_linux_server.Http.Read.Total.{process_read-IsFinished}
use make_linux_server.Http.Read.Incomplete.{IsIncomplete}
use make_linux_server.Http.Read.Body.{split_body}
use make_linux_server.Http.Route.{
  FileStat, do_request, register, login, find_user, set_url, enroll, then_do, serve, serve_rooted,
  submit_if_form, serve_file, choose_file, digit_page, strncpy_file, open_file, open_found,
}
use make_linux_server.Http.Route.Login.{register-login}
use make_linux_server.Http.Process.{World, process}
use make_linux_server.Http.Process.Missing.{missing_lem}

abbrev with_file : Conn
with_file = record blank { file = some (codes "hi"); file_size = 2 }

-- The header is accepted as a whole, then a byte of the file, then the socket is full.
abbrev three_writes : List Writev
three_writes = wrote 60 ∷ wrote 1 ∷ again ∷ []

-- A header of four bytes and a file of two, ready to be sent.
abbrev prepared : Conn
prepared = record with_file {
  write_buf = codes "abcd" ++ replicate 1020 0;
  write_idx = 4;
  iv0_len = 4;
  iv1_len = 2;
  iv_count = 2;
  bytes_to_send = pos 6;
}

prepared-IsFresh : IsFresh prepared
unfolding offered
prepared-IsFresh = record {
  sending = record {
    counted = refl;
    bound = omega arith;
    left = refl;
    phase = inl (refl, refl, refl);
    shown = refl;
    whole = omega arith;
  };
  header = refl;
  file = (refl, refl, refl, omega arith);
}

torn_header_example : offered (advance 1 (advance 1 prepared)) ≢ some (drop 2 (response prepared))
torn_header_example = torn_header 1 1 prepared prepared-IsFresh (omega arith) (omega arith)

-- A connection that awaits a body of three bytes at 4, with one of them read.
abbrev in_body : Conn
in_body = record blank {
  check_state = content;
  content_length = pos 3;
  start_line = 4;
  checked_idx = 4;
  read_idx = 5;
  read_buf = replicate 4 0 ++ (codes "a" ++ replicate 2043 0);
}

process_read-IsFinished_example : IsFinished (process_read in_body)
process_read-IsFinished_example = process_read-IsFinished in_body

split_body_example :
    (process_read in_body ≡ answer no_request (record in_body { start_line = 4; checked_idx = 5 }))
    × ((e : Conn) × (process_read
            (store (codes "bc") (record in_body { start_line = 4; checked_idx = 5 }))
          ≡ answer no_request e)
        × IsIncomplete 3 5 7 e)
split_body_example =
    split_body 3 in_body (codes "bc")
      (record {
        state = refl;
        promised = refl;
        short = omega arith;
        from = omega arith;
        same = refl;
      })
      (omega arith) (omega arith, omega arith, tt) refl

abbrev two_chunks : List Recv
two_chunks = received (codes "GE") ∷ received (codes "T") ∷ nothing_yet ∷ []

-- The blank line behind the headers of a request for /x.
abbrev at_end : Conn
at_end = record blank {
  check_state = header;
  url = some 0;
  read_buf = codes "/x" ++ (0 ∷ 0 ∷ 13 ∷ 10 ∷ replicate 2042 0);
  start_line = 4;
  checked_idx = 4;
  read_idx = 6;
}

abbrev ended : Conn
ended = record at_end { read_buf = codes "/x" ++ replicate 2046 0; checked_idx = 6; start_line = 6 }

at_end-read : process_read at_end ≡ route ended
unfolding process_read read_loop round parse_line scan handle_line parse_headers
at_end-read = refl

abbrev not_found : Conn
not_found = record ended { real_file = codes "/srv/x" ++ replicate 194 0 }

ended-do_request :
    do_request (λ sql. true) (λ path. none) [] ended ≡ some (no_resource, [], not_found)
unfolding do_request serve serve_rooted submit_if_form serve_file choose_file digit_page
    strncpy_file open_file open_found strlen strrchr c_string write_bytes
ended-do_request = refl

abbrev world : World
world = record { users = []; user_count = pos 1; conn = at_end }

missing_lem_example :
    (process (λ sql. true) (λ path. none) world
      ≡ some (record { users = []; user_count = pos 1; conn = modfd_out not_found }))
    × (write three_writes (modfd_out not_found)
        ≡ (returned true, reset (modfd_in (modfd_out not_found)), []))
missing_lem_example =
    missing_lem (λ sql. true) (λ path. none) world ended not_found [] three_writes at_end-read
      ended-do_request refl

-- A registration of `a` with the password `b`, whose statement fails.
abbrev registered : Conn
registered = record blank { read_buf = codes "/registerError.html" ++ replicate 2029 0 }

failed_registration :
    register (λ sql. false) (codes "a") (codes "b") 0 [] blank
    ≡ some ((codes "a", codes "b") ∷ [], registered)
unfolding register enroll set_url find_user write_bytes
failed_registration = refl

register-login_example :
    (find_user (codes "a") ((codes "a", codes "b") ∷ []) ≡ some (codes "b"))
    × (login (codes "a") (codes "b") 0 ((codes "a", codes "b") ∷ []) blank
        ≡ then_do
            (set_url (codes "/welcome.html") 0 blank)
            (λ f. some ((codes "a", codes "b") ∷ [], f)))
register-login_example =
    register-login (λ sql. false) (codes "a") (codes "b") 0 0 [] ((codes "a", codes "b") ∷ []) blank
      registered blank (unfold find_user in refl) failed_registration

abbrev readme : FileStat
readme = record { others_read = true; directory = false; bytes = codes "hi"; can_map = true }

abbrev served : Conn
served = record not_found { file = some (codes "hi"); file_size = 2 }

-- A POST for /2 without a body.
abbrev posted : Conn
posted = record blank { cgi = true; url = some 0; read_buf = codes "/2" ++ replicate 2046 0 }

posted-slash : strrchr (text_at posted 0) b'/' ≡ some 0
unfolding strrchr
posted-slash = refl

-- A line of two bytes.
abbrev one_line : Conn
one_line = record blank { read_buf = codes "ab" ++ (13 ∷ 10 ∷ replicate 2044 0); read_idx = 4 }

abbrev half_line : Conn
half_line = record blank { read_buf = codes "ab" ++ replicate 2046 0; read_idx = 2 }

half-one : (j : ℕ) → j < 2 → get_or half_line.read_buf j 0 ≡ get_or one_line.read_buf j 0
half-one zero h = refl
half-one (suc zero) h = refl
half-one (suc (suc j)) h = absurd (omega arith)

half-open : (parse_line half_line).0 ≡ line_open
unfolding parse_line scan
half-open = refl

parse_line_resume_example :
    ((parse_line half_line).1.read_buf ≡ half_line.read_buf)
    × (parse_line (record one_line { checked_idx = (parse_line half_line).1.checked_idx })
        ≡ parse_line (record one_line { checked_idx = 0 }))
parse_line_resume_example =
    parse_line_resume half_line one_line (omega arith) (omega arith) half-one half-open
