-- ===== src/Http/Process/Tests.antt =====
-- A GET request and a login that are read, routed and answered (http_conn.cpp).
use make_linux_server.Base.{
  ℕ, ◌≡◌, refl, true, false, Option, none, some, List, [], ◌∷◌, ◌++◌, ◌<◌, length, replicate,
  get_or, arith,
}
use make_linux_server.Base.Int.{pos}
use make_linux_server.Http.{Conn, filename_len, get, post}
use make_linux_server.Http.Sample.{blank}
use make_linux_server.Http.CString.{codes, c_string, strrchr, strncasecmp, to_lower}
use make_linux_server.Http.Line.{cr, lf}
use make_linux_server.Http.Request.{text_at}
use make_linux_server.Http.Request.First.{request_line}
use make_linux_server.Http.Request.Headers.{all_announced}
use make_linux_server.Http.Read.{process_read, route}
use make_linux_server.Http.Read.Lines.{header_text}
use make_linux_server.Http.Read.Head.{HoldsHead}
use make_linux_server.Http.Read.Whole.{process_read-get, behind}
use make_linux_server.Http.Route.{FileStat, digit_page, find_user, same_bytes}
use make_linux_server.Http.Route.Submit.{welcome}
use make_linux_server.Http.Write.{Writev, wrote, again}
use make_linux_server.Http.Process.{World}
use make_linux_server.Http.Process.Submitted.{page_of}

abbrev path : List ℕ
path = codes "a.html"

abbrev lines : List (List ℕ)
lines = codes "Host: x" ∷ codes "Connection: keep-alive" ∷ []

abbrev requested : Conn
requested = record blank {
  linger = false;
  read_buf = request_line get path ++ (cr ∷ lf ∷ header_text lines (replicate 100 0));
  read_idx = 60;
}

abbrev hello_page : FileStat
hello_page = record { others_read = true; directory = false; bytes = codes "hello"; can_map = true }

abbrev files : List ℕ → Option FileStat
files name = some hello_page

abbrev world : World
world = record { users = []; user_count = pos 1; conn = requested }

requested-HoldsHead : HoldsHead get path lines (replicate 100 0) requested
requested-HoldsHead = record {
  text = omega arith;
  word = omega arith;
  header_lines = ((omega arith, omega arith), ((omega arith, omega arith), tt));
  buffer = refl;
  read = omega arith;
  state = refl;
  unchecked = refl;
  from = refl;
}

abbrev sends : List Writev
sends = wrote 60 ∷ again ∷ []

no_body : all_announced lines requested.content_length ≡ pos 0
unfolding strncasecmp to_lower
no_body = refl

process_read-get_example :
    (host : Option ℕ) × (process_read requested
      ≡ route (behind get path lines (replicate 100 0) host requested))
process_read-get_example =
    process_read-get path lines (replicate 100 0) requested requested-HoldsHead no_body

-- The object with a URL behind the parser.
abbrev parsed : Conn
parsed = record blank {
  url = some 4;
  read_buf = codes "GET" ++ (0 ∷ codes "/img/a.jpg" ++ replicate 20 0);
}

parsed_slash : strrchr (text_at parsed 4) b'/' ≡ some 4
unfolding strrchr
parsed_slash = refl

parsed_page : digit_page (get_or parsed.read_buf 9 0) ≡ none
unfolding digit_page
parsed_page = refl

parsed_room : length (c_string parsed.doc_root) < filename_len
unfolding c_string
parsed_room = omega arith

-- A login.
abbrev login_lines : List (List ℕ)
login_lines = codes "Host: x" ∷ codes "Content-Length: 19" ∷ []

abbrev login_body : List ℕ
login_body = codes "user=ab&password=cd"

abbrev login_posted : Conn
login_posted = record blank {
  linger = false;
  read_buf =
      request_line post (codes "2CGISQL.cgi")
      ++ (cr ∷ lf ∷ header_text login_lines (login_body ++ replicate 100 0));
  read_idx = 89;
}

abbrev login_world : World
login_world = record {
  users = (codes "ab", codes "cd") ∷ [];
  user_count = pos 1;
  conn = login_posted;
}

login_known : page_of (λ s. true) false (codes "ab") (codes "cd") login_world ≡ welcome
unfolding find_user same_bytes
login_known = refl
