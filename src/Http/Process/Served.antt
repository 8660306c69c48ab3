-- ===== src/Http/Process/Served.antt =====
-- A GET request from the bytes that were read to the bytes that are written: `process` and `write`
-- of http_conn.cpp.
use make_linux_server.Base.{
  ℕ, ◌+◌, ◌≤◌, ◌<◌, ◌≡◌, refl, ap, ◌∙◌, Bool, false, Option, none, some, List, [], ◌∷◌, ◌++◌,
  append_assoc, length, get_or, drop, replicate, arith,
}
use make_linux_server.Base.Int.{pos}
use make_linux_server.Http.{Conn, HttpCode, filename_len, file_request, get}
use make_linux_server.Http.CString.{codes, c_string, strrchr}
use make_linux_server.Http.CString.Laws.{c_string-IsText}
use make_linux_server.Http.Request.{text_at}
use make_linux_server.Http.Request.First.{cut_line}
use make_linux_server.Http.Request.Headers.{all_announced}
use make_linux_server.Http.Read.Lines.{cut_lines}
use make_linux_server.Http.Read.Head.{HoldsHead}
use make_linux_server.Http.Read.Whole.{behind, process_read-get}
use make_linux_server.Http.Route.{FileStat, Users, digit_page, do_request, open_found}
use make_linux_server.Http.Route.Target.{named, file_name, do_request-get}
use make_linux_server.Http.Route.Text.{
  target, behind_target, target-text, target-IsText, strrchr-IsText, strrchr-lt, get_or-terminated,
  get_or-drop,
}
use make_linux_server.Http.Write.{Writev}
use make_linux_server.Http.Process.{World, process}
use make_linux_server.Http.Process.Answered.{
  IsReadable, with_file, open_found-IsReadable, IsUnanswered, answer_header, Accepts, IsAnswered,
  answered,
}

-- The object holds a GET request for `path` with the header `lines`, as a whole and without a body;
-- the last '/' of the URL is at `k`, and what follows it stands for no page of its own.
pub record HoldsGet (path : List ℕ) (lines : List (List ℕ)) (rest : List ℕ) (k : ℕ) (c : Conn)
    : Type 0 where
  pub holds_head : HoldsHead get path lines rest c
  pub no_body : all_announced lines c.content_length ≡ pos 0
  pub last_slash : strrchr (target path) b'/' ≡ some k
  pub no_page : digit_page (get_or (target path) (k + 1) 0) ≡ none
  pub no_form : c.cgi ≡ false
  pub unnamed : c.real_file ≡ replicate filename_len 0
  pub unanswered : IsUnanswered c
  pub rooted : length (c_string c.doc_root) < filename_len

module _ (path : List ℕ) (lines : List (List ℕ)) (rest : List ℕ) (k : ℕ) (c : Conn)
    (host : Option ℕ) (v : HoldsGet path lines rest k c) where
  abbrev parsed : Conn
  parsed = behind get path lines rest host c

  abbrev after : List ℕ
  after = behind_target path (cut_lines lines ++ 0 ∷ 0 ∷ rest)

  -- The URL in the buffer behind the parser.
  url_text : drop 4 parsed.read_buf ≡ target path ++ 0 ∷ after
  url_text =
      ap (drop 4) (append_assoc (cut_line get path []) (cut_lines lines) (0 ∷ 0 ∷ rest))
      ∙ target-text (codes "GET") path (cut_lines lines ++ 0 ∷ 0 ∷ rest)

  flag_lem : get_or parsed.read_buf (4 + k + 1) 0 ≡ get_or (target path) (k + 1) 0
  flag_lem =
      let near : 4 + k + 1 ≡ 4 + (k + 1) = omega arith in
      let inside : k + 1 ≤ length (target path) =
        omega (arith, strrchr-lt (target path) b'/' k v.last_slash) in
      ap (λ i. get_or parsed.read_buf i 0) near
      ∙ get_or-drop 4 (k + 1) parsed.read_buf
      ∙ ap (λ s. get_or s (k + 1) 0) url_text
      ∙ get_or-terminated (target path) after (k + 1) inside

  routed :
      (mysql_query : List ℕ → Bool) (stat : List ℕ → Option FileStat) (users : Users)
      → (let root = c_string c.doc_root in
          let found =
            open_found
              (record parsed { real_file = named root (target path) })
              (stat (file_name root (target path))) in
          do_request mysql_query stat users parsed ≡ some (found.0, users, found.1))
  routed q stat users =
      let t = target-IsText path v.holds_head.text in
      let url : c_string (text_at parsed 4) ≡ target path =
        ap c_string url_text ∙ c_string-IsText (target path) after t in
      let slash : strrchr (text_at parsed 4) b'/' ≡ some k =
        ap (λ s. strrchr s b'/') url_text
        ∙ strrchr-IsText (target path) after b'/' t
        ∙ v.last_slash in
      do_request-get q stat 4 k users parsed refl v.no_form slash
        (ap digit_page flag_lem ∙ v.no_page) v.unnamed v.rooted
      ∙ ap
          (λ url.
            let root = c_string c.doc_root in
            let found =
              open_found (record parsed { real_file = named root url })
                (stat (file_name root url)) in
            some (found.0, users, found.1))
          url

  -- The object when the file's name is known.
  abbrev named_file : Conn
  named_file = record parsed { real_file = named (c_string c.doc_root) (target path) }

  routed-file :
      (mysql_query : List ℕ → Bool) (stat : List ℕ → Option FileStat) (users : Users) (f : FileStat)
      → stat (file_name (c_string c.doc_root) (target path)) ≡ some f
      → IsReadable f
      → do_request mysql_query stat users parsed
        ≡ some (file_request, users, with_file named_file f)
  routed-file q stat users f e r =
      routed q stat users
      ∙ ap (λ s. let found = open_found named_file s in some (found.0, users, found.1)) e
      ∙ ap (λ (found : HttpCode × Conn). some (found.0, users, found.1))
          (open_found-IsReadable named_file f r)

pub served :
    (mysql_query : List ℕ → Bool) (stat : List ℕ → Option FileStat) (rs : List Writev)
    (path : List ℕ) (lines : List (List ℕ)) (rest : List ℕ) (k : ℕ) (f : FileStat) (w : World)
    → HoldsGet path lines rest k w.conn
    → stat (file_name (c_string w.conn.doc_root) (target path)) ≡ some f
    → IsReadable f
    → length (answer_header lines f w.conn) < 1000
    → Accepts rs (answer_header lines f w.conn) f.bytes
    → IsAnswered w (process mysql_query stat w) rs (answer_header lines f w.conn ++ f.bytes)
served q stat rs path lines rest k f w v e r short conforms =
    let c = w.conn in
    let (host, parse) = process_read-get path lines rest c v.holds_head v.no_body in
    let u = v.unanswered in
    answered q stat rs w (behind get path lines rest host c) (named_file path lines rest k c host v)
      w.users f parse (routed-file path lines rest k c host v q stat w.users f e r) r
      (record {
        bounded = record { whole = u.bounded.whole; inside = u.bounded.inside };
        empty = u.empty;
        unsent = u.unsent;
      })
      short conforms
