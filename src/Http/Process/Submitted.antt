-- ===== src/Http/Process/Submitted.antt =====
-- A POST request with a form from the bytes that were read to the bytes that are written: `process`
-- and `write` of http_conn.cpp on a login or a registration.
use make_linux_server.Base.{
  ℕ, suc, ◌+◌, ◌≤◌, ◌<◌, ◌≡◌, refl, ap, sym, ◌∙◌, Bool, true, Option, some, List, [], ◌∷◌, ◌++◌,
  append_assoc, length, length-append, length-drop, drop, replicate, arith,
}
use make_linux_server.Base.Int.{pos}
use make_linux_server.Http.{Conn, HttpCode, filename_len, file_request, post}
use make_linux_server.Http.CString.{codes, c_string, strrchr}
use make_linux_server.Http.CString.Laws.{c_string-IsText}
use make_linux_server.Http.Request.First.{cut_line, version_line}
use make_linux_server.Http.Request.Headers.{all_announced}
use make_linux_server.Http.Read.Lines.{cut_lines, header_size}
use make_linux_server.Http.Read.Head.{HoldsHead, head, length-head, request_size}
use make_linux_server.Http.Read.Posted.{posted, process_read-post}
use make_linux_server.Http.Route.{FileStat, Users, insert_sql, do_request, open_found}
use make_linux_server.Http.Route.Target.{named, file_name}
use make_linux_server.Http.Route.Text.{target, target-text, target-IsText, strrchr-IsText}
use make_linux_server.Http.Route.Form.{AreFields, form_text, read_form_lem}
use make_linux_server.Http.Route.Submit.{Page, page_url, form_result, with_page}
use make_linux_server.Http.Route.FormPage.{HoldsForm, form_flag, do_request-form}
use make_linux_server.Http.Write.{Writev}
use make_linux_server.Http.Process.{World, process}
use make_linux_server.Http.Process.Answered.{
  IsReadable, with_file, open_found-IsReadable, IsUnanswered, answer_header, Accepts, IsAnswered,
  answered,
}

-- The path of a form: a '2' or '3', and the rest of its name.
abbrev pub form_path : Bool → List ℕ → List ℕ
form_path new more = form_flag new ∷ more

-- The object holds a POST request with a form as a whole: the login for a path `/2…`, and the
-- registration for `/3…`. The path has no other '/', and the header announces the form's length. A
-- byte `b` and `rest` follow in the array.
pub record HoldsPost (new : Bool) (more : List ℕ) (lines : List (List ℕ)) (name passwd : List ℕ)
    (b : ℕ) (rest : List ℕ) (c : Conn) : Type 0 where
  pub holds_head : HoldsHead post (form_path new more) lines (form_text name passwd ++ b ∷ rest) c
  pub body_length : all_announced lines c.content_length ≡ pos (length (form_text name passwd))
  pub read_body :
      request_size post (form_path new more) + header_size lines + length (form_text name passwd)
      ≤ c.read_idx
  pub last_slash : strrchr (target (form_path new more)) b'/' ≡ some 0
  pub short : length more < 199
  pub fields : AreFields name passwd
  pub statement : new ≡ true → length (insert_sql name passwd) < 200
  pub unnamed : c.real_file ≡ replicate filename_len 0
  pub unanswered : IsUnanswered c
  pub rooted : length (c_string c.doc_root) < filename_len

form_text-append :
    (name passwd r : List ℕ)
    → form_text name passwd ++ r ≡ codes "user=" ++ (name ++ (codes "&password=" ++ (passwd ++ r)))
form_text-append name passwd r =
    ap (λ l. codes "user=" ++ l) (append_assoc name (codes "&password=" ++ passwd) r)

-- The bytes in front of the URL.
abbrev pub method_bytes : List ℕ
method_bytes = codes "POST" ++ 0 ∷ []

module _ (new : Bool) (more : List ℕ) (lines : List (List ℕ)) (name passwd : List ℕ) (b : ℕ)
    (rest : List ℕ) (c : Conn) (host : Option ℕ)
    (v : HoldsPost new more lines name passwd b rest c) where
  abbrev path : List ℕ
  path = form_path new more

  abbrev body : List ℕ
  body = form_text name passwd

  abbrev parsed : Conn
  parsed = posted path lines body rest host c

  abbrev pub url_bytes : List ℕ
  url_bytes = drop 5 parsed.read_buf

  abbrev behind_path : List ℕ
  behind_path = version_line [] ++ (cut_lines lines ++ 0 ∷ 0 ∷ (body ++ 0 ∷ rest))

  url_text : url_bytes ≡ target path ++ 0 ∷ behind_path
  url_text =
      let text = 0 ∷ 0 ∷ (body ++ 0 ∷ rest) in
      ap (drop 5) (append_assoc (cut_line post path []) (cut_lines lines) text)
      ∙ target-text (codes "POST") path (cut_lines lines ++ text)

  more_text : drop 7 parsed.read_buf ≡ more ++ 0 ∷ behind_path
  more_text = ap (drop 2) url_text

  size_lem : 20 ≤ length url_bytes
  size_lem =
      let before = head post path lines in
      let text = 0 ∷ 0 ∷ (body ++ 0 ∷ rest) in
      omega (
        arith,
        length-drop {A = ℕ} 5 parsed.read_buf,
        length-append before text,
        length-head post path lines,
        length-append body (0 ∷ rest),
        length-append (codes "user=") (name ++ (codes "&password=" ++ passwd)),
        length-append name (codes "&password=" ++ passwd),
        length-append (codes "&password=") passwd,
      )

  holds_form : HoldsForm method_bytes url_bytes name passwd new parsed
  holds_form =
      let before = head post path lines ++ 0 ∷ 0 ∷ [] in
      let size : length before ≡ request_size post path + header_size lines =
        omega
          (arith, length-append (head post path lines) (0 ∷ 0 ∷ []), length-head post path lines) in
      let text : parsed.read_buf
          ≡ before ++ (codes "user=" ++ (name ++ (codes "&password=" ++ (passwd ++ 0 ∷ rest)))) =
        sym (append_assoc (head post path lines) (0 ∷ 0 ∷ []) (body ++ 0 ∷ rest))
        ∙ ap (λ l. before ++ l) (form_text-append name passwd (0 ∷ rest)) in
      let t = v.holds_head.text in
      record {
        url = refl;
        posted = refl;
        last_slash =
            ap (λ s. strrchr s b'/') url_text
            ∙ strrchr-IsText (target path) behind_path b'/' (target-IsText path t)
            ∙ v.last_slash;
        flag = refl;
        short = omega (
          arith,
          ap (λ s. length (c_string s)) more_text,
          ap (length {A = ℕ}) (c_string-IsText more behind_path t.3),
          v.short,
        );
        form = read_form_lem before name passwd rest parsed v.fields (ap some (sym size)) text;
        buffer = refl;
        room = size_lem;
        statement = v.statement;
        unnamed = v.unnamed;
        rooted = v.rooted;
      }

  -- The object with the page over the URL and its file's name.
  abbrev moved_to : Page → Conn
  moved_to page = record parsed {
    read_buf = with_page method_bytes url_bytes page;
    real_file = named (c_string c.doc_root) (page_url page);
  }

  routed-page :
      (mysql_query : List ℕ → Bool) (stat : List ℕ → Option FileStat) (users : Users) (f : FileStat)
      → (let (page, later) = form_result mysql_query new name passwd users in
          stat (file_name (c_string c.doc_root) (page_url page)) ≡ some f
          → IsReadable f
          → do_request mysql_query stat users parsed
            ≡ some (file_request, later, with_file (moved_to page) f))
  routed-page q stat users f e r =
      let (page, later) = form_result q new name passwd users in
      do_request-form q stat method_bytes url_bytes name passwd new users parsed holds_form
      ∙ ap (λ s. let found = open_found (moved_to page) s in some (found.0, later, found.1)) e
      ∙ ap (λ (found : HttpCode × Conn). some (found.0, later, found.1))
          (open_found-IsReadable (moved_to page) f r)

-- The page of a form, and the users behind it.
abbrev pub page_of : (List ℕ → Bool) → Bool → List ℕ → List ℕ → World → Page
page_of mysql_query new name passwd w = (form_result mysql_query new name passwd w.users).0

abbrev pub users_of : (List ℕ → Bool) → Bool → List ℕ → List ℕ → World → Users
users_of mysql_query new name passwd w = (form_result mysql_query new name passwd w.users).1

pub submitted :
    (mysql_query : List ℕ → Bool) (stat : List ℕ → Option FileStat) (rs : List Writev) (new : Bool)
    (more : List ℕ) (lines : List (List ℕ)) (name passwd : List ℕ) (b : ℕ) (rest : List ℕ)
    (f : FileStat) (w : World)
    → HoldsPost new more lines name passwd b rest w.conn
    → stat (file_name (c_string w.conn.doc_root) (page_url (page_of mysql_query new name passwd w)))
      ≡ some f
    → IsReadable f
    → length (answer_header lines f w.conn) < 1000
    → Accepts rs (answer_header lines f w.conn) f.bytes
    → IsAnswered
        (record w { users = users_of mysql_query new name passwd w })
        (process mysql_query stat w)
        rs
        (answer_header lines f w.conn ++ f.bytes)
submitted q stat rs new more lines name passwd b rest f w v e r short conforms =
    let c = w.conn in
    let body = form_text name passwd in
    let count = length (name ++ (codes "&password=" ++ passwd)) + 4 in
    let some_body : length body ≡ suc count = omega arith in
    let (host, parse) =
      process_read-post (form_path new more) lines body rest count b c v.holds_head some_body
        v.body_length v.read_body in
    let u = v.unanswered in
    answered q stat rs w (posted (form_path new more) lines body rest host c)
      (moved_to new more lines name passwd b rest c host v (page_of q new name passwd w))
      (users_of q new name passwd w) f parse
      (routed-page new more lines name passwd b rest c host v q stat w.users f e r) r
      (record {
        bounded = record { whole = u.bounded.whole; inside = u.bounded.inside };
        empty = u.empty;
        unsent = u.unsent;
      })
      short conforms
