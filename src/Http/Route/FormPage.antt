-- ===== src/Http/Route/FormPage.antt =====
-- The page that `do_request` of http_conn.cpp looks up for a form.
use mathlib.Core.Path.{subst}
use make_linux_server.Base.{
  ℕ, zero, suc, ◌+◌, ◌-◌, ◌≤◌, ◌<◌, ◌≡◌, refl, ap, sym, ◌∙◌, Bool, true, false, Option, none, some,
  List, [], ◌∷◌, ◌++◌, ◌&&◌, ◌||◌, ◌==◌, leb, if◌then◌else◌, length, get_or, take, drop, replicate,
  length-append, length-take, length-replicate, append_assoc, arith, Bool-cases, inl, inr,
}
use make_linux_server.Http.{Conn, HttpCode, filename_len}
use make_linux_server.Http.CString.{c_string, strrchr}
use make_linux_server.Http.CString.Laws.{drop-append, get_or-append, c_string-IsText}
use make_linux_server.Http.Request.{text_at}
use make_linux_server.Http.Route.{
  Users, FileStat, then_do, read_form, insert_sql, register, login, submit_form, submit_if_form,
  choose_file, digit_page, open_file, open_found, opened, serve_file, serve_rooted, do_request,
}
use make_linux_server.Http.Route.Target.{
  NoZero, c_string-NoZero, zeros, file_name, named, named-file_name, do_request-rooted,
}
use make_linux_server.Http.Route.Form.{strncpy_file_lem}
use make_linux_server.Http.Route.Submit.{
  Page, page_url, page_url-IsText, page_flag, form_result, with_page, moved, login_lem,
  register_lem,
}

-- `/2…` is the login, and `/3…` the registration.
abbrev pub form_flag : Bool → ℕ
form_flag false = b'2'
form_flag true = b'3'

-- The object holds a form, behind the parser: `m_url` is in `xs ++ ys` at the start of `ys`.
pub record HoldsForm (xs ys name passwd : List ℕ) (new : Bool) (c : Conn) : Type 0 where
  pub url : c.url ≡ some (length xs)
  pub posted : c.cgi ≡ true
  pub last_slash : strrchr (text_at c (length xs)) b'/' ≡ some 0
  pub flag : get_or c.read_buf (length xs + 0 + 1) 0 ≡ form_flag new
  pub short : length (c_string (drop (length xs + 2) c.read_buf)) < 199
  pub form : read_form c ≡ some (name, passwd)
  pub buffer : c.read_buf ≡ xs ++ ys
  pub room : 20 ≤ length ys
  pub statement : new ≡ true → length (insert_sql name passwd) < 200
  pub unnamed : c.real_file ≡ replicate filename_len 0
  pub rooted : length (c_string c.doc_root) < filename_len

zeros-snoc : (m : ℕ) → zeros (suc m) ≡ zeros m ++ 0 ∷ []
zeros-snoc zero = refl
zeros-snoc (suc m) = ap (λ (l : List ℕ). 0 ∷ l) (zeros-snoc m)

zeros-last : (n m : ℕ) → n ≡ suc m → zeros n ≡ zeros m ++ 0 ∷ []
zeros-last n m e = ap zeros e ∙ zeros-snoc m

-- The text behind the root, and its size.
length-padded :
    (text : List ℕ) (m : ℕ) → m ≡ length (take m text ++ zeros (m - length (take m text)))
length-padded text m =
    let copied = take m text in
    omega (
      arith,
      length-append copied (zeros (m - length copied)),
      length-replicate {A = ℕ} (m - length copied) 0,
      length-take m text,
    )

module _ (mysql_query : List ℕ → Bool) (xs ys name passwd : List ℕ) (new : Bool) (users : Users)
    (c : Conn) (v : HoldsForm xs ys name passwd new c) where
  abbrev root : List ℕ
  root = c_string c.doc_root

  abbrev left : ℕ
  left = filename_len - length root - 1

  abbrev rooted : Conn
  rooted = record c { real_file = root ++ zeros (filename_len - length root) }

  abbrev url_real : List ℕ
  url_real = 47 ∷ c_string (drop (length xs + 2) c.read_buf)

  -- The object with the form's own name in `m_real_file`.
  abbrev form_named : Conn
  form_named = record c { real_file = named root (c_string url_real) }

  abbrev result : Page × Users
  result = form_result mysql_query new name passwd users

  -- The fields are read, whatever is done with them.
  read_fields :
      (flag : ℕ) (later : Option (Users × Conn))
      → (if flag == b'3'
          then register mysql_query name passwd (length xs) users form_named
          else login name passwd (length xs) users form_named)
        ≡ later
      → submit_form mysql_query flag (length root) (length xs) users rooted ≡ later
  unfolding submit_form read_form
  read_fields flag later done =
      let fits : leb 200 (length url_real) ≡ false = ground (arith, v.short) in
      let one : filename_len - length root ≡ suc left = omega (arith, v.rooted) in
      let copied =
        strncpy_file_lem root (zeros left) url_real rooted (sym (length-replicate {A = ℕ} left 0))
          (ap (λ l. root ++ l) (zeros-last (filename_len - length root) left one)) in
      rw (fits, copied, v.form) done

  submitted :
      (b : Bool)
      → new ≡ b
      → submit_form mysql_query (form_flag b) (length root) (length xs) users rooted
        ≡ moved xs ys (form_result mysql_query b name passwd users) form_named
  submitted true same =
      read_fields b'3' (moved xs ys (form_result mysql_query true name passwd users) form_named) (
        register_lem mysql_query name passwd xs ys users form_named v.buffer v.room
          (v.statement same))
  submitted false same =
      read_fields b'2' (moved xs ys (form_result mysql_query false name passwd users) form_named)
        (login_lem mysql_query name passwd xs ys users form_named v.buffer v.room)

  -- What is looked up then.
  abbrev turned : Conn
  turned = record c { read_buf = with_page xs ys result.0 }

  page_text :
      drop (length xs) turned.read_buf
      ≡ page_url result.0 ++ 0 ∷ drop (length (page_url result.0) + 1) ys
  page_text =
      let e : length xs ≡ length xs + 0 = omega arith in
      ap (λ k. drop k turned.read_buf) e
      ∙ drop-append xs (page_url result.0 ++ 0 ∷ drop (length (page_url result.0) + 1) ys) 0

  chosen :
      (let u = length xs in
        let moved = record form_named { read_buf = turned.read_buf } in
        choose_file (get_or turned.read_buf (u + 0 + 1) 0) (length root) u moved
        ≡ some (record turned { real_file = named root (page_url result.0) }))
  unfolding choose_file
  chosen =
      let u = length xs in
      let p = result.0 in
      let r = 0 ∷ drop (length (page_url p) + 1) ys in
      let moved = record form_named { read_buf = turned.read_buf } in
      let near : u + 0 + 1 ≡ u + 1 = omega arith in
      let no_digit : digit_page (get_or turned.read_buf (u + 0 + 1) 0) ≡ none =
        ap (λ k. digit_page (get_or turned.read_buf k 0)) near
        ∙ ap digit_page (get_or-append xs (page_url p ++ r) 1 0)
        ∙ page_flag p r in
      let copied = take left (c_string url_real) in
      let old = copied ++ zeros (left - length copied) in
      let text : c_string (text_at moved u) ≡ page_url p =
        ap c_string page_text
        ∙ c_string-IsText (page_url p) (drop (length (page_url p) + 1) ys) (page_url-IsText p) in
      let stored =
        strncpy_file_lem root old (text_at moved u) moved (length-padded (c_string url_real) left) (
          ap (λ l. root ++ l)
            (sym (append_assoc copied (zeros (left - length copied)) (0 ∷ [])))) in
      rw (no_digit, choose_file)
        (stored ∙ ap (λ t. some (record turned { real_file = named root t })) text)

  abbrev found : (List ℕ → Option FileStat) → HttpCode × Conn
  found stat =
      open_found (record turned { real_file = named root (page_url result.0) })
        (stat (file_name root (page_url result.0)))

  served_page :
      (stat : List ℕ → Option FileStat)
      → serve_file stat
          (length root)
          (length xs)
          0
          (result.1, record form_named { read_buf = turned.read_buf })
        ≡ some ((found stat).0, result.1, (found stat).1)
  unfolding serve_file open_file
  served_page stat =
      let url = page_url result.0 in
      let e = c_string-IsText url [] (page_url-IsText result.0) in
      let full = subst NoZero e (c_string-NoZero (url ++ 0 ∷ [])) in
      ap (λ o. then_do o (λ d. some (opened stat result.1 d))) chosen
      ∙ ap
          (λ name.
            let found = open_found (record turned { real_file = named root url }) (stat name) in
            some (found.0, result.1, found.1))
          (named-file_name root url (c_string-NoZero c.doc_root) full)

  form_lem : (flag : ℕ) → flag ≡ form_flag new → (c.cgi && (flag == b'2' || flag == b'3')) ≡ true
  form_lem flag e =
      let f : (form_flag new == b'2' || form_flag new == b'3') ≡ true = elim (Bool-cases new) [
        | inl t ↦ rw t refl
        | inr t ↦ rw t refl
      ] in
      rw (v.posted) (ap (λ k. k == b'2' || k == b'3') e ∙ f)

  serve_rooted-form :
      (stat : List ℕ → Option FileStat)
      → serve_rooted mysql_query stat (length root) (length xs) 0 users rooted
        ≡ some ((found stat).0, result.1, (found stat).1)
  unfolding serve_rooted submit_if_form
  serve_rooted-form stat =
      let flag = get_or c.read_buf (length xs + 0 + 1) 0 in
      let is_form = form_lem flag v.flag in
      rw is_form (
        ap
          (λ k.
            then_do (submit_form mysql_query k (length root) (length xs) users rooted)
              (serve_file stat (length root) (length xs) 0))
          v.flag
        ∙ ap (λ o. then_do o (serve_file stat (length root) (length xs) 0)) (submitted new refl)
        ∙ served_page stat)

-- A form is answered with its page. When the object holds the fields of a login (`/2…`) or of a
-- registration (`/3…`), `do_request` looks up `/welcome.html` if the password is the user's and
-- `/logError.html` if not; a new user is added to `users` whatever the statement returns, and
-- `/log.html` is looked up if it succeeds; `/registerError.html` is in all other cases. The text of
-- `m_url` is the page, and nothing of the form's own name is left in `m_real_file`.
pub do_request-form :
    (mysql_query : List ℕ → Bool) (stat : List ℕ → Option FileStat) (xs ys name passwd : List ℕ)
    (new : Bool) (users : Users) (c : Conn)
    → HoldsForm xs ys name passwd new c
    → (let root = c_string c.doc_root in
        let (page, later) = form_result mysql_query new name passwd users in
        let found =
          open_found
            (record c { read_buf = with_page xs ys page; real_file = named root (page_url page) })
            (stat (file_name root (page_url page))) in
        do_request mysql_query stat users c ≡ some (found.0, later, found.1))
do_request-form q stat xs ys name passwd new users c v =
    do_request-rooted q stat (length xs) 0 users c v.url v.last_slash v.unnamed v.rooted
    ∙ serve_rooted-form q xs ys name passwd new users c v stat
