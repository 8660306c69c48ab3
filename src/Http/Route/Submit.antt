-- ===== src/Http/Route/Submit.antt =====
-- `do_request` of http_conn.cpp on a form: the login or the registration, and the page that is then
-- looked up in place of the URL.
use make_linux_server.Base.{
  ℕ, ◌+◌, ◌≤◌, ◌<◌, ◌≡◌, refl, ap, ◌∙◌, Bool, true, false, Option, none, some, List, [], ◌∷◌, ◌++◌,
  leb, if◌then◌else◌, length, get_or, drop, length-append, append_assoc, arith, Bool-cases,
  Option-cases, inl, inr,
}
use make_linux_server.Http.{Conn}
use make_linux_server.Http.CString.{codes, write_bytes}
use make_linux_server.Http.CString.Laws.{IsText, write_bytes-append}
use make_linux_server.Http.Route.{
  Users, same_bytes, then_do, find_user, insert_sql, enroll, register, login, set_url, digit_page,
}

-- The pages that a form leads to.
pub data Page : Type 0 where
  welcome log_error log register_error : Page

abbrev pub page_url : Page → List ℕ
page_url welcome = codes "/welcome.html"
page_url log_error = codes "/logError.html"
page_url log = codes "/log.html"
page_url register_error = codes "/registerError.html"

-- A login: the page depends on the password, and the users stay.
abbrev pub login_page : List ℕ → Option (List ℕ) → Page
login_page passwd none = log_error
login_page passwd (some known) = if same_bytes known passwd then welcome else log_error

-- A registration: a known name is refused, and a new one is added whatever the statement returns.
abbrev pub registered : Bool → List ℕ → List ℕ → Users → Option (List ℕ) → Page × Users
registered inserted name passwd users (some known) = (register_error, users)
registered true name passwd users none = (log, (name, passwd) ∷ users)
registered false name passwd users none = (register_error, (name, passwd) ∷ users)

-- The page and the users behind a form, for `/2…` and for `/3…`.
abbrev pub form_result : (List ℕ → Bool) → Bool → List ℕ → List ℕ → Users → Page × Users
form_result mysql_query false name passwd users = (login_page passwd (find_user name users), users)
form_result mysql_query true name passwd users =
    registered (mysql_query (insert_sql name passwd)) name passwd users (find_user name users)

page_url-lt : (p : Page) → length (page_url p) < 20
page_url-lt welcome = omega arith
page_url-lt log_error = omega arith
page_url-lt log = omega arith
page_url-lt register_error = omega arith

pub page_url-IsText : (p : Page) → IsText (page_url p)
page_url-IsText welcome = omega arith
page_url-IsText log_error = omega arith
page_url-IsText log = omega arith
page_url-IsText register_error = omega arith

-- No page is one of a digit.
pub page_flag : (p : Page) (r : List ℕ) → digit_page (get_or (page_url p ++ r) 1 0) ≡ none
unfolding digit_page
page_flag welcome r = refl
page_flag log_error r = refl
page_flag log r = refl
page_flag register_error r = refl

-- What `strcpy(m_url, page)` leaves.
abbrev pub with_page : List ℕ → List ℕ → Page → List ℕ
with_page xs ys p = xs ++ (page_url p ++ 0 ∷ drop (length (page_url p) + 1) ys)

set_url-page :
    (xs ys : List ℕ) (p : Page) (c : Conn)
    → c.read_buf ≡ xs ++ ys
    → 20 ≤ length ys
    → set_url (page_url p) (length xs) c ≡ some (record c { read_buf = with_page xs ys p })
unfolding set_url
set_url-page xs ys p c e h =
    let text = page_url p ++ 0 ∷ [] in
    let size : length text ≡ length (page_url p) + 1 = length-append (page_url p) (0 ∷ []) in
    ap
      (λ buf.
        then_do (write_bytes buf (length xs) text) (λ array. some (record c { read_buf = array })))
      e
    ∙ ap (λ o. then_do o (λ array. some (record c { read_buf = array })))
        (write_bytes-append xs ys text (omega (arith, size, page_url-lt p)))
    ∙ ap (λ k. some (record c { read_buf = xs ++ (text ++ drop k ys) })) size
    ∙ ap (λ l. some (record c { read_buf = xs ++ l }))
        (append_assoc (page_url p) (0 ∷ []) (drop (length (page_url p) + 1) ys))

-- The object when the page has been written.
abbrev pub moved : List ℕ → List ℕ → Page × Users → Conn → Option (Users × Conn)
moved xs ys r c = some (r.1, record c { read_buf = with_page xs ys r.0 })

module _ (mysql_query : List ℕ → Bool) (name passwd : List ℕ) (xs ys : List ℕ) (users : Users)
    (c : Conn) (e : c.read_buf ≡ xs ++ ys) (room : 20 ≤ length ys) where
  set_lem :
      (p : Page) (later : Users)
      → then_do (set_url (page_url p) (length xs) c) (λ d. some (later, d))
        ≡ moved xs ys (p, later) c
  set_lem p later =
      ap (λ o. then_do o (λ (d : Conn). some (later, d))) (set_url-page xs ys p c e room)

  pub login_lem :
      login name passwd (length xs) users c
      ≡ moved xs ys (form_result mysql_query false name passwd users) c
  unfolding login
  login_lem = elim (Option-cases (find_user name users)) [
    | inl n ↦ rw n (set_lem log_error users)
    | inr (known, f) ↦ elim (Bool-cases (same_bytes known passwd)) [
      | inl k ↦ rw (f, k) (set_lem welcome users)
      | inr k ↦ rw (f, k) (set_lem log_error users)
    ]
  ]

  pub register_lem :
      length (insert_sql name passwd) < 200
      → register mysql_query name passwd (length xs) users c
        ≡ moved xs ys (form_result mysql_query true name passwd users) c
  unfolding register enroll
  register_lem short =
      let fits : leb 200 (length (insert_sql name passwd)) ≡ false = ground arith in
      let q = mysql_query (insert_sql name passwd) in
      elim (Option-cases (find_user name users)) [
        | inr (known, f) ↦ rw (fits, f) (set_lem register_error users)
        | inl n ↦ elim (Bool-cases q) [
          | inl k ↦ rw (fits, n, k) (set_lem log ((name, passwd) ∷ users))
          | inr k ↦ rw (fits, n, k) (set_lem register_error ((name, passwd) ∷ users))
        ]
      ]
