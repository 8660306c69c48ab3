-- ===== src/Http/Route.antt =====
-- `do_request` of http_conn.cpp: from the URL and the form of a request to the file that answers it.
-- The map `users` is an association list, in which an earlier entry hides a later one. Parameters are
-- `mysql_query` (whether a statement succeeds) and the file system. `none` stands for undefined
-- behaviour: a null pointer, or an access outside of an array.
pub mod Login
pub mod Target
pub mod Text
pub mod Form
pub mod Submit
pub mod FormPage
use make_linux_server.Base.{
  ℕ, zero, suc, ◌+◌, ◌-◌, Bool, true, false, not, Option, none, some, List, [], ◌∷◌, ◌++◌, ◌&&◌,
  ◌||◌, leb, ltb, ◌==◌, if◌then◌else◌, length, get_or, take, drop, replicate,
}
use make_linux_server.Http.{
  Conn, HttpCode, no_resource, forbidden_request, bad_request, file_request, filename_len,
}
use make_linux_server.Http.CString.{codes, c_string, strlen, strrchr, write_bytes}
use make_linux_server.Http.Request.{text_at}

abbrev pub Users : Type 0
Users = List (List ℕ × List ℕ)

unfoldable pub same_bytes : List ℕ → List ℕ → Bool
same_bytes [] [] = true
same_bytes [] (y ∷ ys) = false
same_bytes (x ∷ xs) [] = false
same_bytes (x ∷ xs) (y ∷ ys) = x == y && same_bytes xs ys

-- `users.find`
unfoldable pub find_user : List ℕ → Users → Option (List ℕ)
find_user name [] = none
find_user name ((n, p) ∷ us) = if same_bytes n name then some p else find_user name us

-- `initmysql_result`, on the rows that the query of all users returns.
unfoldable pub load_users : List (List ℕ × List ℕ) → Users → Users
load_users [] users = users
load_users (row ∷ rows) users = load_users rows (row ∷ users)

-- What `stat` finds: whether others may read, whether it is a directory, and the content; and whether
-- `open` and `mmap`, whose results are not looked at, then succeed.
pub record FileStat : Type 0 where
  pub others_read : Bool
  pub directory : Bool
  pub bytes : List ℕ
  pub can_map : Bool

abbrev pub then_do : {A B : Type 0} → Option A → (A → Option B) → Option B
then_do none f = none
then_do (some a) f = f a

-- The copy of a form's value into an array with `room` bytes, up to a byte, and its terminator.
unfoldable pub copy_until : ℕ → ℕ → List ℕ → Option (List ℕ)
copy_until until zero bytes = none
copy_until until (suc room) [] = none
copy_until until (suc room) (b ∷ bs) =
    let rest = copy_until until room bs in
    if b == until then some [] else then_do rest (λ text. some (b ∷ text))

-- `strncpy(m_real_file + len, text, n)`
unfoldable pub strncpy_file : ℕ → List ℕ → ℕ → Conn → Option Conn
strncpy_file len text n c =
    let copied = take n (c_string text) in
    then_do (write_bytes c.real_file len (copied ++ replicate (n - length copied) 0))
      (λ array. some (record c { real_file = array }))

-- `strcpy(m_url, text)`
unfoldable pub set_url : List ℕ → ℕ → Conn → Option Conn
set_url text u c =
    then_do (write_bytes c.read_buf u (text ++ 0 ∷ []))
      (λ array. some (record c { read_buf = array }))

-- The user's name and password of `user=…&password=…` at `m_string`, each in 100 bytes.
unfoldable pub read_form : Conn → Option (List ℕ × List ℕ)
unfolding copy_until
read_form c = then_do c.string (λ s.
    then_do (copy_until b'&' 100 (drop (s + 5) c.read_buf)) (λ name.
      then_do (copy_until 0 100 (drop (s + 5 + length name + 10) c.read_buf))
        (λ passwd. some (c_string name, passwd))))

abbrev pub insert_sql : List ℕ → List ℕ → List ℕ
insert_sql name passwd =
    codes "INSERT INTO user(username,passwd) VALUES("
    ++ (codes "'" ++ (name ++ (codes "','" ++ (passwd ++ codes "')"))))

-- What is done with the name's entry in `users`.
unfoldable pub enroll :
    (List ℕ → Bool) → List ℕ → List ℕ → ℕ → Users → Conn → Option (List ℕ) → Option (Users × Conn)
unfolding set_url
enroll mysql_query name passwd u users c (some known) =
    then_do (set_url (codes "/registerError.html") u c) (λ d. some (users, d))
enroll mysql_query name passwd u users c none =
    let page =
      if mysql_query (insert_sql name passwd)
      then codes "/log.html"
      else codes "/registerError.html" in
    then_do (set_url page u c) (λ d. some ((name, passwd) ∷ users, d))

-- The registration. The text of the statement has 200 bytes. `m_url` is at `u`.
unfoldable pub register :
    (List ℕ → Bool) → List ℕ → List ℕ → ℕ → Users → Conn → Option (Users × Conn)
unfolding find_user enroll
register mysql_query name passwd u users c =
    if leb 200 (length (insert_sql name passwd))
    then none
    else enroll mysql_query name passwd u users c (find_user name users)

abbrev pub knows : List ℕ → Option (List ℕ) → Bool
knows passwd none = false
knows passwd (some p) = same_bytes p passwd

unfoldable pub login : List ℕ → List ℕ → ℕ → Users → Conn → Option (Users × Conn)
unfolding find_user set_url same_bytes
login name passwd u users c =
    let page =
      if knows passwd (find_user name users)
      then codes "/welcome.html"
      else codes "/logError.html" in
    then_do (set_url page u c) (λ d. some (users, d))

-- The branch for a form: `flag` is the byte behind the last '/' of the URL.
unfoldable pub submit_form : (List ℕ → Bool) → ℕ → ℕ → ℕ → Users → Conn → Option (Users × Conn)
unfolding strncpy_file read_form register login
submit_form mysql_query flag len u users c =
    let url_real = 47 ∷ c_string (drop (u + 2) c.read_buf) in
    if leb 200 (length url_real)
    then none
    else then_do (strncpy_file len url_real (filename_len - len - 1) c) (λ named.
      then_do (read_form named) (λ form.
        if flag == b'3'
        then register mysql_query form.0 form.1 u users named
        else login form.0 form.1 u users named))

-- The page that a digit behind the last '/' stands for, with the number of bytes copied.
unfoldable pub digit_page : ℕ → Option (List ℕ × ℕ)
digit_page flag =
    if flag == b'0'
    then some (codes "/register.html", 15)
    else if flag == b'1'
    then some (codes "/log.html", 9)
    else if flag == b'5'
    then some (codes "/picture.html", 13)
    else if flag == b'6'
    then some (codes "/video.html", 11)
    else if flag == b'7'
    then some (codes "/fans.html", 10)
    else none

unfoldable pub choose_file : ℕ → ℕ → ℕ → Conn → Option Conn
unfolding digit_page strncpy_file
choose_file flag len u c = elim (digit_page flag) [
  | some (page, n) ↦ strncpy_file len page n c
  | none ↦ strncpy_file len (text_at c u) (filename_len - len - 1) c
]

-- From the result of `stat` on. When `open` or `mmap` fails, `m_file_address` is MAP_FAILED, and no
-- byte of the file can be read there.
unfoldable pub open_found : Conn → Option FileStat → HttpCode × Conn
open_found c none = (no_resource, c)
open_found c (some f) =
    let sized = record c { file_size = length f.bytes } in
    if not f.others_read
    then (forbidden_request, sized)
    else if f.directory
    then (bad_request, sized)
    else (file_request, record sized { file = if f.can_map then some f.bytes else none })

unfoldable pub open_file : (List ℕ → Option FileStat) → Conn → HttpCode × Conn
unfolding open_found
open_file stat c = open_found c (stat (c_string c.real_file))

-- With `m_url` at `u`, its last '/' at `u + k`, and the root of `len` bytes in `m_real_file`.
unfoldable pub submit_if_form : (List ℕ → Bool) → ℕ → ℕ → ℕ → Users → Conn → Option (Users × Conn)
unfolding submit_form
submit_if_form mysql_query len u k users c =
    let flag = get_or c.read_buf (u + k + 1) 0 in
    if c.cgi && (flag == b'2' || flag == b'3')
    then submit_form mysql_query flag len u users c
    else some (users, c)

abbrev pub opened : (List ℕ → Option FileStat) → Users → Conn → HttpCode × Users × Conn
opened stat users c = let (code, d) = open_file stat c in (code, users, d)

unfoldable pub serve_file :
    (List ℕ → Option FileStat) → ℕ → ℕ → ℕ → Users × Conn → Option (HttpCode × Users × Conn)
unfolding choose_file open_file
serve_file stat len u k (users, c) =
    then_do (choose_file (get_or c.read_buf (u + k + 1) 0) len u c)
      (λ named. some (opened stat users named))

unfoldable pub serve_rooted :
    (List ℕ → Bool)
    → (List ℕ → Option FileStat)
    → ℕ
    → ℕ
    → ℕ
    → Users
    → Conn
    → Option (HttpCode × Users × Conn)
unfolding submit_if_form serve_file
serve_rooted mysql_query stat len u k users c =
    then_do (submit_if_form mysql_query len u k users c) (serve_file stat len u k)

unfoldable pub serve :
    (List ℕ → Bool)
    → (List ℕ → Option FileStat)
    → ℕ
    → ℕ
    → Users
    → Conn
    → Option (HttpCode × Users × Conn)
unfolding serve_rooted
serve mysql_query stat u k users c =
    then_do (write_bytes c.real_file 0 (c_string c.doc_root ++ 0 ∷ [])) (λ array.
      serve_rooted mysql_query stat (strlen c.doc_root) u k users (record c { real_file = array }))

unfoldable pub do_request :
    (List ℕ → Bool) → (List ℕ → Option FileStat) → Users → Conn → Option (HttpCode × Users × Conn)
unfolding serve
do_request mysql_query stat users c =
    then_do c.url
      (λ u. then_do (strrchr (text_at c u) b'/') (λ k. serve mysql_query stat u k users c))
