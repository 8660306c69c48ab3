-- ===== src/Http/Route/Target.antt =====
-- Which file `do_request` of http_conn.cpp opens for a URL that is no form and no page of a digit.
use make_linux_server.Base.{
  ℕ, zero, suc, ◌+◌, ◌-◌, ◌<◌, ◌≡◌, ◌≢◌, refl, ap, sym, ◌∙◌, Bool, false, Option, none, some, List,
  [], ◌∷◌, ◌++◌, ◌==◌, length, get_or, take, drop, replicate, length-append, length-take,
  length-replicate, append_assoc, arith, Bool-cases, inl, inr,
}
use make_linux_server.Http.{Conn, filename_len}
use make_linux_server.Http.CString.{c_string, strlen, strrchr, write_bytes}
use make_linux_server.Http.CString.Laws.{write_bytes-append}
use make_linux_server.Http.Request.{text_at}
use make_linux_server.Http.Route.{
  Users, FileStat, then_do, choose_file, digit_page, open_file, open_found, opened, submit_if_form,
  serve_file, serve_rooted, serve, do_request, strncpy_file,
}

-- A byte does not occur.
abbrev pub Avoids : ℕ → List ℕ → Type 0
Avoids b [] = Unit
Avoids b (x ∷ xs) = (x ≢ b) × Avoids b xs

abbrev pub NoZero : List ℕ → Type 0
NoZero bs = Avoids 0 bs

pub c_string-NoZero : (s : List ℕ) → NoZero (c_string s)
unfolding c_string
c_string-NoZero [] = tt
c_string-NoZero (b ∷ s) = elim (Bool-cases (b == 0)) [
  | inl z ↦ rw z tt
  | inr n ↦ rw n (ground arith, c_string-NoZero s)
]

NoZero-append : (a b : List ℕ) → NoZero a → NoZero b → NoZero (a ++ b)
NoZero-append [] b h k = k
NoZero-append (x ∷ a) b h k = (h.0, NoZero-append a b h.1 k)

NoZero-take : (n : ℕ) (s : List ℕ) → NoZero s → NoZero (take n s)
NoZero-take zero s h = tt
NoZero-take (suc n) [] h = tt
NoZero-take (suc n) (x ∷ s) h = (h.0, NoZero-take n s h.1)

strlen-c_string : (s : List ℕ) → strlen s ≡ length (c_string s)
unfolding strlen c_string
strlen-c_string [] = refl
strlen-c_string (b ∷ s) = ground (arith, strlen-c_string s)

c_string-end :
    (w : List ℕ) (k : ℕ) (r : List ℕ) → NoZero w → c_string (w ++ (replicate k 0 ++ 0 ∷ r)) ≡ w
unfolding c_string
c_string-end [] zero r h = refl
c_string-end [] (suc k) r h = refl
c_string-end (b ∷ w) k r h = ground (arith, c_string-end w k r h.1)

abbrev pub zeros : ℕ → List ℕ
zeros n = replicate n 0

drop-replicate : (k n : ℕ) → drop k (zeros n) ≡ zeros (n - k)
drop-replicate zero n = let e : n - 0 ≡ n = omega arith in rw e refl
drop-replicate (suc k) zero = let e : 0 - suc k ≡ 0 = omega arith in rw e refl
drop-replicate (suc k) (suc n) =
    let e : suc n - suc k ≡ n - k = omega arith in rw e (drop-replicate k n)

-- The root, copied into an empty array with its terminator.
root_lem :
    (root : List ℕ) (n : ℕ)
    → length root < n
    → write_bytes (replicate n 0) 0 (root ++ 0 ∷ []) ≡ some (root ++ replicate (n - length root) 0)
root_lem root n h =
    let size = length-append root (0 ∷ []) in
    let left : n - length (root ++ 0 ∷ []) ≡ n - length root - 1 = omega (arith, size) in
    let one : n - length root ≡ suc (n - length root - 1) = omega arith in
    write_bytes-append [] (replicate n 0) (root ++ 0 ∷ [])
      (omega (arith, size, length-replicate {A = ℕ} n 0))
    ∙ ap (λ l. some ((root ++ 0 ∷ []) ++ l))
        (drop-replicate (length (root ++ 0 ∷ [])) n ∙ ap (λ k. replicate k 0) left)
    ∙ ap some (append_assoc root (0 ∷ []) (replicate (n - length root - 1) 0))
    ∙ ap (λ k. some (root ++ replicate k 0)) (sym one)

-- The name of the file: the root and then the URL, as far as the array has room for it.
abbrev pub file_name : List ℕ → List ℕ → List ℕ
file_name root url = root ++ take (filename_len - length root - 1) url

-- The array in which the file's name is built.
name_lem :
    (root url : List ℕ) (n m : ℕ)
    → m ≡ n - length root - 1
    → length root < n
    → (let copied = take m url in
        write_bytes
          (root ++ replicate (n - length root) 0)
          (length root)
          (copied ++ replicate (m - length copied) 0)
        ≡ some (root ++ (copied ++ (replicate (m - length copied) 0 ++ 0 ∷ []))))
name_lem root url n m e h =
    let copied = take m url in
    let text = copied ++ zeros (m - length copied) in
    let size : length text ≡ m = omega (
      arith,
      length-append copied (zeros (m - length copied)),
      length-replicate {A = ℕ} (m - length copied) 0,
      length-take m url,
    ) in
    let left : n - length root - length text ≡ suc zero = omega (arith, size) in
    write_bytes-append root (zeros (n - length root)) text
      (omega (arith, size, length-replicate {A = ℕ} (n - length root) 0))
    ∙ ap (λ l. some (root ++ (text ++ l)))
        (drop-replicate (length text) (n - length root) ∙ ap zeros left)
    ∙ ap (λ l. some (root ++ l)) (append_assoc copied (zeros (m - length copied)) (0 ∷ []))

-- The array that `do_request` makes of an empty one.
abbrev pub named : List ℕ → List ℕ → List ℕ
named root url =
    let copied = take (filename_len - length root - 1) url in
    root ++ (copied ++ (zeros (filename_len - length root - 1 - length copied) ++ 0 ∷ []))

pub named-file_name :
    (root url : List ℕ) → NoZero root → NoZero url → c_string (named root url) ≡ file_name root url
named-file_name root url h k =
    let m = filename_len - length root - 1 in
    let copied = take m url in
    ap c_string (sym (append_assoc root copied (zeros (m - length copied) ++ 0 ∷ [])))
    ∙ c_string-end (root ++ copied) (m - length copied) []
        (NoZero-append root copied h (NoZero-take m url k))

-- `do_request` puts the document root in front.
pub do_request-rooted :
    (mysql_query : List ℕ → Bool) (stat : List ℕ → Option FileStat) (u k : ℕ) (users : Users)
    (c : Conn)
    → c.url ≡ some u
    → strrchr (text_at c u) b'/' ≡ some k
    → c.real_file ≡ replicate filename_len 0
    → length (c_string c.doc_root) < filename_len
    → (let root = c_string c.doc_root in
        do_request mysql_query stat users c
        ≡ serve_rooted mysql_query stat
            (length root)
            u
            k
            users
            (record c { real_file = root ++ zeros (filename_len - length root) }))
unfolding do_request serve
do_request-rooted q stat u k users c e s a h =
    let root = c_string c.doc_root in
    let first : write_bytes c.real_file 0 (root ++ 0 ∷ [])
        ≡ some (root ++ zeros (filename_len - length root)) =
      ap (λ f. write_bytes f 0 (root ++ 0 ∷ [])) a ∙ root_lem root filename_len h in
    ap (λ o. then_do o (λ u. then_do (strrchr (text_at c u) b'/') (λ k. serve q stat u k users c)))
      e
    ∙ ap (λ o. then_do o (λ k. serve q stat u k users c)) s
    ∙ ap
        (λ o. then_do o (λ array.
          serve_rooted q stat (strlen c.doc_root) u k users (record c { real_file = array })))
        first
    ∙ ap
        (λ n.
          serve_rooted q stat n u k users
            (record c { real_file = root ++ zeros (filename_len - length root) }))
        (strlen-c_string c.doc_root)

module _ (u : ℕ) (c : Conn) (room : length (c_string c.doc_root) < filename_len) where
  abbrev root : List ℕ
  root = c_string c.doc_root

  abbrev url : List ℕ
  url = c_string (text_at c u)

  abbrev rooted : Conn
  rooted = record c { real_file = root ++ zeros (filename_len - length root) }

  choose_file-url :
      (flag : ℕ)
      → digit_page flag ≡ none
      → choose_file flag (length root) u rooted ≡ some (record c { real_file = named root url })
  unfolding choose_file strncpy_file
  choose_file-url flag d =
      let stored = name_lem root url filename_len (filename_len - length root - 1) refl room in
      rw (d, choose_file)
        (ap (λ o. then_do o (λ array. some (record c { real_file = array }))) stored)

  serve_rooted-url :
      (mysql_query : List ℕ → Bool) (stat : List ℕ → Option FileStat) (k : ℕ) (users : Users)
      → c.cgi ≡ false
      → digit_page (get_or c.read_buf (u + k + 1) 0) ≡ none
      → (let found =
            open_found (record c { real_file = named root url }) (stat (file_name root url)) in
          serve_rooted mysql_query stat (length root) u k users rooted
          ≡ some (found.0, users, found.1))
  unfolding serve_rooted submit_if_form serve_file open_file
  serve_rooted-url q stat k users g d =
      let flag = get_or c.read_buf (u + k + 1) 0 in
      let no_form : submit_if_form q (length root) u k users rooted ≡ some (users, rooted) =
        rw g refl in
      ap (λ o. then_do o (serve_file stat (length root) u k)) no_form
      ∙ ap (λ o. then_do o (λ d. some (opened stat users d))) (choose_file-url flag d)
      ∙ ap
          (λ name.
            let found = open_found (record c { real_file = named root url }) (stat name) in
            some (found.0, users, found.1))
          (named-file_name root url (c_string-NoZero c.doc_root) (c_string-NoZero (text_at c u)))

-- The file that is looked up for a GET request: the document root with the URL behind it, cut off
-- at the size of the array. The URL has a '/', and the byte behind its last one stands for no page
-- of its own; the array for the name is empty, as `init` leaves it.
pub do_request-get :
    (mysql_query : List ℕ → Bool) (stat : List ℕ → Option FileStat) (u k : ℕ) (users : Users)
    (c : Conn)
    → c.url ≡ some u
    → c.cgi ≡ false
    → strrchr (text_at c u) b'/' ≡ some k
    → digit_page (get_or c.read_buf (u + k + 1) 0) ≡ none
    → c.real_file ≡ replicate filename_len 0
    → length (c_string c.doc_root) < filename_len
    → (let root = c_string c.doc_root in
        let url = c_string (text_at c u) in
        let found =
          open_found (record c { real_file = named root url }) (stat (file_name root url)) in
        do_request mysql_query stat users c ≡ some (found.0, users, found.1))
do_request-get q stat u k users c e g s d a h =
    do_request-rooted q stat u k users c e s a h ∙ serve_rooted-url u c h q stat k users g d
