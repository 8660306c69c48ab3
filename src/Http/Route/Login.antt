-- ===== src/Http/Route/Login.antt =====
-- Who can log in, and which files are served, by `do_request` of http_conn.cpp.
use make_linux_server.Base.{
  ℕ, ◌+◌, ◌≡◌, refl, ap, sym, ◌∙◌, Bool, true, false, Option, none, some, List, [], ◌∷◌, ◌++◌, ◌&&◌,
  ◌||◌, leb, ◌==◌, if◌then◌else◌, length, get_or, drop, arith, Bool-cases, inl, inr, ◌⊎◌,
}
use make_linux_server.Http.{Conn}
use make_linux_server.Http.CString.{codes, c_string, strlen, strrchr, write_bytes}
use make_linux_server.Http.Request.{text_at}
use make_linux_server.Http.Route.{
  Users, same_bytes, find_user, FileStat, then_do, set_url, read_form, insert_sql, enroll, register,
  login, submit_form, submit_if_form, serve_rooted, serve, do_request, strncpy_file,
}

same_bytes_self : (xs : List ℕ) → same_bytes xs xs ≡ true
unfolding same_bytes
same_bytes_self [] = refl
same_bytes_self (x ∷ xs) = ground (arith, same_bytes_self xs)

some-injective : {A : Type 0} (x y : A) → ◌≡◌ {A = Option A} (some x) (some y) → x ≡ y
some-injective x y e = ap (λ o. elim o [ none ↦ x | some z ↦ z ]) e

then_do-inverts :
    {A B : Type 0} (o : Option A) (f : A → Option B) (b : B)
    → then_do o f ≡ some b
    → (a : A) × (o ≡ some a) × (f a ≡ some b)
then_do-inverts none f b e = absurd (ground arith)
then_do-inverts (some a) f b e = (a, refl, e)

enroll-new :
    (mysql_query : List ℕ → Bool) (name passwd : List ℕ) (u : ℕ) (users later : Users) (c d : Conn)
    → enroll mysql_query name passwd u users c none ≡ some (later, d)
    → later ≡ (name, passwd) ∷ users
unfolding enroll
enroll-new q name passwd u users later c d h =
    let r =
      then_do-inverts
        (set_url
          (if q (insert_sql name passwd) then codes "/log.html" else codes "/registerError.html") u
          c)
        (λ d. some ((name, passwd) ∷ users, d)) (later, d) h in
    ap (λ (p : Users × Conn). p.0)
      (sym (some-injective ((name, passwd) ∷ users, r.0) (later, d) r.2))

register-new :
    (mysql_query : List ℕ → Bool) (name passwd : List ℕ) (u : ℕ) (users later : Users) (c d : Conn)
    → find_user name users ≡ none
    → register mysql_query name passwd u users c ≡ some (later, d)
    → later ≡ (name, passwd) ∷ users
unfolding register
register-new q name passwd u users later c d n h =
    elim (Bool-cases (leb 200 (length (insert_sql name passwd)))) [
      | inl e ↦ absurd (ground (arith, h))
      | inr e ↦
          let k : register q name passwd u users c
              ≡ enroll q name passwd u users c (find_user name users) =
            rw e refl in
          enroll-new q name passwd u users later c d
            (ap (enroll q name passwd u users c) (sym n) ∙ sym k ∙ h)
    ]

-- Whatever `mysql_query` returns, a registration of a new name that is defined makes the name known
-- with its password, and a login with them on the users that it leaves is sent to the welcome page.
pub register-login :
    (mysql_query : List ℕ → Bool) (name passwd : List ℕ) (u v : ℕ) (users later : Users)
    (c d e : Conn)
    → find_user name users ≡ none
    → register mysql_query name passwd u users c ≡ some (later, d)
    → (find_user name later ≡ some passwd)
      × (login name passwd v later e
          ≡ then_do (set_url (codes "/welcome.html") v e) (λ f. some (later, f)))
unfolding login find_user
register-login q name passwd u v users later c d e n h =
    let l = register-new q name passwd u users later c d n h in
    let f : find_user name ((name, passwd) ∷ users) ≡ some passwd =
      rw (same_bytes_self name) refl in
    let g : find_user name later ≡ some passwd = ap (find_user name) l ∙ f in
    (g, rw (g, same_bytes_self passwd) refl)

-- What `open_file` found, when it serves a file: what is mapped is the content if `open` and `mmap`
-- succeeded, and nothing otherwise.
pub record IsServed (stat : List ℕ → Option FileStat) (d : Conn) (f : FileStat) : Type 0 where
  pub found : stat (c_string d.real_file) ≡ some f
  pub readable : f.others_read ≡ true
  pub plain : f.directory ≡ false
  pub mapped : d.file ≡ (if f.can_map then some f.bytes else none)
  pub sized : d.file_size ≡ length f.bytes

then_do-none :
    {A B C : Type 0} (o : Option A) (f : A → B) (g : B → Option C)
    → ((a : A) → g (f a) ≡ none)
    → then_do (then_do o (λ a. some (f a))) g ≡ none
then_do-none none f g h = refl
then_do-none (some a) f g h = h a

all_none :
    {A B : Type 0} (o : Option A) (f : A → Option B) → ((a : A) → f a ≡ none) → then_do o f ≡ none
all_none none f h = refl
all_none (some a) f h = h a

submit_form-none :
    (mysql_query : List ℕ → Bool) (flag len u : ℕ) (users : Users) (c : Conn)
    → c.string ≡ none
    → submit_form mysql_query flag len u users c ≡ none
unfolding submit_form strncpy_file read_form
submit_form-none q flag len u users c e =
    let url_real = 47 ∷ c_string (drop (u + 2) c.read_buf) in
    elim (Bool-cases (leb 200 (length url_real))) [
      | inl t ↦ rw t refl
      | inr t ↦ rw t (
          then_do-none (write_bytes c.real_file len _) (λ array. record c { real_file = array }) _
            (λ array. rw e refl))
    ]

-- A form's request without a form, a POST whose header announces no body, makes `do_request` follow
-- a null pointer: `m_string` was never set.
pub missing_form :
    (mysql_query : List ℕ → Bool) (stat : List ℕ → Option FileStat) (u k : ℕ) (users : Users)
    (c : Conn)
    → c.cgi ≡ true
    → c.string ≡ none
    → c.url ≡ some u
    → strrchr (text_at c u) b'/' ≡ some k
    → (get_or c.read_buf (u + k + 1) 0 ≡ b'2') ⊎ (get_or c.read_buf (u + k + 1) 0 ≡ b'3')
    → do_request mysql_query stat users c ≡ none
unfolding do_request serve serve_rooted submit_if_form
missing_form q stat u k users c g e x y f =
    let flag = get_or c.read_buf (u + k + 1) 0 in
    let form : (c.cgi && (flag == b'2' || flag == b'3')) ≡ true = ground arith in
    let z : (array : List ℕ)
        → serve_rooted q stat (strlen c.doc_root) u k users (record c { real_file = array })
          ≡ none =
      λ array.
        rw
          (
            form,
            submit_form-none q flag (strlen c.doc_root) u users (record c { real_file = array }) e,
          )
          refl in
    ap (λ o. then_do o (λ u. then_do (strrchr (text_at c u) b'/') (λ k. serve q stat u k users c)))
      x
    ∙ ap (λ o. then_do o (λ k. serve q stat u k users c)) y
    ∙ all_none (write_bytes c.real_file 0 (c_string c.doc_root ++ 0 ∷ [])) _ z
