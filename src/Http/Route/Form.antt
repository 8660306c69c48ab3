-- ===== src/Http/Route/Form.antt =====
-- What `do_request` of http_conn.cpp does with a form: the page that it writes over the URL, and the
-- users.
use make_linux_server.Base.{
  ℕ, zero, suc, ◌+◌, ◌-◌, ◌<◌, ◌≡◌, refl, ap, ◌∙◌, false, some, List, [], ◌∷◌, ◌++◌, ◌==◌, length,
  take, drop, length-append, length-take, length-replicate, append_assoc, arith,
}
use make_linux_server.Http.{Conn, filename_len}
use make_linux_server.Http.CString.{codes, c_string, write_bytes}
use make_linux_server.Http.CString.Laws.{drop-append, write_bytes-append}
use make_linux_server.Http.Route.{then_do, copy_until, read_form, strncpy_file}
use make_linux_server.Http.Route.Target.{Avoids, NoZero, zeros, named}

-- The array of a file's name in which a text stands behind the root.
copied_lem :
    (root old text : List ℕ) (m : ℕ)
    → m ≡ length old
    → (let copied = take m text in
        write_bytes (root ++ (old ++ 0 ∷ [])) (length root) (copied ++ zeros (m - length copied))
        ≡ some (root ++ (copied ++ (zeros (m - length copied) ++ 0 ∷ []))))
copied_lem root old text m e =
    let copied = take m text in
    let new = copied ++ zeros (m - length copied) in
    let size : length new ≡ m = omega (
      arith,
      length-append copied (zeros (m - length copied)),
      length-replicate {A = ℕ} (m - length copied) 0,
      length-take m text,
    ) in
    let same : length new ≡ length old + 0 = omega (arith, size) in
    write_bytes-append root (old ++ 0 ∷ []) new (omega (arith, size, length-append old (0 ∷ [])))
    ∙ ap (λ k. some (root ++ (new ++ drop k (old ++ 0 ∷ [])))) same
    ∙ ap (λ l. some (root ++ (new ++ l))) (drop-append old (0 ∷ []) 0)
    ∙ ap (λ l. some (root ++ l)) (append_assoc copied (zeros (m - length copied)) (0 ∷ []))

-- `strncpy` behind the root leaves nothing of an earlier name.
pub strncpy_file_lem :
    (root old text : List ℕ) (c : Conn)
    → filename_len - length root - 1 ≡ length old
    → c.real_file ≡ root ++ (old ++ 0 ∷ [])
    → strncpy_file (length root) text (filename_len - length root - 1) c
      ≡ some (record c { real_file = named root (c_string text) })
unfolding strncpy_file
strncpy_file_lem root old text c e f =
    let m = filename_len - length root - 1 in
    let copied = take m (c_string text) in
    ap
      (λ a.
        then_do (write_bytes a (length root) (copied ++ zeros (m - length copied)))
          (λ array. some (record c { real_file = array })))
      f
    ∙ ap (λ o. then_do o (λ array. some (record c { real_file = array })))
        (copied_lem root old (c_string text) m e)

copy_until_lem :
    (until room : ℕ) (w r : List ℕ)
    → Avoids until w
    → length w < room
    → copy_until until room (w ++ until ∷ r) ≡ some w
unfolding copy_until
copy_until_lem until zero w r a h = absurd (omega arith)
copy_until_lem until (suc room) [] r a h = ground arith
copy_until_lem until (suc room) (x ∷ w) r a h =
    let ih = copy_until_lem until room w r a.1 (omega arith) in
    let differs : (x == until) ≡ false = ground (arith, a.0) in rw (differs, ih) refl

c_string_self : (w : List ℕ) → NoZero w → c_string w ≡ w
unfolding c_string
c_string_self [] a = refl
c_string_self (x ∷ w) a =
    let full : (x == 0) ≡ false = ground (arith, a.0) in rw (full, c_string_self w a.1) refl

-- The body of a form.
abbrev pub form_text : List ℕ → List ℕ → List ℕ
form_text name passwd = codes "user=" ++ (name ++ (codes "&password=" ++ passwd))

-- What a form's fields are: no 0, at most 99 bytes, and the name has no '&'.
pub record AreFields (name passwd : List ℕ) : Type 0 where
  pub name_text : NoZero name
  pub name_end : Avoids b'&' name
  pub name_short : length name < 100
  pub passwd_text : NoZero passwd
  pub passwd_short : length passwd < 100

pub read_form_lem :
    (before name passwd rest : List ℕ) (c : Conn)
    → AreFields name passwd
    → c.string ≡ some (length before)
    → c.read_buf
      ≡ before ++ (codes "user=" ++ (name ++ (codes "&password=" ++ (passwd ++ 0 ∷ rest))))
    → read_form c ≡ some (name, passwd)
unfolding read_form
read_form_lem before name passwd rest c v s e =
    let text = passwd ++ 0 ∷ rest in
    let named = name ++ (codes "&password=" ++ text) in
    let buf = before ++ (codes "user=" ++ named) in
    let p = length before in
    let q = p + 5 + length name + 10 in
    let far : q ≡ p + (5 + (length name + 10)) = omega arith in
    let five : 5 + (length name + 10) ≡ suc (suc (suc (suc (suc (length name + 10))))) =
      omega arith in
    let name_at : drop (p + 5) buf ≡ named = drop-append before (codes "user=" ++ named) 5 in
    let passwd_at : drop q buf ≡ text =
      ap (λ k. drop k buf) far
      ∙ drop-append before (codes "user=" ++ named) (5 + (length name + 10))
      ∙ ap (λ k. drop k (codes "user=" ++ named)) five
      ∙ drop-append name (codes "&password=" ++ text) 10 in
    let first = copy_until_lem b'&' 100 name (codes "password=" ++ text) v.name_end v.name_short in
    let second = copy_until_lem 0 100 passwd rest v.passwd_text v.passwd_short in
    ap
      (λ o. then_do o (λ s. then_do (copy_until b'&' 100 (drop (s + 5) c.read_buf)) (λ name.
        then_do (copy_until 0 100 (drop (s + 5 + length name + 10) c.read_buf))
          (λ passwd. some (c_string name, passwd)))))
      s
    ∙ ap
        (λ buf. then_do (copy_until b'&' 100 (drop (p + 5) buf)) (λ name.
          then_do (copy_until 0 100 (drop (p + 5 + length name + 10) buf))
            (λ passwd. some (c_string name, passwd))))
        e
    ∙ ap
        (λ o. then_do o (λ name.
          then_do (copy_until 0 100 (drop (p + 5 + length name + 10) buf))
            (λ passwd. some (c_string name, passwd))))
        (ap (copy_until b'&' 100) name_at ∙ first)
    ∙ ap (λ o. then_do o (λ passwd. some (c_string name, passwd)))
        (ap (copy_until 0 100) passwd_at ∙ second)
    ∙ ap (λ n. some (n, passwd)) (c_string_self name v.name_text)
