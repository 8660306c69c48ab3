-- ===== src/Http/Request.antt =====
-- The parts of a request: `parse_request_line`, `parse_headers` and `parse_content` of
-- http_conn.cpp. `none` stands for undefined behaviour: a null pointer handed to a string function,
-- or a write outside of `m_read_buf`. The calls of the log are left out.
pub mod First
pub mod Headers
use mathlib.Core.Option
use make_linux_server.Base.{
  ℕ, zero, ◌+◌, ◌-◌, true, Option, none, some, List, [], ◌∷◌, ◌++◌, ◌==◌, if◌then◌else◌, get_or,
  set, drop, length, ltb,
}
use make_linux_server.Base.Int.{ℤ, pos, negsuc, ◌+ℤ◌, leb_ℤ}
use make_linux_server.Http.{
  Conn, HttpCode, no_request, get_request, bad_request, get, post, header, content,
}
use make_linux_server.Http.CString.{
  codes, strpbrk, strspn, strchr, strcasecmp, strncasecmp, strlen, atol, write_bytes,
}

abbrev pub blanks : List ℕ
blanks = 32 ∷ 9 ∷ []

-- The string that a pointer into `m_read_buf` stands for, up to the end of the array.
abbrev pub text_at : Conn → ℕ → List ℕ
text_at c p = drop p c.read_buf

abbrev pub Step : Type 0
Step = Option (HttpCode × Conn)

abbrev pub put : Conn → ℕ → ℕ → Conn
put c i b = record c { read_buf = set c.read_buf i b }

-- `m_url` behind a scheme: `if (strncasecmp(m_url, scheme, n) == 0) { m_url += n; m_url = strchr(m_url, '/'); }`.
-- The first argument of strncasecmp must not be NULL.
unfoldable pub skip_scheme : List ℕ → Option ℕ → Conn → Option (Option ℕ)
skip_scheme scheme none c = none
skip_scheme scheme (some u) c =
    if strncasecmp (text_at c u) scheme
    then some
        (Option.map (λ k. u + length scheme + k) (strchr (text_at c (u + length scheme)) b'/'))
    else some (some u)

-- From the test of `m_url` on.
unfoldable pub accept_url : Option ℕ → Conn → Step
accept_url none c = some (bad_request, record c { url = none })
accept_url (some u) c =
    if get_or c.read_buf u 0 == b'/'
    then (if strlen (text_at c u) == 1
        then Option.map
            (λ buf. (no_request, record c { url = some u; read_buf = buf; check_state = header }))
            (write_bytes c.read_buf (u + 1) (codes "judge.html" ++ 0 ∷ []))
        else some (no_request, record c { url = some u; check_state = header }))
    else some (bad_request, record c { url = some u })

-- From the test of `m_version` on, with `m_url` at `u`.
unfoldable pub check_version : ℕ → ℕ → Conn → Step
unfolding skip_scheme accept_url
check_version u v c =
    if strcasecmp (text_at c v) (codes "HTTP/1.1")
    then elim (skip_scheme (codes "http://") (some u) c) [
      | none ↦ none
      | some w ↦ elim (skip_scheme (codes "https://") w c) [ none ↦ none | some x ↦ accept_url x c ]
    ]
    else some (bad_request, c)

-- From the test of the second `strpbrk` on, with `m_url` at `u`.
abbrev pub cut_url : ℕ → Conn → Option ℕ → Step
cut_url u c none = some (bad_request, record c { url = some u; version = none })
cut_url u c (some k) =
    let cut = put c (u + k) 0 in
    let v = u + k + 1 + strspn (text_at cut (u + k + 1)) blanks in
    check_version u v (record cut { url = some u; version = some v })

unfoldable pub split_version : ℕ → Conn → Step
unfolding check_version
split_version u c = cut_url u c (strpbrk (text_at c u) blanks)

unfoldable pub parse_request_line : ℕ → Conn → Step
unfolding split_version
parse_request_line text c = elim (strpbrk (text_at c text) blanks) [
  | none ↦ some (bad_request, record c { url = none })
  | some k ↦
      let cut = put c (text + k) 0 in
      let second = record cut { url = some (text + k + 1) } in
      let u = text + k + 1 + strspn (text_at cut (text + k + 1)) blanks in
      if strcasecmp (text_at cut text) (codes "GET")
      then split_version u (record second { method = get })
      else if strcasecmp (text_at cut text) (codes "POST")
      then split_version u (record second { method = post; cgi = true })
      else some (bad_request, second)
]

-- `text += n; text += strspn(text, " \t")`
abbrev value_at : Conn → ℕ → ℕ → ℕ
value_at c text n = text + n + strspn (text_at c (text + n)) blanks

unfoldable pub parse_headers : ℕ → Conn → HttpCode × Conn
parse_headers text c =
    if get_or c.read_buf text 0 == 0
    then elim c.content_length [
      | pos zero ↦ (get_request, c)
      | _ ↦ (no_request, record c { check_state = content })
    ]
    else if strncasecmp (text_at c text) (codes "Connection:")
    then (if strcasecmp (text_at c (value_at c text 11)) (codes "keep-alive")
        then (no_request, record c { linger = true })
        else (no_request, c))
    else if strncasecmp (text_at c text) (codes "content-length:")
    then (no_request, record c { content_length = atol (text_at c (value_at c text 15)) })
    else if strncasecmp (text_at c text) (codes "host:")
    then (no_request, record c { host = some (value_at c text 5) })
    else (no_request, c)

-- `text[m_content_length] = '\0'`, which may fall outside of the array.
abbrev pub terminate : ℕ → ℤ → Conn → Step
terminate text (pos n) c =
    if ltb (text + n) (length c.read_buf)
    then some (get_request, record (put c (text + n) 0) { string = some text })
    else none
terminate text (negsuc n) c =
    if ltb n text
    then some (get_request, record (put c (text - (n + 1)) 0) { string = some text })
    else none

unfoldable pub parse_content : ℕ → Conn → Step
parse_content text c =
    if leb_ℤ (c.content_length +ℤ pos c.checked_idx) (pos c.read_idx)
    then terminate text c.content_length c
    else some (no_request, c)
