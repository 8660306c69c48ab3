-- ===== src/Http/Request/First.antt =====
-- What `parse_request_line` of http_conn.cpp makes of a request line `GET /… HTTP/1.1` or
-- `POST /… HTTP/1.1`.
use make_linux_server.Base.{
  ℕ, suc, ◌+◌, ◌≡◌, refl, ap, sym, ◌∙◌, Bool, true, false, some, List, [], ◌∷◌, ◌++◌, ◌==◌, length,
  get_or, set, drop, append_assoc, length-append, arith,
}
use make_linux_server.Http.{Conn, no_request, Method, get, post, header}
use make_linux_server.Http.CString.{
  codes, strpbrk, strspn, strlen, strcasecmp, strncasecmp, mem, to_lower, write_bytes,
}
use make_linux_server.Http.CString.Laws.{
  IsText, IsWord, drop-append, get_or-append, set-append, write_bytes-append, strpbrk-IsWord,
  strlen-IsText,
}
use make_linux_server.Http.Request.{
  cut_url, blanks, skip_scheme, accept_url, check_version, split_version, parse_request_line,
}

abbrev pub http_1_1 : List ℕ
http_1_1 = codes "HTTP/1.1"

abbrev pub method_text : Method → List ℕ
method_text get = codes "GET"
method_text post = codes "POST"

-- A request line as it comes. `path` is without its leading '/'.
abbrev pub request_line : Method → List ℕ → List ℕ
request_line method path = method_text method ++ (32 ∷ 47 ∷ (path ++ 32 ∷ http_1_1))

-- What follows the path, when the line's end has been cut off.
abbrev pub version_line : List ℕ → List ℕ
version_line rest = http_1_1 ++ (0 ∷ 0 ∷ rest)

-- The buffer as the parser leaves it, for a method's text.
abbrev pub cut_text : List ℕ → List ℕ → List ℕ → List ℕ
cut_text m [] rest = m ++ (0 ∷ codes "/judge.html" ++ 0 ∷ rest)
cut_text m (b ∷ path) rest = m ++ (0 ∷ 47 ∷ (b ∷ path ++ 0 ∷ version_line rest))

abbrev pub cut_line : Method → List ℕ → List ℕ → List ℕ
cut_line method path rest = cut_text (method_text method) path rest

abbrev pub sets_cgi : Method → Bool → Bool
sets_cgi get old = old
sets_cgi post old = true

-- The object when the line is accepted.
abbrev pub accepted : Method → List ℕ → List ℕ → Conn → Conn
accepted method path rest c = record c {
  read_buf = cut_line method path rest;
  url = some (length (method_text method) + 1);
  version = some (length (method_text method) + (length path + 3));
  method = method;
  cgi = sets_cgi method c.cgi;
  check_state = header;
}

-- The lemmas on the second and third word, behind a method's text.
module _ (m path rest : List ℕ) where
  abbrev u : ℕ
  u = length m + 1

  -- The buffer with a byte behind the path.
  abbrev line_with : ℕ → List ℕ
  line_with b = m ++ (0 ∷ 47 ∷ (path ++ b ∷ version_line rest))

  url_lem : (b : ℕ) → drop u (line_with b) ≡ 47 ∷ (path ++ b ∷ version_line rest)
  url_lem b = drop-append m (0 ∷ 47 ∷ (path ++ b ∷ version_line rest)) 1

  behind_lem : (b : ℕ) → drop (length m + (length path + 3)) (line_with b) ≡ version_line rest
  behind_lem b =
      let e : length path + 3 ≡ suc (suc (length path + 1)) = omega arith in
      drop-append m (0 ∷ 47 ∷ (path ++ b ∷ version_line rest)) (length path + 3)
      ∙ ap (λ k. drop k (0 ∷ 47 ∷ (path ++ b ∷ version_line rest))) e
      ∙ drop-append path (b ∷ version_line rest) 1

  slash_lem : (get_or (line_with 0) u 0 == 47) ≡ true
  slash_lem = ap (λ x. x == 47) (get_or-append m (0 ∷ 47 ∷ (path ++ 0 ∷ version_line rest)) 1 0)

accept_url_lem :
    (m path rest : List ℕ) (c : Conn)
    → IsText path
    → accept_url (some (length m + 1)) (record c { read_buf = line_with m path rest 0 })
      ≡ some (
        no_request,
        record c {
          read_buf = cut_text m path rest;
          url = some (length m + 1);
          check_state = header;
        },
      )
unfolding accept_url strlen
accept_url_lem m [] rest c t =
    let u = length m + 1 in
    let one : (strlen (drop u (line_with m [] rest 0)) == 1) ≡ true =
      ap (λ s. strlen s == 1) (url_lem m [] rest 0) in
    let start : u + 1 ≡ length (m ++ 0 ∷ 47 ∷ []) = omega (arith, length-append m (0 ∷ 47 ∷ [])) in
    let stored : write_bytes (line_with m [] rest 0) (u + 1) (codes "judge.html" ++ 0 ∷ [])
        ≡ some (cut_text m [] rest) =
      ap (λ b. write_bytes b (u + 1) (codes "judge.html" ++ 0 ∷ []))
        (sym (append_assoc m (0 ∷ 47 ∷ []) (0 ∷ version_line rest)))
      ∙ ap
          (λ i.
            write_bytes ((m ++ 0 ∷ 47 ∷ []) ++ (0 ∷ version_line rest)) i
              (codes "judge.html" ++ 0 ∷ []))
          start
      ∙ write_bytes-append (m ++ 0 ∷ 47 ∷ []) (0 ∷ version_line rest) (codes "judge.html" ++ 0 ∷ [])
          (omega arith)
      ∙ ap some (append_assoc m (0 ∷ 47 ∷ []) (codes "judge.html" ++ 0 ∷ rest)) in
    rw (slash_lem m [] rest, one, stored) refl
accept_url_lem m (b ∷ path) rest c t =
    let text = url_lem m (b ∷ path) rest 0 in
    let long : (strlen (drop (length m + 1) (line_with m (b ∷ path) rest 0)) == 1) ≡ false =
      ap (λ s. strlen s == 1) text
      ∙ ground (arith, strlen-IsText (b ∷ path) (version_line rest) t) in
    rw (slash_lem m (b ∷ path) rest, long) refl

-- With the version cut off.
check_version_lem :
    (m path rest : List ℕ) (v : ℕ) (c : Conn)
    → IsText path
    → v ≡ length m + (length path + 3)
    → check_version (length m + 1) v (record c { read_buf = line_with m path rest 0 })
      ≡ some (
        no_request,
        record c {
          read_buf = cut_text m path rest;
          url = some (length m + 1);
          check_state = header;
        },
      )
unfolding check_version skip_scheme
check_version_lem m path rest v c t e =
    let buf = line_with m path rest 0 in
    let url = url_lem m path rest 0 in
    let same : strcasecmp (drop v buf) http_1_1 ≡ true =
      ap (λ i. strcasecmp (drop i buf) http_1_1) e
      ∙ unfold strcasecmp to_lower in ap (λ s. strcasecmp s http_1_1) (behind_lem m path rest 0) in
    let no_http : strncasecmp (drop (length m + 1) buf) (codes "http://") ≡ false =
      unfold strncasecmp to_lower in ap (λ s. strncasecmp s (codes "http://")) url in
    let no_https : strncasecmp (drop (length m + 1) buf) (codes "https://") ≡ false =
      unfold strncasecmp to_lower in ap (λ s. strncasecmp s (codes "https://")) url in
    rw (same, no_http, no_https) (accept_url_lem m path rest c t)

-- The second word ends at the next blank, and the third is the version.
split_version_lem :
    (m path rest : List ℕ) (c : Conn)
    → IsText path
    → IsWord path
    → split_version (length m + 1) (record c { read_buf = line_with m path rest 32 })
      ≡ some (
        no_request,
        record c {
          read_buf = cut_text m path rest;
          url = some (length m + 1);
          version = some (length m + (length path + 3));
          check_state = header;
        },
      )
unfolding split_version
split_version_lem m path rest c t w =
    let u = length m + 1 in
    let buf = line_with m path rest 32 in
    let cut = line_with m path rest 0 in
    let first : strpbrk (47 ∷ (path ++ 32 ∷ version_line rest)) blanks ≡ some (suc (length path)) =
      unfold strpbrk mem in rw (strpbrk-IsWord path (version_line rest) t w) refl in
    let found : strpbrk (drop u buf) blanks ≡ some (suc (length path)) =
      ap (λ s. strpbrk s blanks) (url_lem m path rest 32) ∙ first in
    let e : u + suc (length path) ≡ length m + suc (suc (length path + 0)) = omega arith in
    let stored : set buf (u + suc (length path)) 0 ≡ cut =
      ap (λ i. set buf i 0) e
      ∙ set-append m (0 ∷ 47 ∷ (path ++ 32 ∷ version_line rest)) (suc (suc (length path + 0))) 0
      ∙ ap (λ l. m ++ (0 ∷ 47 ∷ l)) (set-append path (32 ∷ version_line rest) 0 0) in
    let v = u + suc (length path) + 1 in
    let version_at = λ (n : ℕ) (b : List ℕ).
      check_version u n (record c { read_buf = b; url = some u; version = some n }) in
    let same : v ≡ length m + (length path + 3) = omega arith in
    let no_blank : strspn (version_line rest) blanks ≡ 0 = unfold strspn mem in refl in
    let text : strspn (drop v cut) blanks ≡ 0 =
      ap (λ i. strspn (drop i cut) blanks) same
      ∙ ap (λ s. strspn s blanks) (behind_lem m path rest 0)
      ∙ no_blank in
    let at_version : v + strspn (drop v cut) blanks ≡ length m + (length path + 3) =
      omega (arith, text) in
    ap (cut_url u (record c { read_buf = buf })) found
    ∙ ap (λ b. version_at (v + strspn (drop v b) blanks) b) stored
    ∙ ap (λ n. version_at n cut) at_version
    ∙ check_version_lem m path rest (length m + (length path + 3))
        (record c { url = some u; version = some (length m + (length path + 3)) }) t refl

-- A request line, with the zeros that `parse_line` puts behind it, is accepted: `m_url` points to the
-- path behind the method, the method is the line's, and the header comes next. For the path '/' the
-- text of `m_url` is `/judge.html`, and no byte behind the line is changed.
pub parse_request_line_lem :
    (method : Method) (path rest : List ℕ) (c : Conn)
    → IsText path
    → IsWord path
    → parse_request_line 0 (record c { read_buf = request_line method path ++ (0 ∷ 0 ∷ rest) })
      ≡ some (no_request, accepted method path rest c)
unfolding parse_request_line strpbrk mem strspn strcasecmp to_lower
parse_request_line_lem get path rest c t w =
    let same = append_assoc path (32 ∷ http_1_1) (0 ∷ 0 ∷ rest) in
    ap (λ l. parse_request_line 0 (record c { read_buf = codes "GET /" ++ l })) same
    ∙ split_version_lem (codes "GET") path rest (record c { method = get }) t w
parse_request_line_lem post path rest c t w =
    let same = append_assoc path (32 ∷ http_1_1) (0 ∷ 0 ∷ rest) in
    ap (λ l. parse_request_line 0 (record c { read_buf = codes "POST /" ++ l })) same
    ∙ split_version_lem (codes "POST") path rest (record c { method = post; cgi = true }) t w
