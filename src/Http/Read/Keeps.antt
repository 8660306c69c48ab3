-- ===== src/Http/Read/Keeps.antt =====
-- What a round of `process_read` of http_conn.cpp does to the indices into the read buffer.
use mathlib.Core.Option
use make_linux_server.Base.{
  ℕ, zero, suc, ◌+◌, ◌≤◌, ◌<◌, ◌≡◌, refl, ◌∙◌, inl, inr, true, Option, none, some, List, [], ◌∷◌,
  ◌++◌, ltb, ◌==◌, length, get_or, arith, Bool-cases,
}
use make_linux_server.Base.Int.{ℤ, pos, negsuc, ◌+ℤ◌, leb_ℤ}
use make_linux_server.Http.{
  Conn, CheckState, requestline, header, content, HttpCode, no_request, get_request, bad_request,
  no_resource, forbidden_request, file_request, internal_error, closed_connection, LineStatus,
  line_ok, line_bad, line_open, get, post,
}
use make_linux_server.Http.CString.{codes, strpbrk, strspn, strcasecmp, strlen, write_bytes}
use make_linux_server.Http.Line.{scan}
use make_linux_server.Http.Request.{
  Step, text_at, put, blanks, parse_request_line, parse_headers, parse_content, accept_url,
  check_version, split_version, skip_scheme, terminate,
}
use make_linux_server.Http.Read.{
  Parsed, answer, route, broken, unfinished, Round, stop, next, after_request_line, after_headers,
  after_content, dispatch, handle_line,
}

-- A line that `scan` finds is not empty, and lies within the bytes read.
abbrev pub Found : ℕ → ℕ → LineStatus × List ℕ × ℕ → Type 0
Found checked read_idx (line_ok, buf, k) = (checked < k) × (k ≤ read_idx)
Found checked read_idx (line_bad, buf, k) = checked ≤ k
Found checked read_idx (line_open, buf, k) = checked ≤ k

pub Found-later :
    (checked read_idx : ℕ) (r : LineStatus × List ℕ × ℕ)
    → Found (checked + 1) read_idx r
    → Found checked read_idx r
Found-later checked read_idx (line_ok, buf, k) h = omega arith
Found-later checked read_idx (line_bad, buf, k) h = omega arith
Found-later checked read_idx (line_open, buf, k) h = omega arith

pub scan-Found :
    (n : ℕ) (buf : List ℕ) (checked read_idx : ℕ)
    → checked + n ≤ read_idx
    → Found checked read_idx (scan n buf checked read_idx)
unfolding scan
scan-Found zero buf checked read_idx h = omega arith
scan-Found (suc n) buf checked read_idx h =
    let ih =
      Found-later checked read_idx _ (scan-Found n buf (checked + 1) read_idx (omega arith)) in
    ground arith

-- The connection after a step has the same two indices.
abbrev pub StepKeeps : Conn → Step → Type 0
StepKeeps c none = Unit {0}
StepKeeps c (some (code, d)) = (d.checked_idx ≡ c.checked_idx) × (d.read_idx ≡ c.read_idx)

pub StepKeeps-map :
    (c : Conn) (o : Option (List ℕ)) (f : List ℕ → HttpCode × Conn)
    → ((b : List ℕ) → StepKeeps c (some (f b)))
    → StepKeeps c (Option.map f o)
StepKeeps-map c none f h = tt
StepKeeps-map c (some b) f h = h b

pub accept_url-StepKeeps : (url : Option ℕ) (c : Conn) → StepKeeps c (accept_url url c)
unfolding accept_url
accept_url-StepKeeps none c = (refl, refl)
accept_url-StepKeeps (some u) c = elim (Bool-cases (get_or c.read_buf u 0 == b'/')) [
  | inl e ↦ elim (Bool-cases (strlen (text_at c u) == 1)) [
    | inl f ↦
        rw (e, f)
          (StepKeeps-map c (write_bytes c.read_buf (u + 1) (codes "judge.html" ++ 0 ∷ []))
            (λ buf. (no_request, record c { url = some u; read_buf = buf; check_state = header }))
            (λ b. (refl, refl)))
    | inr f ↦ rw (e, f) (refl, refl)
  ]
  | inr e ↦ rw e (refl, refl)
]

pub StepKeeps-bind :
    {A : Type 0} (c : Conn) (o : Option A) (f : A → Step) (z : Step)
    → StepKeeps c z
    → ((w : A) → StepKeeps c (f w))
    → StepKeeps c (elim o [ none ↦ z | some w ↦ f w ])
StepKeeps-bind c none f z hz h = hz
StepKeeps-bind c (some w) f z hz h = h w

pub check_version-StepKeeps : (u v : ℕ) (c : Conn) → StepKeeps c (check_version u v c)
unfolding check_version
check_version-StepKeeps u v c = elim (Bool-cases (strcasecmp (text_at c v) (codes "HTTP/1.1"))) [
  | inl e ↦ rw e (
      StepKeeps-bind c (skip_scheme (codes "http://") (some u) c) _ none tt (λ w.
        StepKeeps-bind c (skip_scheme (codes "https://") w c) _ none tt
          (λ x. accept_url-StepKeeps x c)))
  | inr e ↦ rw e (refl, refl)
]

pub split_version-StepKeeps : (u : ℕ) (c : Conn) → StepKeeps c (split_version u c)
unfolding split_version
split_version-StepKeeps u c =
    StepKeeps-bind c (strpbrk (text_at c u) blanks) _ _ (refl, refl)
      (λ k.
        let cut = put c (u + k) 0 in
        let v = u + k + 1 + strspn (text_at cut (u + k + 1)) blanks in
        check_version-StepKeeps u v (record cut { url = some u; version = some v }))

pub parse_request_line-StepKeeps : (text : ℕ) (c : Conn) → StepKeeps c (parse_request_line text c)
unfolding parse_request_line
parse_request_line-StepKeeps text c =
    StepKeeps-bind c (strpbrk (text_at c text) blanks) _ _ (refl, refl)
      (λ k.
        let cut = put c (text + k) 0 in
        let second = record cut { url = some (text + k + 1) } in
        let u = text + k + 1 + strspn (text_at cut (text + k + 1)) blanks in
        elim (Bool-cases (strcasecmp (text_at cut text) (codes "GET"))) [
          | inl e ↦ rw e (split_version-StepKeeps u (record second { method = get }))
          | inr e ↦ elim (Bool-cases (strcasecmp (text_at cut text) (codes "POST"))) [
            | inl f ↦
                rw (e, f) (split_version-StepKeeps u (record second { method = post; cgi = true }))
            | inr f ↦ rw (e, f) (refl, refl)
          ]
        ])

pub parse_headers-StepKeeps : (text : ℕ) (c : Conn) → StepKeeps c (some (parse_headers text c))
unfolding parse_headers
parse_headers-StepKeeps text c = ground arith

pub terminate-StepKeeps : (text : ℕ) (n : ℤ) (c : Conn) → StepKeeps c (terminate text n c)
terminate-StepKeeps text (pos n) c = elim (Bool-cases (ltb (text + n) (length c.read_buf))) [
  | inl e ↦ rw e (refl, refl)
  | inr e ↦ rw e tt
]
terminate-StepKeeps text (negsuc n) c = elim (Bool-cases (ltb n text)) [
  | inl e ↦ rw e (refl, refl)
  | inr e ↦ rw e tt
]

pub parse_content-StepKeeps : (text : ℕ) (c : Conn) → StepKeeps c (parse_content text c)
unfolding parse_content
parse_content-StepKeeps text c =
    elim (Bool-cases (leb_ℤ (c.content_length +ℤ pos c.checked_idx) (pos c.read_idx))) [
      | inl e ↦ rw e (terminate-StepKeeps text c.content_length c)
      | inr e ↦ rw e (refl, refl)
    ]

-- The function ended, whatever the fuel.
abbrev pub IsFinished : Parsed → Type 0
IsFinished (answer code c) = Unit {0}
IsFinished (route c) = Unit {0}
IsFinished broken = Unit {0}
IsFinished unfinished = ⊥

-- A round that goes on after a line: the same two indices.
abbrev pub Goes : Conn → Round → Type 0
Goes c (stop p) = IsFinished p
Goes c (next status d) = (d.checked_idx ≡ c.checked_idx) × (d.read_idx ≡ c.read_idx)

pub after_request_line-Goes : (c : Conn) (s : Step) → StepKeeps c s → Goes c (after_request_line s)
after_request_line-Goes c none h = tt
after_request_line-Goes c (some (bad_request, d)) h = tt
after_request_line-Goes c (some (no_request, d)) h = h
after_request_line-Goes c (some (get_request, d)) h = h
after_request_line-Goes c (some (no_resource, d)) h = h
after_request_line-Goes c (some (forbidden_request, d)) h = h
after_request_line-Goes c (some (file_request, d)) h = h
after_request_line-Goes c (some (internal_error, d)) h = h
after_request_line-Goes c (some (closed_connection, d)) h = h

pub after_headers-Goes :
    (c : Conn) (s : HttpCode × Conn) → StepKeeps c (some s) → Goes c (after_headers s)
after_headers-Goes c (get_request, d) h = tt
after_headers-Goes c (no_request, d) h = h
after_headers-Goes c (bad_request, d) h = h
after_headers-Goes c (no_resource, d) h = h
after_headers-Goes c (forbidden_request, d) h = h
after_headers-Goes c (file_request, d) h = h
after_headers-Goes c (internal_error, d) h = h
after_headers-Goes c (closed_connection, d) h = h

pub after_content-Goes : (c : Conn) (s : Step) → StepKeeps c s → Goes c (after_content s)
after_content-Goes c none h = tt
after_content-Goes c (some (bad_request, d)) h = h
after_content-Goes c (some (no_request, d)) h = h
after_content-Goes c (some (get_request, d)) h = tt
after_content-Goes c (some (no_resource, d)) h = h
after_content-Goes c (some (forbidden_request, d)) h = h
after_content-Goes c (some (file_request, d)) h = h
after_content-Goes c (some (internal_error, d)) h = h
after_content-Goes c (some (closed_connection, d)) h = h

pub Goes-moved :
    (c d : Conn) (r : Round)
    → d.checked_idx ≡ c.checked_idx
    → d.read_idx ≡ c.read_idx
    → Goes d r
    → Goes c r
Goes-moved c d (stop p) e f h = h
Goes-moved c d (next status g) e f h = (h.0 ∙ e, h.1 ∙ f)

pub dispatch-Goes : (state : CheckState) (text : ℕ) (c : Conn) → Goes c (dispatch state text c)
dispatch-Goes requestline text c = after_request_line-Goes c _ (parse_request_line-StepKeeps text c)
dispatch-Goes header text c = after_headers-Goes c _ (parse_headers-StepKeeps text c)
dispatch-Goes content text c = after_content-Goes c _ (parse_content-StepKeeps text c)

pub handle_line-Goes : (c : Conn) → Goes c (handle_line c)
unfolding handle_line
handle_line-Goes c =
    let d = record c { start_line = c.checked_idx } in
    Goes-moved c d (dispatch c.check_state c.start_line d) refl refl
      (dispatch-Goes c.check_state c.start_line d)
