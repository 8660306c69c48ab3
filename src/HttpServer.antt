-- ===== src/HttpServer.antt =====
-- http_server/src/main.cpp: the parser of a request that arrives in chunks. A std::string is the list
-- of its bytes, and npos is none. What is printed is left out.
pub mod Chunks
pub mod Serve
mod Tests
use make_linux_server.Base.{
  ℕ, zero, suc, ◌+◌, ◌-◌, ◌*◌, Bool, true, false, Option, none, some, List, [], ◌∷◌, ◌++◌, ◌&&◌,
  leb, ltb, ◌==◌, if◌then◌else◌, length, take, drop, map,
}
use make_linux_server.Http.CString.{codes, to_lower}

unfoldable pub starts_with : List ℕ → List ℕ → Bool
starts_with text [] = true
starts_with [] (c ∷ cs) = false
starts_with (x ∷ xs) (c ∷ cs) = x == c && starts_with xs cs

abbrev pub shift : Option ℕ → Option ℕ
shift none = none
shift (some n) = some (suc n)

-- `find(pattern)`, for a pattern that is not empty.
unfoldable pub find : List ℕ → List ℕ → Option ℕ
unfolding starts_with
find [] pattern = none
find (x ∷ xs) pattern = if starts_with (x ∷ xs) pattern then some 0 else shift (find xs pattern)

abbrev pub plus : ℕ → Option ℕ → Option ℕ
plus n none = none
plus n (some k) = some (n + k)

-- `find(pattern, pos)`
abbrev pub find_from : List ℕ → List ℕ → ℕ → Option ℕ
find_from text pattern pos = plus pos (find (drop pos text) pattern)

-- `substr(pos, n)`, where none stands for npos.
abbrev pub substr : List ℕ → ℕ → Option ℕ → List ℕ
substr text pos none = drop pos text
substr text pos (some n) = take n (drop pos text)

abbrev pub crlf : List ℕ
crlf = 13 ∷ 10 ∷ []

abbrev pub header_end : List ℕ
header_end = 13 ∷ 10 ∷ 13 ∷ 10 ∷ []

-- `http11_header_parser`; the first entry for a key is the one that counts, as with `insert`.
pub record HeaderParser : Type 0 where
  pub header : List ℕ
  pub heading_line : List ℕ
  pub body : List ℕ
  pub header_keys : List (List ℕ × List ℕ)
  pub header_finished : Bool

abbrev pub header_parser : HeaderParser
header_parser = record {
  header = [];
  heading_line = [];
  body = [];
  header_keys = [];
  header_finished = false;
}

-- `_extract_heading_line`
unfoldable pub extract_heading_line : HeaderParser → HeaderParser
extract_heading_line p = record p { heading_line = substr p.header 0 (find p.header crlf) }

-- `_headline_first`
abbrev pub first_of : List ℕ → Option ℕ → List ℕ
first_of line none = codes "GET"
first_of line (some pos) = substr line 0 (some pos)

unfoldable pub headline_first : HeaderParser → List ℕ
headline_first p = first_of p.heading_line (find p.heading_line (codes " "))

abbrev pub between : List ℕ → ℕ → Option ℕ → List ℕ
between line first none = []
between line first (some second) =
    substr line (first + 1) (if ltb first second then some (second - first - 1) else none)

abbrev pub second_of : List ℕ → Option ℕ → List ℕ
second_of line none = []
second_of line (some first) = between line first (find_from line (codes " ") first)

-- `_headline_second`; a length of -1 wraps around to npos.
unfoldable pub headline_second : HeaderParser → List ℕ
headline_second p = second_of p.heading_line (find p.heading_line (codes " "))

abbrev pub third_between : List ℕ → Option ℕ → List ℕ
third_between line none = []
third_between line (some second) = elim (find line crlf) [
  | none ↦ substr line (second + 1) none
  | some end ↦ substr line (second + 1) (if ltb second end then some (end - second - 1) else none)
]

abbrev pub third_of : List ℕ → Option ℕ → List ℕ
third_of line none = []
third_of line (some first) = third_between line (find_from line (codes " ") first)

-- `_headline_third`
unfoldable pub headline_third : HeaderParser → List ℕ
headline_third p = third_of p.heading_line (find p.heading_line (codes " "))

-- One line of the header, into the map.
abbrev pub insert_key : List ℕ → Option ℕ → List (List ℕ × List ℕ) → List (List ℕ × List ℕ)
insert_key line none keys = keys
insert_key line (some colon) keys =
    keys ++ (map to_lower (take colon line), drop (colon + 2) line) ∷ []

-- The line that starts at `pos`.
abbrev pub line_at : List ℕ → ℕ → List ℕ
line_at header pos = elim (find (drop pos header) crlf) [
  | none ↦ drop pos header
  | some n ↦ take n (drop pos header)
]

-- The loop of `_extract_headers`, at the position of a CRLF; each round goes on behind it.
unfoldable pub extract_loop :
    ℕ → List ℕ → Option ℕ → List (List ℕ × List ℕ) → List (List ℕ × List ℕ)
extract_loop zero header pos keys = keys
extract_loop (suc n) header none keys = keys
extract_loop (suc n) header (some pos) keys =
    let line = line_at header (pos + 2) in
    extract_loop n header (find_from header crlf (pos + 2))
      (insert_key line (find line (codes ": ")) keys)

-- `_extract_headers`
unfoldable pub extract_headers : HeaderParser → HeaderParser
unfolding extract_loop
extract_headers p = record p {
  header_keys = extract_loop (length p.header + 1) p.header (find p.header crlf) p.header_keys;
}

-- The rest of the header's `push_chunk`, with the chunk appended, from the search for its end.
abbrev pub split_header : List ℕ → Option ℕ → HeaderParser → HeaderParser
split_header chunk none p = record p { header = p.header ++ chunk }
split_header chunk (some pos) p = extract_headers (
    extract_heading_line (record p {
      header_finished = true;
      body = p.body ++ drop (pos + 4) p.header;
      header = take pos p.header;
    }))

abbrev pub push_if : Bool → List ℕ → HeaderParser → HeaderParser
push_if true chunk p = p
push_if false chunk p =
    let q = record p { header = p.header ++ chunk } in
    split_header chunk (find q.header header_end) q

-- `http11_header_parser::push_chunk`
unfoldable pub push_header : List ℕ → HeaderParser → HeaderParser
unfolding extract_headers extract_heading_line find
push_header chunk p = push_if p.header_finished chunk p

-- `http_request_parser`
pub record RequestParser : Type 0 where
  pub header_parser : HeaderParser
  pub content_length : ℕ
  pub body_finished : Bool

abbrev pub same_bytes : List ℕ → List ℕ → Bool
same_bytes [] [] = true
same_bytes [] (y ∷ ys) = false
same_bytes (x ∷ xs) [] = false
same_bytes (x ∷ xs) (y ∷ ys) = x == y && same_bytes xs ys

unfoldable pub find_key : List ℕ → List (List ℕ × List ℕ) → Option (List ℕ)
find_key key [] = none
find_key key ((k, v) ∷ rest) = if same_bytes k key then some v else find_key key rest

-- `_extract_content_length`; `from_chars` is a parameter, and gives the value that `val` then has.
unfoldable pub extract_content_length : (List ℕ → ℕ) → HeaderParser → ℕ
unfolding find_key
extract_content_length from_chars p = elim (find_key (codes "content-length") p.header_keys) [
  | none ↦ 0
  | some v ↦ from_chars v
]

-- The test for a complete body, and `resize` of one that is.
abbrev pub finish_body : ℕ → RequestParser → RequestParser
finish_body n r =
    let sized = record r { content_length = n } in
    if leb n (length r.header_parser.body)
    then record sized {
      body_finished = true;
      header_parser = record r.header_parser { body = take n r.header_parser.body };
    }
    else sized

abbrev pub after_header : (List ℕ → ℕ) → HeaderParser → RequestParser → RequestParser
after_header from_chars p r =
    if p.header_finished
    then finish_body (extract_content_length from_chars p) (record r { header_parser = p })
    else record r { header_parser = p; content_length = 0 }

-- `http_request_parser::push_chunk`
unfoldable pub push_chunk : (List ℕ → ℕ) → List ℕ → RequestParser → RequestParser
unfolding push_header extract_content_length
push_chunk from_chars chunk r =
    if r.header_parser.header_finished
    then (let p = record r.header_parser { body = r.header_parser.body ++ chunk } in
        finish_body (extract_content_length from_chars p) (record r { header_parser = p }))
    else after_header from_chars (push_header chunk r.header_parser) r
