-- ===== src/HttpServer/Chunks.antt =====
-- What the parser of http_server/src/main.cpp makes of a request, whole or in chunks.
use mathlib.Core.Path.{subst}
use make_linux_server.Base.{
  ℕ, zero, suc, ◌+◌, ◌≡◌, refl, ap, sym, ◌∙◌, true, false, Option, none, some, List, [], ◌∷◌, ◌++◌,
  ltb, take, drop, arith, Bool-cases, inl, inr,
}
use make_linux_server.Http.CString.{codes}
use make_linux_server.HttpServer.{
  starts_with, shift, find, find_from, plus, header_end, HeaderParser, header_parser,
  headline_second, second_of, between, split_header, push_if, push_header, extract_heading_line,
  extract_headers,
}

find-shifted : (o : Option ℕ) (k : ℕ) → shift o ≡ some (suc k) → o ≡ some k
find-shifted none k h = absurd (ground (arith, h))
find-shifted (some n) k h = ground (arith, h)

-- Looking again from where the pattern was found finds the same place.
find-drop :
    (text pattern : List ℕ) (k : ℕ)
    → find text pattern ≡ some k
    → find (drop k text) pattern ≡ some 0
unfolding find
find-drop [] pattern k h = absurd (ground (arith, h))
find-drop (x ∷ xs) pattern zero h = h
find-drop (x ∷ xs) pattern (suc k) h = elim (Bool-cases (starts_with (x ∷ xs) pattern)) [
  | inl e ↦ absurd (ground (arith, h, e))
  | inr e ↦
      let s : find (x ∷ xs) pattern ≡ shift (find xs pattern) = rw e refl in
      find-drop xs pattern k (find-shifted (find xs pattern) k (sym s ∙ h))
]

-- The second field of the heading line runs to the end of the line: the search for the second space
-- starts at the first one and finds it again, so that the URL keeps the version behind it.
pub headline_second_lem :
    (p : HeaderParser) (first : ℕ)
    → find p.heading_line (codes " ") ≡ some first
    → headline_second p ≡ drop (first + 1) p.heading_line
unfolding headline_second
headline_second_lem p first h =
    let line = p.heading_line in
    let again : find_from line (codes " ") first ≡ some first =
      ap (plus first) (find-drop line (codes " ") first h) ∙ ap some (omega arith) in
    let same : ltb first first ≡ false = ground arith in
    ap (second_of line) h ∙ ap (between line first) again ∙ rw same refl

-- A chunk that does not finish the header is appended twice.
pub push_header_unfinished :
    (chunk : List ℕ) (p : HeaderParser)
    → p.header_finished ≡ false
    → find (p.header ++ chunk) header_end ≡ none
    → push_header chunk p ≡ record p { header = (p.header ++ chunk) ++ chunk }
unfolding push_header
push_header_unfinished chunk p e h =
    ap (λ b. push_if b chunk p) e
    ∙ ap (λ o. split_header chunk o (record p { header = p.header ++ chunk })) h

-- A header that comes in one chunk is split at its end: the header is what stands before the empty
-- line, and the body starts with all that comes behind it.
pub push_header_whole :
    (chunk : List ℕ) (pos : ℕ)
    → find chunk header_end ≡ some pos
    → let q = push_header chunk header_parser in
      (q.header_finished ≡ true) × (q.header ≡ take pos chunk) × (q.body ≡ drop (pos + 4) chunk)
unfolding push_header extract_headers extract_heading_line
push_header_whole chunk pos h =
    let s : push_header chunk header_parser
        ≡ split_header chunk (some pos) (record header_parser { header = chunk }) =
      ap (λ o. split_header chunk o (record header_parser { header = chunk })) h in
    subst
      (λ q.
        (q.header_finished ≡ true) × (q.header ≡ take pos chunk) × (q.body ≡ drop (pos + 4) chunk))
      (sym s) (refl, refl, refl)
