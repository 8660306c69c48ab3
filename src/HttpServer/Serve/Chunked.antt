-- ===== src/HttpServer/Serve/Chunked.antt =====
-- A request that reaches the thread of a connection of http_server/src/main.cpp in chunks.
use make_linux_server.Base.{
  ℕ, ◌+◌, ◌≤◌, ◌<◌, ◌≡◌, refl, ap, sym, ◌∙◌, true, false, some, List, [], ◌∷◌, ◌++◌, leb,
  if◌then◌else◌, length, take, drop, map, append_assoc, length-append, arith,
}
use make_linux_server.HttpServer.{
  find, header_end, header_parser, RequestParser, push_header, push_chunk, extract_content_length,
  finish_body, after_header,
}
use make_linux_server.HttpServer.Chunks.{push_header_whole}
use make_linux_server.HttpServer.Serve.{
  ReadResult, got, complete, read_request, request_parser, answer, wrote_and_closed, reply, serve,
}

abbrev pub joined : List (List ℕ) → List ℕ
joined [] = []
joined (chunk ∷ chunks) = chunk ++ joined chunks

-- The parser behind a header, with a part of the body of `n` bytes.
record InBody (from_chars : List ℕ → ℕ) (n : ℕ) (r : RequestParser) : Type 0 where
  headed : r.header_parser.header_finished ≡ true
  announced : extract_content_length from_chars r.header_parser ≡ n
  going : r.body_finished ≡ false

abbrev with_body : List ℕ → RequestParser → RequestParser
with_body body r = record r { header_parser = record r.header_parser { body = body } }

push_body :
    (from_chars : List ℕ → ℕ) (n : ℕ) (chunk : List ℕ) (r : RequestParser)
    → InBody from_chars n r
    → push_chunk from_chars chunk r ≡ finish_body n (with_body (r.header_parser.body ++ chunk) r)
unfolding push_chunk extract_content_length
push_body from_chars n chunk r v =
    let longer = with_body (r.header_parser.body ++ chunk) r in
    ap
      (λ b.
        if b
        then finish_body (extract_content_length from_chars longer.header_parser) longer
        else after_header from_chars (push_header chunk r.header_parser) r)
      v.headed
    ∙ ap (λ k. finish_body k longer) v.announced

-- The chunks of a body, up to the one that completes it.
read_body :
    (from_chars : List ℕ → ℕ) (n : ℕ) (chunks : List (List ℕ)) (last : List ℕ)
    (rs : List ReadResult) (r : RequestParser)
    → InBody from_chars n r
    → length (r.header_parser.body ++ joined chunks) < n
    → n ≤ length (r.header_parser.body ++ (joined chunks ++ last))
    → read_request from_chars (map got chunks ++ got last ∷ rs) r
      ≡ complete (record (with_body (take n (r.header_parser.body ++ (joined chunks ++ last))) r) {
        content_length = n;
        body_finished = true;
      })
unfolding read_request
read_body from_chars n [] last rs r v short full =
    let body = r.header_parser.body ++ last in
    let enough : leb n (length body) ≡ true = ground arith in
    let done : finish_body n (with_body body r)
        ≡ record (with_body (take n body) r) { content_length = n; body_finished = true } =
      rw enough refl in
    ap (λ next. if next.body_finished then complete next else read_request from_chars rs next)
      (push_body from_chars n last r v ∙ done)
read_body from_chars n (chunk ∷ chunks) last rs r v short full =
    let body = r.header_parser.body ++ chunk in
    let later = map got chunks ++ got last ∷ rs in
    let next = record (with_body body r) { content_length = n } in
    let same = append_assoc r.header_parser.body chunk (joined chunks) in
    let all : body ++ (joined chunks ++ last)
        ≡ r.header_parser.body ++ ((chunk ++ joined chunks) ++ last) =
      append_assoc r.header_parser.body chunk (joined chunks ++ last)
      ∙ ap (λ l. r.header_parser.body ++ l) (sym (append_assoc chunk (joined chunks) last)) in
    let not_yet : leb n (length body) ≡ false =
      ground (arith, short, length-append body (joined chunks), ap (length {A = ℕ}) same) in
    let going : finish_body n (with_body body r) ≡ next = rw not_yet refl in
    ap (λ next. if next.body_finished then complete next else read_request from_chars later next)
      (push_body from_chars n chunk r v ∙ going)
    ∙ ap (λ b. if b then complete next else read_request from_chars later next) v.going
    ∙ read_body from_chars n chunks last rs next
        (record { headed = v.headed; announced = v.announced; going = v.going })
        (omega (arith, short, ap (length {A = ℕ}) same))
        (omega (arith, full, ap (length {A = ℕ}) all))
    ∙ ap
        (λ l.
          complete (record (with_body (take n l) r) { content_length = n; body_finished = true }))
        all

-- The parser behind the first chunk, which has the whole header.
push_first :
    (from_chars : List ℕ → ℕ) (first : List ℕ) (pos : ℕ)
    → find first header_end ≡ some pos
    → (let q = push_header first header_parser in
        push_chunk from_chars first request_parser
        ≡ finish_body
            (extract_content_length from_chars q)
            (record request_parser { header_parser = q }))
unfolding push_chunk
push_first from_chars first pos h =
    let q = push_header first header_parser in
    let finished = (push_header_whole first pos h).0 in
    ap
      (λ b.
        if b
        then finish_body (extract_content_length from_chars q)
            (record request_parser { header_parser = q })
        else record request_parser { header_parser = q; content_length = 0 })
      finished

-- A request in chunks is answered with its body. When the first chunk has the whole header, with a
-- Content-Length of `n`, and the chunks behind it have the rest of the body, the last one of them
-- being the first that completes it, then the thread writes the answer with exactly the first `n`
-- bytes behind the header, however they are split into chunks, reads nothing more, and closes the
-- connection.
pub serve-chunks :
    (from_chars : List ℕ → ℕ) (first : List ℕ) (chunks : List (List ℕ)) (last : List ℕ)
    (rs : List ReadResult) (pos n : ℕ)
    → find first header_end ≡ some pos
    → extract_content_length from_chars (push_header first header_parser) ≡ n
    → length (drop (pos + 4) first ++ joined chunks) < n
    → n ≤ length (drop (pos + 4) first ++ (joined chunks ++ last))
    → serve from_chars (got first ∷ (map got chunks ++ got last ∷ rs)) true
      ≡ wrote_and_closed (answer (take n (drop (pos + 4) first ++ (joined chunks ++ last))))
unfolding serve read_request
serve-chunks from_chars first chunks last rs pos n h e short full =
    let q = push_header first header_parser in
    let split = push_header_whole first pos h in
    let rest = drop (pos + 4) first in
    let later = map got chunks ++ got last ∷ rs in
    let next = record request_parser { header_parser = q; content_length = n } in
    let begun : length (q.body ++ joined chunks) < n =
      omega (arith, ap (λ b. length (b ++ joined chunks)) split.2, short) in
    let ended : n ≤ length (q.body ++ (joined chunks ++ last)) =
      omega (arith, ap (λ b. length (b ++ (joined chunks ++ last))) split.2, full) in
    let not_yet : leb n (length q.body) ≡ false =
      ground (arith, begun, length-append q.body (joined chunks)) in
    let going : finish_body n (record request_parser { header_parser = q }) ≡ next =
      rw not_yet refl in
    ap
      (λ (s : RequestParser).
        reply true (if s.body_finished then complete s else read_request from_chars later s))
      (push_first from_chars first pos h
        ∙ ap (λ k. finish_body k (record request_parser { header_parser = q })) e
        ∙ going)
    ∙ ap (reply true) (
        read_body from_chars n chunks last rs next
          (record { headed = split.0; announced = e; going = refl }) begun ended)
    ∙ ap (λ b. wrote_and_closed (answer (take n (b ++ (joined chunks ++ last))))) split.2
