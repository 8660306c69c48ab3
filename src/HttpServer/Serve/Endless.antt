-- ===== src/HttpServer/Serve/Endless.antt =====
-- The thread of a connection of http_server/src/main.cpp when the client has closed its side.
use mathlib.Core.Path.{subst}
use make_linux_server.Base.{
  ℕ, zero, suc, ◌≡◌, refl, ap, ◌∙◌, false, none, List, [], ◌++◌, leb, if◌then◌else◌, length,
  replicate, append-nil, Bool-cases, inl, inr,
}
use make_linux_server.HttpServer.{
  find, header_end, RequestParser, push_header, push_chunk, extract_content_length, after_header,
}
use make_linux_server.HttpServer.Chunks.{push_header_unfinished}
use make_linux_server.HttpServer.Serve.{got, waiting, complete, read_request}

-- A request that is not complete: its header has no end yet, or its body is too short.
abbrev pub IsPartial : (List ℕ → ℕ) → RequestParser → Type 0
IsPartial from_chars r =
    if r.header_parser.header_finished
    then leb (extract_content_length from_chars r.header_parser) (length r.header_parser.body)
      ≡ false
    else find r.header_parser.header header_end ≡ none

-- A chunk without bytes changes nothing that the loop looks at.
push_chunk-empty :
    (from_chars : List ℕ → ℕ) (r : RequestParser)
    → IsPartial from_chars r
    → r.body_finished ≡ false
    → (n : ℕ) × (push_chunk from_chars [] r ≡ record r { content_length = n })
unfolding push_chunk push_header
push_chunk-empty from_chars r p f =
    let q = r.header_parser in
    elim (Bool-cases q.header_finished) [
      | inl e ↦
          let n = extract_content_length from_chars q in
          let short : leb n (length q.body) ≡ false =
            subst
              (λ b.
                if b
                then leb (extract_content_length from_chars q) (length q.body) ≡ false
                else find q.header header_end ≡ none)
              e p in
          (n, rw (e, append-nil q.body, short) refl)
      | inr e ↦
          let no_end : find q.header header_end ≡ none =
            subst
              (λ b.
                if b
                then leb (extract_content_length from_chars q) (length q.body) ≡ false
                else find q.header header_end ≡ none)
              e p in
          let still : find (q.header ++ []) header_end ≡ none =
            ap (λ h. find h header_end) (append-nil q.header) ∙ no_end in
          let same : push_header [] q ≡ q =
            push_header_unfinished [] q e still
            ∙ ap (λ h. record q { header = h })
                (append-nil (q.header ++ []) ∙ append-nil q.header) in
          let pushed : push_chunk from_chars [] r ≡ after_header from_chars (push_header [] q) r =
            rw e refl in
          (0, pushed ∙ ap (λ h. after_header from_chars h r) same ∙ rw e refl)
    ]

-- A client that closes its side before its request is complete keeps the thread busy for ever: `read`
-- returns 0 at once, the empty chunk changes nothing, and however often it is called, the loop goes on
-- with the same parser, but for the length of the body.
pub closed-waits :
    (from_chars : List ℕ → ℕ) (n : ℕ) (r : RequestParser)
    → IsPartial from_chars r
    → r.body_finished ≡ false
    → (m : ℕ) × (read_request from_chars (replicate n (got [])) r
        ≡ waiting (record r { content_length = m }))
unfolding read_request
closed-waits from_chars zero r p f = (r.content_length, refl)
closed-waits from_chars (suc n) r p f =
    let (m, e) = push_chunk-empty from_chars r p f in
    let s = record r { content_length = m } in
    let (k, ih) = closed-waits from_chars n s p f in
    (
      k,
      ap
            (λ next.
              if next.body_finished
              then complete next
              else read_request from_chars (replicate n (got [])) next)
            e
          ∙ ap (λ b. if b then complete s else read_request from_chars (replicate n (got [])) s) f
          ∙ ih,
    )
