-- ===== src/HttpServer/Tests.antt =====
-- Runs of the parser and of the thread of a connection of http_server/src/main.cpp.
use make_linux_server.Base.{ℕ, ◌≡◌, refl, true, none, some, List, [], ◌∷◌, ◌++◌, replicate, arith}
use make_linux_server.Http.CString.{codes, digits_value, to_lower}
use make_linux_server.Http.Response.Decimal.{decimal}
use make_linux_server.HttpServer.{
  find, starts_with, header_end, HeaderParser, header_parser, push_header, crlf, RequestParser,
  extract_content_length, extract_headers, extract_loop, extract_heading_line, find_key,
}
use make_linux_server.HttpServer.Serve.{
  got, read_request, request_parser, serve, answer, wrote_and_closed, waiting,
}
use make_linux_server.HttpServer.Serve.Chunked.{serve-chunks}
use make_linux_server.HttpServer.Serve.Endless.{closed-waits}

abbrev with_line : HeaderParser
with_line = record header_parser { heading_line = codes "GET /a HTTP/1.1" }

first-space : find with_line.heading_line (codes " ") ≡ some 3
unfolding find starts_with
first-space = refl

no_end : find (codes "GET /a") header_end ≡ none
unfolding find starts_with
no_end = refl

unfinished :
    push_header (codes "GET /a") header_parser
    ≡ record header_parser { header = codes "GET /aGET /a" }
unfolding push_header find starts_with
unfinished = refl

-- A request in three chunks.
abbrev first_chunk : List ℕ
first_chunk =
    codes "POST / HTTP/1.1"
    ++ (crlf ++ (codes "Content-Length: 5" ++ (crlf ++ (crlf ++ codes "he"))))

first_end : find first_chunk header_end ≡ some 34
unfolding find starts_with
first_end = refl

announced : extract_content_length (digits_value 0) (push_header first_chunk header_parser) ≡ 5
unfolding extract_content_length push_header find starts_with extract_headers extract_loop
    extract_heading_line find_key to_lower digits_value
announced = refl

serve-chunks_example :
    serve
      (digits_value 0)
      (got first_chunk ∷ got (codes "l") ∷ got (codes "lo!") ∷ got [] ∷ [])
      true
    ≡ wrote_and_closed (answer (codes "hello"))
serve-chunks_example =
    serve-chunks (digits_value 0) first_chunk (codes "l" ∷ []) (codes "lo!") (got [] ∷ []) 34 5
      first_end announced (omega arith) (omega arith)

-- The client has sent a part of its header.
abbrev begun : RequestParser
begun = record request_parser { header_parser = record header_parser { header = codes "GET /a" } }

closed-waits_example :
    (m : ℕ) × (read_request (digits_value 0) (replicate 3 (got [])) begun
      ≡ waiting (record begun { content_length = m }))
closed-waits_example = closed-waits (digits_value 0) 3 begun no_end refl

hello_answer :
    answer (codes "hello")
    ≡ codes "HTTP/1.1 200 ok"
      ++ (crlf
          ++ (codes "Server: proanimer"
              ++ (crlf
                  ++ (codes "Connection: close"
                      ++ (crlf
                          ++ (codes "Content-length: 5" ++ (crlf ++ (crlf ++ codes "hello"))))))))
unfolding answer decimal
hello_answer = refl
