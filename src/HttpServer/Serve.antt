-- ===== src/HttpServer/Serve.antt =====
-- http_server/src/main.cpp, `main`: what the thread of a connection does, from the first read to the
-- answer. An exception that leaves the thread ends the program. What is printed is left out.
pub mod Chunked
pub mod Endless
use make_linux_server.Base.{Bool, true, false, List, [], ◌∷◌, ◌++◌, ℕ, if◌then◌else◌, length}
use make_linux_server.Http.CString.{codes}
use make_linux_server.Http.Response.Decimal.{decimal}
use make_linux_server.HttpServer.{HeaderParser, header_parser, RequestParser, push_chunk, crlf}

-- What `read` returns: bytes, none of them at the end of the stream, or -1.
pub data ReadResult : Type 0 where
  got : List ℕ → ReadResult
  read_failed : ReadResult

-- How far the thread is: it waits for `read`, has a whole request, or `check_error` has thrown.
pub data Reading : Type 0 where
  waiting : RequestParser → Reading
  complete : RequestParser → Reading
  read_threw : Reading

abbrev pub request_parser : RequestParser
request_parser = record { header_parser = header_parser; content_length = 0; body_finished = false }

-- The loop on `need_more_chunk`. The parser reads a Content-Length by `from_chars`.
unfoldable pub read_request : (List ℕ → ℕ) → List ReadResult → RequestParser → Reading
unfolding push_chunk
read_request from_chars [] r = waiting r
read_request from_chars (read_failed ∷ rs) r = read_threw
read_request from_chars (got chunk ∷ rs) r =
    let next = push_chunk from_chars chunk r in
    let rest = read_request from_chars rs next in if next.body_finished then complete next else rest

-- `resp`
unfoldable pub answer : List ℕ → List ℕ
unfolding decimal
answer body =
    codes "HTTP/1.1 200 ok"
    ++ (crlf
        ++ (codes "Server: proanimer"
            ++ (crlf
                ++ (codes "Connection: close"
                    ++ (crlf
                        ++ (codes "Content-length: "
                            ++ (decimal (length body) ++ (crlf ++ (crlf ++ body)))))))))

-- How the thread ends: with a call of `write` and then `close`, or with an exception. `open` is a
-- thread that still waits for its client.
pub data Served : Type 0 where
  wrote_and_closed : List ℕ → Served
  terminated : Served
  still_open : RequestParser → Served

abbrev pub reply : Bool → Reading → Served
reply can_write (waiting r) = still_open r
reply can_write read_threw = terminated
reply true (complete r) = wrote_and_closed (answer r.header_parser.body)
reply false (complete r) = terminated

-- The thread of a connection, where `can_write` says whether `write` succeeds.
unfoldable pub serve : (List ℕ → ℕ) → List ReadResult → Bool → Served
unfolding read_request answer
serve from_chars results can_write =
    reply can_write (read_request from_chars results request_parser)
