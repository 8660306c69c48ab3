-- ===== src/Http/Process.antt =====
-- `process` of http_conn.cpp, which a worker thread calls when bytes have been read.
pub mod Missing
pub mod Answered
pub mod Served
pub mod Submitted
mod Tests
use make_linux_server.Base.{ℕ, Bool, true, false, Option, none, some, List}
use make_linux_server.Base.Int.{ℤ}
use make_linux_server.Http.{
  Conn, HttpCode, no_request, get_request, bad_request, no_resource, forbidden_request,
  file_request, internal_error, closed_connection, close_conn, modfd_in, modfd_out,
}
use make_linux_server.Http.Read.{Parsed, answer, route, broken, unfinished, process_read}
use make_linux_server.Http.Response.{process_write}
use make_linux_server.Http.Route.{Users, FileStat, do_request}

-- What a call changes: the users, `m_user_count` and the object.
pub record World : Type 0 where
  pub users : Users
  pub user_count : ℤ
  pub conn : Conn

abbrev pub close_if_failed : Users → ℤ → Bool × Conn → World
close_if_failed users user_count (true, c) = record {
  users = users;
  user_count = user_count;
  conn = c;
}
close_if_failed users user_count (false, c) =
    let closed = close_conn true user_count c in
    record { users = users; user_count = closed.0; conn = closed.1 }

-- From the result of `process_read` on, for a result other than NO_REQUEST.
unfoldable pub answer_request : HttpCode → World → World
answer_request code w =
    let done = close_if_failed w.users w.user_count (process_write code w.conn) in
    record done { conn = modfd_out done.conn }

unfoldable pub reply : HttpCode → World → World
unfolding answer_request
reply no_request w = record w { conn = modfd_in w.conn }
reply get_request w = answer_request get_request w
reply bad_request w = answer_request bad_request w
reply no_resource w = answer_request no_resource w
reply forbidden_request w = answer_request forbidden_request w
reply file_request w = answer_request file_request w
reply internal_error w = answer_request internal_error w
reply closed_connection w = answer_request closed_connection w

abbrev pub reply_routed : World → Option (HttpCode × Users × Conn) → Option World
unfolding reply
reply_routed w none = none
reply_routed w (some (code, users, c)) = some (reply code (record w { users = users; conn = c }))

abbrev pub reply_parsed : (Conn → Option (HttpCode × Users × Conn)) → World → Parsed → Option World
unfolding reply
reply_parsed serve w (answer code c) = some (reply code (record w { conn = c }))
reply_parsed serve w (route c) = reply_routed w (serve c)
reply_parsed serve w broken = none
reply_parsed serve w unfinished = none

-- `none` is undefined behaviour.
unfoldable pub process : (List ℕ → Bool) → (List ℕ → Option FileStat) → World → Option World
unfolding reply_parsed
process mysql_query stat w =
    reply_parsed (do_request mysql_query stat w.users) w (process_read w.conn)
