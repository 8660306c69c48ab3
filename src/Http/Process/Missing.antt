-- ===== src/Http/Process/Missing.antt =====
-- What a client gets from http_conn.cpp when the file that it asks for is not there.
use make_linux_server.Base.{ℕ, ◌≡◌, refl, ap, ◌∙◌, Bool, true, Option, some, List, []}
use make_linux_server.Base.Int.{pos}
use make_linux_server.Http.{Conn, no_resource, modfd_in, modfd_out, reset}
use make_linux_server.Http.Read.{route, process_read}
use make_linux_server.Http.Response.{process_write}
use make_linux_server.Http.Route.{Users, FileStat, do_request}
use make_linux_server.Http.Write.{Writev, returned, write, is_zero}
use make_linux_server.Http.Process.{
  World, process, reply, reply_parsed, reply_routed, answer_request,
}

write_nothing :
    (rs : List Writev) (c : Conn)
    → c.bytes_to_send ≡ pos 0
    → write rs c ≡ (returned true, reset (modfd_in c), [])
unfolding write
write_nothing rs c e = let z : is_zero c.bytes_to_send ≡ true = ap is_zero e in rw z refl

-- A request for a file that is not there gets no answer: `process` waits for the socket to be
-- writable, and the call of `write` that follows sends nothing, resets the connection and waits for
-- the next request.
pub missing_lem :
    (mysql_query : List ℕ → Bool) (stat : List ℕ → Option FileStat) (w : World) (c d : Conn)
    (users : Users) (rs : List Writev)
    → process_read w.conn ≡ route c
    → do_request mysql_query stat w.users c ≡ some (no_resource, users, d)
    → d.bytes_to_send ≡ pos 0
    → (process mysql_query stat w
        ≡ some (record { users = users; user_count = w.user_count; conn = modfd_out d }))
      × (write rs (modfd_out d) ≡ (returned true, reset (modfd_in (modfd_out d)), []))
unfolding process reply answer_request process_write
missing_lem mysql_query stat w c d users rs e f z = (
  ap (reply_parsed (do_request mysql_query stat w.users) w) e ∙ ap (reply_routed w) f,
  write_nothing rs (modfd_out d) z,
)
