-- ===== src/ThreadPool/Serve.antt =====
-- What a thread of threadpool.h does with a request, an object of http_conn.cpp. The misspelt
-- `request->imporv` is read as `improv`.
use make_linux_server.Base.{ℕ, Bool, true, false, Option, none, some, List, ◌==◌, if◌then◌else◌}
use make_linux_server.Http.{Conn}
use make_linux_server.Http.Read.{Recv, ReadOutcome, reading, read_returned, underflowed, read_once}
use make_linux_server.Http.Write.{Writev, Outcome, writing, returned, fault, write}
use make_linux_server.Http.Route.{FileStat}
use make_linux_server.Http.Process.{World, process}

-- How the work on a request ends.
pub data Work : Type 0 where
  finished : World → Work
  blocked : Work
  undefined : Work

abbrev pub or_undefined : Option World → Work
or_undefined none = undefined
or_undefined (some w) = finished w

-- `improv = 1`, with and without `timer_flag = 1`.
abbrev pub improve : Conn → Conn
improve c = record c { improv = true }

abbrev pub give_up : Conn → Conn
give_up c = record c { improv = true; timer_flag = true }

abbrev pub after_read : (World → Option World) → World → ReadOutcome × Conn → Work
after_read handle w (reading, c) = blocked
after_read handle w (read_returned true, c) = or_undefined (handle (record w { conn = improve c }))
after_read handle w (read_returned false, c) = finished (record w { conn = give_up c })
after_read handle w (underflowed, c) = finished (record w { conn = give_up c })

abbrev pub after_write : World → Outcome × Conn × List ℕ → Work
after_write w (writing, c, out) = blocked
after_write w (fault, c, out) = undefined
after_write w (returned true, c, out) = finished (record w { conn = improve c })
after_write w (returned false, c, out) = finished (record w { conn = give_up c })

-- The work in the loop of `run`.
unfoldable pub serve :
    ℕ → (List ℕ → Bool) → (List ℕ → Option FileStat) → List Recv → List Writev → World → Work
serve actor_model mysql_query stat recvs writevs w =
    if actor_model == 1
    then (if w.conn.state == 0
        then after_read (process mysql_query stat) w (read_once recvs w.conn)
        else after_write w (write writevs w.conn))
    else or_undefined (process mysql_query stat w)
