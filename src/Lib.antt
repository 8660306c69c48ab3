-- ===== src/Lib.antt =====
-- MakeLinuxServer: a verification library for the servers of the repository.
--
-- The program modelled is TinyWebServer, an HTTP server. Its main thread waits with epoll, accepts
-- connections, keeps a timer for each and hands ready sockets to a pool of worker threads; a worker
-- reads, parses and answers a request through the connection's object; users are looked up in a map
-- that is loaded through a pool of database connections; lines of the log may go through a bounded
-- queue to a writer thread.
--
--   Base          shared names, Boolean tests, lists over native numbers, signed integers, and sums
--                 over the threads of a system
--   BlockQueue    TinyWebServer/log/block_queue.h, `block_queue`: a circular array (push, pop,
--                 pop with a timeout, front, back, clear). Inv and Refine relate it to the list of its
--                 contents, Run to runs of operations, Wait to the waits and to front and back
--   Timer         TinyWebServer/timer/lst_timer.cpp, `sort_timer_lst`: a doubly linked list on an
--                 explicit heap (add_timer, adjust_timer, del_timer, tick and the destructor). Segment
--                 describes a stretch of the list on the heap; Insert, Adjust, Delete and Tick prove the
--                 operations against the list of entries, Sorted the order by expiry
--   SqlPool       TinyWebServer/CGImysql/sql_connection_pool.cpp, `connection_pool`; System is the
--                 pool with any number of threads under any schedule, with waits that a signal
--                 interrupts, Safety and Init its theorems
--   Http          TinyWebServer/http/http_conn.cpp and http_conn.h, `http_conn`: the object (Http), C's
--                 string functions (CString), parse_line (Line), parse_request_line, parse_headers and
--                 parse_content (Request), read_once and process_read (Read), do_request (Route),
--                 add_response to process_write (Response), write (Write) and process (Process);
--                 Line.Text, Request.First, Request.Headers, Read.Lines, Read.Head, Read.Whole and Read.Posted
--                 parse a whole request, Route.Target finds the file of a GET, Route.Form, Route.Submit and
--                 Route.FormPage the page of a form, and Process.Served and Process.Submitted put all of
--                 these and write together
--   WebServer     TinyWebServer/webserver.cpp, `WebServer`, with `Utils` and `cb_func` of lst_timer.cpp:
--                 timers and accepting (WebServer), signals, the read and write events and the event
--                 loop (Loop); Accounts and Expiry relate m_user_count and users_timer to the list of
--                 timers by way of Timer's theorems, Limit bounds the number of connections,
--                 and Rounds follows the timers through any run of the event loop
--   ThreadPool    TinyWebServer/threadpool/threadpool.h, `threadpool`: the queue, the semaphore and the
--                 threads under any schedule, with waits that a signal interrupts (Safety, Progress),
--                 and the work on one request (Serve)
--   Log           TinyWebServer/log/log.cpp and log.h, `Log`: init, write_log and the writer's round
--   Config        TinyWebServer/config.cpp, `Config`: the defaults and the options
--
-- Three other programs of the repository are modelled in part.
--   Reactor       cpp_server, a library for servers with several event loops: the task pool of
--                 src/ThreadPool.cpp under any schedule (Tasks), the channel's events and their
--                 registration, which may fail, of src/Channel.cpp and src/Epoll.cpp (Channel), reading and writing
--                 of src/Connection.cpp (Connection), the event loop of src/EventLoop.cpp with its
--                 queue of deferred functions and its wake-ups under any schedule (Loop), and the table
--                 of connections of src/Server.cpp with the closing across the loops (Server)
--   HttpServer    http_server/src/main.cpp: the parsers `http11_header_parser` and
--                 `http_request_parser`, which are fed a request in chunks, and the thread of a
--                 connection in main (Serve)
--   SelectServer  io_多路复用/mini_select.cpp: the loop that serves clients by select
--
-- State is a record with the object's fields, a method is a function from the state to the new state
-- and its result, and undefined behaviour (a null or dangling pointer, an access outside of an array)
-- is the result none or a constructor of its own. System calls are not modelled: a function that makes
-- them takes the list of their results in order (recv, writev, accept, epoll_wait), and the file system,
-- mysql_query, fopen and atoi are function parameters. Concurrency is a list of steps, each up to the
-- next point where another thread may run.
--
-- Fuel: the loops over the list of timers take fuel, and any fuel above the list's length is enough
-- (Timer.Adjust, Timer.Insert, Timer.Tick). process_read takes two rounds for each unchecked byte and
-- two more, which is enough for every object (Http.Read.Total). The loop of parse_line makes one round
-- for each byte between m_checked_idx and m_read_idx. The header parser's
-- loop has a round for each byte of the header and one more, and each round moves on by two bytes.
-- All other loops recur on a list.
--
-- Bounds: the size of a file is narrowed to int where file_page passes it on (Base.Int.int_of), so that
-- the length announced for a file of 2 GiB or more is not its size, as in the source. time_t, the connection
-- counts, the indices and the counters of `write` are unbounded numbers: that bytes_have_send overflows
-- beyond 2^31 is not modelled. The buffers have their sizes: 2048 bytes to read, 1024 to write, 200 for a
-- file's name, 100 for a user's name and password. The arrays `users` and `users_timer` are functions,
-- which the handlers of an event and of a new connection ask only below MAX_FD.
--
-- Not modelled: the creation of sockets, threads and signal handlers; the text and the effect of the
-- log's calls in the other components; connection addresses; the singleton accessors; the class cond,
-- sem and locker beyond their effect on the steps. Of cpp_server the sockets, the user's callbacks and
-- the programs that use the library; of http_server the addresses and the accept loop; of
-- mini_select.cpp the loops by poll and epoll, which are never reached; the small programs in asyncIO and the udp files are not modelled.
pub mod Base
pub mod BlockQueue
pub mod Timer
pub mod SqlPool
pub mod Http
pub mod WebServer
pub mod ThreadPool
pub mod Log
pub mod Config
pub mod Reactor
pub mod HttpServer
pub mod SelectServer
