-- ===== src/Http/Sample.antt =====
-- A connection object as `init` leaves it, on which the runs of the model build.
use make_linux_server.Base.{true, false, none, [], replicate}
use make_linux_server.Base.Int.{pos}
use make_linux_server.Http.{Conn, requestline, get, write_buffer_size, read_buffer_size}
use make_linux_server.Http.CString.{codes}

abbrev pub blank : Conn
blank = record {
  sockfd = pos 7;
  read_buf = replicate read_buffer_size 0;
  read_idx = 0;
  checked_idx = 0;
  start_line = 0;
  write_buf = replicate write_buffer_size 0;
  write_idx = 0;
  check_state = requestline;
  method = get;
  real_file = replicate 200 0;
  url = none;
  version = none;
  host = none;
  content_length = pos 0;
  linger = true;
  file = none;
  file_size = 0;
  iv0_base = 0;
  iv0_len = 0;
  iv1_base = pos 0;
  iv1_len = 0;
  iv_count = 0;
  cgi = false;
  string = none;
  bytes_to_send = pos 0;
  bytes_have_send = 0;
  doc_root = codes "/srv";
  trig_mode = 1;
  state = 0;
  timer_flag = false;
  improv = false;
  events = [];
}
