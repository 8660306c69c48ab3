-- ===== src/Log/Tests.antt =====
-- Runs of the log, with a new file for each two lines.
use make_linux_server.Base.{◌+◌, ◌≡◌, refl, true, false, some, [], ◌∷◌, ◌++◌, if◌then◌else◌, arith}
use make_linux_server.Http.CString.{codes}
use make_linux_server.Http.Response.Decimal.{decimal}
use make_linux_server.Log.{
  Time, Log, write_log, rotates, tail, stamp, padded, level_name, new_file, format_line,
}
use make_linux_server.Log.Rotation.{lost_line, write_log-kept, kept}

abbrev noon : Time
noon = record { year = 2024; month = 5; day = 17; hour = 12; minute = 0; second = 0; micro = 7 }

abbrev first_log : Log
first_log = record {
  dir_name = codes "./";
  log_name = codes "log";
  split_lines = 2;
  log_buf_size = 60;
  count = 0;
  today = 17;
  file = some (codes "f");
  queue = [];
  max_queue_size = 0;
  is_async = false;
  lines = [];
}

abbrev second_log : Log
second_log = record first_log { count = 1 }

lost_line_example : write_log (λ name. true) 1 (codes "hi") noon first_log ≡ some second_log
lost_line_example = lost_line (λ name. true) 1 (codes "hi") noon first_log refl (λ e. omega arith)

abbrev third_log : Log
third_log = record first_log {
  count = 2;
  file = some (codes "./2024_05_17_log.1");
  lines =
      (codes "./2024_05_17_log.1", codes "2024-05-17 12:00:00.000007 [INFO] hi" ++ 10 ∷ []) ∷ [];
}

second-written : write_log (λ name. true) 1 (codes "hi") noon second_log ≡ some third_log
unfolding write_log new_file format_line tail stamp padded level_name decimal
second-written = refl

write_log-kept_example : kept third_log ≡ 0 + (if rotates noon third_log then 1 else 0)
write_log-kept_example =
    write_log-kept (λ name. true) 1 (codes "hi") noon second_log third_log second-written
