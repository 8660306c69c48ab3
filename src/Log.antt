-- ===== src/Log.antt =====
-- TinyWebServer/log/log.cpp and log.h: the log, a file for each day and each `split_lines` lines, that
-- is written at once or through the queue of log/block_queue.h, here the list of its contents. A call
-- of `write_log` is one step. Whether `fopen` succeeds is a parameter; `none` is undefined behaviour, a
-- null FILE* or an access outside of `m_buf`.
pub mod Rotation
mod Tests
use make_linux_server.Base.{
  ℕ, zero, suc, ◌+◌, ◌-◌, ◌/◌, ◌%◌, Bool, true, false, not, Option, none, some, List, [], ◌∷◌, ◌++◌,
  ◌&&◌, ◌||◌, ltb, leb, ◌==◌, if◌then◌else◌, length, take, drop,
}
use make_linux_server.Http.CString.{codes, strrchr}
use make_linux_server.Http.Response.Decimal.{decimal}

-- What `localtime` and `gettimeofday` give, with the year and the month as they are printed.
pub record Time : Type 0 where
  pub year : ℕ
  pub month : ℕ
  pub day : ℕ
  pub hour : ℕ
  pub minute : ℕ
  pub second : ℕ
  pub micro : ℕ

-- `file` is the name of the open file; `lines` are the lines written, with their files, the latest
-- first.
pub record Log : Type 0 where
  pub dir_name : List ℕ
  pub log_name : List ℕ
  pub split_lines : ℕ
  pub log_buf_size : ℕ
  pub count : ℕ
  pub today : ℕ
  pub file : Option (List ℕ)
  pub queue : List (List ℕ)
  pub max_queue_size : ℕ
  pub is_async : Bool
  pub lines : List (List ℕ × List ℕ)

abbrev pub zeros : ℕ → List ℕ
zeros zero = []
zeros (suc n) = b'0' ∷ zeros n

-- `%0wd`
unfoldable pub padded : ℕ → ℕ → List ℕ
padded w n = zeros (w - length (decimal n)) ++ decimal n

-- `%d_%02d_%02d_`, in 16 bytes.
unfoldable pub tail : Time → List ℕ
unfolding padded
tail t =
    take 15
      (decimal t.year ++ (b'_' ∷ (padded 2 t.month ++ (b'_' ∷ (padded 2 t.day ++ b'_' ∷ [])))))

unfoldable pub level_name : ℕ → List ℕ
level_name level =
    if level == 0
    then codes "[DEBUG]"
    else if level == 2
    then codes "[WARN]"
    else if level == 3
    then codes "[ERROR]"
    else codes "[INFO]"

-- `%d-%02d-%02d %02d:%02d:%02d.%06ld %s `
unfoldable pub stamp : ℕ → Time → List ℕ
unfolding padded level_name
stamp level t =
    decimal t.year
    ++ (b'-'
        ∷ (padded 2 t.month
            ++ (b'-'
                ∷ (padded 2 t.day
                    ++ (32
                        ∷ (padded 2 t.hour
                            ++ (b':'
                                ∷ (padded 2 t.minute
                                    ++ (b':'
                                        ∷ (padded 2 t.second
                                            ++ (b'.'
                                                ∷ (padded 6 t.micro
                                                    ++ (32
                                                        ∷ (level_name level ++ 32 ∷ []))))))))))))))

-- The first file's name, and the two parts of the name given, if it has a path; `p` is its last '/'.
unfoldable pub split_name : Option ℕ → List ℕ → Time → Log → Log × List ℕ
unfolding tail
split_name none file_name t l = (l, tail t ++ file_name)
split_name (some p) file_name t l =
    let dir = take (p + 1) file_name in
    let name = drop (p + 1) file_name in
    (record l { dir_name = dir; log_name = name }, dir ++ (tail t ++ name))

-- `init`, for a file name and a queue of `max_queue_size`, and its result.
unfoldable pub init : (List ℕ → Bool) → List ℕ → ℕ → ℕ → ℕ → Time → Log → Bool × Log
unfolding split_name
init opens file_name log_buf_size split_lines max_queue_size t l =
    let async = record l {
      is_async = l.is_async || leb 1 max_queue_size;
      max_queue_size = max_queue_size;
      log_buf_size = log_buf_size;
      split_lines = split_lines;
      today = t.day;
    } in
    let split = split_name (strrchr file_name b'/') file_name t async in
    if opens (take 254 split.1)
    then (true, record split.0 { file = some (take 254 split.1) })
    else (false, record split.0 { file = none })

-- The test for a new file, after the line was counted.
abbrev pub rotates : Time → Log → Bool
rotates t l = not (l.today == t.day) || l.count % l.split_lines == 0

-- The new file's name, and the fields that go with it.
unfoldable pub new_file : Time → Log → List ℕ × Log
unfolding tail
new_file t l =
    if l.today == t.day
    then (l.dir_name ++ (tail t ++ (l.log_name ++ (b'.' ∷ decimal (l.count / l.split_lines)))), l)
    else (l.dir_name ++ (tail t ++ l.log_name), record l { today = t.day; count = 0 })

-- The line, when it and its end fit into `m_buf`.
unfoldable pub format_line : ℕ → List ℕ → Time → Log → Option (List ℕ)
unfolding stamp
format_line level message t l =
    let line = stamp level t ++ message in
    if ltb (length line + 1) l.log_buf_size then some (line ++ 10 ∷ []) else none

-- `fputs(…, m_fp)`
abbrev pub put_line : List ℕ → Option (List ℕ) → Log → Option Log
put_line line none l = none
put_line line (some name) l = some (record l { lines = (name, line) ∷ l.lines })

-- The line goes to the queue, if there is one with room, or to the file.
abbrev pub store_line : Log → Option (List ℕ) → Option Log
store_line l none = none
store_line l (some line) =
    if l.is_async && ltb (length l.queue) l.max_queue_size
    then some (record l { queue = l.queue ++ line ∷ [] })
    else put_line line l.file l

-- Everything under the test for a new file: `fflush` and `fclose` of the old one want it to be open.
abbrev pub rotate : (List ℕ → Bool) → ℕ → List ℕ → Time → Option (List ℕ) → Log → Option Log
rotate opens level message t none l = none
rotate opens level message t (some old) l =
    let (name, next) = new_file t l in
    let opened = record next {
      file = if opens (take 254 name) then some (take 254 name) else none;
    } in
    store_line opened (format_line level message t opened)

-- `write_log`
unfoldable pub write_log : (List ℕ → Bool) → ℕ → List ℕ → Time → Log → Option Log
unfolding new_file format_line
write_log opens level message t l =
    let counted = record l { count = l.count + 1 } in
    if rotates t counted then rotate opens level message t counted.file counted else some counted

-- A round of `async_write_log`, which waits while the queue is empty.
unfoldable pub write_queued : Log → Option Log
write_queued l = elim l.queue [
  | [] ↦ some l
  | line ∷ rest ↦ put_line line l.file (record l { queue = rest })
]
