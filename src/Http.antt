-- ===== src/Http.antt =====
-- TinyWebServer/http/http_conn.h and http_conn.cpp: one HTTP connection. This file has the object's
-- state, its enums, and the operations that set it up and close it.
-- A char array is the list of its bytes; a char* into `m_read_buf` is an index, and none if NULL.
-- The object's calls on the epoll instance are recorded in `events`, the latest first.
pub mod CString
pub mod Line
pub mod Request
pub mod Read
pub mod Route
pub mod Process
pub mod Sample
mod Tests
pub mod Response
pub mod Write
use make_linux_server.Base.{
  ℕ, zero, suc, ◌+◌, Bool, true, false, Option, none, some, List, [], ◌∷◌, replicate, if◌then◌else◌,
}
use make_linux_server.Base.Int.{ℤ, pos, negsuc, ◌-ℤ◌, ◌+ℤ◌}

abbrev pub read_buffer_size : ℕ
read_buffer_size = 2048

abbrev pub write_buffer_size : ℕ
write_buffer_size = 1024

abbrev pub filename_len : ℕ
filename_len = 200

-- The methods that the parser accepts; the enum's other values are never assigned.
pub data Method : Type 0 where
  get post : Method

pub data CheckState : Type 0 where
  requestline header content : CheckState

pub data HttpCode : Type 0 where
  no_request get_request bad_request no_resource forbidden_request file_request internal_error
        closed_connection :
      HttpCode

pub data LineStatus : Type 0 where
  line_ok line_bad line_open : LineStatus

-- What is asked of epoll: a change of the events awaited on the socket, to reading or to writing
-- (always with EPOLLONESHOT), the socket's registration, and its removal with `close`.
pub data Event : Type 0 where
  await_read await_write : ℤ → Event
  registered removed : ℤ → Event

-- The object's fields. `iv` are the offsets and lengths of `m_iv`: the first into `write_buf`, the
-- second into the mapped file.
pub record Conn : Type 0 where
  pub sockfd : ℤ
  pub read_buf : List ℕ
  pub read_idx : ℕ
  pub checked_idx : ℕ
  pub start_line : ℕ
  pub write_buf : List ℕ
  pub write_idx : ℕ
  pub check_state : CheckState
  pub method : Method
  pub real_file : List ℕ
  pub url : Option ℕ
  pub version : Option ℕ
  pub host : Option ℕ
  pub content_length : ℤ
  pub linger : Bool
  pub file : Option (List ℕ)
  pub file_size : ℕ
  pub iv0_base : ℕ
  pub iv0_len : ℕ
  pub iv1_base : ℤ
  pub iv1_len : ℕ
  pub iv_count : ℕ
  pub cgi : Bool
  pub string : Option ℕ
  pub bytes_to_send : ℤ
  pub bytes_have_send : ℕ
  pub doc_root : List ℕ
  pub trig_mode : ℕ
  pub state : ℕ
  pub timer_flag : Bool
  pub improv : Bool
  pub events : List Event

-- `init()`. It does not touch the socket, `m_string`, the mapped file, `m_iv` and the configuration.
unfoldable pub reset : Conn → Conn
reset c = record c {
  bytes_to_send = pos 0;
  bytes_have_send = 0;
  check_state = requestline;
  linger = false;
  method = get;
  url = none;
  version = none;
  content_length = pos 0;
  host = none;
  start_line = 0;
  checked_idx = 0;
  read_idx = 0;
  write_idx = 0;
  cgi = false;
  state = 0;
  timer_flag = false;
  improv = false;
  read_buf = replicate read_buffer_size 0;
  write_buf = replicate write_buffer_size 0;
  real_file = replicate filename_len 0;
}

-- `init(sockfd, …)`, with the static `m_user_count` beside the object.
unfoldable pub init : ℕ → List ℕ → ℕ → ℤ → Conn → ℤ × Conn
unfolding reset
init sockfd root trig_mode user_count c = (
  user_count +ℤ pos 1,
  reset (record c {
    sockfd = pos sockfd;
    doc_root = root;
    trig_mode = trig_mode;
    events = registered (pos sockfd) ∷ c.events;
  }),
)

abbrev pub is_open : ℤ → Bool
is_open (pos n) = true
is_open (negsuc zero) = false
is_open (negsuc (suc n)) = true

-- `close_conn(real_close)`
unfoldable pub close_conn : Bool → ℤ → Conn → ℤ × Conn
close_conn false user_count c = (user_count, c)
close_conn true user_count c =
    if is_open c.sockfd
    then (user_count -ℤ pos 1, record c { sockfd = negsuc 0; events = removed c.sockfd ∷ c.events })
    else (user_count, c)

-- `modfd(m_epollfd, m_sockfd, EPOLLIN, …)` and the same for EPOLLOUT.
abbrev pub modfd_in : Conn → Conn
modfd_in c = record c { events = await_read c.sockfd ∷ c.events }

abbrev pub modfd_out : Conn → Conn
modfd_out c = record c { events = await_write c.sockfd ∷ c.events }

-- `unmap`
unfoldable pub unmap : Conn → Conn
unmap c = record c { file = none }
