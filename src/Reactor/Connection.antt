-- ===== src/Reactor/Connection.antt =====
-- cpp_server/src/Connection.cpp: reading and writing on a connection. A call is run against the results
-- of its calls of `read` or `write`. The logger's and the user's callbacks are left out; `closed_calls`
-- counts the calls of `closeCallback`.
pub mod Flow
pub mod Leak
use make_linux_server.Base.{
  ℕ, zero, suc, ◌+◌, ◌-◌, Bool, true, false, List, [], ◌∷◌, ◌++◌, leb, ltb, if◌then◌else◌, length,
  take, drop,
}
use make_linux_server.Http.CString.{c_string}

pub data State : Type 0 where
  invalid connected closed : State

pub record Connection : Type 0 where
  pub state : State
  pub read_buffer : List ℕ
  pub send_buffer : List ℕ
  pub blocking : Bool
  pub closed_calls : ℕ

-- What `read` returns: bytes (none at the end), or -1 with EINTR, with EAGAIN, or with another error.
pub data Read : Type 0 where
  got : List ℕ → Read
  read_interrupted read_again read_failed : Read

-- What `write` returns.
pub data Write : Type 0 where
  put : ℕ → Write
  write_interrupted write_again write_failed : Write

-- `HandleClose`
unfoldable pub handle_close : State → Connection → Connection
handle_close invalid c = record c { state = closed; closed_calls = c.closed_calls + 1 }
handle_close connected c = record c { state = closed; closed_calls = c.closed_calls + 1 }
handle_close closed c = c

abbrev pub close : Connection → Connection
close c = handle_close c.state c

abbrev pub append : List ℕ → Connection → Connection
append bytes c = record c { read_buffer = c.read_buffer ++ bytes }

-- `ReadNonBlocking`; true if the call returned, false if it still reads.
unfoldable pub read_non_blocking : List Read → Connection → Bool × Connection
unfolding handle_close
read_non_blocking [] c = (false, c)
read_non_blocking (got [] ∷ rs) c = (true, close c)
read_non_blocking (got (b ∷ bs) ∷ rs) c = read_non_blocking rs (append (b ∷ bs) c)
read_non_blocking (read_interrupted ∷ rs) c = read_non_blocking rs c
read_non_blocking (read_again ∷ rs) c = (true, c)
read_non_blocking (read_failed ∷ rs) c = (true, close c)

-- `ReadBlocking`, with the number of interruptions that are left.
unfoldable pub read_blocking : ℕ → List Read → Connection → Bool × Connection
unfolding handle_close
read_blocking zero rs c = (true, c)
read_blocking (suc n) [] c = (false, c)
read_blocking (suc n) (got [] ∷ rs) c = (true, close c)
read_blocking (suc n) (got (b ∷ bs) ∷ rs) c = (true, append (b ∷ bs) c)
read_blocking (suc n) (read_interrupted ∷ rs) c = read_blocking n rs c
read_blocking (suc n) (read_again ∷ rs) c = (true, close c)
read_blocking (suc n) (read_failed ∷ rs) c = (true, close c)

abbrev pub read_from : State → Bool → List Read → Connection → Bool × Connection
read_from invalid blocking rs c = (true, c)
read_from closed blocking rs c = (true, c)
read_from connected true rs c = read_blocking 3 rs (record c { read_buffer = [] })
read_from connected false rs c = read_non_blocking rs (record c { read_buffer = [] })

-- `Read`
unfoldable pub read : List Read → Connection → Bool × Connection
unfolding read_blocking read_non_blocking
read rs c = read_from c.state c.blocking rs c

-- `WriteNonBlocking`, with the bytes that are left to send; the bytes accepted come last.
unfoldable pub write_non_blocking : List Write → List ℕ → Connection → Bool × Connection × List ℕ
write_non_blocking rs [] c = (true, c, [])
write_non_blocking [] (b ∷ bs) c = (false, c, [])
write_non_blocking (write_again ∷ rs) (b ∷ bs) c = (true, c, [])
write_non_blocking (write_interrupted ∷ rs) (b ∷ bs) c = write_non_blocking rs (b ∷ bs) c
write_non_blocking (write_failed ∷ rs) (b ∷ bs) c = (true, record c { state = closed }, [])
write_non_blocking (put n ∷ rs) (b ∷ bs) c =
    let (ended, d, out) = write_non_blocking rs (drop n (b ∷ bs)) c in
    (ended, d, take n (b ∷ bs) ++ out)

-- `WriteBlocking`, with the number of interruptions that are left.
unfoldable pub write_blocking : ℕ → List Write → List ℕ → Connection → Bool × Connection × List ℕ
write_blocking n rs [] c = (true, c, [])
write_blocking zero rs (b ∷ bs) c = (true, c, [])
write_blocking (suc n) [] (b ∷ bs) c = (false, c, [])
write_blocking (suc n) (write_again ∷ rs) (b ∷ bs) c = (true, record c { state = closed }, [])
write_blocking (suc n) (write_interrupted ∷ rs) (b ∷ bs) c = write_blocking n rs (b ∷ bs) c
write_blocking (suc n) (write_failed ∷ rs) (b ∷ bs) c = (true, record c { state = closed }, [])
write_blocking (suc n) (put k ∷ rs) (b ∷ bs) c =
    let (ended, d, out) = write_blocking (suc n) rs (drop k (b ∷ bs)) c in
    (ended, d, take k (b ∷ bs) ++ out)

-- A call of the loop, and the `clear` behind it once it has returned.
abbrev pub cleared : Bool × Connection × List ℕ → Bool × Connection × List ℕ
cleared (true, c, out) = (true, record c { send_buffer = [] }, out)
cleared (false, c, out) = (false, c, out)

abbrev pub write_from : State → Bool → List Write → Connection → Bool × Connection × List ℕ
write_from invalid blocking rs c = (true, c, [])
write_from closed blocking rs c = (true, c, [])
write_from connected true rs c = cleared (write_blocking 3 rs c.send_buffer c)
write_from connected false rs c = cleared (write_non_blocking rs c.send_buffer c)

-- `Write`
unfoldable pub write : List Write → Connection → Bool × Connection × List ℕ
unfolding write_blocking write_non_blocking
write rs c = write_from c.state c.blocking rs c

-- `SetReadBuffer(const char *)`, which sets the other buffer.
abbrev pub set_read_buffer : List ℕ → Connection → Connection
set_read_buffer text c = record c { send_buffer = c_string text }

-- `Send`; `setBuf` takes the text up to its first zero.
unfoldable pub send : List ℕ → List Write → Connection → Bool × Connection × List ℕ
unfolding write c_string
send text rs c = write rs (record c { send_buffer = c_string text })
