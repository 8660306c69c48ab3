-- ===== src/SelectServer.antt =====
-- io_多路复用/mini_select.cpp: the loop of `main` that serves clients by `select`. The loops behind it are
-- never reached. A set of descriptors is a function to Bool. `none` stands for undefined behaviour (a
-- descriptor outside of an fd_set), or an exception or a call of `errif` that ends the program.
pub mod Tracks
pub mod Silent
mod Tests
use make_linux_server.Base.{
  ℕ, zero, suc, ◌+◌, Bool, true, false, not, Option, none, some, List, [], ◌∷◌, ◌++◌, ◌&&◌, ◌||◌,
  leb, ltb, ◌==◌, if◌then◌else◌,
}

abbrev pub FdSet : Type 0
FdSet = ℕ → Bool

-- The capacity of an fd_set.
abbrev pub fd_setsize : ℕ
fd_setsize = 1024

abbrev pub fd_set : ℕ → FdSet → FdSet
fd_set fd set x = x == fd || set x

abbrev pub fd_clr : ℕ → FdSet → FdSet
fd_clr fd set x = not (x == fd) && set x

-- What `read` returns: bytes (none at the end), or -1.
pub data ReadResult : Type 0 where
  got : List ℕ → ReadResult
  failed : ReadResult

-- The variables of the loop, and what was given to `write` for the clients.
pub record Select : Type 0 where
  pub active_fds : FdSet
  pub max_fd : ℕ
  pub clients_fd : List ℕ
  pub written : List (ℕ × List ℕ)

-- The state in front of the loop. `active_fds` is not initialised: it holds what was there.
abbrev pub start : ℕ → FdSet → Select
start sockfd memory = record { active_fds = memory; max_fd = sockfd; clients_fd = []; written = [] }

-- What `select` leaves of the set: the descriptors below its first argument that are in the set and
-- readable.
abbrev pub select : ℕ → FdSet → FdSet → FdSet
select nfds readable set x = ltb x nfds && set x && readable x

abbrev pub max : ℕ → ℕ → ℕ
max a b = if ltb a b then b else a

-- `accept` returns a descriptor that was not open; others are no behaviour of it.
unfoldable pub accept_client : ℕ → Select → Option Select
accept_client fd s =
    if s.active_fds fd
    then some s
    else if leb fd_setsize fd
    then none
    else some (record s {
      active_fds = fd_set fd s.active_fds;
      max_fd = max s.max_fd fd;
      clients_fd = s.clients_fd ++ fd ∷ [];
    })

-- The clients that are left, the set, and the answers.
abbrev pub Served : Type 0
Served = Option (List ℕ × FdSet × List (ℕ × List ℕ))

abbrev pub keep : ℕ → List (ℕ × List ℕ) → Served → Served
keep fd answers none = none
keep fd answers (some (fds, set, out)) = some (fd ∷ fds, set, answers ++ out)

-- A client that is readable. The result is stored in a `size_t`, so that -1 is not `<= 0`, and a string
-- of that many bytes cannot be made. `can_write` says whether `write` succeeds; otherwise `errif` exits.
-- `kept` and `closed` are the rest of the loop in the two cases.
abbrev pub answer : List ℕ → ℕ → Bool → ReadResult → Served → Served → Served
answer greeting fd can_write (got []) kept closed = closed
answer greeting fd true (got (b ∷ bs)) kept closed = keep fd ((fd, greeting ++ b ∷ bs) ∷ []) kept
answer greeting fd false (got (b ∷ bs)) kept closed = none
answer greeting fd can_write failed kept closed = none

-- The loop over the clients.
unfoldable pub serve : List ℕ → FdSet → (ℕ → ReadResult) → (ℕ → Bool) → List ℕ → FdSet → Served
serve greeting ready reads writes [] set = some ([], set, [])
serve greeting ready reads writes (fd ∷ fds) set =
    let kept = serve greeting ready reads writes fds set in
    let closed = serve greeting ready reads writes fds (fd_clr fd set) in
    if ready fd then answer greeting fd (writes fd) (reads fd) kept closed else keep fd [] kept

-- What the kernel does in a round: whether `select` succeeds, the readable descriptors, the results of
-- `accept` and `read`, and whether `write` succeeds.
pub record Kernel : Type 0 where
  pub selects : Bool
  pub readable : FdSet
  pub accepted : ℕ
  pub reads : ℕ → ReadResult
  pub writes : ℕ → Bool

abbrev pub stored : Select → Served → Option Select
stored s none = none
stored s (some (fds, set, out)) =
    some (record s { active_fds = set; clients_fd = fds; written = s.written ++ out })

abbrev pub serve_all : List ℕ → FdSet → Kernel → Option Select → Option Select
serve_all greeting ready k none = none
serve_all greeting ready k (some s) =
    stored s (serve greeting ready k.reads k.writes s.clients_fd s.active_fds)

-- A round of the loop.
unfoldable pub round : List ℕ → ℕ → Kernel → Select → Option Select
unfolding accept_client serve
round greeting sockfd k s =
    let ready = select (s.max_fd + 1) k.readable s.active_fds in
    let served =
      serve_all greeting ready k (if ready sockfd then accept_client k.accepted s else some s) in
    if k.selects then served else none

abbrev pub and_then : Option Select → (Select → Option Select) → Option Select
and_then none f = none
and_then (some s) f = f s

unfoldable pub run : List ℕ → ℕ → List Kernel → Select → Option Select
unfolding round
run greeting sockfd [] s = some s
run greeting sockfd (k ∷ ks) s = and_then (round greeting sockfd k s) (run greeting sockfd ks)
