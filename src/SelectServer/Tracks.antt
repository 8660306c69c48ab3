-- ===== src/SelectServer/Tracks.antt =====
-- What the loop of io_多路复用/mini_select.cpp watches, once the listening socket is in its set.
use make_linux_server.Base.{
  ℕ, ◌<◌, ◌≤◌, ◌≡◌, ◌≢◌, Bool, true, false, not, Option, none, some, List, [], ◌∷◌, ◌++◌, ◌&&◌,
  ◌||◌, ◌==◌, arith,
}
use make_linux_server.SelectServer.{
  FdSet, fd_setsize, ReadResult, got, failed, Select, Served, Kernel,
}

abbrev pub mem : ℕ → List ℕ → Bool
mem x [] = false
mem x (y ∷ ys) = x == y || mem x ys

-- The set holds the listening socket and the clients, none above `max_fd`; the socket is no client.
pub record Tracks (sockfd : ℕ) (s : Select) : Type 0 where
  pub watched : (x : ℕ) → s.active_fds x ≡ (x == sockfd || mem x s.clients_fd)
  pub bound : (x : ℕ) → s.active_fds x ≡ true → x ≤ s.max_fd
  pub no_client : mem sockfd s.clients_fd ≡ false

abbrev pub is_end : ReadResult → Bool
is_end (got []) = true
is_end (got (b ∷ bs)) = false
is_end failed = false

-- A client is closed when it is readable and at its end.
abbrev pub ends : FdSet → (ℕ → ReadResult) → ℕ → Bool
ends ready reads x = ready x && is_end (reads x)

-- No `read` fails.
abbrev pub AllRead : (ℕ → ReadResult) → Type 0
AllRead reads = (x : ℕ) → reads x ≢ failed

-- No `write` fails.
abbrev pub AllWritten : (ℕ → Bool) → Type 0
AllWritten writes = (x : ℕ) → writes x ≡ true

-- What the loop over the clients leaves.
abbrev Leaves : FdSet → (ℕ → ReadResult) → List ℕ → FdSet → Served → Type 0
Leaves ready reads fds set none = ⊥
Leaves ready reads fds set (some (left, after, out)) =
    (x : ℕ)
    → (mem x left ≡ (mem x fds && not (ends ready reads x)))
      × (after x ≡ (set x && not (mem x fds && ends ready reads x)))

abbrev Keeps : ℕ → Option Select → Type 0
Keeps sockfd none = ⊥
Keeps sockfd (some s) = Tracks sockfd s

pub mem-append : (x fd : ℕ) (xs : List ℕ) → mem x (xs ++ fd ∷ []) ≡ (mem x xs || x == fd)
mem-append x fd [] = ground arith
mem-append x fd (y ∷ xs) = ground (arith, mem-append x fd xs)

-- What a round's kernel has to do for the loop to go on: `select` succeeds, the client accepted fits an
-- fd_set, and no `read` or `write` fails.
abbrev pub IsCalm : Kernel → Type 0
IsCalm k = (k.selects ≡ true) × (k.accepted < fd_setsize) × AllRead k.reads × AllWritten k.writes

abbrev pub AllCalm : List Kernel → Type 0
AllCalm [] = Unit
AllCalm (k ∷ ks) = IsCalm k × AllCalm ks
