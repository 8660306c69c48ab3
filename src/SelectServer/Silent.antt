-- ===== src/SelectServer/Silent.antt =====
-- Two ways in which the loop of io_多路复用/mini_select.cpp fails: its set is not initialised, and an error
-- of `read` is not noticed.
use make_linux_server.Base.{
  ℕ, ◌+◌, ◌≡◌, refl, ap, sym, ◌∙◌, Bool, true, false, none, some, List, [], ◌∷◌, ◌++◌, ◌&&◌, leb,
  ltb, ◌==◌, if◌then◌else◌, arith, Bool-cases, inl, inr,
}
use make_linux_server.SelectServer.{
  FdSet, fd_setsize, fd_set, fd_clr, ReadResult, got, failed, Select, start, select, accept_client,
  answer, serve, Kernel, stored, serve_all, round, and_then, run,
}
use make_linux_server.SelectServer.Tracks.{mem, mem-append}

and_false : (a b c : Bool) → b ≡ false → (a && b && c) ≡ false
and_false a b c h = ground arith

silent_round :
    (greeting : List ℕ) (sockfd : ℕ) (memory : FdSet) (k : Kernel)
    → memory sockfd ≡ false
    → round greeting sockfd k (start sockfd memory)
      ≡ (if k.selects then some (start sockfd memory) else none)
unfolding round serve
silent_round g sockfd memory k h =
    let quiet = and_false (ltb sockfd (sockfd + 1)) (memory sockfd) (k.readable sockfd) h in
    rw quiet refl

-- No call of `select` fails.
abbrev pub all_select : List Kernel → Bool
all_select [] = true
all_select (k ∷ ks) = k.selects && all_select ks

-- The server may never answer. `active_fds` is not initialised: if the memory has no bit for the
-- listening socket, then whatever clients connect and send, no client is ever accepted and nothing
-- is written, for as long as `select` succeeds; when it fails, the program ends.
pub run-silent :
    (greeting : List ℕ) (sockfd : ℕ) (memory : FdSet) (ks : List Kernel)
    → memory sockfd ≡ false
    → run greeting sockfd ks (start sockfd memory)
      ≡ (if all_select ks then some (start sockfd memory) else none)
unfolding run
run-silent g sockfd memory [] h = refl
run-silent g sockfd memory (k ∷ ks) h =
    ap (λ o. and_then o (run g sockfd ks)) (silent_round g sockfd memory k h)
    ∙ elim (Bool-cases k.selects) [
      | inl y ↦ rw y (run-silent g sockfd memory ks h)
      | inr n ↦ rw n refl
    ]

answer-none :
    (greeting : List ℕ) (fd : ℕ) (b : Bool) (r : ReadResult)
    → answer greeting fd b r none none ≡ none
answer-none g fd w (got []) = refl
answer-none g fd true (got (b ∷ bs)) = refl
answer-none g fd false (got (b ∷ bs)) = refl
answer-none g fd w failed = refl

serve-none :
    (greeting : List ℕ) (ready : FdSet) (reads : ℕ → ReadResult) (writes : ℕ → Bool) (fd : ℕ)
    (fds : List ℕ) (set : FdSet)
    → mem fd fds ≡ true
    → ready fd ≡ true
    → reads fd ≡ failed
    → serve greeting ready reads writes fds set ≡ none
unfolding serve
serve-none g ready reads writes fd [] set m y f = absurd (ground arith)
serve-none g ready reads writes fd (c ∷ cs) set m y f = elim (Bool-cases (fd == c)) [
  | inl same ↦
      let p : fd ≡ c = ground arith in
      let y' : ready c ≡ true = ap ready (sym p) ∙ y in
      let f' : reads c ≡ failed = ap reads (sym p) ∙ f in rw (y', f') refl
  | inr other ↦
      let rest = serve-none g ready reads writes fd cs set (rw other at m) y f in
      let rest' = serve-none g ready reads writes fd cs (fd_clr c set) (rw other at m) y f in
      elim (Bool-cases (ready c)) [
        | inl z ↦ rw (z, rest, rest') (answer-none g c (writes c) (reads c))
        | inr z ↦ rw (z, rest) refl
      ]
]

served-none :
    (greeting : List ℕ) (ready : FdSet) (k : Kernel) (fd : ℕ) (s : Select)
    → mem fd s.clients_fd ≡ true
    → ready fd ≡ true
    → k.reads fd ≡ failed
    → serve_all greeting ready k (some s) ≡ none
served-none g ready k fd s m y f =
    ap (stored s) (serve-none g ready k.reads k.writes fd s.clients_fd s.active_fds m y f)

accepted-none :
    (greeting : List ℕ) (ready : FdSet) (k : Kernel) (fd : ℕ) (s : Select)
    → mem fd s.clients_fd ≡ true
    → ready fd ≡ true
    → k.reads fd ≡ failed
    → serve_all greeting ready k (accept_client k.accepted s) ≡ none
unfolding accept_client
accepted-none g ready k fd s m y f = elim (Bool-cases (s.active_fds k.accepted)) [
  | inl old ↦ rw old (served-none g ready k fd s m y f)
  | inr new ↦ elim (Bool-cases (leb fd_setsize k.accepted)) [
    | inl large ↦ rw (new, large) refl
    | inr small ↦
        rw (new, small)
          (served-none g ready k fd
            (record s {
              active_fds = fd_set k.accepted s.active_fds;
              max_fd = if ltb s.max_fd k.accepted then k.accepted else s.max_fd;
              clients_fd = s.clients_fd ++ k.accepted ∷ [];
            })
            (ground (arith, m, mem-append fd k.accepted s.clients_fd)) y f)
  ]
]

-- An error of `read` ends the server. When `read` returns -1 on a client that `select` reports, the
-- round ends the program, for all clients.
pub round-failed :
    (greeting : List ℕ) (sockfd : ℕ) (k : Kernel) (fd : ℕ) (s : Select)
    → mem fd s.clients_fd ≡ true
    → select (s.max_fd + 1) k.readable s.active_fds fd ≡ true
    → k.reads fd ≡ failed
    → round greeting sockfd k s ≡ none
unfolding round
round-failed g sockfd k fd s m y f =
    let ready = select (s.max_fd + 1) k.readable s.active_fds in
    elim (Bool-cases (ready sockfd)) [
      | inl h ↦ rw (h, accepted-none g ready k fd s m y f) (ground arith)
      | inr h ↦ rw (h, served-none g ready k fd s m y f) (ground arith)
    ]
