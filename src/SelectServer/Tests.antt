-- ===== src/SelectServer/Tests.antt =====
-- Runs of the loop of io_多路复用/mini_select.cpp.
use make_linux_server.Base.{
  ℕ, ◌≡◌, refl, true, false, Option, none, some, List, [], ◌∷◌, ◌==◌, ◌||◌,
}
use make_linux_server.SelectServer.{
  Select, got, failed, Kernel, start, round, run, serve, accept_client,
}
use make_linux_server.SelectServer.Tracks.{Tracks}
use make_linux_server.SelectServer.Silent.{run-silent, round-failed}

-- The listening socket is 3. A client connects as 4; it sends a byte; it closes.
abbrev connects : Kernel
connects = record {
  selects = true;
  writes = λ x. true;
  readable = λ x. x == 3;
  accepted = 4;
  reads = λ x. got [];
}

abbrev sends : Kernel
sends = record {
  selects = true;
  writes = λ x. true;
  readable = λ x. x == 4;
  accepted = 5;
  reads = λ x. got (7 ∷ []);
}

abbrev leaves : Kernel
leaves = record {
  selects = true;
  writes = λ x. true;
  readable = λ x. x == 4;
  accepted = 5;
  reads = λ x. got [];
}

abbrev listening : Select
listening = start 3 (λ x. x == 3)

abbrev clients_of : Option Select → List ℕ
clients_of none = []
clients_of (some s) = s.clients_fd

abbrev written_of : Option Select → List (ℕ × List ℕ)
written_of none = []
written_of (some s) = s.written

answered :
    written_of (run (9 ∷ []) 3 (connects ∷ sends ∷ leaves ∷ []) listening) ≡ (4, 9 ∷ 7 ∷ []) ∷ []
unfolding run round serve accept_client
answered = refl

left : clients_of (run (9 ∷ []) 3 (connects ∷ sends ∷ leaves ∷ []) listening) ≡ []
unfolding run round serve accept_client
left = refl

run-silent_example :
    run (9 ∷ []) 3 (connects ∷ sends ∷ []) (start 3 (λ x. false)) ≡ some (start 3 (λ x. false))
run-silent_example = run-silent (9 ∷ []) 3 (λ x. false) (connects ∷ sends ∷ []) refl

-- A client that is connected as 4, and a reset of its connection.
abbrev connected : Select
connected = record {
  active_fds = λ x. x == 3 || x == 4;
  max_fd = 4;
  clients_fd = 4 ∷ [];
  written = [];
}

abbrev resets : Kernel
resets = record {
  selects = true;
  writes = λ x. true;
  readable = λ x. x == 4;
  accepted = 5;
  reads = λ x. failed;
}

resets_end : round (9 ∷ []) 3 resets connected ≡ none
resets_end = round-failed (9 ∷ []) 3 resets 4 connected refl refl refl
