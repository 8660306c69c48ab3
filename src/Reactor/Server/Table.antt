-- ===== src/Reactor/Server/Table.antt =====
-- The table of connections and the lists of descriptors of cpp_server/src/Server.cpp, counted by
-- descriptor.
use make_linux_server.Base.{
  ℕ, ◌+◌, ◌<◌, ◌≡◌, ◌≢◌, refl, false, Option, none, some, List, [], ◌∷◌, ◌==◌, if◌then◌else◌, arith,
  Bool-cases, inl, inr,
}
use make_linux_server.Base.Threads.{total, is_one, count}
use make_linux_server.Reactor.Server.{
  Conn, Connections, find, assign, erase, mem, remove, put_before, take_for,
}

-- How often a descriptor is a key of the table, and how often it is that of a connection in a queue.
abbrev pub is_key : ℕ → ℕ × Conn → ℕ
is_key fd (k, c) = is_one fd k

abbrev pub keys : ℕ → Connections → ℕ
keys fd = total (is_key fd)

abbrev pub has_fd : ℕ → Conn → ℕ
has_fd fd c = is_one fd c.fd

abbrev pub queued : ℕ → List Conn → ℕ
queued fd = total (has_fd fd)

pub find-none : (fd : ℕ) (m : Connections) → keys fd m ≡ 0 → find fd m ≡ none
unfolding find
find-none fd [] h = refl
find-none fd ((k, c) ∷ m) h = ground (arith, find-none fd m)

pub keys-find : (fd : ℕ) (m : Connections) (c : Conn) → find fd m ≡ some c → 0 < keys fd m
unfolding find
keys-find fd [] c h = absurd (ground arith)
keys-find fd ((k, d) ∷ m) c h = ground (arith, keys-find fd m c)

pub keys-assign :
    (fd x : ℕ) (c : Conn) (m : Connections)
    → keys fd m ≡ 0
    → keys x (assign fd c m) ≡ keys x m + is_one x fd
unfolding assign
keys-assign fd x c [] h = omega arith
keys-assign fd x c ((k, d) ∷ m) h = ground (arith, keys-assign fd x c m)

pub find-assign :
    (fd x : ℕ) (c : Conn) (m : Connections)
    → find x (assign fd c m) ≡ (if fd == x then some c else find x m)
unfolding find assign
find-assign fd x c [] = ground arith
find-assign fd x c ((k, d) ∷ m) = ground (arith, find-assign fd x c m)

pub keys-erase :
    (fd x : ℕ) (m : Connections) → 0 < keys fd m → keys x (erase fd m) + is_one x fd ≡ keys x m
unfolding erase
keys-erase fd x [] h = absurd (omega arith)
keys-erase fd x ((k, d) ∷ m) h = ground (arith, keys-erase fd x m)

pub find-erase_ne : (fd x : ℕ) (m : Connections) → fd ≢ x → find x (erase fd m) ≡ find x m
unfolding find erase
find-erase_ne fd x [] h = refl
find-erase_ne fd x ((k, d) ∷ m) h = ground (arith, find-erase_ne fd x m)

pub count-mem : (x : ℕ) (xs : List ℕ) → mem x xs ≡ false → count x xs ≡ 0
count-mem x [] h = refl
count-mem x (y ∷ ys) h = ground (arith, count-mem x ys)

pub count-remove :
    (x y : ℕ) (xs : List ℕ) → 0 < count x xs → count y (remove x xs) + is_one y x ≡ count y xs
unfolding remove
count-remove x y [] h = absurd (omega arith)
count-remove x y (z ∷ xs) h = ground (arith, count-remove x y xs)

-- What a loop takes from the queue, and the others, are the queue.
abbrev pub Takes : ℕ → List Conn → Option (Conn × List Conn) → Type 0
Takes x q none = Unit {0}
Takes x q (some (c, rest)) = queued x rest + is_one x c.fd ≡ queued x q

Takes-put_before :
    (x : ℕ) (d : Conn) (q : List Conn) (o : Option (Conn × List Conn))
    → Takes x q o
    → Takes x (d ∷ q) (put_before d o)
Takes-put_before x d q none t = tt
Takes-put_before x d q (some (c, rest)) t = omega (arith, t)

pub take_for-Takes : (loop x : ℕ) (q : List Conn) → Takes x q (take_for loop q)
unfolding take_for
take_for-Takes loop x [] = tt
take_for-Takes loop x (d ∷ q) = elim (Bool-cases (d.loop == loop)) [
  | inl h ↦ rw h (omega arith)
  | inr h ↦ rw h (Takes-put_before x d q (take_for loop q) (take_for-Takes loop x q))
]
