-- ===== src/Reactor/Connection/Leak.antt =====
-- A failed write in cpp_server/src/Connection.cpp: the connection is marked as closed, and the callback
-- that removes it is never called.
use make_linux_server.Base.{
  ℕ, zero, suc, ◌≡◌, refl, ap, ◌∙◌, Bool, true, false, List, [], ◌∷◌, drop,
}
use make_linux_server.Reactor.Connection.{
  State, invalid, connected, closed, Connection, Read, Write, put, write_interrupted, write_again,
  write_failed, handle_close, close, read, read_from, write_non_blocking, write_blocking, cleared,
  write_from, write,
}

write_non_blocking-calls :
    (rs : List Write) (bytes : List ℕ) (c : Connection)
    → (write_non_blocking rs bytes c).1.closed_calls ≡ c.closed_calls
unfolding write_non_blocking
write_non_blocking-calls rs [] c = refl
write_non_blocking-calls [] (b ∷ bs) c = refl
write_non_blocking-calls (write_again ∷ rs) (b ∷ bs) c = refl
write_non_blocking-calls (write_interrupted ∷ rs) (b ∷ bs) c =
    write_non_blocking-calls rs (b ∷ bs) c
write_non_blocking-calls (write_failed ∷ rs) (b ∷ bs) c = refl
write_non_blocking-calls (put n ∷ rs) (b ∷ bs) c = write_non_blocking-calls rs (drop n (b ∷ bs)) c

write_blocking-calls :
    (n : ℕ) (rs : List Write) (bytes : List ℕ) (c : Connection)
    → (write_blocking n rs bytes c).1.closed_calls ≡ c.closed_calls
unfolding write_blocking
write_blocking-calls n rs [] c = refl
write_blocking-calls zero rs (b ∷ bs) c = refl
write_blocking-calls (suc n) [] (b ∷ bs) c = refl
write_blocking-calls (suc n) (write_again ∷ rs) (b ∷ bs) c = refl
write_blocking-calls (suc n) (write_interrupted ∷ rs) (b ∷ bs) c =
    write_blocking-calls n rs (b ∷ bs) c
write_blocking-calls (suc n) (write_failed ∷ rs) (b ∷ bs) c = refl
write_blocking-calls (suc n) (put k ∷ rs) (b ∷ bs) c =
    write_blocking-calls (suc n) rs (drop k (b ∷ bs)) c

cleared-calls : (r : Bool × Connection × List ℕ) → (cleared r).1.closed_calls ≡ r.1.closed_calls
cleared-calls (true, c, out) = refl
cleared-calls (false, c, out) = refl

write_from-calls :
    (st : State) (blocking : Bool) (rs : List Write) (c : Connection)
    → (write_from st blocking rs c).1.closed_calls ≡ c.closed_calls
write_from-calls invalid b rs c = refl
write_from-calls closed b rs c = refl
write_from-calls connected true rs c =
    cleared-calls (write_blocking 3 rs c.send_buffer c) ∙ write_blocking-calls 3 rs c.send_buffer c
write_from-calls connected false rs c =
    cleared-calls (write_non_blocking rs c.send_buffer c)
    ∙ write_non_blocking-calls rs c.send_buffer c

-- A write that fails leaks the connection. After a call of `Write` that leaves the state Closed, no
-- call of the close callback has been made, and none will be: every later `Read`, `Write` and
-- `HandleClose` changes nothing.
pub write-leaks :
    (ws : List Write) (c : Connection)
    → (write ws c).1.state ≡ closed
    → let d = (write ws c).1 in
      (d.closed_calls ≡ c.closed_calls)
      × ((rs : List Read) → read rs d ≡ (true, d))
      × ((rs : List Write) → write rs d ≡ (true, d, []))
      × (close d ≡ d)
unfolding write read handle_close
write-leaks ws c e =
    let d = (write ws c).1 in
    (
      write_from-calls c.state c.blocking ws c,
      λ rs. ap (λ st. read_from st d.blocking rs d) e,
      λ rs. ap (λ st. write_from st d.blocking rs d) e,
      ap (λ st. handle_close st d) e,
    )
