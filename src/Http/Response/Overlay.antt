-- ===== src/Http/Response/Overlay.antt =====
-- Bytes copied into an array, as the response functions and `recv` of http_conn.cpp do.
use make_linux_server.Base.{
  ℕ, zero, suc, ◌+◌, ◌≤◌, ◌<◌, ◌≡◌, refl, ap, ◌∙◌, List, [], ◌∷◌, ◌++◌, length, length-set, take,
  set, append_assoc, append-nil, arith,
}
use make_linux_server.Http.Response.{overlay}

pub length-overlay : (bs xs : List ℕ) (i : ℕ) → length (overlay xs i bs) ≡ length xs
unfolding overlay
length-overlay [] xs i = refl
length-overlay (b ∷ bs) xs i = length-overlay bs (set xs i b) (i + 1) ∙ length-set xs i b

pub overlay-append :
    (bs cs xs : List ℕ) (i : ℕ)
    → overlay xs i (bs ++ cs) ≡ overlay (overlay xs i bs) (i + length bs) cs
unfolding overlay
overlay-append [] cs xs i = let z : i + 0 ≡ i = omega arith in rw z
overlay-append (b ∷ bs) cs xs i =
    let z : i + 1 + length bs ≡ i + suc (length bs) = omega arith in
    overlay-append bs cs (set xs i b) (i + 1)
    ∙ ap (λ k. overlay (overlay (set xs i b) (i + 1) bs) k cs) z

pub take-set : (k i : ℕ) (xs : List ℕ) (b : ℕ) → k ≤ i → take k (set xs i b) ≡ take k xs
take-set zero i xs b h = refl
take-set (suc k) i [] b h = refl
take-set (suc k) zero (x ∷ xs) b h = absurd (omega arith)
take-set (suc k) (suc i) (x ∷ xs) b h = ap (◌∷◌ x) (take-set k i xs b (omega arith))

pub take-overlay :
    (bs : List ℕ) (k i : ℕ) (xs : List ℕ) → k ≤ i → take k (overlay xs i bs) ≡ take k xs
unfolding overlay
take-overlay [] k i xs h = refl
take-overlay (b ∷ bs) k i xs h =
    take-overlay bs k (i + 1) (set xs i b) (omega arith) ∙ take-set k i xs b h

pub take-set_next :
    (i : ℕ) (xs : List ℕ) (b : ℕ) → i < length xs → take (suc i) (set xs i b) ≡ take i xs ++ b ∷ []
take-set_next i [] b h = absurd (omega arith)
take-set_next zero (x ∷ xs) b h = refl
take-set_next (suc i) (x ∷ xs) b h = ap (◌∷◌ x) (take-set_next i xs b (omega arith))

pub overlay-extends :
    (bs : List ℕ) (i : ℕ) (xs : List ℕ)
    → i + length bs ≤ length xs
    → take (i + length bs) (overlay xs i bs) ≡ take i xs ++ bs
unfolding overlay
overlay-extends [] i xs h = let z : i + 0 ≡ i = omega arith in rw (z, append-nil)
overlay-extends (b ∷ bs) i xs h =
    let z : i + suc (length bs) ≡ i + 1 + length bs = omega arith in
    let s : i + 1 ≡ suc i = omega arith in
    rw z (
      overlay-extends bs (i + 1) (set xs i b) (rw length-set (omega arith))
      ∙ rw (s, take-set_next i xs b (omega arith), append_assoc))

pub take-all : (n : ℕ) (xs : List ℕ) → length xs ≤ n → take n xs ≡ xs
take-all zero [] h = refl
take-all zero (x ∷ xs) h = absurd (omega arith)
take-all (suc n) [] h = refl
take-all (suc n) (x ∷ xs) h = ap (◌∷◌ x) (take-all n xs (omega arith))
