-- ===== src/Base/Threads.antt =====
-- Threads that share a state: a list with the phase of each, and sums over it.
use make_linux_server.Base.Tests.{◌==◌, if◌then◌else◌}
use make_linux_server.Base.Lists.{get_elem?, set}
use Prim.Native.Nat.{ℕ, zero, suc, ◌+◌}
use mathlib.Core.Path.{◌≡◌}
use mathlib.Core.List.{List, [], ◌∷◌, ◌++◌}
use mathlib.Core.Option.{some}
use native.Mathlib.Omega.{arith}

module _ {ℓ} {A : Type ℓ} where
  -- The sum of a weight over all threads.
  abbrev pub total : (A → ℕ) → List A → ℕ
  total w [] = 0
  total w (p ∷ ps) = w p + total w ps

  -- When thread `i` goes from phase `p` to `q`, the sum changes by their weights.
  pub total-set :
      (w : A → ℕ) (ps : List A) (i : ℕ) (p q : A)
      → get_elem? ps i ≡ some p
      → total w (set ps i q) + w p ≡ total w ps + w q
  total-set w [] i p q h = ground arith
  total-set w (x ∷ xs) zero p q h = ground arith
  total-set w (x ∷ xs) (suc i) p q h = omega (arith, total-set w xs i p q h)

  -- The sum over two lists in a row.
  pub total-append : (w : A → ℕ) (ps qs : List A) → total w (ps ++ qs) ≡ total w ps + total w qs
  total-append w [] qs = omega arith
  total-append w (p ∷ ps) qs = omega (arith, total-append w ps qs)

abbrev pub is_one : ℕ → ℕ → ℕ
is_one a x = if x == a then 1 else 0

-- How often a number stands in a list.
abbrev pub count : ℕ → List ℕ → ℕ
count a = total (is_one a)
