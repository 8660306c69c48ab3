-- ===== src/Http/Route/Text.antt =====
-- The URL of a request as `do_request` of http_conn.cpp reads it behind the parser.
use make_linux_server.Base.{
  ℕ, zero, suc, ◌+◌, ◌≤◌, ◌<◌, ◌≡◌, refl, ap, ◌∙◌, some, List, [], ◌∷◌, ◌++◌, length, get_or, drop,
  append_assoc, arith, Option-cases, inl, inr,
}
use make_linux_server.Http.CString.{codes, strrchr}
use make_linux_server.Http.CString.Laws.{IsText, drop-append}
use make_linux_server.Http.Request.First.{cut_text, version_line}

-- The URL that is looked up: the path, and `/judge.html` for '/'.
abbrev pub target : List ℕ → List ℕ
target [] = codes "/judge.html"
target (b ∷ path) = 47 ∷ b ∷ path

-- What follows it in the buffer.
abbrev pub behind_target : List ℕ → List ℕ → List ℕ
behind_target [] r = r
behind_target (b ∷ path) r = version_line [] ++ r

pub target-text :
    (m path r : List ℕ)
    → drop (length m + 1) (cut_text m path [] ++ r) ≡ target path ++ 0 ∷ behind_target path r
target-text m [] r =
    let text = 0 ∷ codes "/judge.html" ++ 0 ∷ [] in
    ap (drop (length m + 1)) (append_assoc m text r) ∙ drop-append m (text ++ r) 1
target-text m (b ∷ path) r =
    let text = 0 ∷ 47 ∷ (b ∷ path ++ 0 ∷ version_line []) in
    ap (drop (length m + 1)) (append_assoc m text r)
    ∙ drop-append m (text ++ r) 1
    ∙ ap (λ l. 47 ∷ b ∷ l) (append_assoc path (0 ∷ version_line []) r)

pub target-IsText : (path : List ℕ) → IsText path → IsText (target path)
target-IsText [] t = omega arith
target-IsText (b ∷ path) t = (omega arith, omega arith, omega arith, t)

pub strrchr-IsText : (w r : List ℕ) (b : ℕ) → IsText w → strrchr (w ++ 0 ∷ r) b ≡ strrchr w b
unfolding strrchr
strrchr-IsText [] r b t = refl
strrchr-IsText (x ∷ w) r b t = ground (arith, strrchr-IsText w r b t.3)

pub strrchr-lt : (w : List ℕ) (b k : ℕ) → strrchr w b ≡ some k → k < length w
unfolding strrchr
strrchr-lt [] b k h = absurd (ground arith)
strrchr-lt (x ∷ w) b k h = elim (Option-cases (strrchr w b)) [
  | inl n ↦ ground arith
  | inr (j, e) ↦ ground (arith, strrchr-lt w b j e)
]

pub get_or-terminated :
    (w r : List ℕ) (k : ℕ) → k ≤ length w → get_or (w ++ 0 ∷ r) k 0 ≡ get_or w k 0
get_or-terminated [] r zero h = refl
get_or-terminated [] r (suc k) h = absurd (omega arith)
get_or-terminated (x ∷ w) r zero h = refl
get_or-terminated (x ∷ w) r (suc k) h = get_or-terminated w r k (omega arith)

pub get_or-drop : (n k : ℕ) (xs : List ℕ) → get_or xs (n + k) 0 ≡ get_or (drop n xs) k 0
get_or-drop zero k xs = let e : 0 + k ≡ k = omega arith in rw e refl
get_or-drop (suc n) k [] = refl
get_or-drop (suc n) k (x ∷ xs) =
    let e : suc n + k ≡ suc (n + k) = omega arith in rw e (get_or-drop n k xs)
