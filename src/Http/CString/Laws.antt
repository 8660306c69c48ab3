-- ===== src/Http/CString/Laws.antt =====
-- Laws of C's string functions (http_conn.cpp calls them) on a text that is followed by a 0, and of
-- an array that is split in front of an index.
use make_linux_server.Base.{
  ℕ, suc, ◌+◌, ◌-◌, ◌*◌, ◌≤◌, ◌≡◌, ◌≢◌, refl, ap, ◌∙◌, Bool, true, not, ◌&&◌, some, List, [], ◌∷◌,
  ◌++◌, ◌==◌, length, get_or, set, drop, ltb, sym, length-append, append_assoc, arith,
}
use make_linux_server.Http.CString.{
  c_string, strlen, strpbrk, strspn, strcasecmp, strncasecmp, mem, to_lower, write_bytes,
  digits_value, signed_value, atol, is_space,
}
use make_linux_server.Http.Request.{blanks}

module _ {ℓ} {A : Type ℓ} where
  pub drop-append : (xs ys : List A) (k : ℕ) → drop (length xs + k) (xs ++ ys) ≡ drop k ys
  drop-append [] ys k = let e : 0 + k ≡ k = omega arith in rw e refl
  drop-append (x ∷ xs) ys k =
      let e : suc (length xs) + k ≡ suc (length xs + k) = omega arith in rw e (drop-append xs ys k)

  pub get_or-append :
      (xs ys : List A) (k : ℕ) (d : A) → get_or (xs ++ ys) (length xs + k) d ≡ get_or ys k d
  get_or-append [] ys k d = let e : 0 + k ≡ k = omega arith in rw e refl
  get_or-append (x ∷ xs) ys k d =
      let e : suc (length xs) + k ≡ suc (length xs + k) = omega arith in
      rw e (get_or-append xs ys k d)

  pub set-append :
      (xs ys : List A) (k : ℕ) (v : A) → set (xs ++ ys) (length xs + k) v ≡ xs ++ set ys k v
  set-append [] ys k v = let e : 0 + k ≡ k = omega arith in rw e refl
  set-append (x ∷ xs) ys k v =
      let e : suc (length xs) + k ≡ suc (length xs + k) = omega arith in
      rw e (ap (λ (l : List A). x ∷ l) (set-append xs ys k v))

-- A text of a line: no 0, CR or LF.
abbrev pub IsText : List ℕ → Type 0
IsText [] = Unit
IsText (b ∷ bs) = (b ≢ 0) × (b ≢ 13) × (b ≢ 10) × IsText bs

-- A word of a line: a text without blanks.
abbrev pub IsWord : List ℕ → Type 0
IsWord [] = Unit
IsWord (b ∷ bs) = (b ≢ 32) × (b ≢ 9) × IsWord bs

pub strpbrk-IsWord :
    (w r : List ℕ) → IsText w → IsWord w → strpbrk (w ++ 32 ∷ r) blanks ≡ some (length w)
unfolding strpbrk mem
strpbrk-IsWord [] r t h = refl
strpbrk-IsWord (b ∷ w) r t h = ground (arith, strpbrk-IsWord w r t.3 h.2)

pub strlen-IsText : (w r : List ℕ) → IsText w → strlen (w ++ 0 ∷ r) ≡ length w
unfolding strlen
strlen-IsText [] r t = refl
strlen-IsText (b ∷ w) r t = ground (arith, strlen-IsText w r t.3)

pub c_string-IsText : (w r : List ℕ) → IsText w → c_string (w ++ 0 ∷ r) ≡ w
unfolding c_string
c_string-IsText [] r t = refl
c_string-IsText (b ∷ w) r t = ground (arith, c_string-IsText w r t.3)

pub strspn-IsText : (w r : List ℕ) → IsText w → strspn (w ++ 0 ∷ r) blanks ≡ strspn w blanks
unfolding strspn mem
strspn-IsText [] r t = refl
strspn-IsText (b ∷ w) r t = ground (arith, strspn-IsText w r t.3)

pub strspn-le : (w accept : List ℕ) → strspn w accept ≤ length w
unfolding strspn mem
strspn-le [] a = omega arith
strspn-le (b ∷ w) a = ground (arith, strspn-le w a)

-- A literal that a text is compared with: it has no 0.
abbrev pub is_literal : List ℕ → Bool
is_literal [] = true
is_literal (b ∷ bs) = not (0 == to_lower b) && is_literal bs

pub strncasecmp-IsText :
    (w r lit : List ℕ) → is_literal lit ≡ true → strncasecmp (w ++ 0 ∷ r) lit ≡ strncasecmp w lit
unfolding strncasecmp to_lower
strncasecmp-IsText w r [] l = refl
strncasecmp-IsText [] r (x ∷ lit) l = ground arith
strncasecmp-IsText (b ∷ w) r (x ∷ lit) l = ground (arith, strncasecmp-IsText w r lit)

pub strncasecmp-length : (w lit : List ℕ) → strncasecmp w lit ≡ true → length lit ≤ length w
unfolding strncasecmp
strncasecmp-length w [] h = omega arith
strncasecmp-length [] (x ∷ lit) h = cc
strncasecmp-length (b ∷ w) (x ∷ lit) h = ground (arith, strncasecmp-length w lit)

pub strcasecmp-IsText :
    (w r lit : List ℕ)
    → IsText w
    → is_literal lit ≡ true
    → strcasecmp (w ++ 0 ∷ r) lit ≡ strcasecmp w lit
unfolding strcasecmp to_lower
strcasecmp-IsText [] r [] t l = refl
strcasecmp-IsText [] r (x ∷ lit) t l = ground arith
strcasecmp-IsText (b ∷ w) r [] t l = refl
strcasecmp-IsText (b ∷ w) r (x ∷ lit) t l = ground (arith, strcasecmp-IsText w r lit t.3)

-- A string written in the middle of an array.
pub write_bytes-append :
    (xs ys bs : List ℕ)
    → length bs ≤ length ys
    → write_bytes (xs ++ ys) (length xs) bs ≡ some (xs ++ (bs ++ drop (length bs) ys))
unfolding write_bytes
write_bytes-append xs ys [] h = refl
write_bytes-append xs [] (b ∷ bs) h = absurd (omega arith)
write_bytes-append xs (y ∷ ys) (b ∷ bs) h =
    let inside : ltb (length xs) (length (xs ++ y ∷ ys)) ≡ true =
      ground (arith, length-append xs (y ∷ ys)) in
    let here : length xs + 0 ≡ length xs = omega arith in
    let there : length (xs ++ b ∷ []) ≡ length xs + 1 = length-append xs (b ∷ []) in
    let stored : set (xs ++ y ∷ ys) (length xs) b ≡ (xs ++ b ∷ []) ++ ys =
      ap (λ i. set (xs ++ y ∷ ys) i b) (sym here)
      ∙ set-append xs (y ∷ ys) 0 b
      ∙ sym (append_assoc xs (b ∷ []) ys) in
    rw inside (
      ap (λ a. write_bytes a (length xs + 1) bs) stored
      ∙ ap (λ i. write_bytes ((xs ++ b ∷ []) ++ ys) i bs) (sym there)
      ∙ write_bytes-append (xs ++ b ∷ []) ys bs (omega arith)
      ∙ ap some (append_assoc xs (b ∷ []) (bs ++ drop (length bs) ys)))

digits_value-append : (acc : ℕ) (w r : List ℕ) → digits_value acc (w ++ 0 ∷ r) ≡ digits_value acc w
unfolding digits_value
digits_value-append acc [] r = refl
digits_value-append acc (b ∷ w) r = ground (arith, digits_value-append (acc * 10 + (b - b'0')) w r)

signed_value-append : (w r : List ℕ) → signed_value (w ++ 0 ∷ r) ≡ signed_value w
unfolding signed_value digits_value
signed_value-append [] r = refl
signed_value-append (b ∷ w) r =
    ground (arith, digits_value-append 0 w r, digits_value-append 0 (b ∷ w) r)

pub atol-append : (w r : List ℕ) → atol (w ++ 0 ∷ r) ≡ atol w
unfolding atol is_space signed_value digits_value
atol-append [] r = refl
atol-append (b ∷ w) r = ground (arith, atol-append w r, signed_value-append (b ∷ w) r)
