-- ===== src/Http/CString.antt =====
-- The functions of C's string library that http_conn.cpp calls, on the bytes from a pointer to the
-- end of its array. A string ends at its first 0, or with the array.
pub mod Laws
use make_linux_server.Base.{
  ℕ, suc, ◌+◌, ◌-◌, ◌*◌, Bool, true, false, Option, none, some, List, [], ◌∷◌, ◌&&◌, ◌||◌, ltb, leb,
  ◌==◌, if◌then◌else◌, length, set,
}
use make_linux_server.Base.Int.{ℤ, pos, sub_ℕ}
use Prim.Native.Char.{code}
use Prim.Native.String.{String}

-- The bytes of an ASCII text.
abbrev pub codes : String → List ℕ
codes String.[] = []
codes (String.◌∷◌ c s) = code c ∷ codes s

-- The string without its terminator.
unfoldable pub c_string : List ℕ → List ℕ
c_string [] = []
c_string (c ∷ cs) = if c == 0 then [] else c ∷ c_string cs

unfoldable pub strlen : List ℕ → ℕ
strlen [] = 0
strlen (c ∷ cs) = if c == 0 then 0 else suc (strlen cs)

unfoldable pub mem : ℕ → List ℕ → Bool
mem c [] = false
mem c (x ∷ xs) = c == x || mem c xs

abbrev pub shift : Option ℕ → Option ℕ
shift none = none
shift (some n) = some (suc n)

-- The offset of the first byte that is in the set.
unfoldable pub strpbrk : List ℕ → List ℕ → Option ℕ
strpbrk [] accept = none
strpbrk (c ∷ cs) accept =
    if c == 0 then none else if mem c accept then some 0 else shift (strpbrk cs accept)

-- How many bytes at the start are in the set.
unfoldable pub strspn : List ℕ → List ℕ → ℕ
strspn [] accept = 0
strspn (c ∷ cs) accept = if c == 0 then 0 else if mem c accept then suc (strspn cs accept) else 0

-- The offset of the first, and of the last, `b` (for `b` not 0).
unfoldable pub strchr : List ℕ → ℕ → Option ℕ
strchr [] b = none
strchr (c ∷ cs) b = if c == 0 then none else if c == b then some 0 else shift (strchr cs b)

abbrev pub or_here : Bool → Option ℕ → Option ℕ
or_here b (some n) = some (suc n)
or_here true none = some 0
or_here false none = none

unfoldable pub strrchr : List ℕ → ℕ → Option ℕ
strrchr [] b = none
strrchr (c ∷ cs) b = if c == 0 then none else or_here (c == b) (strrchr cs b)

unfoldable pub to_lower : ℕ → ℕ
to_lower c = if leb b'A' c && leb c b'Z' then c + 32 else c

-- `strcasecmp(s, t) == 0`, for a literal `t`.
unfoldable pub strcasecmp : List ℕ → List ℕ → Bool
strcasecmp [] [] = true
strcasecmp [] (t ∷ ts) = false
strcasecmp (c ∷ cs) [] = c == 0
strcasecmp (c ∷ cs) (t ∷ ts) = to_lower c == to_lower t && strcasecmp cs ts

-- `strncasecmp(s, t, strlen(t)) == 0`, for a literal `t`.
unfoldable pub strncasecmp : List ℕ → List ℕ → Bool
strncasecmp cs [] = true
strncasecmp [] (t ∷ ts) = false
strncasecmp (c ∷ cs) (t ∷ ts) = to_lower c == to_lower t && strncasecmp cs ts

unfoldable pub is_space : ℕ → Bool
is_space c = c == 32 || (leb 9 c && leb c 13)

unfoldable pub digits_value : ℕ → List ℕ → ℕ
digits_value acc [] = acc
digits_value acc (c ∷ cs) =
    if leb b'0' c && leb c b'9' then digits_value (acc * 10 + (c - b'0')) cs else acc

unfoldable pub signed_value : List ℕ → ℤ
unfolding digits_value
signed_value [] = pos 0
signed_value (c ∷ cs) =
    if c == b'-'
    then sub_ℕ 0 (digits_value 0 cs)
    else if c == b'+'
    then pos (digits_value 0 cs)
    else pos (digits_value 0 (c ∷ cs))

-- `atol`; the value is unbounded.
unfoldable pub atol : List ℕ → ℤ
unfolding signed_value is_space
atol [] = pos 0
atol (c ∷ cs) = if is_space c then atol cs else signed_value (c ∷ cs)

-- Writes the bytes of a string and its terminator at an index of an array; `none` is a write behind
-- the end.
unfoldable pub write_bytes : List ℕ → ℕ → List ℕ → Option (List ℕ)
write_bytes array i [] = some array
write_bytes array i (b ∷ bs) =
    let rest = write_bytes (set array i b) (i + 1) bs in if ltb i (length array) then rest else none
