-- ===== src/Timer/Segment.antt =====
-- What a stretch of the list of lst_timer.cpp is on the heap, and what writes elsewhere leave of it.
use make_linux_server.Base.{
  ℕ, ◌≡◌, ◌≢◌, refl, sym, ap, ◌∙◌, Option, some, List, [], ◌∷◌, ◌++◌, ◌⊎◌, inl, inr, ==-ne,
}
use make_linux_server.Timer.{Timer, update}

-- One timer of the list, as the list alone describes it.
pub record Entry : Type 0 where
  pub key : ℕ
  pub expire : ℕ
  pub user : ℕ

abbrev pub first_or : ℕ → List Entry → ℕ
first_or d [] = d
first_or d (e ∷ es) = e.key

abbrev pub last_or : ℕ → List Entry → ℕ
last_or d [] = d
last_or d (e ∷ es) = last_or e.key es

abbrev pub timer_at : Entry → ℕ → ℕ → Timer
timer_at e before after = record {
  expire = e.expire;
  user_data = e.user;
  prev = before;
  next = after;
}

-- The entries stand on the heap, linked in both directions; before the first is `before`, behind
-- the last is `after`.
abbrev pub Seg : (ℕ → Option Timer) → ℕ → ℕ → List Entry → Type 0
Seg cell before after [] = Unit
Seg cell before after (e ∷ es) =
    (e.key ≢ 0)
    × (cell e.key ≡ some (timer_at e before (first_or after es)))
    × Seg cell e.key after es

-- No entry stands at `k`.
abbrev pub Fresh : ℕ → List Entry → Type 0
Fresh k [] = Unit
Fresh k (e ∷ es) = (e.key ≢ k) × Fresh k es

abbrev pub Distinct : List Entry → Type 0
Distinct [] = Unit
Distinct (e ∷ es) = Fresh e.key es × Distinct es

abbrev pub Apart : List Entry → List Entry → Type 0
Apart [] ys = Unit
Apart (x ∷ xs) ys = Fresh x.key ys × Apart xs ys

pub Fresh-append : (k : ℕ) (xs ys : List Entry) → Fresh k xs → Fresh k ys → Fresh k (xs ++ ys)
Fresh-append k [] ys hx hy = hy
Fresh-append k (x ∷ xs) ys hx hy = (hx.0, Fresh-append k xs ys hx.1 hy)

pub Fresh-append_inv : (k : ℕ) (xs ys : List Entry) → Fresh k (xs ++ ys) → Fresh k xs × Fresh k ys
Fresh-append_inv k [] ys h = (tt, h)
Fresh-append_inv k (x ∷ xs) ys h = let r = Fresh-append_inv k xs ys h.1 in ((h.0, r.0), r.1)

pub Distinct-append :
    (xs ys : List Entry) → Distinct xs → Distinct ys → Apart xs ys → Distinct (xs ++ ys)
Distinct-append [] ys dx dy a = dy
Distinct-append (x ∷ xs) ys dx dy a =
    (Fresh-append x.key xs ys dx.0 a.0, Distinct-append xs ys dx.1 dy a.1)

pub Distinct-append_inv :
    (xs ys : List Entry) → Distinct (xs ++ ys) → Distinct xs × Distinct ys × Apart xs ys
Distinct-append_inv [] ys d = (tt, d, tt)
Distinct-append_inv (x ∷ xs) ys d =
    let f = Fresh-append_inv x.key xs ys d.0 in
    let r = Distinct-append_inv xs ys d.1 in ((f.0, r.0), r.1, (f.1, r.2))

-- Two heaps agree at the entries.
abbrev pub Agree : (ℕ → Option Timer) → (ℕ → Option Timer) → List Entry → Type 0
Agree f g [] = Unit
Agree f g (e ∷ es) = (g e.key ≡ f e.key) × Agree f g es

pub Seg-Agree :
    (f g : ℕ → Option Timer) (before after : ℕ) (es : List Entry)
    → Agree f g es
    → Seg f before after es
    → Seg g before after es
Seg-Agree f g before after [] a s = tt
Seg-Agree f g before after (e ∷ es) a s = (s.0, a.0 ∙ s.1, Seg-Agree f g e.key after es a.1 s.2)

pub Agree-update :
    (f : ℕ → Option Timer) (k : ℕ) (v : Option Timer) (es : List Entry)
    → Fresh k es
    → Agree f (update f k v) es
Agree-update f k v [] h = tt
Agree-update f k v (e ∷ es) h = (rw (==-ne k e.key (λ p. h.0 (sym p))), Agree-update f k v es h.1)

pub Seg-update :
    (f : ℕ → Option Timer) (k : ℕ) (v : Option Timer) (before after : ℕ) (es : List Entry)
    → Fresh k es
    → Seg f before after es
    → Seg (update f k v) before after es
Seg-update f k v before after es h =
    Seg-Agree f (update f k v) before after es (Agree-update f k v es h)

pub first_or-append :
    (d : ℕ) (xs ys : List Entry) → first_or d (xs ++ ys) ≡ first_or (first_or d ys) xs
first_or-append d [] ys = refl
first_or-append d (x ∷ xs) ys = refl

pub last_or-append : (d : ℕ) (xs ys : List Entry) → last_or d (xs ++ ys) ≡ last_or (last_or d xs) ys
last_or-append d [] ys = refl
last_or-append d (x ∷ xs) ys = last_or-append x.key xs ys

pub Seg-append :
    (f : ℕ → Option Timer) (before after : ℕ) (xs ys : List Entry)
    → Seg f before (first_or after ys) xs
    → Seg f (last_or before xs) after ys
    → Seg f before after (xs ++ ys)
Seg-append f before after [] ys s t = t
Seg-append f before after (x ∷ xs) ys s t =
    (s.0, rw first_or-append s.1, Seg-append f x.key after xs ys s.2 t)

pub Seg-append_inv :
    (f : ℕ → Option Timer) (before after : ℕ) (xs ys : List Entry)
    → Seg f before after (xs ++ ys)
    → Seg f before (first_or after ys) xs × Seg f (last_or before xs) after ys
Seg-append_inv f before after [] ys s = (tt, s)
Seg-append_inv f before after (x ∷ xs) ys s =
    let r = Seg-append_inv f x.key after xs ys s.2 in ((s.0, rw first_or-append at s.1, r.0), r.1)

-- A list is empty or ends in an entry.
pub last_view :
    (xs : List Entry) → (xs ≡ []) ⊎ ((zs : List Entry) × (p : Entry) × (xs ≡ zs ++ p ∷ []))
last_view [] = inl refl
last_view (x ∷ xs) = elim (last_view xs) [
  | inl e ↦ inr ([], x, ap (◌∷◌ x) e)
  | inr (zs, p, e) ↦ inr (x ∷ zs, p, ap (◌∷◌ x) e)
]
