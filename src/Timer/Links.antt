-- ===== src/Timer/Links.antt =====
-- Joining the two sides of a timer in the list of lst_timer.cpp, as `adjust_timer` and `del_timer` do.
use make_linux_server.Base.{
  ℕ, ◌≡◌, ◌≢◌, refl, sym, ◌∙◌, Option, some, List, [], ◌∷◌, ◌++◌, arith, ==-ne,
}
use make_linux_server.Timer.{Timer, update}
use make_linux_server.Timer.Segment.{
  Entry, first_or, last_or, timer_at, Seg, Fresh, Distinct, Apart, Agree, Seg-update,
  Distinct-append_inv, Seg-append_inv, last_or-append,
}
use make_linux_server.Timer.Insert.{TailIs}

first_or-snoc :
    (a b : ℕ) (ws : List Entry) (p : Entry) → first_or a (ws ++ p ∷ []) ≡ first_or b (ws ++ p ∷ [])
first_or-snoc a b [] p = refl
first_or-snoc a b (w ∷ ws) p = refl

-- The last entry gets another successor.
pub Seg-retarget :
    (f : ℕ → Option Timer) (before a b : ℕ) (ws : List Entry) (p : Entry)
    → Fresh p.key ws
    → Seg f before a (ws ++ p ∷ [])
    → Seg (update f p.key (some (timer_at p (last_or before ws) b))) before b (ws ++ p ∷ [])
Seg-retarget f before a b [] p h s = (s.0, ground arith, tt)
Seg-retarget f before a b (w ∷ ws) p h s = (
  s.0,
  rw (==-ne p.key w.key (λ q. h.0 (sym q))) (rw (first_or-snoc b a ws p) s.1),
  Seg-retarget f w.key a b ws p h.1 s.2,
)

-- The first entry gets another predecessor.
pub Seg-rehead :
    (f : ℕ → Option Timer) (a b after : ℕ) (y : Entry) (zs : List Entry)
    → Fresh y.key zs
    → Seg f a after (y ∷ zs)
    → Seg (update f y.key (some (timer_at y b (first_or after zs)))) b after (y ∷ zs)
Seg-rehead f a b after y zs h s = (s.0, ground arith, Seg-update f y.key _ y.key after zs h s.2)

abbrev pub joined : (ℕ → Option Timer) → List Entry → Entry → Entry → List Entry → ℕ → Option Timer
joined f ws p y zs =
    update (update f p.key (some (timer_at p (last_or 0 ws) y.key))) y.key
      (some (timer_at y p.key (first_or 0 zs)))

pub Apart-snoc :
    (ws : List Entry) (p : Entry) (ys : List Entry)
    → Apart (ws ++ p ∷ []) ys
    → Apart ws ys × Fresh p.key ys
Apart-snoc [] p ys a = (tt, a.0)
Apart-snoc (w ∷ ws) p ys a = let r = Apart-snoc ws p ys a.1 in ((a.0, r.0), r.1)

pub Fresh-Apart : (y : Entry) (zs xs : List Entry) → Apart xs (y ∷ zs) → Fresh y.key xs
Fresh-Apart y zs [] a = tt
Fresh-Apart y zs (x ∷ xs) a = ((λ q. a.0.0 (sym q)), Fresh-Apart y zs xs a.1)

pub Distinct-snoc : (ws : List Entry) (p : Entry) → Distinct (ws ++ p ∷ []) → Fresh p.key ws
Distinct-snoc ws p d = Fresh-Apart p [] ws (Distinct-append_inv ws (p ∷ []) d).2

pub Apart-tail : (xs : List Entry) (e : Entry) (ys : List Entry) → Apart xs (e ∷ ys) → Apart xs ys
Apart-tail [] e ys a = tt
Apart-tail (x ∷ xs) e ys a = (a.0.1, Apart-tail xs e ys a.1)

-- With `e` bridged over, the two sides are one list.
pub joined-Seg :
    (f : ℕ → Option Timer) (ws : List Entry) (p e y : Entry) (zs : List Entry)
    → Distinct ((ws ++ p ∷ []) ++ e ∷ y ∷ zs)
    → Seg f 0 0 ((ws ++ p ∷ []) ++ e ∷ y ∷ zs)
    → Seg (joined f ws p y zs) 0 y.key (ws ++ p ∷ []) × Seg (joined f ws p y zs) p.key 0 (y ∷ zs)
joined-Seg f ws p e y zs d s =
    let parts = Seg-append_inv f 0 0 (ws ++ p ∷ []) (e ∷ y ∷ zs) s in
    let dd = Distinct-append_inv (ws ++ p ∷ []) (e ∷ y ∷ zs) d in
    let fp = Apart-snoc ws p (e ∷ y ∷ zs) dd.2 in
    (
      Seg-update _ y.key _ 0 y.key (ws ++ p ∷ [])
          (Fresh-Apart y zs (ws ++ p ∷ []) (Apart-tail (ws ++ p ∷ []) e (y ∷ zs) dd.2))
          (Seg-retarget f 0 e.key y.key ws p (Distinct-snoc ws p dd.0) parts.0),
      Seg-rehead _ e.key p.key 0 y zs dd.1.1.0
          (Seg-update f p.key _ e.key 0 (y ∷ zs) fp.1.1 parts.1.2),
    )

pub TailIs-elim :
    (t : ℕ) (xs : List Entry) (e : Entry) (ys : List Entry)
    → TailIs t (xs ++ e ∷ ys)
    → t ≡ last_or e.key ys
TailIs-elim t [] e ys h = h
TailIs-elim t (x ∷ xs) e ys h = h ∙ last_or-append x.key xs (e ∷ ys)

pub TailIs-intro :
    (t : ℕ) (xs : List Entry) (e : Entry) (ys : List Entry)
    → t ≡ last_or e.key ys
    → TailIs t (xs ++ e ∷ ys)
TailIs-intro t [] e ys h = h
TailIs-intro t (x ∷ xs) e ys h = h ∙ sym (last_or-append x.key xs (e ∷ ys))

-- A change that leaves alone all but `e` and the entries from `y` on leaves `xs` alone.
pub Agree-others :
    (f g : ℕ → Option Timer) (xs : List Entry) (e y : Entry) (zs : List Entry)
    → ((k : ℕ) → e.key ≢ k → Fresh k (y ∷ zs) → g k ≡ f k)
    → Apart xs (e ∷ y ∷ zs)
    → Agree f g xs
Agree-others f g [] e y zs h a = tt
Agree-others f g (x ∷ xs) e y zs h a = (h x.key a.0.0 a.0.1, Agree-others f g xs e y zs h a.1)

-- The timer `e` as it stands in the middle of the list.
pub Seg-at :
    (f : ℕ → Option Timer) (xs : List Entry) (e : Entry) (ys : List Entry)
    → Seg f 0 0 (xs ++ e ∷ ys)
    → (e.key ≢ 0) × (f e.key ≡ some (timer_at e (last_or 0 xs) (first_or 0 ys)))
Seg-at f xs e ys s = let r = Seg-append_inv f 0 0 xs (e ∷ ys) s in (r.1.0, r.1.1)
