-- ===== src/Timer/Delete.antt =====
-- `del_timer` of lst_timer.cpp: one timer leaves the list and the heap.
use make_linux_server.Base.{
  ℕ, ◌≡◌, ◌≢◌, refl, sym, ◌∙◌, none, some, List, [], ◌∷◌, ◌++◌, arith, inl, inr, append_assoc,
  append-nil,
}
use make_linux_server.Timer.{Store, update, del_timer}
use make_linux_server.Timer.Segment.{
  Entry, first_or, last_or, timer_at, Seg, Fresh, Distinct, Seg-update, Distinct-append,
  Distinct-append_inv, Seg-append, Seg-append_inv, last_or-append, last_view,
}
use make_linux_server.Timer.Insert.{Repr}
use make_linux_server.Timer.Adjust.{head-first, head-other}
use make_linux_server.Timer.Links.{
  joined, joined-Seg, Apart-snoc, Apart-tail, Fresh-Apart, Distinct-snoc, Seg-retarget, Seg-rehead,
  TailIs-elim, TailIs-intro, Seg-at,
}

Distinct-without :
    (xs : List Entry) (e : Entry) (ys : List Entry) → Distinct (xs ++ e ∷ ys) → Distinct (xs ++ ys)
Distinct-without xs e ys d =
    let r = Distinct-append_inv xs (e ∷ ys) d in
    Distinct-append xs ys r.0 r.1.1 (Apart-tail xs e ys r.2)

-- The four ways through `del_timer`: the only timer, the first, the last, and one between.
del-only :
    (s : Store) (e : Entry)
    → Repr s (e ∷ [])
    → (s' : Store) × (del_timer e.key s ≡ some (tt, s')) × Repr s' [] × (s'.cell e.key ≡ none)
unfolding del_timer
del-only s e r = (
  record s { cell = update s.cell e.key none; head = 0; tail = 0 },
  ground (arith, r.seg.0, r.seg.1, r.head_first, r.tail_last),
  record { seg = tt; distinct = tt; head_first = refl; tail_last = tt },
  ground arith,
)

del-first :
    (s : Store) (e y : Entry) (zs : List Entry)
    → s.tail ≢ e.key
    → Repr s (e ∷ y ∷ zs)
    → (s' : Store) × (del_timer e.key s ≡ some (tt, s')) × Repr s' (y ∷ zs) × (s'.cell e.key ≡ none)
unfolding del_timer
del-first s e y zs t r =
    let f : Fresh e.key (y ∷ zs) = r.distinct.0 in
    (
      record s {
        cell = update (update s.cell y.key (some (timer_at y 0 (first_or 0 zs)))) e.key none;
        head = y.key;
      },
      ground (arith, r.seg.0, r.seg.1, r.seg.2.0, r.seg.2.1, r.head_first, f.0),
      record {
        seg =
            Seg-update _ e.key none 0 0 (y ∷ zs) f
              (Seg-rehead s.cell e.key 0 0 y zs r.distinct.1.0 r.seg.2);
        distinct = r.distinct.1;
        head_first = refl;
        tail_last = r.tail_last;
      },
      ground arith,
    )

pub last-other : (k : ℕ) (y : Entry) (zs : List Entry) → Fresh k (y ∷ zs) → last_or y.key zs ≢ k
last-other k y [] f = f.0
last-other k y (z ∷ zs) f = last-other k z zs f.1

last-run :
    (s : Store) (ws : List Entry) (p e : Entry)
    → p.key ≢ e.key
    → p.key ≢ 0
    → e.key ≢ 0
    → s.head ≢ e.key
    → s.tail ≡ e.key
    → s.cell p.key ≡ some (timer_at p (last_or 0 ws) e.key)
    → s.cell e.key ≡ some (timer_at e p.key 0)
    → del_timer e.key s
      ≡ some (
        tt,
        record s {
          cell = update (update s.cell p.key (some (timer_at p (last_or 0 ws) 0))) e.key none;
          tail = p.key;
        },
      )
unfolding del_timer
last-run s ws p e n p0 e0 hd tl cp ce = ground arith

del-last :
    (s : Store) (ws : List Entry) (p e : Entry)
    → Repr s ((ws ++ p ∷ []) ++ e ∷ [])
    → (s' : Store) × (del_timer e.key s ≡ some (tt, s'))
      × Repr s' (ws ++ p ∷ [])
      × (s'.cell e.key ≡ none)
del-last s ws p e r =
    let xs = ws ++ p ∷ [] in
    let dd = Distinct-append_inv xs (e ∷ []) r.distinct in
    let fp = (Apart-snoc ws p (e ∷ []) dd.2).1 in
    let parts = Seg-append_inv s.cell 0 0 xs (e ∷ []) r.seg in
    let at_p = Seg-at s.cell ws p (e ∷ []) (rw append_assoc at r.seg) in
    let last : last_or 0 xs ≡ p.key = last_or-append 0 ws (p ∷ []) in
    let behind : Seg s.cell p.key 0 (e ∷ []) = rw last at parts.1 in
    (
      record s {
        cell = update (update s.cell p.key (some (timer_at p (last_or 0 ws) 0))) e.key none;
        tail = p.key;
      },
      last-run s ws p e (λ q. fp.0 (sym q)) at_p.0 behind.0
          (λ q. head-other ws p e [] dd.2 (sym (head-first ws p (e ∷ [])) ∙ sym r.head_first ∙ q))
          (TailIs-elim s.tail xs e [] r.tail_last) at_p.1 behind.1,
      record {
        seg =
            Seg-update _ e.key none 0 0 xs (Fresh-Apart e [] xs dd.2)
              (Seg-retarget s.cell 0 e.key 0 ws p (Distinct-snoc ws p dd.0) parts.0);
        distinct = dd.0;
        head_first = r.head_first ∙ head-first ws p (e ∷ []);
        tail_last = TailIs-intro p.key ws p [] refl;
      },
      ground arith,
    )

between-run :
    (s : Store) (ws : List Entry) (p e y : Entry) (zs : List Entry)
    → p.key ≢ e.key
    → p.key ≢ y.key
    → y.key ≢ e.key
    → p.key ≢ 0
    → s.head ≢ e.key
    → s.tail ≢ e.key
    → s.cell p.key ≡ some (timer_at p (last_or 0 ws) e.key)
    → Seg s.cell p.key 0 (e ∷ y ∷ zs)
    → del_timer e.key s ≡ some (tt, record s { cell = update (joined s.cell ws p y zs) e.key none })
unfolding del_timer
between-run s ws p e y zs n1 n2 n3 p0 hd tl cp g = ground (arith, g.0, g.1, g.2.0, g.2.1)

del-between :
    (s : Store) (ws : List Entry) (p e y : Entry) (zs : List Entry)
    → Repr s ((ws ++ p ∷ []) ++ e ∷ y ∷ zs)
    → (s' : Store) × (del_timer e.key s ≡ some (tt, s'))
      × Repr s' ((ws ++ p ∷ []) ++ y ∷ zs)
      × (s'.cell e.key ≡ none)
del-between s ws p e y zs r =
    let xs = ws ++ p ∷ [] in
    let dd = Distinct-append_inv xs (e ∷ y ∷ zs) r.distinct in
    let fp = (Apart-snoc ws p (e ∷ y ∷ zs) dd.2).1 in
    let parts = Seg-append_inv s.cell 0 0 xs (e ∷ y ∷ zs) r.seg in
    let at_p = Seg-at s.cell ws p (e ∷ y ∷ zs) (rw append_assoc at r.seg) in
    let last : last_or 0 xs ≡ p.key = last_or-append 0 ws (p ∷ []) in
    let behind : Seg s.cell p.key 0 (e ∷ y ∷ zs) = rw last at parts.1 in
    let j = joined-Seg s.cell ws p e y zs r.distinct r.seg in
    let tail_is = TailIs-elim s.tail xs e (y ∷ zs) r.tail_last in
    (
      record s { cell = update (joined s.cell ws p y zs) e.key none },
      between-run s ws p e y zs (λ q. fp.0 (sym q)) (λ q. fp.1.0 (sym q)) dd.1.0.0 at_p.0
          (λ q.
            head-other ws p e (y ∷ zs) dd.2
              (sym (head-first ws p (e ∷ y ∷ zs)) ∙ sym r.head_first ∙ q))
          (λ q. last-other e.key y zs dd.1.0 (sym tail_is ∙ q)) at_p.1 behind,
      record {
        seg =
            Seg-append (update (joined s.cell ws p y zs) e.key none) 0 0 xs (y ∷ zs)
              (Seg-update _ e.key none 0 y.key xs (Fresh-Apart e (y ∷ zs) xs dd.2) j.0)
              (rw last (Seg-update _ e.key none p.key 0 (y ∷ zs) dd.1.0 j.1));
        distinct = Distinct-without xs e (y ∷ zs) r.distinct;
        head_first = r.head_first ∙ head-first ws p (e ∷ y ∷ zs) ∙ sym (head-first ws p (y ∷ zs));
        tail_last = TailIs-intro s.tail xs y zs tail_is;
      },
      ground arith,
    )

del-behind :
    (s : Store) (ws : List Entry) (p e : Entry) (ys : List Entry)
    → Repr s ((ws ++ p ∷ []) ++ e ∷ ys)
    → (s' : Store) × (del_timer e.key s ≡ some (tt, s'))
      × Repr s' ((ws ++ p ∷ []) ++ ys)
      × (s'.cell e.key ≡ none)
del-behind s ws p e [] r = rw append-nil (del-last s ws p e r)
del-behind s ws p e (y ∷ zs) r = del-between s ws p e y zs r

del-front :
    (s : Store) (e : Entry) (ys : List Entry)
    → Repr s (e ∷ ys)
    → (s' : Store) × (del_timer e.key s ≡ some (tt, s')) × Repr s' ys × (s'.cell e.key ≡ none)
del-front s e [] r = del-only s e r
del-front s e (y ∷ zs) r =
    del-first s e y zs (λ q. last-other e.key y zs r.distinct.0 (sym r.tail_last ∙ q)) r

-- `del_timer` takes a timer, wherever it stands, out of the list, leaves the others in their order,
-- and frees its memory.
pub del_timer_refines :
    (s : Store) (xs : List Entry) (e : Entry) (ys : List Entry)
    → Repr s (xs ++ e ∷ ys)
    → (s' : Store) × (del_timer e.key s ≡ some (tt, s'))
      × Repr s' (xs ++ ys)
      × (s'.cell e.key ≡ none)
del_timer_refines s xs e ys r = elim (last_view xs) [
  | inl q ↦ rw q (del-front s e ys (rw q at r))
  | inr (ws, p, q) ↦ rw q (del-behind s ws p e ys (rw q at r))
]
