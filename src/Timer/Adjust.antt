-- ===== src/Timer/Adjust.antt =====
-- `adjust_timer` of lst_timer.cpp, on a list in which one timer has been given a later expiry.
use mathlib.Core.Path.{subst}
use make_linux_server.Base.{
  ℕ, ◌<◌, ◌≡◌, ◌≢◌, refl, sym, ◌∙◌, some, List, [], ◌∷◌, ◌++◌, arith, true, false, inl, inr, ltb,
  length, Bool-cases, append_assoc,
}
use make_linux_server.Timer.{Store, update, adjust_timer, add_after, add_loop}
use make_linux_server.Timer.Segment.{
  Entry, first_or, last_or, timer_at, Seg, Fresh, Distinct, Apart, Seg-update, Seg-Agree,
  Distinct-append, Distinct-append_inv, Seg-append, Seg-append_inv, last_or-append, last_view,
}
use make_linux_server.Timer.Insert.{Repr, insert, add_loop_lem, Fresh-insert, Distinct-insert}
use make_linux_server.Timer.Links.{
  joined, Apart-snoc, joined-Seg, Seg-rehead, TailIs-elim, TailIs-intro, Agree-others, Seg-at,
}

insert-past :
    (e y : Entry) (zs : List Entry)
    → ltb e.expire y.expire ≡ false
    → insert e (y ∷ zs) ≡ y ∷ insert e zs
unfolding insert
insert-past e y zs ge = rw ge

Apart-insert :
    (xs : List Entry) (e : Entry) (ys : List Entry) → Apart xs (e ∷ ys) → Apart xs (insert e ys)
Apart-insert [] e ys a = tt
Apart-insert (x ∷ xs) e ys a = (Fresh-insert x.key e ys a.0.0 a.0.1, Apart-insert xs e ys a.1)

Distinct-moved :
    (xs : List Entry) (e : Entry) (ys : List Entry)
    → Distinct (xs ++ e ∷ ys)
    → Distinct (xs ++ insert e ys)
Distinct-moved xs e ys d =
    let r = Distinct-append_inv xs (e ∷ ys) d in
    Distinct-append xs (insert e ys) r.0 (Distinct-insert e ys r.1.0 r.1.1)
      (Apart-insert xs e ys r.2)

-- Nothing to do: the timer is the last, or expires before the next one.
adjust-last :
    (fuel : ℕ) (s : Store) (xs : List Entry) (e : Entry)
    → Seg s.cell 0 0 (xs ++ e ∷ [])
    → adjust_timer fuel e.key s ≡ some (tt, s)
unfolding adjust_timer
adjust-last fuel s xs e g = let a = Seg-at s.cell xs e [] g in ground (arith, a)

adjust-early :
    (fuel : ℕ) (s : Store) (xs : List Entry) (e y : Entry) (zs : List Entry)
    → Seg s.cell 0 0 (xs ++ e ∷ y ∷ zs)
    → ltb e.expire y.expire ≡ true
    → adjust_timer fuel e.key s ≡ some (tt, s)
unfolding adjust_timer
adjust-early fuel s xs e y zs g lt =
    let a = Seg-at s.cell xs e (y ∷ zs) g in
    let b = (Seg-append_inv s.cell 0 0 xs (e ∷ y ∷ zs) g).1.2 in ground (arith, a, b.0, b.1)

abbrev head_out : Store → Entry → Entry → List Entry → Store
head_out s e y zs = record s {
  cell =
      update (update s.cell y.key (some (timer_at y 0 (first_or 0 zs)))) e.key
        (some (timer_at e 0 0));
  head = y.key;
}

abbrev middle_out : Store → List Entry → Entry → Entry → List Entry → Store
middle_out s ws p y zs = record s { cell = joined s.cell ws p y zs }

head-unlinks :
    (fuel : ℕ) (s : Store) (e y : Entry) (zs : List Entry)
    → ltb e.expire y.expire ≡ false
    → y.key ≢ e.key
    → s.head ≡ e.key
    → Seg s.cell 0 0 (e ∷ y ∷ zs)
    → adjust_timer fuel e.key s ≡ add_loop fuel e.key y.key (first_or 0 zs) (head_out s e y zs)
unfolding adjust_timer add_after
head-unlinks fuel s e y zs ge n hd g = ground (arith, g.0, g.1, g.2.0, g.2.1)

middle-unlinks :
    (fuel : ℕ) (s : Store) (ws : List Entry) (p e y : Entry) (zs : List Entry)
    → ltb e.expire y.expire ≡ false
    → y.key ≢ e.key
    → p.key ≢ e.key
    → p.key ≢ y.key
    → p.key ≢ 0
    → s.head ≢ e.key
    → s.cell p.key ≡ some (timer_at p (last_or 0 ws) e.key)
    → Seg s.cell p.key 0 (e ∷ y ∷ zs)
    → adjust_timer fuel e.key s ≡ add_loop fuel e.key y.key (first_or 0 zs) (middle_out s ws p y zs)
unfolding adjust_timer add_after
middle-unlinks fuel s ws p e y zs ge n1 n2 n3 n4 hd c g = ground (arith, g.0, g.1, g.2.0, g.2.1)

adjust-head :
    (fuel : ℕ) (s : Store) (e y : Entry) (zs : List Entry)
    → length zs < fuel
    → ltb e.expire y.expire ≡ false
    → Repr s (e ∷ y ∷ zs)
    → (s' : Store) × (adjust_timer fuel e.key s ≡ some (tt, s')) × Repr s' (insert e (y ∷ zs))
unfolding insert
adjust-head fuel s e y zs lf ge r =
    let f : Fresh e.key (y ∷ zs) = r.distinct.0 in
    let seg' : Seg (head_out s e y zs).cell 0 0 (y ∷ zs) =
      Seg-update _ e.key _ 0 0 (y ∷ zs) f
        (Seg-rehead s.cell e.key 0 0 y zs r.distinct.1.0 r.seg.2) in
    let i =
      add_loop_lem fuel (head_out s e y zs) e 0 y zs 0 0 lf (ground arith) r.seg.0 f r.distinct.1
        seg' in
    rw ge (
      i.0,
      head-unlinks fuel s e y zs ge f.0 r.head_first r.seg ∙ i.1,
      record {
        seg = i.2.seg;
        distinct = (
          Fresh-insert y.key e zs (λ q. f.0 (sym q)) r.distinct.1.0,
          Distinct-insert e zs f.1 r.distinct.1.1,
        );
        head_first = i.2.head_kept;
        tail_last = i.2.tail_moved r.tail_last;
      },
    )

pub head-first :
    (ws : List Entry) (p : Entry) (ts : List Entry)
    → first_or 0 ((ws ++ p ∷ []) ++ ts) ≡ first_or 0 (ws ++ p ∷ [])
head-first [] p ts = refl
head-first (w ∷ ws) p ts = refl

pub head-other :
    (ws : List Entry) (p e : Entry) (ts : List Entry)
    → Apart (ws ++ p ∷ []) (e ∷ ts)
    → first_or 0 (ws ++ p ∷ []) ≢ e.key
head-other [] p e ts a q = a.0.0 (sym q)
head-other (w ∷ ws) p e ts a q = a.0.0 (sym q)

adjust-middle :
    (fuel : ℕ) (s : Store) (ws : List Entry) (p e y : Entry) (zs : List Entry)
    → length zs < fuel
    → ltb e.expire y.expire ≡ false
    → Repr s ((ws ++ p ∷ []) ++ e ∷ y ∷ zs)
    → (s' : Store) × (adjust_timer fuel e.key s ≡ some (tt, s'))
      × Repr s' ((ws ++ p ∷ []) ++ insert e (y ∷ zs))
adjust-middle fuel s ws p e y zs lf ge r =
    let xs = ws ++ p ∷ [] in
    let dd = Distinct-append_inv xs (e ∷ y ∷ zs) r.distinct in
    let fe : Fresh e.key (y ∷ zs) = dd.1.0 in
    let fp = (Apart-snoc ws p (e ∷ y ∷ zs) dd.2).1 in
    let parts = Seg-append_inv s.cell 0 0 xs (e ∷ y ∷ zs) r.seg in
    let at_p = Seg-at s.cell ws p (e ∷ y ∷ zs) (rw append_assoc at r.seg) in
    let last : last_or 0 xs ≡ p.key = last_or-append 0 ws (p ∷ []) in
    let behind : Seg s.cell p.key 0 (e ∷ y ∷ zs) = rw last at parts.1 in
    let j = joined-Seg s.cell ws p e y zs r.distinct r.seg in
    let at_e : (middle_out s ws p y zs).cell e.key ≡ some (timer_at e p.key y.key) =
      ground (arith, fe.0, fp.0, behind.1) in
    let i =
      add_loop_lem fuel (middle_out s ws p y zs) e p.key y zs p.key y.key lf at_e behind.0 fe dd.1.1
        j.1 in
    let past = insert-past e y zs ge in
    (
      i.0,
      middle-unlinks fuel s ws p e y zs ge fe.0 (λ q. fp.0 (sym q)) (λ q. fp.1.0 (sym q)) at_p.0
            (λ q.
              head-other ws p e (y ∷ zs) dd.2
                (sym (head-first ws p (e ∷ y ∷ zs)) ∙ sym r.head_first ∙ q))
            at_p.1 behind
          ∙ i.1,
      rw past (record {
        seg =
            Seg-append i.0.cell 0 0 xs (y ∷ insert e zs)
              (Seg-Agree (middle_out s ws p y zs).cell i.0.cell 0 y.key xs
                (Agree-others (middle_out s ws p y zs).cell i.0.cell xs e y zs i.2.others dd.2) j.0)
              (rw last i.2.seg);
        distinct = subst (λ l. Distinct (xs ++ l)) past (Distinct-moved xs e (y ∷ zs) r.distinct);
        head_first =
            i.2.head_kept
            ∙ r.head_first
            ∙ head-first ws p (e ∷ y ∷ zs)
            ∙ sym (head-first ws p (y ∷ insert e zs));
        tail_last =
            TailIs-intro i.0.tail xs y (insert e zs)
              (i.2.tail_moved (TailIs-elim s.tail xs e (y ∷ zs) r.tail_last));
      }),
    )

adjust-late :
    (fuel : ℕ) (s : Store) (xs : List Entry) (e y : Entry) (zs : List Entry)
    → length zs < fuel
    → ltb e.expire y.expire ≡ false
    → Repr s (xs ++ e ∷ y ∷ zs)
    → (s' : Store) × (adjust_timer fuel e.key s ≡ some (tt, s')) × Repr s' (xs ++ insert e (y ∷ zs))
adjust-late fuel s xs e y zs lf ge r = elim (last_view xs) [
  | inl q ↦ rw q (adjust-head fuel s e y zs lf ge (rw q at r))
  | inr (ws, p, q) ↦ rw q (adjust-middle fuel s ws p e y zs lf ge (rw q at r))
]

-- `adjust_timer` moves a timer, wherever it stands, behind all later ones that do not expire later
-- than it, and keeps the others in their order; fuel above the length is enough.
pub adjust_timer_refines :
    (fuel : ℕ) (s : Store) (xs : List Entry) (e : Entry) (ys : List Entry)
    → length ys < fuel
    → Repr s (xs ++ e ∷ ys)
    → (s' : Store) × (adjust_timer fuel e.key s ≡ some (tt, s')) × Repr s' (xs ++ insert e ys)
unfolding insert
adjust_timer_refines fuel s xs e [] lf r = (s, adjust-last fuel s xs e r.seg, r)
adjust_timer_refines fuel s xs e (y ∷ zs) lf r = elim (Bool-cases (ltb e.expire y.expire)) [
  | inl lt ↦ rw lt (s, adjust-early fuel s xs e y zs r.seg lt, r)
  | inr ge ↦ adjust-late fuel s xs e y zs (omega arith) ge r
]
