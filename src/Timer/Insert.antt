-- ===== src/Timer/Insert.antt =====
-- `add_timer` of lst_timer.cpp, both of that name: a timer goes behind the last one that does not
-- expire later.
use make_linux_server.Base.{
  ℕ, zero, suc, ◌<◌, ◌≡◌, ◌≢◌, refl, sym, ◌∙◌, some, List, [], ◌∷◌, arith, true, false, inl, inr,
  ltb, if◌then◌else◌, length, Bool-cases,
}
use make_linux_server.Timer.{Store, update, add_loop, add_after, add_timer}
use make_linux_server.Timer.Segment.{
  Entry, first_or, last_or, timer_at, Seg, Fresh, Distinct, Seg-update,
}

unfoldable pub insert : Entry → List Entry → List Entry
insert e [] = e ∷ []
insert e (y ∷ ys) = if ltb e.expire y.expire then e ∷ y ∷ ys else y ∷ insert e ys

-- What the loop does that starts behind `p`, before `rest`.
pub record Inserted (s s' : Store) (e : Entry) (before : ℕ) (p : Entry) (rest : List Entry)
    : Type 0 where
  pub seg : Seg s'.cell before 0 (p ∷ insert e rest)
  pub others : (k : ℕ) → e.key ≢ k → Fresh k (p ∷ rest) → s'.cell k ≡ s.cell k
  pub head_kept : s'.head ≡ s.head
  pub tail_moved : s.tail ≡ last_or p.key rest → s'.tail ≡ last_or p.key (insert e rest)

abbrev at_end : Store → Entry → ℕ → Entry → ℕ → Store
at_end s e before p tn = record s {
  cell =
      update
        (update (update s.cell p.key (some (timer_at p before e.key))) e.key
          (some (timer_at e p.key tn)))
        e.key (some (timer_at e p.key 0));
  tail = e.key;
}

at_end-Inserted :
    (s : Store) (e : Entry) (before : ℕ) (p : Entry) (tn : ℕ)
    → e.key ≢ 0
    → p.key ≢ 0
    → p.key ≢ e.key
    → Inserted s (at_end s e before p tn) e before p []
unfolding insert
at_end-Inserted s e before p tn e0 p0 ne = record {
  seg = ground arith;
  others = λ k h f. ground arith;
  head_kept = refl;
  tail_moved = λ h. refl;
}

abbrev between : Store → Entry → ℕ → Entry → ℕ → Entry → List Entry → Store
between s e before p tp y ys = record s {
  cell =
      update
        (update
          (update (update s.cell p.key (some (timer_at p before e.key))) e.key
            (some (timer_at e tp y.key)))
          y.key (some (timer_at y e.key (first_or 0 ys))))
        e.key (some (timer_at e p.key y.key));
}

between-Inserted :
    (s : Store) (e : Entry) (before : ℕ) (p : Entry) (tp : ℕ) (y : Entry) (ys : List Entry)
    → ltb e.expire y.expire ≡ true
    → e.key ≢ 0
    → Fresh e.key (p ∷ y ∷ ys)
    → Distinct (p ∷ y ∷ ys)
    → Seg s.cell before 0 (p ∷ y ∷ ys)
    → Inserted s (between s e before p tp y ys) e before p (y ∷ ys)
unfolding insert
between-Inserted s e before p tp y ys lt e0 f d g = record {
  seg = rw lt (
    g.0,
    ground arith,
    (
      e0,
      ground arith,
      (
        g.2.0,
        ground arith,
        Seg-update _ e.key _ y.key 0 ys f.1.1 (
            Seg-update _ y.key _ y.key 0 ys d.1.0 (
              Seg-update _ e.key _ y.key 0 ys f.1.1
                (Seg-update s.cell p.key _ y.key 0 ys d.0.1 g.2.2))),
      ),
    ),
  );
  others = λ k h f. ground arith;
  head_kept = refl;
  tail_moved = λ h. rw lt h;
}

Inserted-skip :
    (s s' : Store) (e : Entry) (before : ℕ) (p y : Entry) (ys : List Entry)
    → ltb e.expire y.expire ≡ false
    → Fresh e.key (p ∷ y ∷ ys)
    → Distinct (p ∷ y ∷ ys)
    → Seg s.cell before 0 (p ∷ y ∷ ys)
    → Inserted s s' e p.key y ys
    → Inserted s s' e before p (y ∷ ys)
unfolding insert
Inserted-skip s s' e before p y ys ge f d g i = record {
  seg = rw ge (g.0, i.others p.key (λ q. f.0 (sym q)) d.0 ∙ g.1, i.seg);
  others = λ k h fr. i.others k h fr.1;
  head_kept = i.head_kept;
  tail_moved = λ h. rw ge (i.tail_moved h);
}

pub add_loop_lem :
    (fuel : ℕ) (s : Store) (e : Entry) (before : ℕ) (p : Entry) (rest : List Entry) (tp tn : ℕ)
    → length rest < fuel
    → s.cell e.key ≡ some (timer_at e tp tn)
    → e.key ≢ 0
    → Fresh e.key (p ∷ rest)
    → Distinct (p ∷ rest)
    → Seg s.cell before 0 (p ∷ rest)
    → (s' : Store) × (add_loop fuel e.key p.key (first_or 0 rest) s ≡ some (tt, s'))
      × Inserted s s' e before p rest
unfolding add_loop
add_loop_lem zero s e before p rest tp tn lf c e0 f d g = elim lf [ ]
add_loop_lem (suc fuel) s e before p [] tp tn lf c e0 f d g =
    (at_end s e before p tn, ground arith, at_end-Inserted s e before p tn e0 g.0 f.0)
add_loop_lem (suc fuel) s e before p (y ∷ ys) tp tn lf c e0 f d g =
    elim (Bool-cases (ltb e.expire y.expire)) [
      | inl lt ↦ (
        between s e before p tp y ys,
        ground arith,
        between-Inserted s e before p tp y ys lt e0 f d g,
      )
      | inr ge ↦
          let r = add_loop_lem fuel s e p.key y ys tp tn (omega arith) c e0 f.1 d.1 g.2 in
          let kept : r.0.cell p.key ≡ s.cell p.key = r.2.others p.key (λ q. f.0 (sym q)) d.0 in
          (r.0, ground (arith, r.1), Inserted-skip s r.0 e before p y ys ge f d g r.2)
    ]

-- The list `ts` is what the object holds: linked in both directions, with null at both ends, `head`
-- at its first timer and `tail` at its last one.
abbrev pub TailIs : ℕ → List Entry → Type 0
TailIs tail [] = Unit
TailIs tail (e ∷ es) = tail ≡ last_or e.key es

pub record Repr (s : Store) (ts : List Entry) : Type 0 where
  pub seg : Seg s.cell 0 0 ts
  pub distinct : Distinct ts
  pub head_first : s.head ≡ first_or 0 ts
  pub tail_last : TailIs s.tail ts

pub Fresh-insert :
    (k : ℕ) (e : Entry) (ts : List Entry) → e.key ≢ k → Fresh k ts → Fresh k (insert e ts)
unfolding insert
Fresh-insert k e [] n f = (n, tt)
Fresh-insert k e (y ∷ ys) n f = elim (Bool-cases (ltb e.expire y.expire)) [
  | inl lt ↦ rw lt (n, f)
  | inr ge ↦ rw ge (f.0, Fresh-insert k e ys n f.1)
]

pub Distinct-insert :
    (e : Entry) (ts : List Entry) → Fresh e.key ts → Distinct ts → Distinct (insert e ts)
unfolding insert
Distinct-insert e [] f d = (tt, tt)
Distinct-insert e (y ∷ ys) f d = elim (Bool-cases (ltb e.expire y.expire)) [
  | inl lt ↦ rw lt (f, d)
  | inr ge ↦ rw ge (Fresh-insert y.key e ys (λ q. f.0 (sym q)) d.0, Distinct-insert e ys f.1 d.1)
]

pub insert-ne-nil : (e : Entry) (ts : List Entry) → insert e ts ≢ []
unfolding insert
insert-ne-nil e [] h = cc
insert-ne-nil e (y ∷ ys) h = ground arith

abbrev in_front : Store → Entry → Entry → List Entry → Store
in_front s e y ys = record s {
  cell =
      update (update s.cell e.key (some (timer_at e 0 y.key))) y.key
        (some (timer_at y e.key (first_or 0 ys)));
  head = e.key;
}

in_front-Repr :
    (s : Store) (e y : Entry) (ys : List Entry)
    → e.key ≢ 0
    → Fresh e.key (y ∷ ys)
    → Repr s (y ∷ ys)
    → Repr (in_front s e y ys) (e ∷ y ∷ ys)
in_front-Repr s e y ys e0 f r = record {
  seg = (
    e0,
    ground arith,
    (
      r.seg.0,
      ground arith,
      Seg-update _ y.key _ y.key 0 ys r.distinct.0
          (Seg-update s.cell e.key _ y.key 0 ys f.1 r.seg.2),
    ),
  );
  distinct = (f, r.distinct);
  head_first = refl;
  tail_last = r.tail_last;
}

-- `add_timer` of a new timer puts it into the list behind all timers that do not expire later, with
-- any fuel above the length, and leaves every other object on the heap alone.
pub add_timer_refines :
    (fuel : ℕ) (s : Store) (e : Entry) (ts : List Entry)
    → length ts < fuel
    → s.cell e.key ≡ some (timer_at e 0 0)
    → e.key ≢ 0
    → Fresh e.key ts
    → Repr s ts
    → (s' : Store) × (add_timer fuel e.key s ≡ some (tt, s'))
      × Repr s' (insert e ts)
      × ((k : ℕ) → e.key ≢ k → Fresh k ts → s'.cell k ≡ s.cell k)
unfolding add_timer add_after insert
add_timer_refines fuel s e [] lf c e0 f r = (
  record s { head = e.key; tail = e.key },
  ground (arith, r.head_first),
  record { seg = (e0, c, tt); distinct = (tt, tt); head_first = refl; tail_last = refl },
  λ k n h. refl,
)
add_timer_refines fuel s e (y ∷ ys) lf c e0 f r = elim (Bool-cases (ltb e.expire y.expire)) [
  | inl lt ↦ rw lt (
    in_front s e y ys,
    ground (arith, r.head_first),
    in_front-Repr s e y ys e0 f r,
    λ k n h. ground arith,
  )
  | inr ge ↦
      let i = add_loop_lem fuel s e 0 y ys 0 0 (omega arith) c e0 f r.distinct r.seg in
      rw ge (
        i.0,
        ground (arith, r.head_first, i.1),
        record {
          seg = i.2.seg;
          distinct = (
            Fresh-insert y.key e ys (λ q. f.0 (sym q)) r.distinct.0,
            Distinct-insert e ys f.1 r.distinct.1,
          );
          head_first = i.2.head_kept ∙ r.head_first;
          tail_last = i.2.tail_moved r.tail_last;
        },
        λ k n h. i.2.others k n h,
      )
]
