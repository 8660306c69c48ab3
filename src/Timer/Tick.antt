-- ===== src/Timer/Tick.antt =====
-- `tick` and the destructor of lst_timer.cpp.
use make_linux_server.Base.{
  ℕ, zero, suc, ◌+◌, ◌<◌, ◌≡◌, ◌≢◌, refl, sym, ap, ◌∙◌, Option, none, some, List, [], ◌∷◌, ◌++◌,
  arith, true, false, inl, inr, ==-ne, ◌==◌, ltb, length, Bool-cases, map, if◌then◌else◌,
}
use make_linux_server.Timer.{Timer, Store, update, tick, tick_loop, destroy, destroy_loop, pure}
use make_linux_server.Timer.Segment.{Entry, first_or, timer_at, Seg, Fresh, Distinct, Seg-update}
use make_linux_server.Timer.Insert.{Repr}
use make_linux_server.Timer.Links.{Seg-rehead}
use make_linux_server.Timer.Sorted.{
  IsSorted, NotBefore, Expired, due, remaining, due-append-remaining, due-Expired,
  remaining-NotBefore, remaining-IsSorted,
}

-- The heap and the head when the first timer is gone.
abbrev pub popped : Store → Entry → List Entry → Store
popped s e [] = record s { cell = update s.cell e.key none; head = 0 }
popped s e (y ∷ zs) = record s {
  cell = update (update s.cell y.key (some (timer_at y 0 (first_or 0 zs)))) e.key none;
  head = y.key;
}

pub popped-Repr :
    (s : Store) (e : Entry) (es : List Entry) → Repr s (e ∷ es) → Repr (popped s e es) es
popped-Repr s e [] r = record { seg = tt; distinct = tt; head_first = refl; tail_last = tt }
popped-Repr s e (y ∷ zs) r = record {
  seg =
      Seg-update _ e.key none 0 0 (y ∷ zs) r.distinct.0
        (Seg-rehead s.cell e.key 0 0 y zs r.distinct.1.0 r.seg.2);
  distinct = r.distinct.1;
  head_first = refl;
  tail_last = r.tail_last;
}

popped-keeps :
    (k : ℕ) (s : Store) (e : Entry) (es : List Entry)
    → e.key ≢ k
    → Fresh k es
    → (popped s e es).cell k ≡ s.cell k
popped-keeps k s e [] n f = ground arith
popped-keeps k s e (y ∷ zs) n f = ground arith

abbrev after_one : ℕ → Option (List ℕ × Store) → Option (List ℕ × Store)
after_one user none = none
after_one user (some (us, s)) = some (user ∷ us, s)

tick-stops :
    (fuel cur : ℕ) (s : Store) (e : Entry) (es : List Entry)
    → ltb cur e.expire ≡ true
    → Repr s (e ∷ es)
    → tick_loop (suc fuel) cur e.key s ≡ some ([], s)
unfolding tick_loop
tick-stops fuel cur s e es lt r = ground (arith, r.seg.0, r.seg.1)

tick-fires :
    (fuel cur : ℕ) (s : Store) (e : Entry) (es : List Entry)
    → ltb cur e.expire ≡ false
    → Repr s (e ∷ es)
    → tick_loop (suc fuel) cur e.key s
      ≡ after_one e.user (tick_loop fuel cur (first_or 0 es) (popped s e es))
unfolding tick_loop
tick-fires fuel cur s e [] ge r = ground (arith, r.seg.0, r.seg.1)
tick-fires fuel cur s e (y ∷ zs) ge r =
    ground (arith, r.seg.0, r.seg.1, r.seg.2.0, r.seg.2.1, r.distinct.0.0)

abbrev pub users : List Entry → List ℕ
users = map λ e. e.user

tick_loop_lem :
    (fuel cur : ℕ) (s : Store) (ts : List Entry)
    → length ts < fuel
    → Repr s ts
    → (s' : Store) × (tick_loop fuel cur (first_or 0 ts) s ≡ some (users (due cur ts), s'))
      × Repr s' (remaining cur ts)
unfolding due remaining
tick_loop_lem zero cur s ts lf r = elim lf [ ]
tick_loop_lem (suc fuel) cur s [] lf r = (s, unfold tick_loop in refl, r)
tick_loop_lem (suc fuel) cur s (e ∷ es) lf r = elim (Bool-cases (ltb cur e.expire)) [
  | inl lt ↦ rw lt (s, tick-stops fuel cur s e es lt r, r)
  | inr ge ↦
      let i = tick_loop_lem fuel cur (popped s e es) es (omega arith) (popped-Repr s e es r) in
      rw ge (i.0, tick-fires fuel cur s e es ge r ∙ ap (after_one e.user) i.1, i.2)
]

tick-enters-nonempty :
    (fuel cur : ℕ) (s : Store) (e : Entry) (es : List Entry)
    → Repr s (e ∷ es)
    → tick fuel cur s ≡ tick_loop fuel cur e.key s
unfolding tick
tick-enters-nonempty fuel cur s e es r =
    let nonzero : (s.head == 0) ≡ false = ==-ne s.head 0 (λ q. r.seg.0 (sym r.head_first ∙ q)) in
    ap (λ b. (if b then pure [] else tick_loop fuel cur s.head) s) nonzero
    ∙ ap (λ h. tick_loop fuel cur h s) r.head_first

tick-enters :
    (fuel cur : ℕ) (s : Store) (ts : List Entry)
    → length ts < fuel
    → Repr s ts
    → tick fuel cur s ≡ tick_loop fuel cur (first_or 0 ts) s
unfolding tick tick_loop
tick-enters zero cur s ts lf r = elim lf [ ]
tick-enters (suc fuel) cur s [] lf r = ground (arith, r.head_first)
tick-enters (suc fuel) cur s (e ∷ es) lf r = tick-enters-nonempty (suc fuel) cur s e es r

-- On a sorted list `tick` calls back the clients of exactly the timers that have expired at `cur`,
-- the soonest first, and keeps the others, sorted; fuel above the length is enough.
pub tick_refines :
    (fuel cur : ℕ) (s : Store) (ts : List Entry)
    → length ts < fuel
    → IsSorted ts
    → Repr s ts
    → (s' : Store) × (gone : List Entry) × (left : List Entry) × (tick fuel cur s
        ≡ some (users gone, s'))
      × Repr s' left
      × (gone ++ left ≡ ts)
      × Expired cur gone
      × NotBefore (cur + 1) left
      × IsSorted left
unfolding tick
tick_refines fuel cur s ts lf o r =
    let i = tick_loop_lem fuel cur s ts lf r in
    (
      i.0,
      due cur ts,
      remaining cur ts,
      tick-enters fuel cur s ts lf r ∙ i.1,
      i.2,
      due-append-remaining cur ts,
      due-Expired cur ts,
      remaining-NotBefore cur ts o,
      remaining-IsSorted cur ts o,
    )

-- The destructor frees every timer of the list.
abbrev pub AllFreed : (ℕ → Option Timer) → List Entry → Type 0
AllFreed cell [] = Unit
AllFreed cell (e ∷ es) = (cell e.key ≡ none) × AllFreed cell es

abbrev freed : Store → Entry → ℕ → Store
freed s e next = record s { cell = update s.cell e.key none; head = next }

destroy_loop_lem :
    (fuel : ℕ) (s : Store) (before : ℕ) (ts : List Entry)
    → length ts < fuel
    → Distinct ts
    → Seg s.cell before 0 ts
    → s.head ≡ first_or 0 ts
    → (s' : Store) × (destroy_loop fuel (first_or 0 ts) s ≡ some (tt, s'))
      × AllFreed s'.cell ts
      × ((k : ℕ) → Fresh k ts → s'.cell k ≡ s.cell k)
      × (s'.head ≡ 0)
unfolding destroy_loop
destroy_loop_lem zero s before ts lf d g hd = elim lf [ ]
destroy_loop_lem (suc fuel) s before [] lf d g hd = (s, refl, tt, λ k f. refl, hd)
destroy_loop_lem (suc fuel) s before (e ∷ es) lf d g hd =
    let i =
      destroy_loop_lem fuel (freed s e (first_or 0 es)) e.key es (omega arith) d.1
        (Seg-update s.cell e.key none e.key 0 es d.0 g.2) refl in
    (
      i.0,
      ground (arith, g.0, g.1, i.1),
      (i.3 e.key d.0 ∙ ground arith, i.2),
      λ k f. i.3 k f.1 ∙ ground arith,
      i.4,
    )

-- `~sort_timer_lst` frees every timer of the list, follows no freed pointer, and leaves the rest of
-- the heap alone; fuel above the length is enough.
pub destroy_lem :
    (fuel : ℕ) (s : Store) (ts : List Entry)
    → length ts < fuel
    → Repr s ts
    → (s' : Store) × (destroy fuel s ≡ some (tt, s'))
      × AllFreed s'.cell ts
      × ((k : ℕ) → Fresh k ts → s'.cell k ≡ s.cell k)
unfolding destroy
destroy_lem fuel s ts lf r =
    let i = destroy_loop_lem fuel s 0 ts lf r.distinct r.seg r.head_first in
    (i.0, ground (arith, r.head_first, i.1), i.2, i.3)
