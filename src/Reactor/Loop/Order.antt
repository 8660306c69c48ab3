-- ===== src/Reactor/Loop/Order.antt =====
-- The event loop of cpp_server/src/EventLoop.cpp calls every deferred function once and in order, and
-- does not sleep on one.
use mathlib.Core.Path.{subst}
use make_linux_server.Base.{
  ℕ, zero, suc, ◌+◌, ◌<◌, ◌≤◌, ◌≡◌, ◌≢◌, ◌⊎◌, inl, inr, refl, ap, sym, ◌∙◌, Bool, true, false,
  Option, none, some, List, [], ◌∷◌, ◌++◌, leb, if◌then◌else◌, min, append_assoc, append-nil, arith,
  Bool-cases,
}
use make_linux_server.Reactor.Loop.{
  Ready, woken, other, Phase, waiting, handling, swapping, running, Loop, append, queue_one_func,
  signal, run_one_func, handle_read, go_on, count_woken, poll, queue_here, Move, polls, goes_on,
  queues_here, queues_elsewhere, runs_elsewhere, signals, step, and_then, run,
}

-- The functions that have been taken from the queue and not yet called.
abbrev pub taken : Phase → List ℕ
taken waiting = []
taken (handling rest) = []
taken swapping = []
taken (running rest) = rest

abbrev pub is_calling : Phase → Bool
is_calling waiting = false
is_calling (handling rest) = false
is_calling swapping = true
is_calling (running rest) = true

-- Whether the queue is next looked at only behind another `epoll_wait`.
abbrev pub looks_later : Phase → Bool
looks_later waiting = true
looks_later (handling rest) = false
looks_later swapping = false
looks_later (running rest) = true

abbrev pub reports : Phase → ℕ
reports waiting = 0
reports (handling rest) = count_woken rest
reports swapping = 0
reports (running rest) = 0

pub record IsValid (l : Loop) : Type 0 where
  pub in_order : l.done ++ (taken l.phase ++ l.to_do) ≡ l.queued
  pub flag : l.calling_functors ≡ is_calling l.phase
  pub wakened : looks_later l.phase ≡ true → (l.to_do ≡ []) ⊎ (0 < l.wakeup + l.signalling)
  pub reported : reports l.phase ≤ min 1 l.wakeup

-- A function at the end of the queue.
queued_last :
    (done taken to_do queued : List ℕ) (func : ℕ)
    → done ++ (taken ++ to_do) ≡ queued
    → done ++ (taken ++ (to_do ++ func ∷ [])) ≡ queued ++ func ∷ []
queued_last done taken to_do queued func e =
    ap (λ l. done ++ l) (sym (append_assoc taken to_do (func ∷ [])))
    ∙ sym (append_assoc done (taken ++ to_do) (func ∷ []))
    ∙ ap (λ l. l ++ func ∷ []) e

queue_elsewhere-IsValid : (func : ℕ) (l : Loop) → IsValid l → IsValid (queue_one_func false func l)
unfolding queue_one_func
queue_elsewhere-IsValid func l v = record {
  in_order = queued_last l.done (taken l.phase) l.to_do l.queued func v.in_order;
  flag = v.flag;
  wakened = λ h. inr (omega arith);
  reported = v.reported;
}

signal-IsValid : (n : ℕ) (l : Loop) → l.signalling ≡ n → IsValid l → IsValid (signal n l)
signal-IsValid zero l e v = v
signal-IsValid (suc n) l e v = record {
  in_order = v.in_order;
  flag = v.flag;
  wakened = λ h. inr (omega arith);
  reported = omega (arith, v.reported);
}

-- The loop's own thread queues a function without and with a write to the eventfd.
append-IsValid :
    (func : ℕ) (l : Loop) → looks_later l.phase ≡ false → IsValid l → IsValid (append func l)
append-IsValid func l busy v = record {
  in_order = queued_last l.done (taken l.phase) l.to_do l.queued func v.in_order;
  flag = v.flag;
  wakened = λ h. absurd (ground arith);
  reported = v.reported;
}

append_wake-IsValid :
    (func : ℕ) (l : Loop) → IsValid l → IsValid (record (append func l) { wakeup = l.wakeup + 1 })
append_wake-IsValid func l v = record {
  in_order = queued_last l.done (taken l.phase) l.to_do l.queued func v.in_order;
  flag = v.flag;
  wakened = λ h. inr (omega arith);
  reported = omega (arith, v.reported);
}

choose_wake :
    (b : Bool) (func : ℕ) (l : Loop)
    → (b ≡ false → looks_later l.phase ≡ false)
    → IsValid l
    → IsValid (if b then record (append func l) { wakeup = l.wakeup + 1 } else append func l)
choose_wake true func l busy v = append_wake-IsValid func l v
choose_wake false func l busy v = append-IsValid func l (busy refl) v

queue_here-IsValid :
    (p : Phase) (func : ℕ) (l : Loop) → l.phase ≡ p → IsValid l → IsValid (queue_here p func l)
unfolding queue_one_func
queue_here-IsValid waiting func l e v = v
queue_here-IsValid swapping func l e v = v
queue_here-IsValid (handling rest) func l e v =
    choose_wake l.calling_functors func l (λ h. ap looks_later e) v
queue_here-IsValid (running rest) func l e v =
    choose_wake l.calling_functors func l (λ h. absurd (ground (arith, v.flag, ap is_calling e))) v

-- What the loop's thread does outside of `epoll_wait` neither fails nor breaks the invariant.
abbrev Keeps : Option Loop → Type 0
Keeps none = ⊥
Keeps (some l) = IsValid l

handle_read-Keeps :
    (rest : List Ready) (n : ℕ) (l : Loop)
    → l.phase ≡ handling (woken ∷ rest)
    → l.wakeup ≡ n
    → IsValid l
    → Keeps (handle_read rest n l)
unfolding handle_read
handle_read-Keeps rest zero l e w v =
    let r : suc (count_woken rest) ≤ min 1 l.wakeup =
      subst (λ p. reports p ≤ min 1 l.wakeup) e v.reported in
    absurd (omega arith)
handle_read-Keeps rest (suc n) l e w v =
    let r : suc (count_woken rest) ≤ min 1 l.wakeup =
      subst (λ p. reports p ≤ min 1 l.wakeup) e v.reported in
    record {
      in_order = subst (λ p. l.done ++ (taken p ++ l.to_do) ≡ l.queued) e v.in_order;
      flag = v.flag ∙ ap is_calling e;
      wakened = λ h. absurd (ground arith);
      reported = omega arith;
    }

go_on-Keeps : (p : Phase) (l : Loop) → l.phase ≡ p → IsValid l → Keeps (go_on p l)
unfolding go_on
go_on-Keeps waiting l e v = v
go_on-Keeps (handling []) l e v = record {
  in_order = subst (λ p. l.done ++ (taken p ++ l.to_do) ≡ l.queued) e v.in_order;
  flag = refl;
  wakened = λ h. absurd (ground arith);
  reported = omega arith;
}
go_on-Keeps (handling (woken ∷ rest)) l e v = handle_read-Keeps rest l.wakeup l e refl v
go_on-Keeps (handling (other channel ∷ rest)) l e v = record {
  in_order = subst (λ p. l.done ++ (taken p ++ l.to_do) ≡ l.queued) e v.in_order;
  flag = v.flag ∙ ap is_calling e;
  wakened = λ h. absurd (ground arith);
  reported = subst (λ p. reports p ≤ min 1 l.wakeup) e v.reported;
}
go_on-Keeps swapping l e v = record {
  in_order =
      ap (λ xs. l.done ++ xs) (append-nil l.to_do)
      ∙ subst (λ p. l.done ++ (taken p ++ l.to_do) ≡ l.queued) e v.in_order;
  flag = v.flag ∙ ap is_calling e;
  wakened = λ h. inl refl;
  reported = omega arith;
}
go_on-Keeps (running (func ∷ rest)) l e v = record {
  in_order =
      append_assoc l.done (func ∷ []) (rest ++ l.to_do)
      ∙ subst (λ p. l.done ++ (taken p ++ l.to_do) ≡ l.queued) e v.in_order;
  flag = v.flag ∙ ap is_calling e;
  wakened = λ h. v.wakened (ap looks_later e);
  reported = omega arith;
}
go_on-Keeps (running []) l e v = record {
  in_order = subst (λ p. l.done ++ (taken p ++ l.to_do) ≡ l.queued) e v.in_order;
  flag = refl;
  wakened = λ h. v.wakened (ap looks_later e);
  reported = omega arith;
}

poll-IsValid :
    (p : Phase) (ready : List Ready) (l : Loop) → l.phase ≡ p → IsValid l → IsValid (poll p ready l)
poll-IsValid waiting ready l e v = elim (Bool-cases (leb (count_woken ready) (min 1 l.wakeup))) [
  | inl h ↦ rw h (record {
    in_order = subst (λ p. l.done ++ (taken p ++ l.to_do) ≡ l.queued) e v.in_order;
    flag = v.flag ∙ ap is_calling e;
    wakened = λ k. absurd (ground arith);
    reported = ground arith;
  })
  | inr h ↦ rw h v
]
poll-IsValid (handling rest) ready l e v = v
poll-IsValid swapping ready l e v = v
poll-IsValid (running rest) ready l e v = v

step-Keeps : (m : Move) (l : Loop) → IsValid l → Keeps (step m l)
unfolding step run_one_func
step-Keeps (polls ready) l v = poll-IsValid l.phase ready l refl v
step-Keeps goes_on l v = go_on-Keeps l.phase l refl v
step-Keeps (queues_here func) l v = queue_here-IsValid l.phase func l refl v
step-Keeps (queues_elsewhere func) l v = queue_elsewhere-IsValid func l v
step-Keeps (runs_elsewhere func) l v = queue_elsewhere-IsValid func l v
step-Keeps signals l v = signal-IsValid l.signalling l refl v

and_then-Keeps :
    (o : Option Loop) (f : Loop → Option Loop)
    → Keeps o
    → ((l : Loop) → IsValid l → Keeps (f l))
    → Keeps (and_then o f)
and_then-Keeps none f k g = absurd k
and_then-Keeps (some l) f k g = g l k

run-Keeps : (ms : List Move) (l : Loop) → IsValid l → Keeps (run ms l)
unfolding run
run-Keeps [] l v = v
run-Keeps (m ∷ ms) l v = and_then-Keeps (step m l) (run ms) (step-Keeps m l v) (run-Keeps ms)

Keeps-some : (o : Option Loop) → Keeps o → (l : Loop) × (o ≡ some l) × IsValid l
Keeps-some none k = absurd k
Keeps-some (some l) k = (l, refl, k)

awake :
    (l : Loop) → IsValid l → l.phase ≡ waiting → l.signalling ≡ 0 → l.done ≢ l.queued → 0 < l.wakeup
awake l v p s d = elim (v.wakened (ap looks_later p)) [
  | inl none_left ↦ absurd (
      d (
        sym (append-nil l.done)
        ∙ ap (λ xs. l.done ++ xs) (sym none_left)
        ∙ ap (λ q. l.done ++ (taken q ++ l.to_do)) (sym p)
        ∙ v.in_order))
  | inr some_wake ↦ omega arith
]

-- Under every schedule of the loop's thread and the others, no assertion fails, and the functions
-- called, those taken from the queue and the queue are in a row what was queued: each is called once
-- and in order. When the loop waits, a function has not been called, and no thread is about to write
-- to the eventfd, then its counter is not 0, so that `epoll_wait` returns.
pub run-wakes :
    (ms : List Move) (l : Loop)
    → IsValid l
    → (last : Loop) × (run ms l ≡ some last)
      × (last.done ++ (taken last.phase ++ last.to_do) ≡ last.queued)
      × (last.phase ≡ waiting → last.signalling ≡ 0 → last.done ≢ last.queued → 0 < last.wakeup)
run-wakes ms l v =
    let (last, e, w) = Keeps-some (run ms l) (run-Keeps ms l v) in
    (last, e, w.in_order, λ p s d. awake last w p s d)
