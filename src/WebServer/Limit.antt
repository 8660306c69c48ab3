-- ===== src/WebServer/Limit.antt =====
-- The limit on connections, the trigger modes and the signals of TinyWebServer/webserver.cpp.
use make_linux_server.Base.{
  ℕ, ◌/◌, ◌%◌, ◌<◌, ◌≡◌, refl, ap, sym, ◌∙◌, inl, inr, Bool, true, false, Option, none, some, List,
  [], ◌∷◌, ◌||◌, ◌==◌, arith, Bool-cases, ltb,
}
use make_linux_server.Base.Int.{pos, ◌+ℤ◌, ◌≤ℤ◌}
use make_linux_server.Http.{init}
use make_linux_server.Http.CString.{mem}
use make_linux_server.Timer.{Store, add_timer}
use make_linux_server.WebServer.{
  Server, Accept, accepted, accept_failed, max_fd, with_timers, new_timer, add_new, timer,
  accept_one, accept_all, accept_first, dealclientdata, is_full, return, and_on, trig_mode,
}
use make_linux_server.WebServer.Loop.{read_signals, dealwithsignal, sigalrm, sigterm}

with_timers-count :
    (s : Server) (o : Option (Unit {0} × Store)) (s' : Server)
    → with_timers s o ≡ some s'
    → s'.user_count ≡ s.user_count
with_timers-count s none s' h = absurd (ground (arith, h))
with_timers-count s (some (u, timers)) s' h =
    ap (λ o. elim o [ none ↦ s.user_count | some t ↦ t.user_count ]) (sym h)

new_timer-count :
    (cur p fd : ℕ) (s ready : Server)
    → new_timer cur p fd s ≡ some ready
    → ready.user_count ≡ s.user_count +ℤ pos 1
unfolding init
new_timer-count cur p fd s ready h = elim (Bool-cases (ltb fd max_fd)) [
  | inl y ↦
      ap (λ o. elim o [ none ↦ s.user_count +ℤ pos 1 | some t ↦ t.user_count ]) (sym (rw y at h))
  | inr n ↦ absurd (ground (arith, (rw n at h)))
]

add_new-count :
    (fuel cur p fd : ℕ) (s s' : Server) (o : Option Server)
    → new_timer cur p fd s ≡ o
    → add_new fuel p o ≡ some s'
    → s'.user_count ≡ s.user_count +ℤ pos 1
add_new-count fuel cur p fd s s' none e h = absurd (ground (arith, h))
add_new-count fuel cur p fd s s' (some ready) e h =
    with_timers-count ready (add_timer fuel p ready.timers) s' h
    ∙ new_timer-count cur p fd s ready e

timer-count :
    (fuel cur p fd : ℕ) (s s' : Server)
    → timer fuel cur p fd s ≡ some s'
    → s'.user_count ≡ s.user_count +ℤ pos 1
unfolding timer
timer-count fuel cur p fd s s' h = add_new-count fuel cur p fd s s' (new_timer cur p fd s) refl h

-- The count of a result is within the limit.
abbrev pub Within : Option (Bool × Server) → Type 0
Within none = Unit {0}
Within (some (b, s)) = s.user_count ≤ℤ pos max_fd

below :
    (s s' : Server)
    → is_full s ≡ false
    → s'.user_count ≡ s.user_count +ℤ pos 1
    → s'.user_count ≤ℤ pos max_fd
below s s' f e = ground (arith, f, e)

return-Within :
    (b : Bool) (s : Server) (o : Option Server)
    → is_full s ≡ false
    → ((s' : Server) → o ≡ some s' → s'.user_count ≡ s.user_count +ℤ pos 1)
    → Within (return b o)
return-Within b s none f h = tt
return-Within b s (some s') f h = below s s' f (h s' refl)

accept_one-Within :
    (fuel : ℕ) (a : Accept) (s : Server) → s.user_count ≤ℤ pos max_fd → Within (accept_one fuel a s)
unfolding accept_one
accept_one-Within fuel accept_failed s h = h
accept_one-Within fuel (accepted fd p cur) s h = elim (Bool-cases (is_full s)) [
  | inl e ↦ rw e h
  | inr e ↦ rw e (return-Within true s (timer fuel cur p fd s) e (timer-count fuel cur p fd s))
]

and_on-Within :
    (s : Server) (o : Option Server) (f : Server → Option (Bool × Server))
    → is_full s ≡ false
    → ((s' : Server) → o ≡ some s' → s'.user_count ≡ s.user_count +ℤ pos 1)
    → ((s' : Server) → s'.user_count ≤ℤ pos max_fd → Within (f s'))
    → Within (and_on o f)
and_on-Within s none f e h g = tt
and_on-Within s (some s') f e h g = g s' (below s s' e (h s' refl))

accept_all-Within :
    (fuel : ℕ) (rs : List Accept) (s : Server)
    → s.user_count ≤ℤ pos max_fd
    → Within (accept_all fuel rs s)
unfolding accept_all
accept_all-Within fuel [] s h = h
accept_all-Within fuel (accept_failed ∷ rs) s h = h
accept_all-Within fuel (accepted fd p cur ∷ rs) s h = elim (Bool-cases (is_full s)) [
  | inl e ↦ rw e h
  | inr e ↦ rw e (
      and_on-Within s (timer fuel cur p fd s) (accept_all fuel rs) e (timer-count fuel cur p fd s)
        (λ s' b. accept_all-Within fuel rs s' b))
]

accept_first-Within :
    (fuel : ℕ) (rs : List Accept) (s : Server)
    → s.user_count ≤ℤ pos max_fd
    → Within (accept_first fuel rs s)
accept_first-Within fuel [] s h = h
accept_first-Within fuel (a ∷ rs) s h = accept_one-Within fuel a s h

-- In both trigger modes `dealclientdata` never takes `m_user_count` above MAX_FD, whatever `accept`
-- returns.
pub dealclientdata-Within :
    (fuel : ℕ) (results : List Accept) (s : Server)
    → s.user_count ≤ℤ pos max_fd
    → Within (dealclientdata fuel results s)
unfolding dealclientdata
dealclientdata-Within fuel results s h = elim (Bool-cases (s.listen_trigger == 0)) [
  | inl e ↦ rw e (accept_first-Within fuel results s h)
  | inr e ↦ rw e (accept_all-Within fuel results s h)
]

-- The four modes are the pairs of a mode for the listening socket and one for the connections, read as
-- a number in base 2.
pub trig_mode_lem :
    (s : Server)
    → s.trigger < 4
    → ((trig_mode s).listen_trigger ≡ s.trigger / 2) × ((trig_mode s).conn_trigger ≡ s.trigger % 2)
unfolding trig_mode
trig_mode_lem s h = ground arith

read_signals_lem :
    (sigs : List ℕ) (timeout stop_server : Bool)
    → read_signals sigs (timeout, stop_server)
      ≡ (timeout || mem sigalrm sigs, stop_server || mem sigterm sigs)
unfolding read_signals mem
read_signals_lem [] timeout stop_server = ground arith
read_signals_lem (sig ∷ sigs) timeout stop_server =
    read_signals_lem sigs (timeout || sig == sigalrm) (stop_server || sig == sigterm) ∙ ground arith

-- Whatever signals arrive together, `dealwithsignal` asks for the timers exactly if SIGALRM is among
-- them or was asked for, and for the end exactly if SIGTERM is; on an error or at the end of the file
-- it changes nothing.
pub dealwithsignal_lem :
    (received : Option (List ℕ)) (timeout stop_server : Bool)
    → (dealwithsignal received (timeout, stop_server)).1 ≡ elim received [
      | none ↦ (timeout, stop_server)
      | some sigs ↦ (timeout || mem sigalrm sigs, stop_server || mem sigterm sigs)
    ]
unfolding dealwithsignal mem
dealwithsignal_lem none timeout stop_server = refl
dealwithsignal_lem (some []) timeout stop_server = ground arith
dealwithsignal_lem (some (sig ∷ sigs)) timeout stop_server =
    read_signals_lem (sig ∷ sigs) timeout stop_server
