-- ===== src/Reactor/Channel.antt =====
-- cpp_server/src/Channel.cpp and Epoll.cpp: a channel's set of awaited events and its registration with
-- epoll. The set is five flags in place of the bits of `listenEvents`; `registered` is what the kernel
-- has for the descriptor, none if it is not in the epoll instance.
use mathlib.Core.Path.{subst}
use make_linux_server.Base.{
  ◌≡◌, Bool, true, false, Option, none, some, List, [], ◌∷◌, ◌||◌, ◌&&◌, ◌++◌, if◌then◌else◌, arith,
  not, sym,
}

-- EPOLLIN, EPOLLPRI, EPOLLOUT, EPOLLET and EPOLLRDHUP.
pub record Events : Type 0 where
  pub readable : Bool
  pub urgent : Bool
  pub writable : Bool
  pub edge : Bool
  pub hung_up : Bool

pub record Channel : Type 0 where
  pub listen_events : Events
  pub ready_events : Events
  pub in_epoll : Bool
  pub registered : Option Events

abbrev pub no_events : Events
no_events = record {
  readable = false;
  urgent = false;
  writable = false;
  edge = false;
  hung_up = false;
}

-- `Channel(loop, fd, blocking)`
abbrev pub channel : Channel
channel = record {
  listen_events = no_events;
  ready_events = no_events;
  in_epoll = false;
  registered = none;
}

-- `epoll_ctl`: ADD fails for a descriptor that is there, MOD and DEL for one that is not. ADD and MOD may
-- also fail for want of memory or of watches: `ok` is false then. The callers do not look at the result.
abbrev pub epoll_add : Bool → Events → Option Events → Option Events
epoll_add false e old = old
epoll_add true e none = some e
epoll_add true e (some old) = some old

abbrev pub epoll_mod : Bool → Events → Option Events → Option Events
epoll_mod false e old = old
epoll_mod true e none = none
epoll_mod true e (some old) = some e

-- `Epoll::updateChannel`, which sets `inEpoll` also when ADD fails.
unfoldable pub update_channel : Bool → Channel → Channel
update_channel ok c =
    if c.in_epoll
    then record c { registered = epoll_mod ok c.listen_events c.registered }
    else record c { registered = epoll_add ok c.listen_events c.registered; in_epoll = true }

-- `Epoll::deleteChannel`
unfoldable pub delete_channel : Channel → Channel
delete_channel c =
    if c.in_epoll
    then record c { registered = none; in_epoll = false }
    else record c { in_epoll = false }

abbrev pub listen : Bool → Events → Channel → Channel
listen ok e c = update_channel ok (record c { listen_events = e })

unfoldable pub enable_read_and_et : Bool → Channel → Channel
enable_read_and_et ok c =
    listen ok (record c.listen_events { readable = true; urgent = true; edge = true }) c

unfoldable pub enable_read : Bool → Channel → Channel
enable_read ok c = listen ok (record c.listen_events { readable = true; urgent = true }) c

unfoldable pub enable_write : Bool → Channel → Channel
enable_write ok c = listen ok (record c.listen_events { writable = true }) c

unfoldable pub enable_et : Bool → Channel → Channel
enable_et ok c = listen ok (record c.listen_events { edge = true }) c

unfoldable pub disable_read : Bool → Channel → Channel
disable_read ok c = listen ok (record c.listen_events { readable = false; urgent = false }) c

unfoldable pub disable_write : Bool → Channel → Channel
disable_write ok c = listen ok (record c.listen_events { writable = false }) c

unfoldable pub disable_et : Bool → Channel → Channel
disable_et ok c = listen ok (record c.listen_events { edge = false }) c

unfoldable pub enable_opts : Bool → Events → Channel → Channel
enable_opts ok opts c =
    let e = c.listen_events in
    listen ok
      (record {
        readable = e.readable || opts.readable;
        urgent = e.urgent || opts.urgent;
        writable = e.writable || opts.writable;
        edge = e.edge || opts.edge;
        hung_up = e.hung_up || opts.hung_up;
      })
      c

unfoldable pub disable_opts : Bool → Events → Channel → Channel
disable_opts ok opts c =
    let e = c.listen_events in
    listen ok
      (record {
        readable = e.readable && not opts.readable;
        urgent = e.urgent && not opts.urgent;
        writable = e.writable && not opts.writable;
        edge = e.edge && not opts.edge;
        hung_up = e.hung_up && not opts.hung_up;
      })
      c

-- The callbacks that `handleEventWithGuard` calls, in order: the reading one and the writing one.
pub data Call : Type 0 where
  read_callback write_callback : Call

unfoldable pub handle_event : Bool → Bool → Channel → List Call
handle_event can_read can_write c =
    let r = c.ready_events in
    (if (r.readable || r.urgent || r.hung_up) && can_read then read_callback ∷ [] else [])
    ++ (if r.writable && can_write then write_callback ∷ [] else [])

-- An operation of a channel.
pub data Op : Type 0 where
  enabling_read_and_et enabling_read enabling_write enabling_et disabling_read disabling_write
        disabling_et deleting :
      Op
  enabling_opts disabling_opts : Events → Op

unfoldable pub apply : Bool → Op → Channel → Channel
unfolding enable_read_and_et enable_read enable_write enable_et disable_read disable_write
    disable_et enable_opts disable_opts delete_channel
apply ok enabling_read_and_et c = enable_read_and_et ok c
apply ok enabling_read c = enable_read ok c
apply ok enabling_write c = enable_write ok c
apply ok enabling_et c = enable_et ok c
apply ok disabling_read c = disable_read ok c
apply ok disabling_write c = disable_write ok c
apply ok disabling_et c = disable_et ok c
apply ok (enabling_opts opts) c = enable_opts ok opts c
apply ok (disabling_opts opts) c = disable_opts ok opts c
apply ok deleting c = delete_channel c

-- The operations in order, each with whether `epoll_ctl` succeeds for a descriptor where it should be.
unfoldable pub apply_all : List (Bool × Op) → Channel → Channel
unfolding apply
apply_all [] c = c
apply_all ((ok, op) ∷ ops) c = apply_all ops (apply ok op c)

-- `epoll_ctl` has what it needs.
abbrev pub AllSucceed : List (Bool × Op) → Type 0
AllSucceed [] = Unit
AllSucceed ((ok, op) ∷ ops) = (ok ≡ true) × AllSucceed ops

-- The kernel has what the channel says.
abbrev pub Agrees : Channel → Type 0
Agrees c = c.registered ≡ (if c.in_epoll then some c.listen_events else none)

apply-Agrees : (op : Op) (c : Channel) → Agrees c → Agrees (apply true op c)
unfolding apply enable_read_and_et enable_read enable_write enable_et disable_read disable_write
    disable_et enable_opts disable_opts delete_channel update_channel
apply-Agrees enabling_read_and_et c h = ground arith
apply-Agrees enabling_read c h = ground arith
apply-Agrees enabling_write c h = ground arith
apply-Agrees enabling_et c h = ground arith
apply-Agrees disabling_read c h = ground arith
apply-Agrees disabling_write c h = ground arith
apply-Agrees disabling_et c h = ground arith
apply-Agrees (enabling_opts opts) c h = ground arith
apply-Agrees (disabling_opts opts) c h = ground arith
apply-Agrees deleting c h = ground arith

-- After any sequence of the channel's enabling and disabling operations and of `deleteChannel`, each of
-- which finds `epoll_ctl` with the memory and the watches that it needs, on a channel for which this
-- holds before, as for a new one, the kernel waits for exactly the events in `listenEvents` if the
-- channel is marked as in the epoll instance, and for none otherwise: no ADD meets a descriptor that is there, and no MOD one that is not. `setListenEvents`,
-- which tells the kernel nothing, is not among the operations.
pub apply_all-Agrees :
    (ops : List (Bool × Op)) (c : Channel) → AllSucceed ops → Agrees c → Agrees (apply_all ops c)
unfolding apply_all
apply_all-Agrees [] c ok h = h
apply_all-Agrees ((b, op) ∷ ops) c ok h =
    apply_all-Agrees ops (apply b op c) ok.1
      (subst (λ b. Agrees (apply b op c)) (sym ok.0) (apply-Agrees op c h))
