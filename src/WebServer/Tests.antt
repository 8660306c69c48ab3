-- ===== src/WebServer/Tests.antt =====
-- Runs of the model of webserver.cpp: two connections on the sockets 7 and 8, with timers at 70 and 80.
use make_linux_server.Base.{◌≡◌, refl, true, false, none, some, List, [], ◌∷◌, ◌++◌, arith}
use make_linux_server.Base.Int.{pos, ◌-ℤ◌}
use make_linux_server.Http.{close_conn}
use make_linux_server.Http.Sample.{blank}
use make_linux_server.Http.CString.{codes}
use make_linux_server.Timer.{Store, update}
use make_linux_server.Timer.Segment.{Entry, timer_at}
use make_linux_server.Timer.Insert.{Repr, insert}
use make_linux_server.Timer.Sorted.{Expired, NotBefore}
use make_linux_server.Timer.Tick as Ticks
use make_linux_server.WebServer.{
  Server, put, deal_timer, adjust_timer, timer_handler, dealclientdata, Accept, accepted,
  accept_failed,
}
use make_linux_server.Http.Read.{
  received, nothing_yet, read_once, read_edge, read_first, read_level,
}
use make_linux_server.Timer.Sorted.{remaining}
use make_linux_server.Timer.{tick, tick_loop, del_timer}
use make_linux_server.Timer as TimerList
use make_linux_server.WebServer.Loop.{
  hung_up, signalled, readable, Wait, events, event_loop, sigalrm, sigterm, handle_event,
  dealwithsignal, read_signals, dealwithread, end_round,
}
use make_linux_server.WebServer.Rounds.{without, delayed}
use make_linux_server.WebServer.Rounds.Loops.{LoopPossible, KeepsSome}
use make_linux_server.WebServer.Rounds.Kept.{event_loop-Keeps}
use make_linux_server.WebServer.Owned.{Accounts}
use make_linux_server.WebServer.Accounts.{deal_timer-Accounts, timer_handler-Accounts, pushed}
use make_linux_server.WebServer.Expiry.{close-deal}
use make_linux_server.WebServer.Limit.{dealclientdata-Within, Within}

abbrev first : Entry
first = record { key = 70; expire = 15; user = 7 }

abbrev second : Entry
second = record { key = 80; expire = 18; user = 8 }

abbrev two_timers : Store
two_timers = record {
  cell =
      update (update (λ _. none) 70 (some (timer_at first 0 80))) 80 (some (timer_at second 70 0));
  head = 70;
  tail = 80;
}

abbrev server : Server
server = record {
  timers = two_timers;
  timer_of = put (put (λ _. 0) 7 70) 8 80;
  users = λ fd. record blank { sockfd = pos fd };
  user_count = pos 2;
  closed = [];
  refused = [];
  queue = [];
  max_requests = 10000;
  root = codes "/srv";
  trigger = 3;
  listen_trigger = 1;
  conn_trigger = 1;
  actor_model = 0;
}

server-Accounts : Accounts server (first ∷ second ∷ [])
server-Accounts = record {
  repr = record {
    seg = ((λ p. omega arith), refl, ((λ p. omega arith), refl, tt));
    distinct = (((λ p. omega arith), tt), (tt, tt));
    head_first = refl;
    tail_last = refl;
  };
  sorted = omega arith;
  owned = (refl, (refl, tt));
  counted = refl;
}

deal_timer-Accounts_example :
    (s' : Server) × (deal_timer 80 8 server ≡ some s')
    × Accounts s' (first ∷ [])
    × (s'.closed ≡ 8 ∷ [])
deal_timer-Accounts_example = deal_timer-Accounts server (first ∷ []) second [] server-Accounts

timer_handler-Accounts_example :
    (s' : Server) × (gone : List Entry) × (left : List Entry) × (timer_handler 9 16 server
      ≡ some s')
    × (gone ++ left ≡ first ∷ second ∷ [])
    × Expired 16 gone
    × NotBefore 17 left
    × Accounts s' left
    × (s'.closed ≡ pushed (Ticks.users gone) [])
timer_handler-Accounts_example =
    timer_handler-Accounts 9 16 server (first ∷ second ∷ []) (omega arith) server-Accounts

abbrev closing : Server
closing = record server {
  user_count = (close_conn true (pos 2) (server.users 8)).0;
  users = put server.users 8 (close_conn true (pos 2) (server.users 8)).1;
}

close-deal_example :
    (s' : Server) × (deal_timer 80 8 closing ≡ some s')
    × (s'.user_count ≡ pos 1 -ℤ pos 1)
    × (s'.closed ≡ 8 ∷ [])
    × Repr s'.timers (first ∷ [])
close-deal_example = close-deal server (first ∷ []) second [] 8 refl server-Accounts

abbrev three_accepts : List Accept
three_accepts = accepted 9 90 2 ∷ accepted 10 100 2 ∷ accept_failed ∷ []

dealclientdata-Within_example : Within (dealclientdata 9 three_accepts server)
dealclientdata-Within_example = dealclientdata-Within 9 three_accepts server (omega arith)

-- A client hangs up, another one sends a part of its request and times out, and the server is stopped.
abbrev some_rounds : List Wait
some_rounds =
    events 20 (
      hung_up 8
      ∷ signalled (some (sigalrm ∷ []))
      ∷ readable 4 7 (received (codes "GET") ∷ nothing_yet ∷ []) (λ s. some s)
      ∷ [])
    ∷ events 30 (signalled (some (sigterm ∷ [])) ∷ [])
    ∷ events 31 []
    ∷ []

some_rounds-LoopPossible : LoopPossible 9 some_rounds (false, false) server (first ∷ second ∷ [])
unfolding handle_event dealwithsignal read_signals dealwithread read_once read_edge read_first
    read_level deal_timer adjust_timer TimerList.adjust_timer end_round timer_handler tick tick_loop
    del_timer without delayed insert remaining
some_rounds-LoopPossible =
    ((omega arith, 18, omega arith), (tt, ((omega arith, refl, omega arith), (tt, tt))))

event_loop-Keeps_example : KeepsSome (event_loop 9 some_rounds (false, false) server).0
event_loop-Keeps_example =
    event_loop-Keeps 9 some_rounds (false, false) server (first ∷ second ∷ []) (omega arith)
      some_rounds-LoopPossible server-Accounts
