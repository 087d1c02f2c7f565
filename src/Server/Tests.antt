-- ===== src/Server/Tests.antt =====
-- The theorems on the socket server, applied to a server that accepts one connection and is stopped.
use shunya_kv.Prelude.{
  ℕ, suc, ◌+◌, ◌-◌, ◌≡◌, refl, Bool, true, false, Option, none, some, [], if◌then◌else◌, length,
  arith,
}
use shunya_kv.Server.Tasks.{Gate}
use shunya_kv.Server.{
  turning, accepting, Loop, default_options, AcceptResult, Server, fresh_server, set_handler,
  listen, turn, accept_over, serve, stop, sets_handler, listens, turns, accepts, stops, Reach, here,
  next, do_accepts,
}
use shunya_kv.Server.Counts.{IsCounted, Reach-IsCounted}
use shunya_kv.Server.Stop.{IsStopped, Shrinks, Reach-Shrinks}
use shunya_kv.Server.Drain.{AllEnded, Winds, stop_waits}

abbrev counter_enter : ℕ → Bool → Option (ℕ × Bool)
counter_enter n closed = if closed then none else some (n + 1, closed)

counter_closed : (n : ℕ) (closed : Bool) → closed ≡ true → counter_enter n closed ≡ none
counter_closed n true h = refl
counter_closed n false h = cc

counter_open :
    (n : ℕ) (closed : Bool)
    → closed ≡ false
    → (h : ℕ × Bool) × (counter_enter n closed ≡ some h) × (h.0 ≡ n + 1) × (h.1 ≡ false)
counter_open n true h = cc
counter_open n false h = ((n + 1, false), refl, refl, refl)

count-leave_counter : (g : ℕ × Bool) (n : ℕ) → g.0 ≡ suc n → g.0 - 1 ≡ n
count-leave_counter g n h = omega arith

-- A gate as its number of tasks and a mark.
abbrev counter : Gate
counter = record {
  State = ℕ × Bool;
  is_closed = λ g. g.1;
  count = λ g. g.0;
  enter = λ g. counter_enter g.0 g.1;
  leave = λ g. (g.0 - 1, g.1);
  close = λ g. (g.0, true);
  enter_closed = λ g h. counter_closed g.0 g.1 h;
  enter_open = λ g h. counter_open g.0 g.1 h;
  count-leave = count-leave_counter;
  is_closed-leave = λ g. refl;
  count-close = λ g. refl;
  is_closed-close = λ g. refl;
}

-- Addresses and keepalive parameters are numbers here.
abbrev begin : Server counter ℕ ℕ
begin = fresh_server counter (0, false)

abbrev listening : Server counter ℕ ℕ
listening = listen counter (set_handler counter begin true) 6379 default_options false

abbrev loop : Loop
loop = record { which = 0; tls = false; at = turning }

abbrev peer : AcceptResult ℕ
peer = record { remote_address = 17; local_address = 6379 }

-- A connection has been accepted, and the loop turns.
abbrev open_server : Server counter ℕ ℕ
open_server =
    accept_over counter (serve counter (turn counter listening [] loop []) true peer false) []
      (record loop { at = accepting }) []

open_run : Reach counter begin open_server
unfolding listen do_accepts turn serve
open_run =
    next
      (next (next (next here (sets_handler true)) (listens 6379 default_options false))
        (turns [] loop [] refl refl))
      (accepts [] (record loop { at = accepting }) [] true peer refl refl)

Reach-IsCounted_example : IsCounted counter open_server
Reach-IsCounted_example = Reach-IsCounted counter (0, false) refl open_run

stopped_run : Reach counter begin (stop counter open_server)
stopped_run = next open_run stops

closed : IsStopped counter (stop counter open_server)
unfolding stop
closed = refl

Reach-Shrinks_example :
    Shrinks counter (stop counter open_server) (turn counter (stop counter open_server) [] loop [])
unfolding listen do_accepts turn serve stop
Reach-Shrinks_example = Reach-Shrinks counter closed (next here (turns [] loop [] refl refl))

stop_waits_example :
    (t : Server counter ℕ ℕ) × Winds counter (stop counter open_server) t
    × AllEnded t.loops
    × (t.connections ≡ (stop counter open_server).connections)
    × (counter.count t.task_gate ≡ length (stop counter open_server).connections)
stop_waits_example = stop_waits counter (0, false) refl stopped_run closed
