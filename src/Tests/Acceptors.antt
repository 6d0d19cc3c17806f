-- ===== src/Tests/Acceptors.antt =====
-- A server that listens, and who connects to it.
use tiny_game_server.Base.{
  ℕ, ◌+◌, ◌≡◌, refl, List, [], ◌∷◌, ◌++◌, Option, none, some, arith, ◌>>=◌, inl, inr,
}
use tiny_game_server.Bytes.{little}
use tiny_game_server.Text.{codes}
use tiny_game_server.Text.Address.{decimal}
use tiny_game_server.Watcher.{idle}
use tiny_game_server.Serial.{tick, generate_all}
use tiny_game_server.Serial.Unique.{Paced}
use tiny_game_server.Loop.{initial}
use tiny_game_server.Workers.{pick_worker, pick_event_loop, picks}
use tiny_game_server.Acceptor.{Acceptor, Accepted, accept, listen, start_watcher, stop}
use tiny_game_server.Acceptor.Listen.{NamesPort, set_up, listen-set_up}
use tiny_game_server.Acceptor.Watching.{readable, WaitsFor, accept-WaitsFor}
use tiny_game_server.Server.{Server}
use tiny_game_server.Server.Listening.{Listening, on_accepts}
use tiny_game_server.Server.Listening.Spread.{times, pairs}
use tiny_game_server.Server.Listening.Entered.{AreFound, on_accepts-AreFound}
use tiny_game_server.Tests.Watchers.{kept_library}

-- The address of the data server, with a port that does not fit.
abbrev acceptor : Acceptor
acceptor = record {
  addr = codes "0.0.0.0" ++ (b':' ∷ decimal 5 75777);
  fd = 5;
  watcher = none;
  requests = [];
  pending = 0;
}

acceptor-NamesPort : NamesPort acceptor.addr 10241
acceptor-NamesPort = inl (codes "0.0.0.0", 5, 75777, refl, omega arith, omega arith, omega arith)

listen-set_up_example :
    listen little acceptor ≡ some (record acceptor { requests = [] ++ set_up 5 10241 })
listen-set_up_example = listen-set_up little acceptor 10241 acceptor-NamesPort

accept-WaitsFor_example :
    (b c : Acceptor) × ((accept acceptor >>= start_watcher) ≡ some b)
    × WaitsFor kept_library readable b
    × (b.pending ≡ 0)
    × (stop b ≡ some c)
    × WaitsFor kept_library idle c
    × (c.pending ≡ 0)
accept-WaitsFor_example = accept-WaitsFor kept_library acceptor refl

abbrev seconds : ℕ → ℕ
seconds t = 20210301000000 + t

abbrev dotted : List ℕ → List ℕ
dotted ip = codes "127.0.0.1"

abbrev zeros : ℕ → ℕ → ℕ
zeros n i = 0

-- Two workers, whose loops are 1 and 2.
abbrev server : Server
server = record {
  manager = record {
    loop = 0;
    threads =
        record { loop = 1; loop_status = initial; status = initial }
        ∷ record { loop = 2; loop_status = initial; status = initial }
        ∷ [];
    status = initial;
  };
  counter = 0;
  serial = record { current_time = 10; serial = 0 };
  connections = [];
  posted = [];
}

abbrev listening : Listening
listening = record { server = server; acceptor = acceptor }

-- Two clients, and an event without one.
abbrev answers : List (ℕ × Option Accepted)
answers =
    (10, some (record { socket = 7; peer = 127 ∷ 0 ∷ 0 ∷ 1 ∷ [] }))
    ∷ (10, none)
    ∷ (11, some (record { socket = 8; peer = 127 ∷ 0 ∷ 0 ∷ 1 ∷ [] }))
    ∷ []

loops_picked : picks 2 server.manager 0 ≡ some (1 ∷ 2 ∷ [], 2)
unfolding picks pick_event_loop pick_worker
loops_picked = refl

answers-Paced : Paced seconds (times answers) server.serial
unfolding tick
answers-Paced =
    (inl refl, (omega arith, omega arith), (inr (omega arith), (omega arith, omega arith), tt))

on_accepts-AreFound_example :
    (m : Listening) × (on_accepts dotted seconds zeros answers listening ≡ some m)
    × (m.server.counter ≡ 2)
    × (m.server.posted
        ≡ [] ++ pairs (1 ∷ 2 ∷ []) (generate_all seconds (times answers) server.serial))
    × AreFound dotted seconds zeros answers server.serial m.server.connections
on_accepts-AreFound_example =
    on_accepts-AreFound dotted seconds zeros answers listening (1 ∷ 2 ∷ []) 2 loops_picked
      (omega arith, omega arith) answers-Paced
