-- ===== src/Tests/Gates.antt =====
-- The set-up of the data server.
use tiny_game_server.Base.{ℕ, zero, suc, ◌+◌, ◌≡◌, refl, List, some, arith, length}
use tiny_game_server.Bytes.{little}
use tiny_game_server.Postgres.{pick_context}
use tiny_game_server.Postgres.Connect.{Attempt, bad, ok}
use tiny_game_server.Redis
use tiny_game_server.Acceptor.{Acceptor, start_watcher}
use tiny_game_server.Acceptor.Listen.{set_up}
use tiny_game_server.Acceptor.Watching.{readable, WaitsFor}
use tiny_game_server.DataServer.Main.{Program, main, main-set_up, thread_num}
use tiny_game_server.Tests.Watchers.{kept_library}

abbrev zeros : ℕ → ℕ → ℕ
zeros n i = 0

-- The second attempt finds PostgreSQL; Redis is there at once.
abbrev second : List ℕ → ℕ → Attempt
second info zero = bad 99
second info (suc i) = ok (100 + i)

abbrev authorizes : Redis.Finds
authorizes host port password zero = Redis.accepted 200
authorizes host port password (suc i) = Redis.refused 201

main-set_up_example :
    (p : Program) × (a : Acceptor) × (x y : ℕ) × (main little second authorizes 10 5 ≡ some p)
    × (p.server.acceptor.requests ≡ set_up 5 10241)
    × (length p.server.server.manager.threads ≡ thread_num)
    × (pick_context p.postgres 3 ≡ some (some x, 4))
    × (pick_context p.redis 3 ≡ some (some y, 4))
    × (start_watcher p.server.acceptor ≡ some a)
    × WaitsFor kept_library readable a
main-set_up_example =
    main-set_up little second authorizes kept_library 10 5 1 100 0 200 3 (omega arith) refl
      (omega arith) refl (omega arith)
