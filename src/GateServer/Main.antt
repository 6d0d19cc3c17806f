-- ===== src/GateServer/Main.antt =====
-- `main` of server/GateServer.cpp, up to the run of the loop. The clock and the system are parameters; the
-- callbacks are in GateServer.
use tiny_game_server.Base.{ℕ, ◌≡◌, refl, List, [], ◌∷◌, Option, some, ◌>>=◌, length}
use tiny_game_server.Bytes.{Host}
use tiny_game_server.Text.{codes, split_host_port, rfind, atoi, skip_spaces, read_sign, read_digits}
use tiny_game_server.Workers.{new_workers, new_worker, new_manager}
use tiny_game_server.Workers
use tiny_game_server.Acceptor.Listen.{set_up}
use tiny_game_server.Client.{Client, announces, new_client, connect}
use tiny_game_server.Server.{new_server, start_threads}
use tiny_game_server.Server.Listening.{Listening, new_listening, start}
use tiny_game_server.Server.Listening.Start.{started, start_found}

pub record Program : Type 0 where
  pub gate : Listening
  pub db : Client
  pub game : Client

abbrev pub gate_addr : List ℕ
gate_addr = codes "192.168.0.1:10240"

abbrev pub db_addr : List ℕ
db_addr = codes "192.168.0.1:10241"

abbrev pub game_addr : List ℕ
game_addr = codes "192.168.0.1:10242"

-- The default of `TCPServer`.
abbrev pub thread_num : ℕ
thread_num = 8

module _ (host : Host) where
  -- The loop of the program is number 0, and those of the workers come after it; `socket` returns the
  -- three sockets.
  unfoldable pub main : ℕ → ℕ → ℕ → ℕ → Option Program
  unfolding new_listening new_client connect
  main now fd db_fd game_fd = do
    let db = connect (some db_fd) (new_client db_addr)
    let game = connect (some game_fd) (new_client game_addr)
    gate ← start host 1 thread_num (new_listening 0 now fd gate_addr)
    some (record { gate = gate; db = db; game = game })

  splits : split_host_port gate_addr ≡ some (codes "192.168.0.1", 10240)
  unfolding split_host_port rfind atoi skip_spaces read_sign read_digits
  splits = refl

  -- The set-up of the gate succeeds: it listens on port 10240, of all interfaces although its address
  -- names one, with eight workers, and each of the two clients waits for the loop to announce its
  -- connection.
  gate-set_up :
      (now fd db_fd game_fd : ℕ)
      → (p : Program) × (main now fd db_fd game_fd ≡ some p)
        × (p.gate.acceptor.requests ≡ set_up fd 10240)
        × (length p.gate.server.manager.threads ≡ thread_num)
        × (p.db.pending ≡ announces ∷ [])
        × (p.game.pending ≡ announces ∷ [])
  unfolding main start_threads Workers.start new_workers new_worker new_server new_manager
      new_client connect
  gate-set_up now fd db_fd game_fd = (
    record {
      gate = started thread_num now fd gate_addr 10240;
      db = connect (some db_fd) (new_client db_addr);
      game = connect (some game_fd) (new_client game_addr);
    },
    rw (start_found host thread_num now fd gate_addr (codes "192.168.0.1") 10240 splits) refl,
    refl,
    refl,
    refl,
    refl,
  )
