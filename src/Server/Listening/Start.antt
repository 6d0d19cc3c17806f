-- ===== src/Server/Listening/Start.antt =====
-- What `Start` makes of a new server.
use tiny_game_server.Base.{ℕ, ◌%◌, ◌^◌, ◌≡◌, refl, List, some}
use tiny_game_server.Bytes.{Host}
use tiny_game_server.Text.{split_host_port}
use tiny_game_server.Acceptor.{accept, released, new_acceptor}
use tiny_game_server.Acceptor.Listen.{set_up, listen_split}
use tiny_game_server.Acceptor.Watching.{waiting}
use tiny_game_server.Server.{new_server, start_threads}
use tiny_game_server.Server.Listening.{Listening, new_listening, start}

-- The program's loop is number 0, and those of the workers come after it.
abbrev pub started : ℕ → ℕ → ℕ → List ℕ → ℕ → Listening
started thread_num now fd addr port = record {
  server = start_threads 1 thread_num (new_server 0 now);
  acceptor = waiting (record (new_acceptor fd addr) { requests = set_up fd port });
}

pub start_found :
    (host : Host) (thread_num now fd : ℕ) (addr name : List ℕ) (port : ℕ)
    → split_host_port addr ≡ some (name, port)
    → start host 1 thread_num (new_listening 0 now fd addr)
      ≡ some (started thread_num now fd addr (port % 2 ^ 16))
unfolding start new_listening accept released new_acceptor
start_found host thread_num now fd addr name port e =
    rw (listen_split host (new_acceptor fd addr) name port e) refl
