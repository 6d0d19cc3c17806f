-- ===== src/Server/Listening.antt =====
-- The server with its listener: the constructor, `Start`, the destructor, and the connections that are
-- accepted.
pub mod Spread
pub mod Entered
pub mod Start
use tiny_game_server.Base.{ℕ, List, [], ◌∷◌, Option, none, some, ◌>>=◌}
use tiny_game_server.Bytes.{Host}
use tiny_game_server.Workers
use tiny_game_server.Acceptor.{
  Acceptor, Accepted, new_acceptor, destroy_acceptor, listen, accept, handle_accept,
}
use tiny_game_server.Server.{Server, new_server, start_threads, handle_new_conn}

pub record Listening : Type 0 where
  pub server : Server
  pub acceptor : Acceptor

-- `TCPServer(loop, addr)`, at a time, with the socket that `socket` returns
unfoldable pub new_listening : ℕ → ℕ → ℕ → List ℕ → Listening
unfolding new_server new_acceptor
new_listening loop now fd addr = record {
  server = new_server loop now;
  acceptor = new_acceptor fd addr;
}

-- `Start`; the loops of the workers are numbered from `first` on.
unfoldable pub start : Host → ℕ → ℕ → Listening → Option Listening
unfolding start_threads
start host first thread_num l = do
  let server = start_threads first thread_num l.server
  listening ← listen host l.acceptor
  accepting ← accept listening
  some (record { server = server; acceptor = accepting })

-- The destructor: the table and the listener go with the server.
unfoldable pub destroy : Listening → Option Listening
destroy l = do
  gone ← destroy_acceptor l.acceptor
  some (record {
    server = record (l.server) { manager = Workers.stop l.server.manager; connections = [] };
    acceptor = gone;
  })

module _ (ntop : List ℕ → List ℕ) (stamp : ℕ → ℕ) (junk : ℕ → ℕ → ℕ) where
  -- The acceptor calls `HandleNewConn`, at a time.
  unfoldable pub on_accept : ℕ → Option Accepted → Listening → Option Listening
  unfolding handle_accept
  on_accept now answer l = do
    (server, acceptor) ←
        handle_accept ntop (some (λ fd addr s. handle_new_conn stamp junk now addr s)) answer
          (l.server, l.acceptor)
    some (record { server = server; acceptor = acceptor })

  unfoldable pub on_accepts : List (ℕ × Option Accepted) → Listening → Option Listening
  unfolding on_accept
  on_accepts [] l = some l
  on_accepts ((now, answer) ∷ es) l = on_accept now answer l >>= on_accepts es
