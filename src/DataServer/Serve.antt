-- ===== src/DataServer/Serve.antt =====
-- The data server on one of its connections: what arrives goes through `HandleRead` to the message
-- callback, whose replies are functors of the connection's loop.
pub mod State
pub mod Frame
pub mod Pieces
pub mod Logins
pub mod Events
pub mod Watched
pub mod Writes
pub mod Flush
pub mod Accepted
use tiny_game_server.Base.{ℕ, List, [], ◌∷◌, ◌++◌, Option, none, some, ◌>>=◌}
use tiny_game_server.Bytes.{Host}
use tiny_game_server.Buffer.{Buffer, read_fd}
use tiny_game_server.Connection
use tiny_game_server.Connection.{Connection, Callback, Task, get_buffer, send, write_event}
use tiny_game_server.Connection.Session.{Session, step, turns}
use tiny_game_server.Server.{close_callback}
use tiny_game_server.DataServer.{message}

-- `conn->Send(buf)`, for each reply.
unfoldable pub send_each : Connection → List Buffer → List Task
send_each c [] = []
send_each c (b ∷ bs) = send c b ++ send_each c bs

-- What happens to a connection: the functor that starts it runs; bytes arrive, at least one; the loop
-- runs another of its functors; the socket can be written to, of which the loop takes notice only while
-- the watcher waits for it.
pub data Input : Type 0 where
  starts : Input
  arrives : ℕ → List ℕ → Input
  turns_loop : Option ℕ → Input
  opens_socket : Option ℕ → Input

module _ (host : Host) (junk : ℕ → ℕ → ℕ) (select_user : List ℕ → List ℕ → Option ℕ) where
  -- The message callback on the connection of a session.
  unfoldable pub on_message : Session → Option Session
  on_message s = do
    (status, b, replies) ← message host junk select_user (get_buffer s.conn)
    let conn = record (s.conn) { recv_buffer = b }
    some (record { conn = conn; pending = s.pending ++ send_each conn replies })

  unfoldable pub take_input : Session → Input → Option Session
  take_input s starts = Connection.start none s.conn >>= (λ c. some (record s { conn = c }))
  take_input s (arrives x xs) = do
    b ← read_fd s.conn.recv_buffer (some (x ∷ xs))
    on_message (record s { conn = record (s.conn) { recv_buffer = b } })
  take_input s (turns_loop answer) = step (close_callback none) s (turns answer)
  take_input s (opens_socket answer) =
      write_event s.conn answer >>= (λ c. some (record s { conn = c }))

  unfoldable pub take_inputs : Session → List Input → Option Session
  take_inputs s [] = some s
  take_inputs s (i ∷ is) = take_input s i >>= (λ t. take_inputs t is)

  -- The message callback, as the connection has it, without the functors that it gives to the loop.
  unfoldable pub message_callback : Callback
  unfolding on_message
  message_callback = some λ c. on_message (record { conn = c; pending = [] }) >>= (λ t. some t.conn)
