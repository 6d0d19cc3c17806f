-- ===== src/DataServer/Serve/Events.antt =====
-- The message callback of a session is that of `HandleRead`.
use tiny_game_server.Base.{ℕ, ◌≡◌, refl, List, [], ◌∷◌, ◌++◌, Option, none, some, ◌>>=◌}
use tiny_game_server.Bytes.{Host}
use tiny_game_server.Buffer.{Buffer, read_fd}
use tiny_game_server.Connection.{Callback, handle_read}
use tiny_game_server.Connection.Session.{Session}
use tiny_game_server.DataServer.{Handled, message}
use tiny_game_server.DataServer.Serve.{arrives, send_each, on_message, take_input, message_callback}

module _ (host : Host) (junk : ℕ → ℕ → ℕ) (select_user : List ℕ → List ℕ → Option ℕ) where
  -- The functors in front do not matter to the connection.
  on_message_conn :
      (s : Session)
      → (on_message host junk select_user s >>= (λ t. some t.conn)) ≡ (
          on_message host junk select_user (record { conn = s.conn; pending = [] })
          >>= (λ t. some t.conn))
  unfolding on_message
  on_message_conn s = go (message host junk select_user s.conn.recv_buffer)
    where
      go :
          (r : Handled)
          → ((r >>= (λ (status, b, replies). some (record {
            conn = record (s.conn) { recv_buffer = b };
            pending = s.pending ++ send_each (record (s.conn) { recv_buffer = b }) replies;
          })))
              >>= (λ (t : Session). some t.conn))
            ≡ ((r >>= (λ (status, b, replies). some (record {
              conn = record (s.conn) { recv_buffer = b };
              pending = [] ++ send_each (record (s.conn) { recv_buffer = b }) replies;
            })))
                >>= (λ (t : Session). some t.conn))
      go none = refl
      go (some (status, b, replies)) = refl

  -- Bytes that arrive change the connection as `HandleRead` does with the message callback.
  pub take_input-handle_read :
      (close_cb : Callback) (s : Session) (x : ℕ) (xs : List ℕ)
      → (take_input host junk select_user s (arrives x xs) >>= (λ t. some t.conn))
        ≡ handle_read (message_callback host junk select_user) close_cb s.conn (some (x ∷ xs))
  unfolding take_input handle_read message_callback
  take_input-handle_read close_cb s x xs = go (read_fd s.conn.recv_buffer (some (x ∷ xs)))
    where
      go :
          (r : Option Buffer)
          → ((r >>= (λ b.
                on_message host junk select_user
                  (record s { conn = record (s.conn) { recv_buffer = b } })))
              >>= (λ t. some t.conn))
            ≡ (r >>= (λ b.
                on_message host junk select_user
                  (record { conn = record (s.conn) { recv_buffer = b }; pending = [] })
                >>= (λ t. some t.conn)))
      go none = refl
      go (some b) = on_message_conn (record s { conn = record (s.conn) { recv_buffer = b } })
