-- ===== src/GateServer.antt =====
-- server/GateServer.cpp: the callbacks of the gate, which talks to the clients, and of its connection to
-- the data server. A lambda that ends without the `return` that it owes is undefined behaviour, a result
-- of `none`, as a read outside an array is.
pub mod Login
pub mod Main
use tiny_game_server.Base.{
  ℕ, ◌+◌, ◌-◌, ◌%◌, ◌^◌, List, [], ◌∷◌, Option, none, some, Bool, true, false, ltb, leb, ◌==◌,
  if◌then◌else◌, ◌>>=◌, u32,
}
use tiny_game_server.Bytes.{Host}
use tiny_game_server.Buffer.{
  Buffer, new_buffer, initial_size, get_length, peek_tag_len, clear, read_int8, read_int32,
  read_int64, read_string, append_int8, append_int32, append_int64, append_string,
}
use tiny_game_server.Connection.{
  Connection, is_authorized, set_authorized, set_user_id, get_serial_id, get_buffer,
}
use tiny_game_server.DataServer.{BufferStatus, read_success, read_incomplete, read_type_error}
use tiny_game_server.Server.{Server, get_connection}
use tiny_game_server.Table.{assign}

module _ (host : Host) (junk : ℕ → ℕ → ℕ) where
  -- The connection callback: the connection, its status, and what is sent to the client.
  unfoldable pub connected : Connection → Option (BufferStatus × Connection × List Buffer)
  connected c = do
    tagged ← append_int8 (new_buffer junk initial_size) b'A'
    hello ← append_int32 host tagged 4
    some (read_success, set_authorized c false, hello ∷ [])

  -- `if (tag == 'l')`, behind the tag: what goes to the data server.
  unfoldable pub forward_login : Connection → Buffer → Option (Buffer × Buffer)
  forward_login c b = do
    (len, b1) ← read_int32 host b
    (value, b2) ← read_string b1 len
    tagged ← append_int8 (new_buffer junk initial_size) b'l'
    measured ← append_int32 host tagged (u32 (len + 8))
    named ← append_int64 host measured (get_serial_id c)
    filled ← append_string named value
    some (b2, filled)

  abbrev pub Gated : Type 0
  Gated = Option (BufferStatus × Connection × List Buffer)

  -- A login is forwarded, and the lambda then ends without `return`.
  unfoldable pub authorized_message : Connection → Buffer → Gated
  authorized_message c b =
      if leb 5 (get_length b)
      then (peek_tag_len host b >>= (λ (tag, len).
          if leb len (get_length b - 1)
          then (read_int8 b >>= (λ (t, b1).
              if t == b'l'
              then (forward_login c b1 >>= (λ sent. none))
              else some (read_type_error, record c { recv_buffer = clear b1 }, [])))
          else some (read_incomplete, c, [])))
      else some (read_incomplete, c, [])

  -- The message callback: the status, the connection, and what is sent to the data server. A client that
  -- is not authorised has to send five bytes to bring the lambda to its end without `return`.
  unfoldable pub message : Connection → Gated
  message c =
      if is_authorized c
      then authorized_message c (get_buffer c)
      else if leb 5 (get_length (get_buffer c))
      then none
      else some (read_incomplete, c, [])

  abbrev pub Received : Type 0
  Received = Option (BufferStatus × Buffer × Server)

  -- The body of `if (tag == 's')`: a null pointer is left alone. The table shares its connections, so
  -- the change is seen under the key that was asked for.
  unfoldable pub authorize : ℕ → ℕ → Server → Server
  authorize serial_id user_id s =
      let (found, t) = get_connection serial_id s in
      elim found [
        | none ↦ t
        | some c ↦ record t {
          connections =
              assign (serial_id % 2 ^ 32) (some (set_user_id (set_authorized c true) user_id))
                t.connections;
        }
      ]

  -- The message callback of the connection to the game server, and the close callback: no statement, and no
  -- `return`.
  unfoldable pub empty_callback : Connection → Option (BufferStatus × Connection)
  empty_callback c = none

  unfoldable pub data_reply : Buffer → Server → Received
  data_reply b s = do
    (tag, b1) ← read_int8 b
    if tag == b's'
        then (read_int32 host b1 >>= (λ (len, b2). read_int64 host b2 >>= (λ (serial_id, b3).
            read_int64 host b3
            >>= (λ (user_id, b4). some (read_success, b4, authorize serial_id user_id s)))))
        else some (read_success, b1, s)

  -- The message callback of the connection to the data server.
  unfoldable pub data_message : Buffer → Server → Received
  data_message b s =
      if leb 13 (get_length b)
      then (peek_tag_len host b >>= (λ (tag, len).
          if leb len (get_length b - 1) then data_reply b s else some (read_incomplete, b, s)))
      else some (read_incomplete, b, s)
