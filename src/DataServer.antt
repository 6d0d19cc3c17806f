-- ===== src/DataServer.antt =====
-- server/DataServer.cpp: the message callback, which answers a login. The lookup of the user in the
-- database (`PGManager::SelectUser`) is a parameter. A handler returns its status, the receive buffer
-- and the buffers that it gives to `Send`.
pub mod Login
pub mod Message
pub mod Capacity
pub mod Serve
pub mod Shared
pub mod Main
use tiny_game_server.Base.{
  ℕ, ◌-◌, ◌^◌, List, [], ◌∷◌, Option, none, some, ltb, leb, ◌==◌, if◌then◌else◌, ◌>>=◌,
}
use tiny_game_server.Bytes.{Host}
use tiny_game_server.Buffer.{
  Buffer, new_buffer, initial_size, get_length, peek_tag_len, forward, read_int8, read_int32,
  read_int64, read_string, append_int8, append_int32, append_int64,
}

-- src/include/Base.h
pub data BufferStatus : Type 0 where
  read_success read_incomplete read_type_error read_inner_error : BufferStatus

abbrev pub Handled : Type 0
Handled = Option (BufferStatus × Buffer × List Buffer)

-- -1 as an `int64_t`
abbrev pub no_user : ℕ
no_user = 2 ^ 64 - 1

module _ (host : Host) (junk : ℕ → ℕ → ℕ) where
  -- `| x | len | id |`
  unfoldable pub failure_reply : ℕ → Option Buffer
  failure_reply id = do
    tagged ← append_int8 (new_buffer junk initial_size) b'x'
    measured ← append_int32 host tagged 12
    append_int64 host measured id

  -- `| s | len | id | uid |`
  unfoldable pub success_reply : ℕ → ℕ → Option Buffer
  success_reply id uid = do
    tagged ← append_int8 (new_buffer junk initial_size) b's'
    measured ← append_int32 host tagged 20
    named ← append_int64 host measured id
    append_int64 host named uid

  module _ (select_user : List ℕ → List ℕ → Option ℕ) where
    -- `case 'l'`, behind the tag
    unfoldable pub login : Buffer → Handled
    login b = do
      (len, b1) ← read_int32 host b
      (id, b2) ← read_int64 host b1
      (name_len, b3) ← read_int32 host b2
      (name, b4) ← read_string b3 name_len
      (pass_len, b5) ← read_int32 host b4
      (pass, b6) ← read_string b5 pass_len
      uid ← select_user name pass
      reply ← if uid == no_user then failure_reply id else success_reply id uid
      some (read_success, b6, reply ∷ [])

    -- `default`, behind the tag
    unfoldable pub other_tag : Buffer → Handled
    other_tag b = do (len, b1) ← read_int32 host b; some (read_type_error, forward b1 len, [])

    unfoldable pub dispatch : Buffer → Handled
    dispatch b = do (tag, b1) ← read_int8 b; if tag == b'l' then login b1 else other_tag b1

    -- The comparison with the length is of `unsigned int`.
    unfoldable pub message : Buffer → Handled
    message b =
        if leb 13 (get_length b)
        then (peek_tag_len host b >>= (λ (tag, len).
            if leb len (get_length b - 1) then dispatch b else some (read_incomplete, b, [])))
        else some (read_incomplete, b, [])
