-- ===== src/Tests/Sharing.antt =====
-- Two clients on one event loop.
use tiny_game_server.Base.{
  ℕ, ◌≤◌, length, ◌≡◌, refl, List, [], ◌∷◌, ◌++◌, none, some, arith, store_at, load_at, block, ◌==◌,
  if◌then◌else◌, inl, inr, subst, sym,
}
use tiny_game_server.Connection.{Connection, new_connection}
use tiny_game_server.DataServer.Serve
use tiny_game_server.DataServer.Serve.State.{Serves}
use tiny_game_server.DataServer.Serve.Logins.{Conversation, AreLogins, answers, inputs}
use tiny_game_server.DataServer.Shared.{
  Shared, Event, arrives, runs, opens_socket, session, live, take_event, take_events, accepts,
  projected,
}
use tiny_game_server.DataServer.Shared.Isolated.{Talks, AllTalk, begin, client_ids, server-Answered}
use tiny_game_server.DataServer.Shared.Ids.{IsIn, times}
use tiny_game_server.Serial.{generate, generate_all, tick, serial_id, first_serial}
use tiny_game_server.Serial.Unique.{Paced}
use tiny_game_server.Workers.{pick_event_loop, new_manager}
use tiny_game_server.Server.{handle_new_conn, new_server}
use tiny_game_server.Connection
use tiny_game_server.Bytes.{little, store, hton, htonll, load, ntohll}
use tiny_game_server.Buffer.{
  initial_size, read_fd, get_length, peek_tag_len, read_int8, read_bytes, read_int32, read_int64,
  adjust, append, append_buffer, append_int32, append_int64, append_int8, ensure_capacity, forward,
  get_data, grow, new_buffer, read_string, reallocate,
}
use tiny_game_server.Connection.Session.{step}
use tiny_game_server.Connection.{
  attempt, handle_close, handle_read, handle_write, write_event, run_task, send, send_in_loop,
}
use tiny_game_server.DataServer.{message, dispatch, login, failure_reply, other_tag, success_reply}
use tiny_game_server.Server.{close_callback}
use tiny_game_server.Watcher.{
  new_watcher, set_read_callback, set_write_callback, enable_read, disable_all, disable_write,
  enable_write,
}
use tiny_game_server.Watcher
use tiny_game_server.Tests.Serving.{zeros, users, seconds, login_a, login_a-IsLogin_of}
use tiny_game_server.Table.{find, assign, erase}

-- Two clients, at two seconds.
abbrev id_1 : ℕ
id_1 = 20210301000010001

abbrev id_2 : ℕ
id_2 = 20210301000011001

abbrev first_piece : List ℕ
first_piece = 22 ∷ 0 ∷ 0 ∷ 0 ∷ 0 ∷ 0 ∷ []

abbrev second_piece : List ℕ
second_piece = 0 ∷ 0 ∷ 0 ∷ 0 ∷ 7 ∷ 0 ∷ 0 ∷ 0 ∷ 1 ∷ b'a' ∷ 0 ∷ 0 ∷ 0 ∷ 1 ∷ b'b' ∷ []

-- The second client is accepted while the login of the first arrives, and sends its own between the
-- two pieces of that; the reply to the second has to wait for its socket.
abbrev events : List Event
events =
    accepts 10 []
    ∷ runs none
    ∷ arrives id_1 b'l' first_piece
    ∷ accepts 11 []
    ∷ runs none
    ∷ arrives id_2 b'l' first_piece
    ∷ arrives id_2 0 second_piece
    ∷ arrives id_1 0 second_piece
    ∷ runs none
    ∷ runs (some 9)
    ∷ opens_socket id_2 (some 4)
    ∷ []

abbrev talk_of_1 : Conversation
talk_of_1 =
    (
      login_a,
      Serve.starts
          ∷ Serve.arrives b'l' first_piece
          ∷ Serve.arrives 0 second_piece
          ∷ Serve.turns_loop (some 9)
          ∷ [],
    )
    ∷ []

abbrev talk_of_2 : Conversation
talk_of_2 =
    (
      login_a,
      Serve.starts
          ∷ Serve.arrives b'l' first_piece
          ∷ Serve.arrives 0 second_piece
          ∷ Serve.turns_loop none
          ∷ Serve.opens_socket (some 4)
          ∷ [],
    )
    ∷ []

abbrev talks : ℕ → Conversation
talks id = if id == id_1 then talk_of_1 else talk_of_2

ids_test : client_ids seconds 10 events ≡ id_1 ∷ (id_2 ∷ [])
unfolding generate_all generate tick serial_id first_serial
ids_test = refl

projected_1 : projected little zeros users seconds id_1 (begin 0 10) events ≡ inputs talk_of_1 ++ []
unfolding projected take_event live find Serve.take_input read_fd store_at Serve.on_message message
    get_length assign peek_tag_len load_at load dispatch read_int8 read_bytes login read_int32
    read_int64 adjust append append_buffer append_int32 append_int64 append_int8 ensure_capacity
    forward get_data grow new_buffer read_string reallocate hton htonll ntohll store step attempt
    handle_close handle_read handle_write write_event run_task send send_in_loop Serve.send_each
    failure_reply other_tag success_reply close_callback erase disable_all disable_write
    enable_write Watcher.start block handle_new_conn pick_event_loop generate tick serial_id
    first_serial new_server new_manager new_connection new_watcher set_read_callback
    set_write_callback Connection.start enable_read
projected_1 = refl

projected_2 : projected little zeros users seconds id_2 (begin 0 10) events ≡ inputs talk_of_2 ++ []
unfolding projected take_event live find Serve.take_input read_fd store_at Serve.on_message message
    get_length assign peek_tag_len load_at load dispatch read_int8 read_bytes login read_int32
    read_int64 adjust append append_buffer append_int32 append_int64 append_int8 ensure_capacity
    forward get_data grow new_buffer read_string reallocate hton htonll ntohll store step attempt
    handle_close handle_read handle_write write_event run_task send send_in_loop Serve.send_each
    failure_reply other_tag success_reply close_callback erase disable_all disable_write
    enable_write Watcher.start block handle_new_conn pick_event_loop generate tick serial_id
    first_serial new_server new_manager new_connection new_watcher set_read_callback
    set_write_callback Connection.start enable_read
projected_2 = refl

talk_of_1-AreLogins : AreLogins little zeros users initial_size talk_of_1
unfolding hton load store htonll
talk_of_1-AreLogins = (login_a-IsLogin_of initial_size (omega arith), refl, tt)

talk_of_2-AreLogins : AreLogins little zeros users initial_size talk_of_2
unfolding hton load store htonll
talk_of_2-AreLogins = (login_a-IsLogin_of initial_size (omega arith), refl, tt)

talks-AllTalk : AllTalk little zeros users seconds 0 10 talks events
talks-AllTalk id i = of_id id (subst (IsIn id) ids_test i)
  where
    of_id :
        (id : ℕ)
        → IsIn id (id_1 ∷ (id_2 ∷ []))
        → Talks little zeros users seconds initial_size id (begin 0 10) events (talks id)
          × (length (talks id) ≤ 390)
    of_id id (inl e) =
        subst
          (λ j.
            Talks little zeros users seconds initial_size j (begin 0 10) events (talks j)
            × (length (talks j) ≤ 390))
          (sym e)
          (
            record { after = []; part = projected_1; quiet = refl; logins = talk_of_1-AreLogins },
            omega arith,
          )
    of_id id (inr (inl e)) =
        subst
          (λ j.
            Talks little zeros users seconds initial_size j (begin 0 10) events (talks j)
            × (length (talks j) ≤ 390))
          (sym e)
          (
            record { after = []; part = projected_2; quiet = refl; logins = talk_of_2-AreLogins },
            omega arith,
          )
    of_id id (inr (inr e)) = absurd e

events-Paced : Paced seconds (times events) (first_serial 10)
unfolding first_serial tick
events-Paced =
    (inl refl, (omega arith, omega arith), (inr (omega arith), (omega arith, omega arith), tt))

server-Answered_example :
    (t : Shared) × (take_events little zeros users seconds (begin 0 10) events ≡ some t)
    × ((id : ℕ)
        → IsIn id (client_ids seconds 10 events)
        → Serves initial_size 0 []
            (answers little zeros users initial_size (talks id))
            (session id t))
server-Answered_example =
    server-Answered little zeros users seconds 0 10 talks events tt (omega arith) events-Paced
      talks-AllTalk
