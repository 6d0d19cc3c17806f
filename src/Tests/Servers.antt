-- ===== src/Tests/Servers.antt =====
-- A server with one connection, and the gate.
use tiny_game_server.Base.{
  ℕ, true, ◌++◌, ◌==◌, if◌then◌else◌, ◌+◌, ◌%◌, ◌≡◌, refl, [], ◌∷◌, none, some, false, arith, ◌⊎◌,
  ◌≤◌, ◌<◌,
}
use tiny_game_server.Buffer.{get_length}
use tiny_game_server.Bytes.{little}
use tiny_game_server.Connection.{Connection, connected, new_connection}
use tiny_game_server.Serial.{tick, serial_id, generate, first_serial}
use tiny_game_server.Table.{find, assign}
use tiny_game_server.Loop.{initial}
use tiny_game_server.Workers.{pick_event_loop}
use tiny_game_server.DataServer.{read_incomplete}
use tiny_game_server.Server.{Server, new_server, handle_new_conn, start_connection, get_connection}
use tiny_game_server.Watcher.{is_reading}
use tiny_game_server.Server.Accept.{start_connection-handle_new_conn}
use tiny_game_server.Server.Keys.{NoLow, get_connection-null}
use tiny_game_server.GateServer.{message}
use tiny_game_server.GateServer.Login.{LongIds, accepts, Reach, here, next, message-Reach}

abbrev zeros : ℕ → ℕ → ℕ
zeros n i = 0

abbrev seconds : ℕ → ℕ
seconds t = 20210301000000 + t % 60

abbrev first_id : ℕ
first_id = 20210301000010001

abbrev client : Connection
unfolding new_connection
client = new_connection zeros [] first_id

-- The gate after one client came, at second 10.
abbrev gate : Server
gate = record {
  manager = record { loop = 0; threads = []; status = initial };
  counter = 0;
  serial = record { current_time = 10; serial = 1 };
  connections = (first_id, some client) ∷ [];
  posted = (0, first_id) ∷ [];
}

gate-NoLow : NoLow gate.connections
unfolding find
gate-NoLow k c e = ground arith

get_connection-null_test :
    ((get_connection first_id gate).0 ≡ none) × NoLow (get_connection first_id gate).1.connections
get_connection-null_test = get_connection-null first_id gate gate-NoLow

gate-Reach : Reach little zeros seconds 0 10 gate
unfolding new_server handle_new_conn generate tick serial_id first_serial assign pick_event_loop
    new_connection
gate-Reach = next here (accepts 10 [] refl)

long_ids : LongIds little zeros seconds
unfolding generate tick serial_id
long_ids now s = ground arith

client_found : find first_id gate.connections ≡ some (some client)
unfolding find
client_found = refl

message-Reach_example :
    (client.authorized ≡ false)
    × (((5 ≤ get_length client.recv_buffer) × (message little zeros client ≡ none))
        ⊎ ((get_length client.recv_buffer < 5)
            × (message little zeros client ≡ some (read_incomplete, client, []))))
message-Reach_example =
    message-Reach little zeros seconds first_id client long_ids gate-Reach client_found

gate_picks : pick_event_loop gate.manager gate.counter ≡ some (0, 0)
unfolding pick_event_loop
gate_picks = refl

start_connection-handle_new_conn_test :
    let id : ℕ = (generate seconds 11 gate.serial).0 in
    (u v : Server) × (c : Connection) × (handle_new_conn seconds zeros 11 [] gate ≡ some u)
    × (u.posted ≡ gate.posted ++ ((0, id) ∷ []))
    × (start_connection none id u ≡ some v)
    × (find first_id v.connections
        ≡ (if id == first_id then some (some c) else find first_id gate.connections))
    × (is_reading c.watcher ≡ true)
    × (c.serial_id ≡ id)
    × (c.status ≡ connected)
start_connection-handle_new_conn_test =
    start_connection-handle_new_conn seconds zeros 11 [] gate 0 0 first_id gate_picks
